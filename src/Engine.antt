-- ===== src/Engine.antt =====
-- The engine: rules, their counters and safety rails, and the decision that an adapter consults.
pub mod Op
pub mod Counter
pub mod Staged
pub mod Sticky
pub mod Bucket
pub mod Budget
pub mod Semaphore
pub mod Rule
pub mod World
pub mod New
pub mod Eval
pub mod Action
pub mod Spec
pub mod Lint
