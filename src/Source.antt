-- ===== src/Source.antt =====
-- Rule sources (source/): where the rules of a running engine come from.
pub mod Http
pub mod File
pub mod Env
