-- ===== src/Engine/Semaphore.antt =====
-- The counting semaphore of `WithMaxConcurrent` (engine/maxconcurrent.go): a buffered channel.
use chaotic.Base.{ℕ, ◌+◌, ◌-◌, if◌then◌else◌, ltb, ltb_ℤ, ℤ, pos, pos_part, Option, none, some}

pub record Semaphore : Type 0 where
  pub capacity : ℕ
  pub held : ℕ

-- `newSemaphore`; `none` is its panic.
unfoldable pub new_semaphore : ℤ → Option Semaphore
new_semaphore n =
    if ltb_ℤ n (pos 1) then none else some (record { capacity = pos_part n; held = 0 })

-- `tryAcquire`: a send that does not wait.
unfoldable pub try_acquire : Semaphore → Option Semaphore
try_acquire s = if ltb s.held s.capacity then some (record s { held = s.held + 1 }) else none

-- The release function: a receive. On an empty channel the receive would wait; here 0 stays.
unfoldable pub release : Semaphore → Semaphore
release s = record s { held = s.held - 1 }
