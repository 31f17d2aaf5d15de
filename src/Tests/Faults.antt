-- ===== src/Tests/Faults.antt =====
-- Faults applied to a context.
use chaotic.Base.{◌≤◌, pos}
use chaotic.Fault.{Fault, apply}
use chaotic.Fault.Laws.{slept-le-longest}
use chaotic.Tests.{quiet, still}

slept-le-longest_example : (apply quiet (Fault.jittered (pos 3) (pos 9)) still).slept ≤ 9
slept-le-longest_example =
    slept-le-longest quiet (Fault.jittered (pos 3) (pos 9)) still (λ n h. h) (λ p k n h. h)
