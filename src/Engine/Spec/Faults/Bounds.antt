-- ===== src/Engine/Spec/Faults/Bounds.antt =====
-- How long the faults of a config may sleep (engine/spec.go: `maxFaultLatency`).
use chaotic.Base.{ℕ, ◌≤◌, ◌<◌, ◌≡◌, ◌≤ℤ◌, pos_part, arith}
use chaotic.Fault.{Fault, Context, Cells, apply}
use chaotic.Fault.Laws.{longest, slept-le-longest}
use chaotic.Engine.Spec.{FaultSpec, Library, ok}
use chaotic.Engine.Spec.Faults.{
  build_fault, build_latency_fault, build_jittered_fault, max_fault_latency,
}

-- The window of a jittered fault is not empty.
abbrev pub IsOrdered : Fault → Type 0
IsOrdered (Fault.jittered lo hi) = lo ≤ℤ hi
IsOrdered _ = Unit {0}

latency_bound :
    (c : Context) (std : Library) (fs : FaultSpec) (f : Fault)
    → build_latency_fault std fs ≡ ok f
    → IsOrdered f
    → longest c f ≤ pos_part max_fault_latency
unfolding build_latency_fault
latency_bound c std fs f h o = ground arith

jittered_bound :
    (c : Context) (std : Library) (fs : FaultSpec) (f : Fault)
    → build_jittered_fault std fs ≡ ok f
    → IsOrdered f
    → longest c f ≤ pos_part max_fault_latency
unfolding build_jittered_fault
jittered_bound c std fs f h o = ground arith

longest-build_fault :
    (c : Context) (std : Library) (fs : FaultSpec) (f : Fault)
    → build_fault std fs ≡ ok f
    → IsOrdered f
    → longest c f ≤ pos_part max_fault_latency
longest-build_fault c std fs f h o =
    unfold build_fault in ground (arith, latency_bound c std fs f, jittered_bound c std fs f)

-- `Apply` of a fault that a config gives sleeps at most five minutes, if it is not jittered with an
-- empty window, whatever the context and the cells are and whatever the generators draw below the
-- bounds that they are given. This is not about the streams that slow faults slow later.
pub slept-build_fault :
    (std : Library) (fs : FaultSpec) (f : Fault) (c : Context) (s : Cells)
    → build_fault std fs ≡ ok f
    → IsOrdered f
    → ((n : ℕ) → 0 < n → c.int64_n n < n)
    → ((p k n : ℕ) → 0 < n → (s.rngs p).answers k n < n)
    → (apply c f s).slept ≤ pos_part max_fault_latency
slept-build_fault std fs f c s h o g r =
    omega (arith, slept-le-longest c f s g r, longest-build_fault c std fs f h o)
