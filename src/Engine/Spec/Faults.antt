-- ===== src/Engine/Spec/Faults.antt =====
-- Faults from their specs (engine/spec.go: `buildFault`, `buildFaultList` and their parts).
pub mod Bounds
use chaotic.Base.{
  ℕ, Bool, true, false, ◌||◌, if◌then◌else◌, ltb_ℤ, ℤ, pos, List, [], ◌∷◌, Option, none, some, Text,
  bytes, text_eq,
}
use chaotic.Fault
use chaotic.Fault.{Fault, Any, StreamMode, slow_read, slow_write, truncation, plain_err}
use chaotic.Engine.Spec.{FaultSpec, Library, SpecErr, Checked, ok, bad}
use chaotic.Engine.Spec

-- Five minutes, in nanoseconds.
abbrev pub max_fault_latency : ℤ
max_fault_latency = pos 300000000000

abbrev pub is_empty : Text → Bool
is_empty [] = true
is_empty (_ ∷ _) = false

unfoldable pub build_latency_fault : Library → FaultSpec → Checked Fault
build_latency_fault std fs = elim (std.parse_duration fs.duration) [
  | none ↦ bad (SpecErr.latency_duration fs.duration)
  | some d ↦
      if ltb_ℤ d (pos 0) || ltb_ℤ max_fault_latency d
      then bad (SpecErr.latency_range d)
      else ok (Fault.latency d)
]

unfoldable pub build_jittered_fault : Library → FaultSpec → Checked Fault
build_jittered_fault std fs = elim (std.parse_duration fs.min) [
  | none ↦ bad (SpecErr.jittered_min fs.min)
  | some lo ↦ elim (std.parse_duration fs.max) [
    | none ↦ bad (SpecErr.jittered_max fs.max)
    | some hi ↦
        if ltb_ℤ lo (pos 0) || ltb_ℤ max_fault_latency hi
        then bad (SpecErr.jittered_window lo hi)
        else ok (Fault.jittered lo hi)
  ]
]

unfoldable pub build_rate_fault : Text → ℤ → (ℤ → Fault) → Checked Fault
build_rate_fault name rate make =
    if ltb_ℤ rate (pos 0) then bad (SpecErr.negative_rate name rate) else ok (make rate)

unfoldable pub build_truncate : ℤ → Checked Fault
build_truncate limit =
    if ltb_ℤ limit (pos 0)
    then bad (SpecErr.truncate_limit limit)
    else ok (Fault.stream truncation (pos 0) limit)

-- The message of an error fault; an empty one has a default.
abbrev error_text : Text → Text
error_text [] = bytes "chaotic: injected error"
error_text (c ∷ s) = c ∷ s

unfoldable pub build_fault : Library → FaultSpec → Checked Fault
unfolding build_latency_fault build_jittered_fault build_rate_fault build_truncate
build_fault std fs =
    if text_eq fs.type (bytes "latency")
    then build_latency_fault std fs
    else if text_eq fs.type (bytes "jittered")
    then build_jittered_fault std fs
    else if text_eq fs.type (bytes "error")
    then ok (Fault.error (some (plain_err (error_text fs.message))))
    else if text_eq fs.type (bytes "panic")
    then ok (Fault.panic (Any.text fs.value))
    else if text_eq fs.type (bytes "conn_drop")
    then ok Fault.conn_drop
    else if text_eq fs.type (bytes "disconnect")
    then ok Fault.disconnect
    else if text_eq fs.type (bytes "slow_reader")
    then build_rate_fault (bytes "slow_reader") fs.rate (λ r. Fault.stream slow_read r (pos 0))
    else if text_eq fs.type (bytes "slow_writer")
    then build_rate_fault (bytes "slow_writer") fs.rate (λ r. Fault.stream slow_write r (pos 0))
    else if text_eq fs.type (bytes "truncate")
    then build_truncate fs.limit
    else bad (SpecErr.unknown_fault fs.type)

-- The faults that can be built, and the errors of the others, each in order.
unfoldable pub build_fault_list : Library → List FaultSpec → List Fault × List SpecErr
build_fault_list std [] = ([], [])
build_fault_list std (fs ∷ rest) =
    let (faults, errs) = build_fault_list std rest in
    elim (build_fault std fs) [ ok f ↦ (f ∷ faults, errs) | bad e ↦ (faults, e ∷ errs) ]
