-- ===== src/Engine/Lint/Terminal.antt =====
-- The two linters agree on what a terminal fault is.
use chaotic.Base.{◌≡◌, true, false, is_some, Text, bytes, text_eq, text_eq_iff, arith, ℤ, pos}
use chaotic.Fault.{Fault, kind_of, StreamMode}
use chaotic.Engine.Spec.{FaultSpec, Library, ok}
use chaotic.Engine.Spec.Faults.{
  build_fault, build_latency_fault, build_jittered_fault, build_rate_fault, build_truncate,
}
use chaotic.Engine.Lint.{is_terminal_fault_type, terminal_kind_name}

latency_terminal :
    (std : Library) (fs : FaultSpec) (f : Fault)
    → build_latency_fault std fs ≡ ok f
    → is_some (terminal_kind_name (kind_of f)) ≡ false
unfolding build_latency_fault terminal_kind_name kind_of
latency_terminal std fs f h = ground arith

jittered_terminal :
    (std : Library) (fs : FaultSpec) (f : Fault)
    → build_jittered_fault std fs ≡ ok f
    → is_some (terminal_kind_name (kind_of f)) ≡ false
unfolding build_jittered_fault terminal_kind_name kind_of
jittered_terminal std fs f h = ground arith

rate_terminal :
    (name : Text) (rate : ℤ) (m : StreamMode) (f : Fault)
    → build_rate_fault name rate (λ r. Fault.stream m r (pos 0)) ≡ ok f
    → is_some (terminal_kind_name (kind_of f)) ≡ false
unfolding build_rate_fault terminal_kind_name kind_of
rate_terminal name rate m f h = ground arith

truncate_terminal :
    (limit : ℤ) (f : Fault)
    → build_truncate limit ≡ ok f
    → is_some (terminal_kind_name (kind_of f)) ≡ false
unfolding build_truncate terminal_kind_name kind_of
truncate_terminal limit f h = ground arith

-- The name of a type that is not terminal.
not_terminal :
    (t l : Text)
    → text_eq t l ≡ true
    → is_terminal_fault_type l ≡ false
    → is_terminal_fault_type t ≡ false
not_terminal t l h k = rw ((text_eq_iff t l).0 h) k

-- For a fault that is built from a spec, the linter of specs, which reads the spec's type, and the
-- linter of rules, which reads the fault's kind, agree on whether it is terminal.
pub is_terminal_fault_type-build_fault :
    (std : Library) (fs : FaultSpec) (f : Fault)
    → build_fault std fs ≡ ok f
    → is_terminal_fault_type fs.type ≡ is_some (terminal_kind_name (kind_of f))
unfolding build_fault is_terminal_fault_type terminal_kind_name kind_of text_eq
is_terminal_fault_type-build_fault std fs f h = ground (
  arith,
  not_terminal fs.type (bytes "latency"),
  not_terminal fs.type (bytes "jittered"),
  not_terminal fs.type (bytes "slow_reader"),
  not_terminal fs.type (bytes "slow_writer"),
  not_terminal fs.type (bytes "truncate"),
  not_terminal fs.type (bytes "error"),
  latency_terminal std fs f,
  jittered_terminal std fs f,
  rate_terminal (bytes "slow_reader") fs.rate StreamMode.slow_read f,
  rate_terminal (bytes "slow_writer") fs.rate StreamMode.slow_write f,
  truncate_terminal fs.limit f,
)
