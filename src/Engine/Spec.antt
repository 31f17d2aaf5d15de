-- ===== src/Engine/Spec.antt =====
-- Declarative rules and their construction (engine/spec.go).
pub mod Faults
pub mod Build
use chaotic.Base.{ℕ, ℤ, Bool, List, Text, Map, Float, Option}

pub record CounterSpec : Type 0 where
  pub type : Text
  pub n : ℤ
  pub from : ℤ
  pub to : ℤ
  pub p : Float
  pub seed : ℤ

pub record FaultSpec : Type 0 where
  pub type : Text
  pub duration : Text
  pub min : Text
  pub max : Text
  pub message : Text
  pub value : Text
  pub rate : ℤ
  pub limit : ℤ

pub record StageSpec : Type 0 where
  pub times : ℤ
  pub faults : List FaultSpec

pub record RuleSpec : Type 0 where
  pub name : Text
  pub kinds : List Text
  pub name_glob : Text
  pub attrs : Map Text
  pub counter : CounterSpec
  pub faults : List FaultSpec
  pub stages : List StageSpec

-- The standard library that the construction calls: `time.ParseDuration` (nanoseconds; `none` is
-- its error), `path.Match` (`none` is its error), and the generator that a seed gives.
pub record Library : Type 0 where
  pub parse_duration : Text → Option ℤ
  pub path_match : Text → Text → Option Bool
  pub pcg : ℤ → ℕ → ℕ

-- The errors of the construction, each with the values that its message shows.
pub data SpecErr : Type 0 where
  unknown_kind : Text → SpecErr
  probability_range : Float → SpecErr
  unknown_counter : Text → SpecErr
  latency_duration : Text → SpecErr
  latency_range : ℤ → SpecErr
  jittered_min : Text → SpecErr
  jittered_max : Text → SpecErr
  jittered_window : ℤ → ℤ → SpecErr
  negative_rate : Text → ℤ → SpecErr
  truncate_limit : ℤ → SpecErr
  unknown_fault : Text → SpecErr
  stages_with_counter stages_with_faults : SpecErr
  inner_stage : ℕ → SpecErr
  final_stage : SpecErr

-- A value, or one error.
pub data Checked {ℓ} (A : Type ℓ) : Type ℓ where
  ok : A → Checked A
  bad : SpecErr → Checked A
