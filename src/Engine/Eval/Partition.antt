-- ===== src/Engine/Eval/Partition.antt =====
-- `partitionFaults` against its description.
use chaotic.Base.{
  Bool, false, not, List, [], ◌∷◌, ◌++◌, any, filter, ◌≡◌, refl, arith, Bool-cases, inl, inr, ◌∙◌,
}
use mathlib.Core.List.{append-nil, append_assoc}
use chaotic.Fault.{Fault}
use chaotic.Engine.Eval.{is_mutator, split_faults, partition_faults}

abbrev pub is_before : Fault → Bool
is_before f = not (is_mutator f)

split_faults_lem :
    (before mutators fs : List Fault)
    → split_faults before mutators fs
      ≡ (before ++ filter is_before fs, mutators ++ filter is_mutator fs)
unfolding split_faults
split_faults_lem before mutators [] = simp append-nil
split_faults_lem before mutators (f ∷ fs) = elim (Bool-cases (is_mutator f)) [
  | inl m ↦ rw m (split_faults_lem before (mutators ++ f ∷ []) fs ∙ simp append_assoc)
  | inr b ↦ rw b (split_faults_lem (before ++ f ∷ []) mutators fs ∙ simp append_assoc)
]

none_mutates :
    (fs : List Fault)
    → any is_mutator fs ≡ false
    → (filter is_before fs ≡ fs) × (filter is_mutator fs ≡ [])
none_mutates [] h = (refl, refl)
none_mutates (f ∷ fs) h = ground (arith, none_mutates fs)

-- The faults of a fired rule that run before the call are its faults without a result mutator, and
-- its mutators are those with one, each in the order of the rule, whether any mutates or not.
pub partition_faults_lem :
    (fs : List Fault) → partition_faults fs ≡ (filter is_before fs, filter is_mutator fs)
unfolding partition_faults
partition_faults_lem fs = elim (Bool-cases (any is_mutator fs)) [
  | inl m ↦ rw m (split_faults_lem [] [] fs)
  | inr b ↦ rw b (ground (arith, none_mutates fs b))
]
