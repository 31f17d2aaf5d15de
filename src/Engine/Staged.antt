-- ===== src/Engine/Staged.antt =====
-- Staged rules (engine/staged.go): different faults as the number of matches grows.
pub mod Schedule
use chaotic.Base.{
  ℕ, suc, ◌+◌, ◌-◌, ◌%◌, Bool, true, false, ◌&&◌, if◌then◌else◌, leb_ℤ, ltb_ℤ, ℤ, pos, negsuc,
  int64, inc64, full_word, List, [], ◌∷◌, Option, none, some,
}
use chaotic.Fault.{Fault}

pub record Stage : Type 0 where
  pub times : ℤ
  pub faults : List Fault

pub record StagedCounter : Type 0 where
  pub stages : List Stage
  pub cum : List ℤ
  pub open_ended : Bool
  pub cur : ℕ

pub data StageErr : Type 0 where
  no_stages : StageErr
  inner_times : ℕ → ℤ → StageErr
  final_times : ℤ → StageErr

abbrev pub is_nil {ℓ} : {A : Type ℓ} → List A → Bool
is_nil [] = true
is_nil (_ ∷ _) = false

abbrev pub is_zero : ℤ → Bool
is_zero t = leb_ℤ t (pos 0) && leb_ℤ (pos 0) t

-- The loop of `validateStages` from index `i` on.
unfoldable pub validate_from : ℕ → List Stage → Option StageErr
validate_from i [] = none
validate_from i (s ∷ rest) =
    let more = validate_from (suc i) rest in
    if is_nil rest
    then (if ltb_ℤ s.times (pos 0) then some (final_times s.times) else more)
    else (if leb_ℤ s.times (pos 0) then some (inner_times i s.times) else more)

unfoldable pub validate_stages : List Stage → Option StageErr
unfolding validate_from
validate_stages [] = some no_stages
validate_stages (s ∷ rest) = validate_from 0 (s ∷ rest)

-- The final stage has Times == 0.
unfoldable pub is_open : List Stage → Bool
is_open [] = false
is_open (s ∷ []) = is_zero s.times
is_open (s ∷ (r ∷ rest)) = is_open (r ∷ rest)

-- The bit pattern of an int64.
abbrev pub word : ℤ → ℕ
word (pos n) = n
word (negsuc n) = full_word - suc n

-- The cumulative ends, from a running total (a bit pattern).
unfoldable pub ends : Bool → ℕ → List Stage → List ℤ
ends open_ended total [] = []
ends open_ended total (s ∷ rest) =
    let total' = (total + word s.times) % full_word in
    let more = ends open_ended total' rest in
    let same = ends open_ended total rest in
    if is_nil rest && open_ended then int64 total ∷ same else int64 total' ∷ more

unfoldable pub new_staged_counter : List Stage → StagedCounter
unfolding is_open ends
new_staged_counter stages = record {
  stages = stages;
  cum = ends (is_open stages) 0 stages;
  open_ended = is_open stages;
  cur = 0;
}

-- The loop of `fire` over the ends, with the stages that they belong to; `none` is "does not fire".
unfoldable pub active : Bool → ℤ → List Stage → List ℤ → Option (List Fault)
active open_ended n [] es = none
active open_ended n (s ∷ rest) [] = none
active open_ended n (s ∷ rest) (e ∷ es) =
    let more = active open_ended n rest es in
    if is_nil es && open_ended then some s.faults else if leb_ℤ n e then some s.faults else more

unfoldable pub fire : StagedCounter → StagedCounter × Option (List Fault)
unfolding active
fire c =
    let cur' = inc64 c.cur in
    (record c { cur = cur' }, active c.open_ended (int64 cur') c.stages c.cum)
