-- ===== src/Engine/Staged/Schedule.antt =====
-- Which stage the k-th match of a staged rule is in.
use chaotic.Base.{
  ℕ, zero, suc, ◌+◌, ◌-◌, ◌≤◌, ◌<◌, ◌≡◌, refl, Bool, false, if◌then◌else◌, ltb, leb_ℤ, ℤ, pos,
  pos_part, ◌==◌, half_word, int64, inc64, ◌%◌, ap, ◌∙◌, full_word, Bool-cases, inl, inr, List, [],
  ◌∷◌, Option, none, some, arith,
}
use chaotic.Fault.{Fault}
use chaotic.Engine.Staged.{
  Stage, StagedCounter, StageErr, is_nil, word, validate_stages, validate_from, is_open, ends,
  new_staged_counter, active, fire,
}

-- The faults of the match with index `k` (from 0): each stage takes its `times` matches in turn,
-- and a final stage of 0 takes all that follow.
abbrev pub stage_at : List Stage → ℕ → Option (List Fault)
stage_at [] k = none
stage_at (s ∷ []) k =
    if pos_part s.times == 0
    then some s.faults
    else if ltb k (pos_part s.times)
    then some s.faults
    else none
stage_at (s ∷ (r ∷ rest)) k =
    let later = stage_at (r ∷ rest) (k - pos_part s.times) in
    if ltb k (pos_part s.times) then some s.faults else later

abbrev pub total_times : List Stage → ℕ
total_times [] = 0
total_times (s ∷ rest) = pos_part s.times + total_times rest

validate_inner :
    (i : ℕ) (s r : Stage) (rest : List Stage)
    → validate_from i (s ∷ (r ∷ rest)) ≡ (
        if leb_ℤ s.times (pos 0)
        then some (StageErr.inner_times i s.times)
        else validate_from (suc i) (r ∷ rest))
unfolding validate_from
validate_inner i s r rest = refl

inner_positive :
    (i : ℕ) (s r : Stage) (rest : List Stage)
    → validate_from i (s ∷ (r ∷ rest)) ≡ none
    → (s.times ≡ pos (pos_part s.times))
      × (0 < pos_part s.times)
      × (validate_from (suc i) (r ∷ rest) ≡ none)
inner_positive i s r rest v = ground (arith, validate_inner i s r rest)

final_natural :
    (i : ℕ) (s : Stage) → validate_from i (s ∷ []) ≡ none → s.times ≡ pos (pos_part s.times)
unfolding validate_from
final_natural i s v = ground arith

ends-is_nil :
    (o : Bool) (base : ℕ) (r : Stage) (rest : List Stage) → is_nil (ends o base (r ∷ rest)) ≡ false
unfolding ends
ends-is_nil o base r rest = ground arith

ends_inner :
    (o : Bool) (base t : ℕ) (s r : Stage) (rest : List Stage)
    → s.times ≡ pos t
    → base + t < half_word
    → ends o base (s ∷ (r ∷ rest)) ≡ pos (base + t) ∷ ends o (base + t) (r ∷ rest)
ends_inner o base t s r rest e h = rw (unfolded, e, wrapped) (rw small)
  where
    wrapped : (base + t) % full_word ≡ base + t
    wrapped = omega arith

    small : int64 (base + t) ≡ pos (base + t)
    small = ground arith

    unfolded :
        ends o base (s ∷ (r ∷ rest))
        ≡ int64 ((base + word s.times) % full_word)
          ∷ ends o ((base + word s.times) % full_word) (r ∷ rest)
    unfolded = unfold ends in refl

active_inner :
    (o : Bool) (n e : ℤ) (s : Stage) (rest : List Stage) (es : List ℤ)
    → is_nil es ≡ false
    → active o n (s ∷ rest) (e ∷ es) ≡ (if leb_ℤ n e then some s.faults else active o n rest es)
unfolding active
active_inner o n e s rest es h = rw h

-- An inner stage ends at a finite number of matches, and what follows is the schedule of the rest.
active-inner :
    (o : Bool) (n : ℤ) (base t : ℕ) (s r : Stage) (rest : List Stage)
    → s.times ≡ pos t
    → base + t < half_word
    → active o n (s ∷ (r ∷ rest)) (ends o base (s ∷ (r ∷ rest))) ≡ (
        if leb_ℤ n (pos (base + t))
        then some s.faults
        else active o n (r ∷ rest) (ends o (base + t) (r ∷ rest)))
active-inner o n base t s r rest e h =
    ap (active o n (s ∷ (r ∷ rest))) (ends_inner o base t s r rest e h)
    ∙ active_inner o n (pos (base + t)) s (r ∷ rest) (ends o (base + t) (r ∷ rest))
        (ends-is_nil o (base + t) r rest)

active-final :
    (base k t : ℕ) (s : Stage)
    → s.times ≡ pos t
    → base + t < half_word
    → base ≤ k
    → active (is_open (s ∷ [])) (pos (k + 1)) (s ∷ []) (ends (is_open (s ∷ [])) base (s ∷ []))
      ≡ stage_at (s ∷ []) (k - base)
unfolding active ends is_open
active-final base k t s e h b = rw e (ground arith)

is_open_inner : (s r : Stage) (rest : List Stage) → is_open (s ∷ (r ∷ rest)) ≡ is_open (r ∷ rest)
unfolding is_open
is_open_inner s r rest = refl

active-stage_at :
    (i base k : ℕ) (ss : List Stage)
    → validate_from i ss ≡ none
    → base + total_times ss < half_word
    → base ≤ k
    → active (is_open ss) (pos (k + 1)) ss (ends (is_open ss) base ss) ≡ stage_at ss (k - base)
active-stage_at i base k [] v t h = unfold active in refl
active-stage_at i base k (s ∷ []) v t h =
    active-final base k (pos_part s.times) s (final_natural i s v) (omega arith) h
active-stage_at i base k (s ∷ (r ∷ rest)) v t h =
    let (e, p, v') = inner_positive i s r rest v in
    let n = pos_part s.times in
    let inner = active-inner (is_open (r ∷ rest)) (pos (k + 1)) base n s r rest e (omega arith) in
    rw (is_open_inner s r rest) (
      inner ∙ elim (Bool-cases (ltb k (base + n))) [
        | inl now ↦ ground arith
        | inr later ↦
            let same : k - (base + n) ≡ k - base - n = ground arith in
            ground (
              arith,
              active-stage_at (suc i) (base + n) k (r ∷ rest) v' (omega arith) (ground arith),
              ap (stage_at (r ∷ rest)) same,
            )
      ])

-- The counter after `k` matches.
pub advance : ℕ → StagedCounter → StagedCounter
advance zero c = c
advance (suc k) c = (fire (advance k c)).0

advance_lem :
    (k : ℕ) (c : StagedCounter) → c.cur ≡ 0 → k < half_word → advance k c ≡ record c { cur = k }
unfolding advance fire
advance_lem zero c e h = cc
advance_lem (suc k) c e h = rw (advance_lem k c e (omega arith), advance) (ground arith)

-- For stages that `validateStages` accepts, with fewer than 2^63 matches in all, the match with
-- index k (before the 64-bit counter overflows) injects the faults of the stage that covers it:
-- the stages take `Times` matches each, in order; a final stage of 0 covers all later matches; past
-- a finite final stage the rule does not fire.
pub fire-stage_at :
    (stages : List Stage) (k : ℕ)
    → validate_stages stages ≡ none
    → total_times stages < half_word
    → k + 1 < half_word
    → (fire (advance k (new_staged_counter stages))).1 ≡ stage_at stages k
unfolding validate_stages
fire-stage_at [] k v t h = cc
fire-stage_at (s ∷ rest) k v t h =
    rw
      (advance_lem k (new_staged_counter (s ∷ rest)) (unfold new_staged_counter in refl)
        (omega arith))
      (fired (s ∷ rest) k (omega arith)
        ∙ active-stage_at 0 0 k (s ∷ rest) v (omega arith) (omega arith)
        ∙ ap (stage_at (s ∷ rest)) (omega arith))
  where
    fired :
        (ss : List Stage) (k : ℕ)
        → k + 1 < half_word
        → (fire (record (new_staged_counter ss) { cur = k })).1
          ≡ active (is_open ss) (pos (k + 1)) ss (ends (is_open ss) 0 ss)
    fired ss k h =
        let e : int64 (inc64 k) ≡ pos (k + 1) = ground arith in
        unfold fire new_staged_counter in (rw e)
