-- ===== src/Engine/Budget/Decision.antt =====
-- When a failure budget is spent, in terms of the calls that it has seen.
use chaotic.Base.{
  ℕ, zero, suc, ◌+◌, ◌-◌, ◌*◌, ◌≤◌, ◌<◌, ◌≡◌, ◌↔◌, refl, ap, sym, ◌∙◌, Bool, true, false, ◌==◌, leb,
  ℤ, pos_part, List, [], ◌∷◌, ◌++◌, length, drop, take, replicate, some, arith, length-append,
  count-append, Bool-cases, inl, inr,
}
use native.Mathlib.Nat.{add-zero}
use mathlib.Core.List.{append-nil, append_assoc}
use chaotic.Engine.Budget.{Budget, new_failure_budget, record_outcome, over_budget}
use chaotic.Engine.Budget.Ring.{
  IsValid, errors_in, slide, window_of, window_of-record_outcome, record_outcome-IsValid,
  length-set,
}

pub record_all : List Bool → Budget → Budget
record_all [] b = b
record_all (e ∷ es) b = record_all es (record_outcome e b)

record_all-IsValid : (es : List Bool) (b : Budget) → IsValid b → IsValid (record_all es b)
unfolding record_all
record_all-IsValid [] b v = v
record_all-IsValid (e ∷ es) b v =
    record_all-IsValid es (record_outcome e b) (record_outcome-IsValid e b v)

drop-slide :
    (w : List Bool) (e : Bool) (es : List Bool)
    → 0 < length w
    → drop (length (e ∷ es)) (w ++ e ∷ es) ≡ drop (length es) (slide e w ++ es)
drop-slide [] e es h = elim h [ ]
drop-slide (x ∷ w) e es h = ap (drop (length es)) (sym (append_assoc w (e ∷ []) es))

length-slide : (w : List Bool) (e : Bool) → 0 < length w → length (slide e w) ≡ length w
length-slide [] e h = elim h [ ]
length-slide (x ∷ w) e h = omega (arith, length-append w (e ∷ []))

-- The window is the last of all outcomes, as many as the ring holds.
window_of-record_all :
    (es : List Bool) (b : Budget)
    → IsValid b
    → 0 < length (window_of b)
    → window_of (record_all es b) ≡ drop (length es) (window_of b ++ es)
unfolding record_all
window_of-record_all [] b v h = sym (append-nil (window_of b))
window_of-record_all (e ∷ es) b v h =
    let step = window_of-record_outcome e b v in
    window_of-record_all es (record_outcome e b) (record_outcome-IsValid e b v)
      (rw (step, length-slide (window_of b) e h) h)
    ∙ rw step (sym (drop-slide (window_of b) e es h))

record_outcome-fixed :
    (e : Bool) (b : Budget)
    → (length (record_outcome e b).ring ≡ length b.ring)
      × ((record_outcome e b).rate_num ≡ b.rate_num)
      × ((record_outcome e b).rate_den ≡ b.rate_den)
unfolding record_outcome
record_outcome-fixed e b = ground (arith, length-set b.ring b.idx e)

record_all-fixed :
    (es : List Bool) (b : Budget)
    → (length (record_all es b).ring ≡ length b.ring)
      × ((record_all es b).rate_num ≡ b.rate_num)
      × ((record_all es b).rate_den ≡ b.rate_den)
unfolding record_all
record_all-fixed [] b = (refl, refl, refl)
record_all-fixed (e ∷ es) b =
    ground (arith, record_outcome-fixed e b, record_all-fixed es (record_outcome e b))

stays_filled : (es : List Bool) (b : Budget) → b.filled ≡ true → (record_all es b).filled ≡ true
unfolding record_all
stays_filled [] b h = h
stays_filled (e ∷ es) b h =
    stays_filled es (record_outcome e b) (unfold record_outcome in ground arith)

filled-record_all :
    (es : List Bool) (b : Budget)
    → b.filled ≡ false
    → b.idx < length b.ring
    → (record_all es b).filled ≡ leb (length b.ring) (b.idx + length es)
unfolding record_all
filled-record_all [] b h i = rw (h, add-zero) (ground arith)
filled-record_all (e ∷ es) b h i = elim (Bool-cases (b.idx + 1 == length b.ring)) [
  | inl full ↦
      let now : (record_outcome e b).filled ≡ true =
        unfold record_outcome in ground (arith, length-set b.ring b.idx e) in
      rw (stays_filled es (record_outcome e b) now) (ground arith)
  | inr room ↦
      let (still, at, same) = next room in
      ground (
        arith,
        still,
        at,
        same,
        filled-record_all es (record_outcome e b) still (ground (arith, at, same)),
      )
]
  where
    next :
        (b.idx + 1 == length b.ring) ≡ false
        → ((record_outcome e b).filled ≡ false)
          × ((record_outcome e b).idx ≡ b.idx + 1)
          × (length (record_outcome e b).ring ≡ length b.ring)
    next room = unfold record_outcome in ground (arith, length-set b.ring b.idx e)

fresh_lem :
    (num : ℤ) (den : ℕ) (window : ℤ) (b : Budget)
    → new_failure_budget num den window ≡ some b
    → b ≡ record {
      rate_num = pos_part num;
      rate_den = den;
      ring = replicate (pos_part window) false;
      idx = 0;
      filled = false;
      errors = 0;
    }
      × (0 < pos_part window)
unfolding new_failure_budget
fresh_lem num den window b h = ground arith

length-replicate : (n : ℕ) (x : Bool) → length (replicate n x) ≡ n
length-replicate zero x = refl
length-replicate (suc n) x = ap suc (length-replicate n x)

drop-replicate :
    (w n : ℕ) (es : List Bool) → w ≤ n → drop n (replicate w false ++ es) ≡ drop (n - w) es
drop-replicate zero n es h = ap (λ k. drop k es) (omega arith)
drop-replicate (suc w) zero es h = elim h [ ]
drop-replicate (suc w) (suc n) es h =
    drop-replicate w n es (omega arith) ∙ ap (λ k. drop k es) (omega arith)

errors_in-rotate : (i : ℕ) (xs : List Bool) → errors_in (drop i xs ++ take i xs) ≡ errors_in xs
errors_in-rotate i xs = omega (
  arith,
  count-append (λ x. x) (drop i xs) (take i xs),
  count-append (λ x. x) (take i xs) (drop i xs),
  ap errors_in (take-append-drop i xs),
)
  where
    take-append-drop : (n : ℕ) (ys : List Bool) → take n ys ++ drop n ys ≡ ys
    take-append-drop zero ys = refl
    take-append-drop (suc n) [] = refl
    take-append-drop (suc n) (y ∷ ys) = ap (◌∷◌ y) (take-append-drop n ys)

errors_in-zero : (n : ℕ) → 0 ≡ errors_in (replicate n false)
errors_in-zero zero = refl
errors_in-zero (suc n) = errors_in-zero n

-- The state of a budget after it has seen `es`, in terms of them.
record_all_lem :
    (num : ℤ) (den : ℕ) (window : ℤ) (b : Budget) (es : List Bool)
    → new_failure_budget num den window ≡ some b
    → let w = pos_part window in
      let b' = record_all es b in
      (b'.filled ≡ leb w (length es))
      × (length b'.ring ≡ w)
      × (b'.rate_num ≡ pos_part num)
      × (b'.rate_den ≡ den)
      × (b'.errors ≡ errors_in (drop (length es) (replicate w false ++ es)))
record_all_lem num den window b es h =
    let (e, positive) = fresh_lem num den window b h in
    let size = length-replicate (pos_part window) false in
    let v : IsValid b =
      rw e (record { in_ring = rw size positive; counted = errors_in-zero (pos_part window) }) in
    let whole : window_of b ≡ replicate (pos_part window) false = rw e (append-nil _) in
    let v' = record_all-IsValid es b v in
    let seen = window_of-record_all es b v (rw (whole, size) positive) in
    let (ring, rate, base) = record_all-fixed es b in
    let start : b.idx ≡ 0 = ground (arith, e) in
    let empty : b.filled ≡ false = ground (arith, e) in
    let same : length b.ring ≡ pos_part window = rw e size in
    (
      ground (arith, start, same, filled-record_all es b empty v.in_ring),
      ground (arith, e, ring, size),
      ground (arith, e, rate),
      ground (arith, e, base),
      v'.counted
          ∙ sym (errors_in-rotate (record_all es b).idx (record_all es b).ring)
          ∙ ap errors_in (seen ∙ ap (λ w. drop (length es) (w ++ es)) whole),
    )

-- A new budget is spent after the calls `es` exactly when they fill its window and the failures
-- among the last `window` of them, over the window, reach the maximal rate.
pub over_budget-record_all :
    (num : ℤ) (den : ℕ) (window : ℤ) (b : Budget) (es : List Bool)
    → new_failure_budget num den window ≡ some b
    → let w = pos_part window in
      (over_budget (record_all es b) ≡ true)
      ↔ ((w ≤ length es) × (pos_part num * w ≤ errors_in (drop (length es - w) es) * den))
unfolding over_budget
over_budget-record_all num den window b es h =
    let (full, size, rate, base, errors) = record_all_lem num den window b es h in
    elim (Bool-cases (leb (pos_part window) (length es))) [
      | inl enough ↦
          let last = drop-replicate (pos_part window) (length es) es (ground arith) in
          rw (full, size, rate, base, errors, enough, last) (ground arith)
      | inr early ↦ rw (full, early) (ground arith)
    ]
