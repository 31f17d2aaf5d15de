-- ===== src/Engine/Budget/Ring.antt =====
-- The ring holds the outcomes of the last calls, and `errors` counts them.
use chaotic.Base.{
  ℕ, zero, suc, ◌+◌, ◌≤◌, ◌<◌, ◌≡◌, refl, inl, inr, Bool-cases, ap, sym, Bool, true, false,
  if◌then◌else◌, ◌==◌, List, [], ◌∷◌, ◌++◌, length, get_or, set, take, drop, count, arith,
}
use native.Mathlib.Numerals.{add-one}
use mathlib.Core.List.{append-nil, append_assoc}
use chaotic.Engine.Budget.{Budget, record_outcome}

abbrev pub errors_in : List Bool → ℕ
errors_in = count λ b. b

pub length-set : (xs : List Bool) (i : ℕ) (v : Bool) → length (set xs i v) ≡ length xs
length-set [] i v = refl
length-set (x ∷ xs) zero v = refl
length-set (x ∷ xs) (suc i) v = ap suc (length-set xs i v)

errors_in-set :
    (xs : List Bool) (i : ℕ) (v : Bool)
    → i < length xs
    → errors_in (set xs i v) + (if get_or xs i false then 1 else 0)
      ≡ errors_in xs + (if v then 1 else 0)
errors_in-set [] i v h = elim h [ ]
errors_in-set (x ∷ xs) zero v h = ground arith
errors_in-set (x ∷ xs) (suc i) v h = ground (arith, errors_in-set xs i v (omega arith))

errors_in_pos : (xs : List Bool) (i : ℕ) → get_or xs i false ≡ true → 0 < errors_in xs
errors_in_pos [] i h = cc
errors_in_pos (x ∷ xs) zero h = ground arith
errors_in_pos (x ∷ xs) (suc i) h = ground (arith, errors_in_pos xs i)

-- The next write is in the ring, and `errors` is the number of failures in it.
pub record IsValid (b : Budget) : Type 0 where
  pub in_ring : b.idx < length b.ring
  pub counted : b.errors ≡ errors_in b.ring

-- Each recorded outcome keeps that.
pub record_outcome-IsValid : (e : Bool) (b : Budget) → IsValid b → IsValid (record_outcome e b)
unfolding record_outcome
record_outcome-IsValid e b v = ground (
  arith,
  length-set b.ring b.idx e,
  errors_in-set b.ring b.idx e v.in_ring,
  errors_in_pos b.ring b.idx,
)

set_lem :
    (xs : List Bool) (i : ℕ) (v : Bool)
    → i < length xs
    → set xs i v ≡ take i xs ++ (v ∷ drop (suc i) xs)
set_lem [] i v h = elim h [ ]
set_lem (x ∷ xs) zero v h = refl
set_lem (x ∷ xs) (suc i) v h = ap (◌∷◌ x) (set_lem xs i v (omega arith))

drop-set : (xs : List Bool) (i : ℕ) (v : Bool) → drop (suc i) (set xs i v) ≡ drop (suc i) xs
drop-set [] i v = refl
drop-set (x ∷ xs) zero v = refl
drop-set (x ∷ xs) (suc i) v = drop-set xs i v

take-set :
    (xs : List Bool) (i : ℕ) (v : Bool)
    → i < length xs
    → take (suc i) (set xs i v) ≡ take i xs ++ v ∷ []
take-set [] i v h = elim h [ ]
take-set (x ∷ xs) zero v h = refl
take-set (x ∷ xs) (suc i) v h = ap (◌∷◌ x) (take-set xs i v (omega arith))

drop_first :
    (xs ys : List Bool) (i : ℕ) → i < length xs → drop 1 (drop i xs ++ ys) ≡ drop (suc i) xs ++ ys
drop_first [] ys i h = elim h [ ]
drop_first (x ∷ xs) ys zero h = refl
drop_first (x ∷ xs) ys (suc i) h = drop_first xs ys i (omega arith)

drop_all : (xs : List Bool) (i : ℕ) → length xs ≤ i → drop i xs ≡ []
drop_all [] zero h = refl
drop_all [] (suc i) h = refl
drop_all (x ∷ xs) zero h = elim h [ ]
drop_all (x ∷ xs) (suc i) h = drop_all xs i (omega arith)

-- The outcomes of a window of calls, oldest first: the ring read from the next write on.
abbrev pub window_of : Budget → List Bool
window_of b = drop b.idx b.ring ++ take b.idx b.ring

abbrev pub slide : Bool → List Bool → List Bool
slide e w = drop 1 w ++ e ∷ []

-- Recording an outcome moves the window by one call.
pub window_of-record_outcome :
    (e : Bool) (b : Budget) → IsValid b → window_of (record_outcome e b) ≡ slide e (window_of b)
unfolding record_outcome
window_of-record_outcome e b v = elim (Bool-cases (b.idx + 1 == length (set b.ring b.idx e))) [
  | inl wraps ↦
      let over : length b.ring ≤ suc b.idx = ground (arith, length-set b.ring b.idx e) in
      rw (wraps, drop_first b.ring (take b.idx b.ring) b.idx v.in_ring)
        (rw (set_lem b.ring b.idx e v.in_ring, drop_all b.ring (suc b.idx) over) (simp append-nil))
  | inr moves ↦
      rw (moves, drop_first b.ring (take b.idx b.ring) b.idx v.in_ring)
        (rw (add-one, drop-set b.ring b.idx e, take-set b.ring b.idx e v.in_ring)
          (sym (append_assoc (drop (suc b.idx) b.ring) (take b.idx b.ring) (e ∷ []))))
]
