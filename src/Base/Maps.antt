-- ===== src/Base/Maps.antt =====
-- Maps without double keys: their size, and the search of an entry.
use Prim.Native.Nat.{suc, ◌≤◌, ◌<◌}
use mathlib.Core.Path.{◌≡◌, refl}
use mathlib.Core.Logic.{◌⊎◌, inl, inr}
use mathlib.Core.Bool.{Bool, true, false}
use mathlib.Core.Option.{Option, none, some}
use mathlib.Core.List.{[], ◌∷◌}
use native.Mathlib.Omega.{arith}
use chaotic.Base.Tests.{if◌then◌else◌}
use chaotic.Base.Lists.{length}
use chaotic.Base.Strings.{
  Text, Map, text_eq_iff, lookup, insert, delete, lookup-insert, lookup-delete,
}

abbrev pub is_some {ℓ} : {A : Type ℓ} → Option A → Bool
is_some none = false
is_some (some _) = true

module _ {V : Type 0} where
  -- No key occurs twice.
  abbrev pub Distinct : Map V → Type 0
  Distinct [] = Unit {0}
  Distinct ((k, _) ∷ m) = (lookup k m ≡ none) × Distinct m

  -- The map has the entry.
  abbrev pub Entry : Text → V → Map V → Type 0
  Entry k v [] = ⊥
  Entry k v ((j, w) ∷ m) = (j ≡ k) × (w ≡ v) ⊎ Entry k v m

  pub Distinct-delete : (k : Text) (m : Map V) → Distinct m → Distinct (delete k m)
  unfolding delete
  Distinct-delete k [] d = tt
  Distinct-delete k ((j, e) ∷ m) d = ground (arith, Distinct-delete k m d.1, lookup-delete k j m)

  pub Distinct-insert : (k : Text) (v : V) (m : Map V) → Distinct m → Distinct (insert k v m)
  unfolding lookup insert
  Distinct-insert k v [] d = (refl, tt)
  Distinct-insert k v ((j, w) ∷ m) d =
      ground
        (arith, Distinct-insert k v m d.1, lookup-insert k j v m, text_eq_iff j k, text_eq_iff k j)

  pub length-delete-le : (k : Text) (m : Map V) → length (delete k m) ≤ length m
  unfolding delete
  length-delete-le k [] = omega arith
  length-delete-le k ((j, e) ∷ m) = ground (arith, length-delete-le k m)

  pub length-delete-lt :
      (k : Text) (m : Map V) (v : V) → lookup k m ≡ some v → length (delete k m) < length m
  unfolding lookup delete
  length-delete-lt k [] v h = cc
  length-delete-lt k ((j, w) ∷ m) v h = ground (arith, length-delete-le k m, length-delete-lt k m v)

  pub length-insert :
      (k : Text) (v : V) (m : Map V)
      → length (insert k v m) ≡ (if is_some (lookup k m) then length m else suc (length m))
  unfolding insert lookup
  length-insert k v [] = refl
  length-insert k v ((j, w) ∷ m) = ground (arith, length-insert k v m)

  pub lookup-Entry : (k : Text) (v : V) (m : Map V) → Distinct m → Entry k v m → lookup k m ≡ some v
  unfolding lookup
  lookup-Entry k v [] d h = absurd h
  lookup-Entry k v ((j, w) ∷ m) d (inl h) = ground (arith, text_eq_iff j k)
  lookup-Entry k v ((j, w) ∷ m) d (inr h) =
      let found = lookup-Entry k v m d.1 h in ground (arith, text_eq_iff j k)
