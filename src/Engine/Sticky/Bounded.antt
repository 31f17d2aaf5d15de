-- ===== src/Engine/Sticky/Bounded.antt =====
-- The tracker stays within its capacity, and evicts the entry that expires soonest.
use chaotic.Base.{
  ℕ, ◌≤◌, ◌<◌, ◌≡◌, ◌⊎◌, inl, inr, refl, ap, ltb_ℤ, leb, ℤ, ◌≤ℤ◌, [], ◌∷◌, length, Option, none,
  some, arith, Text, Map, lookup, delete, Option-cases, Bool-cases, Distinct, Entry,
  Distinct-delete, Distinct-insert, length-delete-le, length-delete-lt, length-insert, lookup-Entry,
}
use chaotic.Fault.{add_nat}
use chaotic.Engine.Op.{Op}
use chaotic.Engine.Sticky.{
  Tracker, new_tracker, sticky, sticky_value, sticky_entry, mark, mark_value, evict_oldest, oldest,
  remove_victim,
}

-- No entry expires before `e`.
abbrev pub Below : ℤ → Map ℤ → Type 0
Below e [] = Unit {0}
Below e ((_, g) ∷ m) = (e ≤ℤ g) × Below e m

pub Below-lookup : (e g : ℤ) (j : Text) (m : Map ℤ) → Below e m → lookup j m ≡ some g → e ≤ℤ g
unfolding lookup
Below-lookup e g j [] b h = cc
Below-lookup e g j ((i, f) ∷ m) b h = ground (arith, Below-lookup e g j m b.1)

-- The scan returns an entry, and no entry expires before it.
oldest_lem :
    (m : Map ℤ) (w : Text) (f : ℤ)
    → (v : Text) × (e : ℤ) × (oldest (some (w, f)) m ≡ some (v, e))
      × (e ≤ℤ f)
      × Below e m
      × ((w ≡ v) × (f ≡ e) ⊎ Entry v e m)
unfolding oldest
oldest_lem [] w f = (w, f, refl, omega arith, tt, inl (refl, refl))
oldest_lem ((j, g) ∷ m) w f = elim (Bool-cases (ltb_ℤ g f)) [
  | inl sooner ↦
      let (v, e, found, le, below, where_from) = oldest_lem m j g in
      (v, e, rw sooner found, ground arith, (le, below), inr where_from)
  | inr later ↦
      let (v, e, found, le, below, where_from) = oldest_lem m w f in
      (v, e, rw later found, le, (ground arith, below), ground arith)
]

-- Eviction from a non-empty map takes out one entry, and it is one that expires soonest.
pub evict_oldest_lem :
    (m : Map ℤ)
    → Distinct m
    → 0 < length m
    → (v : Text) × (e : ℤ) × (evict_oldest m ≡ delete v m) × (lookup v m ≡ some e) × Below e m
unfolding evict_oldest
evict_oldest_lem [] d h = elim h [ ]
evict_oldest_lem ((j, g) ∷ m) d h =
    let (v, e, found, le, below, entry) = oldest_lem m j g in
    (v, e, evicted v e found, lookup-Entry v e ((j, g) ∷ m) d entry, (le, below))
  where
    evicted :
        (v : Text) (e : ℤ)
        → oldest (some (j, g)) m ≡ some (v, e)
        → evict_oldest ((j, g) ∷ m) ≡ delete v ((j, g) ∷ m)
    evicted v e found = ap (λ o. remove_victim o ((j, g) ∷ m)) found

-- The keys are distinct, and the entries at most `cap`, which is at least 1.
pub record IsValid (s : Tracker) : Type 0 where
  pub distinct : Distinct s.seen
  pub bounded : length s.seen ≤ s.cap
  pub positive : 0 < s.cap

pub new_tracker-IsValid : (key : Text) (window cap : ℤ) → IsValid (new_tracker key window cap)
unfolding new_tracker
new_tracker-IsValid key window cap = record {
  distinct = tt;
  bounded = omega arith;
  positive = ground arith;
}

sticky_value-IsValid :
    (now : ℕ) (o : Option Text) (s : Tracker) → IsValid s → IsValid (sticky_value now o s).0
unfolding sticky_value
sticky_value-IsValid now none s v = v
sticky_value-IsValid now (some k) s v = go (lookup k s.seen)
  where
    go : (o : Option ℤ) → IsValid (sticky_entry now k o s).0
    go none = v
    go (some e) = ground (arith, Distinct-delete k s.seen v.distinct, length-delete-le k s.seen)

pub sticky-IsValid : (now : ℕ) (op : Op) (s : Tracker) → IsValid s → IsValid (sticky now op s).0
unfolding sticky
sticky-IsValid now op s v = sticky_value-IsValid now (lookup s.key op.attrs) s v

mark_new :
    (now : ℕ) (k : Text) (s : Tracker)
    → IsValid s
    → lookup k s.seen ≡ none
    → IsValid (mark_value now (some k) s)
unfolding mark_value
mark_new now k s v missing = elim (Bool-cases (leb s.cap (length s.seen))) [
  | inl full ↦
      let (w, f, evicts, found, below) = evict_oldest_lem s.seen v.distinct (ground arith) in
      ground (
        arith,
        evicts,
        Distinct-insert k e (delete w s.seen) (Distinct-delete w s.seen v.distinct),
        length-insert k e (delete w s.seen),
        length-delete-lt w s.seen f found,
      )
  | inr room ↦ ground (arith, Distinct-insert k e s.seen v.distinct, length-insert k e s.seen)
]
  where
    e : ℤ
    e = add_nat s.window now

mark_value-IsValid :
    (now : ℕ) (o : Option Text) (s : Tracker) → IsValid s → IsValid (mark_value now o s)
mark_value-IsValid now none s v = unfold mark_value in v
mark_value-IsValid now (some k) s v = elim (Option-cases (lookup k s.seen)) [
  | inr (e, found) ↦
      unfold mark_value in
      ground (
        arith,
        Distinct-insert k (add_nat s.window now) s.seen v.distinct,
        length-insert k (add_nat s.window now) s.seen,
      )
  | inl missing ↦ mark_new now k s v missing
]

-- Marking keeps the tracker within its capacity, whatever it held.
pub mark-IsValid : (now : ℕ) (op : Op) (s : Tracker) → IsValid s → IsValid (mark now op s)
unfolding mark
mark-IsValid now op s v = mark_value-IsValid now (lookup s.key op.attrs) s v
