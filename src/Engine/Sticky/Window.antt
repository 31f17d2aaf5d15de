-- ===== src/Engine/Sticky/Window.antt =====
-- How long a marked value stays sticky, and which value gives way to a new one.
use chaotic.Base.{
  ℕ, ◌≡◌, inl, inr, refl, if◌then◌else◌, leb_ℤ, leb, ℤ, pos, ◌≤ℤ◌, length, Option, none, some,
  arith, Text, text_eq_iff, text_eq_refl, lookup, delete, lookup-insert, lookup-delete, Bool-cases,
}
use chaotic.Fault.{add_nat}
use chaotic.Engine.Op.{Op}
use chaotic.Engine.Sticky.{Tracker, sticky, sticky_value, sticky_entry, mark, mark_value}
use chaotic.Engine.Sticky.Bounded.{IsValid, Below-lookup, evict_oldest_lem}

mark_value-lookup :
    (now : ℕ) (k : Text) (s : Tracker)
    → (lookup k (mark_value now (some k) s).seen ≡ some (add_nat s.window now))
      × ((mark_value now (some k) s).key ≡ s.key)
unfolding mark_value
mark_value-lookup now k s = (simp (lookup-insert, text_eq_refl), refl)

sticky_lem :
    (later : ℕ) (next : Op) (t : Tracker) (v : Text) (e : ℤ)
    → lookup t.key next.attrs ≡ some v
    → lookup v t.seen ≡ some e
    → ((sticky later next t).1 ≡ leb_ℤ (pos later) e)
      × (lookup v (sticky later next t).0.seen ≡ (if (sticky later next t).1 then some e else none))
unfolding sticky sticky_value sticky_entry
sticky_lem later next t v e h k =
    rw (h, k) (ground (arith, lookup-delete v v t.seen, text_eq_refl v))

-- Right after a value is marked, an op that carries it is sticky exactly until the window ends; when
-- it is not, the entry is gone.
pub sticky-mark :
    (now later : ℕ) (op next : Op) (s : Tracker) (v : Text)
    → lookup s.key op.attrs ≡ some v
    → lookup s.key next.attrs ≡ some v
    → let (s', hot) = sticky later next (mark now op s) in
      (hot ≡ leb_ℤ (pos later) (add_nat s.window now))
      × (lookup v s'.seen ≡ (if hot then some (add_nat s.window now) else none))
unfolding mark
sticky-mark now later op next s v h k = rw h (
    sticky_lem later next (mark_value now (some v) s) v (add_nat s.window now)
      (rw (mark_value-lookup now v s).1 k) (mark_value-lookup now v s).0)

evicts_soonest :
    (now : ℕ) (o : Option Text) (s : Tracker) (w u : Text) (e g : ℤ)
    → IsValid s
    → lookup w s.seen ≡ some e
    → lookup w (mark_value now o s).seen ≡ none
    → lookup u s.seen ≡ some g
    → (e ≤ℤ g) × (length s.seen ≡ s.cap)
unfolding mark_value
evicts_soonest now none s w u e g v here gone there = cc
evicts_soonest now (some k) s w u e g v here gone there =
    elim (Bool-cases (leb s.cap (length s.seen))) [
      | inl full ↦
          let (x, f, evicts, found, below) = evict_oldest_lem s.seen v.distinct (ground arith) in
          ground (
            arith,
            evicts,
            lookup-insert k w m s.seen,
            lookup-insert k w m (delete x s.seen),
            lookup-delete x w s.seen,
            text_eq_iff k w,
            text_eq_iff x w,
            Below-lookup f g u s.seen below,
          )
      | inr room ↦ ground (arith, lookup-insert k w m s.seen)
    ]
  where
    m : ℤ
    m = add_nat s.window now

-- Marking makes a value disappear only when the tracker is full, and then one that expires soonest.
pub mark-evicts_soonest :
    (now : ℕ) (op : Op) (s : Tracker) (w u : Text) (e g : ℤ)
    → IsValid s
    → lookup w s.seen ≡ some e
    → lookup w (mark now op s).seen ≡ none
    → lookup u s.seen ≡ some g
    → (e ≤ℤ g) × (length s.seen ≡ s.cap)
unfolding mark
mark-evicts_soonest now op s w u e g v here gone there =
    evicts_soonest now (lookup s.key op.attrs) s w u e g v here gone there
