-- ===== src/Engine/Rule/Precedence.antt =====
-- The order of the cases of `decideFire` (engine/engine.go): stickiness, stages, counter.
use chaotic.Base.{
  ℕ, ◌≡◌, ◌∙◌, refl, ap, true, false, leb_ℤ, ℤ, pos, List, [], ◌∷◌, some, Text, lookup, arith,
}
use chaotic.Fault.{update}
use chaotic.Engine.Op.{Op}
use chaotic.Engine.Staged.{fire}
use chaotic.Engine.Sticky.{Tracker, sticky}
use chaotic.Engine.Rule.{Rule, Store, decide_fire, is_hot}

update-same : {A : Type 0} (f : ℕ → A) (p : ℕ) (v : A) → update f p v p ≡ v
unfolding update
update-same f p v = ground arith

-- A tracker that holds nothing finds nothing hot, and stays as it is.
sticky-empty :
    (now : ℕ) (op : Op) (t : Tracker)
    → t.seen ≡ []
    → ((sticky now op t).1 ≡ false) × ((sticky now op t).0.seen ≡ [])
unfolding sticky lookup
sticky-empty now op t h = ground (arith, h)

-- A rule with stages and with a sticky tracker that holds nothing decides by its stages, and leaves
-- the tracker empty.
pub decide_fire-staged :
    (r : Rule) (now : ℕ) (op : Op) (s : Store) (p q : ℕ)
    → r.staged_at ≡ some p
    → r.sticky_at ≡ some q
    → (s.trackers q).seen ≡ []
    → ((decide_fire r now op s).1 ≡ (fire (s.stageds p)).1)
      × (((decide_fire r now op s).0.trackers q).seen ≡ [])
decide_fire-staged r now op s p q staged stuck empty =
    let (cold, still) = sticky-empty now op (s.trackers q) empty in
    unfold decide_fire in
    rw (staged, stuck, is_hot, cold)
      (
        refl,
        ap (λ (t : Tracker). t.seen) (update-same s.trackers q (sticky now op (s.trackers q)).0)
            ∙ still,
      )

-- Every op that carries the value is found hot exactly until this time.
abbrev HotUntil : Tracker → Text → ℤ → Type 0
HotUntil t v end =
    (later : ℕ) (next : Op)
    → lookup t.key next.attrs ≡ some v
    → (sticky later next t).1 ≡ leb_ℤ (pos later) end

-- The calls, each with its time, carry the value under the key and come no later than this time.
abbrev pub AreWithin : Text → Text → ℤ → List (ℕ × Op) → Type 0
AreWithin key v end [] = Unit {0}
AreWithin key v end ((later, next) ∷ calls) =
    (lookup key next.attrs ≡ some v) × (leb_ℤ (pos later) end ≡ true) × AreWithin key v end calls

-- The rule fires all its faults at each of the calls, one after the other, and no counter advances.
abbrev pub FiresAll : Rule → List (ℕ × Op) → Store → Type 0
FiresAll r [] s = Unit {0}
FiresAll r ((later, next) ∷ calls) s =
    ((decide_fire r later next s).1 ≡ some r.faults)
    × ((decide_fire r later next s).0.counters ≡ s.counters)
    × FiresAll r calls (decide_fire r later next s).0
