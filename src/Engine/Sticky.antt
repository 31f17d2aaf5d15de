-- ===== src/Engine/Sticky.antt =====
-- The sticky tracker of a rule (engine/sticky.go): attribute values with an expiry, at most `cap`.
pub mod Bounded
pub mod Window
use chaotic.Base.{
  ℕ, ◌+◌, Bool, true, false, not, ◌&&◌, if◌then◌else◌, leb, ltb_ℤ, ℤ, pos, pos_part, List, [], ◌∷◌,
  length, Option, none, some, is_some, Text, Map, lookup, insert, delete,
}
use chaotic.Fault.{add_nat}
use chaotic.Engine.Op.{Op}

-- Times are nanoseconds; `seen` maps a value to its expiry. Its order stands for the order in which
-- Go ranges over the map.
pub record Tracker : Type 0 where
  pub key : Text
  pub window : ℤ
  pub cap : ℕ
  pub seen : Map ℤ

-- `StickyAttr`: a capacity below 1 is 1.
unfoldable pub new_tracker : Text → ℤ → ℤ → Tracker
new_tracker key window cap = record {
  key = key;
  window = window;
  cap = if ltb_ℤ cap (pos 1) then 1 else pos_part cap;
  seen = [];
}

sticky_entry : ℕ → Text → Option ℤ → Tracker → Tracker × Bool
sticky_entry now v none s = (s, false)
sticky_entry now v (some expiry) s =
    if ltb_ℤ expiry (pos now) then (record s { seen = delete v s.seen }, false) else (s, true)

sticky_value : ℕ → Option Text → Tracker → Tracker × Bool
unfolding sticky_entry
sticky_value now none s = (s, false)
sticky_value now (some v) s = sticky_entry now v (lookup v s.seen) s

-- `sticky`: whether the value of the op is within its window; an expired entry is dropped.
unfoldable pub sticky : ℕ → Op → Tracker → Tracker × Bool
unfolding sticky_value
sticky now op s = sticky_value now (lookup s.key op.attrs) s

-- The scan of `evictOldestLocked`: the entry that expires soonest.
unfoldable pub oldest : Option (Text × ℤ) → Map ℤ → Option (Text × ℤ)
oldest best [] = best
oldest none ((v, e) ∷ m) = oldest (some (v, e)) m
oldest (some (w, f)) ((v, e) ∷ m) = oldest (if ltb_ℤ e f then some (v, e) else some (w, f)) m

-- `delete(s.seen, oldest)`: the victim of an empty map is the zero value of the variable.
remove_victim : Option (Text × ℤ) → Map ℤ → Map ℤ
remove_victim none m = delete [] m
remove_victim (some (v, _)) m = delete v m

unfoldable pub evict_oldest : Map ℤ → Map ℤ
unfolding oldest remove_victim
evict_oldest m = remove_victim (oldest none m) m

mark_value : ℕ → Option Text → Tracker → Tracker
unfolding evict_oldest
mark_value now none s = s
mark_value now (some v) s =
    let full = not (is_some (lookup v s.seen)) && leb s.cap (length s.seen) in
    let room = if full then evict_oldest s.seen else s.seen in
    record s { seen = insert v (add_nat s.window now) room }

-- `mark`: record or refresh the value of the op.
unfoldable pub mark : ℕ → Op → Tracker → Tracker
unfolding mark_value
mark now op s = mark_value now (lookup s.key op.attrs) s
