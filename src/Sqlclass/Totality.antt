-- ===== src/Sqlclass/Totality.antt =====
-- When a classification has a result.
use chaotic.Base.{suc, ◌≤◌, [], Text, length}
use chaotic.Sqlclass.{Run, done, out_of_range, out_of_fuel, strip_leading_comments, first_token}

abbrev IsDone : {A : Type 0} → Run A → Type 0
IsDone (done x) = Unit {0}
IsDone out_of_range = ⊥
IsDone out_of_fuel = ⊥

-- There is a result, or a panic, which the premise excludes; and enough fuel.
abbrev pub EndsUnder : {A : Type 0} → Type 0 → Run A → Type 0
EndsUnder P (done x) = Unit {0}
EndsUnder P out_of_range = ¬ P
EndsUnder P out_of_fuel = ⊥

-- What follows the verb of a text without comments before it.
abbrev pub after_verb : Run Text → Text
after_verb (done s) = (first_token s).1
after_verb out_of_range = []
after_verb out_of_fuel = []

-- What follows the verb of a query.
abbrev pub operands : Text → Text
operands sql = after_verb (strip_leading_comments (suc (length sql)) sql)

-- The upper case of what follows the verb is not longer than it, as of any text in ASCII.
abbrev pub Fits : (Text → Text) → Text → Type 0
Fits upper sql = length (upper (operands sql)) ≤ length (operands sql)
