-- ===== src/Terms.antt =====
-- The compact rule syntax (source/terms/terms.go): its scanners. `Terms.Parse` is the parser.
pub mod Scan
pub mod Parse
use chaotic.Base.{
  ℕ, zero, suc, ◌+◌, ◌-◌, ◌*◌, Bool, true, false, not, ◌&&◌, ◌||◌, if◌then◌else◌, ltb, leb, ◌==◌, ℤ,
  pos, negsuc, half_word, List, [], ◌∷◌, ◌++◌, Option, none, some, Text, bytes, length, take, drop,
}

-- The depth after a byte, where a closing parenthesis at depth 0 is passed over.
unfoldable pub next_depth : ℕ → ℕ → ℕ
next_depth c depth = if c == b'(' then suc depth else if c == b')' then depth - 1 else depth

-- The byte is the separator at depth 0.
unfoldable pub is_cut : ℕ → ℕ → ℕ → Bool
is_cut sep depth c = not (c == b'(' || c == b')') && (c == sep && depth == 0)

-- The loop of `splitTop`: the part that is open, and the parts after it.
unfoldable pub split_from : ℕ → ℕ → Text → Text × List Text
split_from sep depth [] = ([], [])
split_from sep depth (c ∷ s) =
    let rest = split_from sep (next_depth c depth) s in
    if is_cut sep depth c then ([], rest.0 ∷ rest.1) else (c ∷ rest.0, rest.1)

unfoldable pub split_top : Text → ℕ → List Text
split_top s sep = let parts = split_from sep 0 s in parts.0 ∷ parts.1

-- The loop of `indexTop`; -1 is `none`.
unfoldable pub index_from : ℕ → ℕ → Text → Option ℕ
index_from sep depth [] = none
index_from sep depth (c ∷ s) =
    let rest = index_from sep (next_depth c depth) s in
    if is_cut sep depth c then some 0 else elim rest [ none ↦ none | some i ↦ some (suc i) ]

unfoldable pub index_top : Text → ℕ → Option ℕ
index_top s sep = index_from sep 0 s

-- `splitTopArrow` at a byte: outside and inside a string, at a byte that a backslash escapes, and at
-- the ">" of an arrow. The last two are the indices that the source's loop jumps over.
pub data ArrowState : Type 0 where
  outside inside escaped in_arrow : ArrowState

abbrev pub deeper : ℤ → ℤ
deeper (pos n) = pos (suc n)
deeper (negsuc zero) = pos 0
deeper (negsuc (suc n)) = negsuc n

abbrev pub shallower : ℤ → ℤ
shallower (pos zero) = negsuc 0
shallower (pos (suc n)) = pos n
shallower (negsuc n) = negsuc (suc n)

abbrev pub is_pos_zero : ℤ → Bool
is_pos_zero (pos n) = n == 0
is_pos_zero (negsuc n) = false

abbrev pub starts_with : ℕ → Text → Bool
starts_with c [] = false
starts_with c (d ∷ s) = d == c

-- Outside a string, at depth 0, at "->".
unfoldable pub is_arrow : ArrowState → ℤ → ℕ → Text → Bool
is_arrow outside depth c s = is_pos_zero depth && (c == b'-' && starts_with b'>' s)
is_arrow _ depth c s = false

unfoldable pub next_state : ArrowState → ℤ → ℕ → Text → ArrowState
unfolding is_arrow
next_state outside depth c s =
    if c == b'"' then inside else if is_arrow outside depth c s then in_arrow else outside
next_state inside depth c s = if c == b'\\' then escaped else if c == b'"' then outside else inside
next_state escaped depth c s = inside
next_state in_arrow depth c s = outside

-- This depth may be negative.
unfoldable pub arrow_depth : ArrowState → ℤ → ℕ → ℤ
arrow_depth outside depth c =
    if c == b'(' then deeper depth else if c == b')' then shallower depth else depth
arrow_depth _ depth c = depth

abbrev pub in_part : ArrowState → Bool
in_part in_arrow = false
in_part _ = true

unfoldable pub arrow_from : ArrowState → ℤ → Text → Text × List Text
arrow_from st depth [] = ([], [])
arrow_from st depth (c ∷ s) =
    let rest = arrow_from (next_state st depth c s) (arrow_depth st depth c) s in
    if is_arrow st depth c s
    then ([], rest.0 ∷ rest.1)
    else if in_part st
    then (c ∷ rest.0, rest.1)
    else rest

unfoldable pub split_top_arrow : Text → List Text
split_top_arrow s = let parts = arrow_from outside (pos 0) s in parts.0 ∷ parts.1

-- `strings.IndexByte`, and the first byte of two in `strings.IndexAny`.
unfoldable pub index_byte : ℕ → Text → Option ℕ
index_byte b [] = none
index_byte b (c ∷ s) =
    if c == b then some 0 else elim (index_byte b s) [ none ↦ none | some i ↦ some (suc i) ]

unfoldable pub ends_with : ℕ → Text → Bool
ends_with c [] = false
ends_with c (d ∷ []) = d == c
ends_with c (d ∷ (e ∷ s)) = ends_with c (e ∷ s)

-- `splitCall`: `none` is its error, a "(" with no ")" at the end.
unfoldable pub split_call : Text → Option (Text × Text)
unfolding ends_with
split_call s = elim (index_byte b'(' s) [
  | none ↦ some (s, [])
  | some i ↦
      if ends_with b')' s
      then some (take i s, take (length s - 1 - (i + 1)) (drop (i + 1) s))
      else none
]

-- `strings.TrimSpace`: the encodings of the white space of Unicode.
abbrev pub spaces : List Text
spaces =
    (9 ∷ [])
    ∷ (10 ∷ [])
    ∷ (11 ∷ [])
    ∷ (12 ∷ [])
    ∷ (13 ∷ [])
    ∷ (32 ∷ [])
    ∷ (194 ∷ 133 ∷ [])
    ∷ (194 ∷ 160 ∷ [])
    ∷ (225 ∷ 154 ∷ 128 ∷ [])
    ∷ (226 ∷ 128 ∷ 128 ∷ [])
    ∷ (226 ∷ 128 ∷ 129 ∷ [])
    ∷ (226 ∷ 128 ∷ 130 ∷ [])
    ∷ (226 ∷ 128 ∷ 131 ∷ [])
    ∷ (226 ∷ 128 ∷ 132 ∷ [])
    ∷ (226 ∷ 128 ∷ 133 ∷ [])
    ∷ (226 ∷ 128 ∷ 134 ∷ [])
    ∷ (226 ∷ 128 ∷ 135 ∷ [])
    ∷ (226 ∷ 128 ∷ 136 ∷ [])
    ∷ (226 ∷ 128 ∷ 137 ∷ [])
    ∷ (226 ∷ 128 ∷ 138 ∷ [])
    ∷ (226 ∷ 128 ∷ 168 ∷ [])
    ∷ (226 ∷ 128 ∷ 169 ∷ [])
    ∷ (226 ∷ 128 ∷ 175 ∷ [])
    ∷ (226 ∷ 129 ∷ 159 ∷ [])
    ∷ (227 ∷ 128 ∷ 128 ∷ [])
    ∷ []

unfoldable pub strip_prefix : Text → Text → Option Text
strip_prefix [] s = some s
strip_prefix (c ∷ p) [] = none
strip_prefix (c ∷ p) (d ∷ s) = if c == d then strip_prefix p s else none

unfoldable pub strip_any : List Text → Text → Option Text
unfolding strip_prefix
strip_any [] s = none
strip_any (p ∷ ps) s = elim (strip_prefix p s) [ some t ↦ some t | none ↦ strip_any ps s ]

-- On fuel: each space that goes is a byte at least.
unfoldable pub trim_left : List Text → ℕ → Text → Text
unfolding strip_any
trim_left ps zero s = s
trim_left ps (suc n) s = elim (strip_any ps s) [ none ↦ s | some t ↦ trim_left ps n t ]

reverse_onto : Text → Text → Text
reverse_onto [] t = t
reverse_onto (c ∷ s) t = reverse_onto s (c ∷ t)

reverse_each : List Text → List Text
unfolding reverse_onto
reverse_each [] = []
reverse_each (p ∷ ps) = reverse_onto p [] ∷ reverse_each ps

unfoldable pub trim_space : Text → Text
unfolding trim_left reverse_onto reverse_each
trim_space s =
    let left = trim_left spaces (length s) s in
    reverse_onto (trim_left (reverse_each spaces) (length left) (reverse_onto left [])) []

-- `strconv.Atoi`: digits after one sign at most, in the range of a 64-bit integer.
digits : ℕ → Text → Option ℕ
digits n [] = some n
digits n (c ∷ s) = if leb b'0' c && leb c b'9' then digits (n * 10 + (c - b'0')) s else none

unsigned : Text → Option ℕ
unfolding digits
unsigned [] = none
unsigned (c ∷ s) = digits 0 (c ∷ s)

positive : Text → Option ℤ
unfolding unsigned
positive s = elim (unsigned s) [
  | none ↦ none
  | some n ↦ if ltb n half_word then some (pos n) else none
]

negative : Text → Option ℤ
unfolding unsigned
negative s = elim (unsigned s) [
  | none ↦ none
  | some zero ↦ some (pos 0)
  | some (suc n) ↦ if ltb n half_word then some (negsuc n) else none
]

unfoldable pub atoi : Text → Option ℤ
unfolding positive negative
atoi [] = none
atoi (c ∷ s) = if c == b'-' then negative s else if c == b'+' then positive s else positive (c ∷ s)
