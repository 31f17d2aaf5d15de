-- ===== src/Sqlclass.antt =====
-- The classification of SQL texts (internal/sqlclass/sqlclass.go).
pub mod Lengths
pub mod Totality
use chaotic.Base.{
  ℕ, zero, suc, ◌+◌, ◌-◌, Bool, true, false, not, ◌&&◌, ◌||◌, if◌then◌else◌, ltb, leb, ◌==◌, List,
  [], ◌∷◌, ◌++◌, Option, none, some, is_some, Text, bytes, text_eq, length, get_or, take, drop,
}
use chaotic.Engine.World.{is_nil}
use chaotic.Terms.{trim_left, spaces, strip_prefix, ends_with, index_byte}

-- `Classification`.
pub record Classification : Type 0 where
  pub verb : Text
  pub table : Text

-- A result; a slice out of range, which panics; or no result on this fuel.
pub data Run (A : Type 0) : Type 0 where
  done : A → Run A
  out_of_range : Run A
  out_of_fuel : Run A

-- `strings.TrimLeftFunc(s, unicode.IsSpace)`.
abbrev pub trim : Text → Text
trim s = trim_left spaces (length s) s

-- `unicode.IsSpace` of a byte as a rune, and `isIdentChar` of one.
unfoldable pub is_space : ℕ → Bool
is_space b = leb 9 b && leb b 13 || (b == 32 || (b == 133 || b == 160))

abbrev within : ℕ → ℕ → ℕ → Bool
within lo hi b = leb lo b && leb b hi

unfoldable pub is_ident_char : ℕ → Bool
is_ident_char b =
    within 65 90 b
    || (within 97 122 b
        || (within 48 57 b
            || (b == 95
                || (b == 170
                    || (b == 181
                        || (b == 186
                            || (within 192 214 b || (within 216 246 b || within 248 255 b))))))))

-- `strings.Index`.
unfoldable pub index_of : Text → Text → Option ℕ
index_of p [] = if is_nil p then some 0 else none
index_of p (c ∷ s) = elim (strip_prefix p (c ∷ s)) [
  | some rest ↦ some 0
  | none ↦ elim (index_of p s) [ none ↦ none | some i ↦ some (suc i) ]
]

abbrev has_prefix : Text → Text → Bool
has_prefix p s = is_some (strip_prefix p s)

-- The slice expression `s[i:]`; `none` is out of range.
unfoldable pub slice_from : ℕ → Text → Option Text
slice_from i s = if leb i (length s) then some (drop i s) else none

-- `stripLeadingComments`, on fuel.
unfoldable pub strip_leading_comments : ℕ → Text → Run Text
unfolding index_of slice_from
strip_leading_comments zero s = out_of_fuel
strip_leading_comments (suc n) s =
    if has_prefix (bytes "--") (trim s)
    then elim (index_byte 10 (trim s)) [
      | none ↦ done []
      | some i ↦ elim (slice_from (i + 1) (trim s)) [
        | none ↦ out_of_range
        | some rest ↦ strip_leading_comments n rest
      ]
    ]
    else if has_prefix (bytes "/*") (trim s)
    then elim (index_of (bytes "*/") (trim s)) [
      | none ↦ done []
      | some i ↦ elim (slice_from (i + 2) (trim s)) [
        | none ↦ out_of_range
        | some rest ↦ strip_leading_comments n rest
      ]
    ]
    else done (trim s)

-- The bytes before a space or a semicolon, and the others.
unfoldable pub split_token : Text → Text × Text
unfolding is_space
split_token [] = ([], [])
split_token (c ∷ s) =
    let (token, rest) = split_token s in
    if not (is_space c) && not (c == b';') then (c ∷ token, rest) else ([], c ∷ s)

-- `firstToken`.
unfoldable pub first_token : Text → Text × Text
unfolding split_token
first_token s = let (token, rest) = split_token (trim s) in (token, trim rest)

unfoldable pub trim_suffix : ℕ → Text → Text
trim_suffix c t = if ends_with c t then take (length t - 1) t else t

-- `splitOnDot`, in a quote that the byte ends, or in none; `cur` is the part so far.
unfoldable pub split_on_dot : Option ℕ → Text → Text → List Text
split_on_dot q cur [] = cur ∷ []
split_on_dot (some close) cur (c ∷ s) =
    split_on_dot (if c == close then none else some close) (cur ++ c ∷ []) s
split_on_dot none cur (c ∷ s) =
    let opens = c == b'"' || (c == b'`' || c == b'[') in
    let q = if opens then some (if c == b'[' then b']' else c) else none in
    let rest = split_on_dot q (if c == b'.' then [] else cur ++ c ∷ []) s in
    if c == b'.' then cur ∷ rest else rest

-- `unquoteIdent`.
unfoldable pub unquote_ident : Text → Text
unquote_ident t =
    let first = get_or t 0 0 in
    let last = get_or t (length t - 1) 0 in
    let inner = take (length t - 2) (drop 1 t) in
    if leb 2 (length t)
    then (if first == b'"' && last == b'"' || (first == b'`' && last == b'`')
        then inner
        else if first == b'[' && last == b']'
        then inner
        else t)
    else t

last_of : List Text → Text
last_of [] = []
last_of (p ∷ []) = p
last_of (p ∷ (q ∷ ps)) = last_of (q ∷ ps)

-- `cleanIdent`.
unfoldable pub clean_ident : Text → Text
unfolding trim_suffix split_on_dot unquote_ident last_of
clean_ident t =
    unquote_ident
      (last_of (split_on_dot none [] (trim_suffix b'(' (trim_suffix b';' (trim_suffix b',' t)))))

-- The index expression `s[i]`; `none` is out of range.
unfoldable pub byte_at : ℕ → Text → Option ℕ
byte_at i [] = none
byte_at zero (c ∷ s) = some c
byte_at (suc i) (c ∷ s) = byte_at i s

-- No identifier goes on at `up[i]`, which is not read at an end of the text.
unfoldable pub is_edge : Bool → Text → ℕ → Option Bool
unfolding is_ident_char byte_at
is_edge true up i = some true
is_edge false up i = elim (byte_at i up) [ none ↦ none | some b ↦ some (not (is_ident_char b)) ]

-- The keyword from `i` to `end` is a word of `up`.
unfoldable pub is_word : Text → ℕ → ℕ → Option Bool
unfolding is_edge
is_word up i end = elim (is_edge (i == 0) up (i - 1)) [
  | none ↦ none
  | some before ↦ elim (is_edge (leb (length up) end) up end) [
    | none ↦ none
    | some after ↦ some (before && after)
  ]
]

-- The token of `s[end:]`.
unfoldable pub token_at : Text → ℕ → Run Text
unfolding slice_from clean_ident first_token
token_at s end = elim (slice_from end s) [
  | none ↦ out_of_range
  | some rest ↦ done (clean_ident (first_token rest).0)
]

-- The loop of `tokenAfter`, on fuel, given the text in upper case.
unfoldable pub token_from : ℕ → Text → Text → Text → ℕ → Run Text
unfolding slice_from index_of is_word token_at
token_from zero up s keyword from = out_of_fuel
token_from (suc n) up s keyword from = elim (slice_from from up) [
  | none ↦ out_of_range
  | some tail ↦ elim (index_of keyword tail) [
    | none ↦ done []
    | some rel ↦
        let end = from + rel + length keyword in
        elim (is_word up (from + rel) end) [
          | none ↦ out_of_range
          | some whole ↦ if whole then token_at s end else token_from n up s keyword end
        ]
  ]
]

-- `tokenAfter`, given `strings.ToUpper`.
unfoldable pub token_after : (Text → Text) → Text → Text → Run Text
unfolding token_from
token_after upper s keyword = token_from (suc (length (upper s))) (upper s) s keyword 0

-- `extractTable`.
unfoldable pub extract_table : (Text → Text) → Text → Text → Run Text
unfolding token_after clean_ident first_token
extract_table upper verb rest =
    if text_eq verb (bytes "SELECT") || text_eq verb (bytes "DELETE")
    then token_after upper rest (bytes "FROM")
    else if text_eq verb (bytes "INSERT") || text_eq verb (bytes "MERGE")
    then token_after upper rest (bytes "INTO")
    else if text_eq verb (bytes "UPDATE")
    then done (clean_ident (first_token rest).0)
    else done []

unfoldable pub with_table : Text → Run Text → Run Classification
with_table verb (done table) = done (record { verb = verb; table = table })
with_table verb out_of_range = out_of_range
with_table verb out_of_fuel = out_of_fuel

unfoldable pub classify_stripped : (Text → Text) → Run Text → Run Classification
unfolding extract_table with_table first_token
classify_stripped upper out_of_range = out_of_range
classify_stripped upper out_of_fuel = out_of_fuel
classify_stripped upper (done s) =
    let (token, rest) = first_token s in
    let verb = upper token in
    if is_nil verb
    then done (record { verb = []; table = [] })
    else with_table verb (extract_table upper verb rest)

-- `Classify`.
unfoldable pub classify : (Text → Text) → Text → Run Classification
unfolding classify_stripped strip_leading_comments
classify upper sql = classify_stripped upper (strip_leading_comments (suc (length sql)) sql)
