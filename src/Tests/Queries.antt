-- ===== src/Tests/Queries.antt =====
-- SQL texts.
use chaotic.Base.{
  ℕ, ◌+◌, ◌-◌, ◌≡◌, refl, ◌&&◌, if◌then◌else◌, leb, List, [], ◌∷◌, ◌++◌, Option, none, some, Text,
  bytes,
}
use chaotic.Sqlclass.{classify, out_of_range, done}
use chaotic.Adapter.{Returned}
use chaotic.Adapter.Pgx.{Strings, TxOptions}
use chaotic.Base.{false}

-- Upper case on ASCII.
abbrev upper : Text → Text
upper [] = []
upper (c ∷ s) = (if leb 97 c && leb c 122 then c - 32 else c) ∷ upper s

-- Upper case with letters that take one byte more, as U+0250 does.
abbrev growing : Text → Text
growing [] = []
growing (c ∷ s) = let rest = growing s in if leb 128 c then c ∷ (c ∷ rest) else c ∷ rest

abbrev select : Text
select = bytes "SELECT id FROM public.users"

-- Four such letters in a literal.
abbrev literal : Text
literal = bytes "SELECT '" ++ 201 ∷ (201 ∷ (201 ∷ (201 ∷ bytes "' FROM t")))

classify-select :
    classify upper select ≡ done (record { verb = bytes "SELECT"; table = bytes "users" })
unfolding classify chaotic.Sqlclass.classify_stripped chaotic.Sqlclass.strip_leading_comments
    chaotic.Terms.trim_left chaotic.Terms.strip_any chaotic.Terms.strip_prefix
    chaotic.Sqlclass.first_token chaotic.Sqlclass.split_token chaotic.Sqlclass.is_space
    chaotic.Sqlclass.extract_table chaotic.Sqlclass.token_after chaotic.Sqlclass.token_from
    chaotic.Sqlclass.index_of chaotic.Sqlclass.is_word chaotic.Sqlclass.is_edge
    chaotic.Sqlclass.is_ident_char chaotic.Sqlclass.clean_ident chaotic.Sqlclass.with_table
    chaotic.Base.text_eq chaotic.Sqlclass.trim_suffix chaotic.Sqlclass.split_on_dot
    chaotic.Sqlclass.unquote_ident chaotic.Terms.ends_with
classify-select = refl

classify-literal : classify growing literal ≡ out_of_range
unfolding classify chaotic.Sqlclass.classify_stripped chaotic.Sqlclass.strip_leading_comments
    chaotic.Terms.trim_left chaotic.Terms.strip_any chaotic.Terms.strip_prefix
    chaotic.Sqlclass.first_token chaotic.Sqlclass.split_token chaotic.Sqlclass.is_space
    chaotic.Sqlclass.extract_table chaotic.Sqlclass.token_after chaotic.Sqlclass.token_from
    chaotic.Sqlclass.index_of chaotic.Sqlclass.is_word chaotic.Sqlclass.is_edge
    chaotic.Sqlclass.is_ident_char chaotic.Sqlclass.with_table chaotic.Base.text_eq
classify-literal = refl

abbrev rows : ℕ → ℕ × Returned Text
rows n = (n + 1, (some (bytes "rows"), none))

abbrev strings : Strings
strings = record { upper = upper; itoa = λ n. bytes "2" }

abbrev options : TxOptions
options = record { iso_level = bytes "serializable"; access_mode = []; deferrable = false }

abbrev row : ℕ → ℕ × Text
row n = (n + 1, bytes "row")
