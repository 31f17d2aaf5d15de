-- ===== src/Sqlclass/Lengths.antt =====
-- The lengths of texts through the scanner's helpers.
use chaotic.Base.{
  ℕ, zero, suc, ◌+◌, ◌-◌, ◌≤◌, ◌<◌, ◌≡◌, refl, Bool, true, false, not, ◌&&◌, leb, ◌==◌,
  if◌then◌else◌, List, [], ◌∷◌, Option, none, some, is_some, Text, length, drop, arith,
  Option-cases, inl, inr,
}
use chaotic.Engine.World.{is_nil}
use chaotic.Terms.{trim_left, strip_prefix, strip_any, index_byte}
use chaotic.Sqlclass.{slice_from, byte_at, is_edge, is_word, is_ident_char, index_of, has_prefix}

strip_prefix-length : (p s t : Text) → strip_prefix p s ≡ some t → length p + length t ≡ length s
unfolding strip_prefix
strip_prefix-length [] s t h = ground (arith, h)
strip_prefix-length (c ∷ p) [] t h = cc
strip_prefix-length (c ∷ p) (d ∷ s) t h = ground (arith, h, strip_prefix-length p s t)

strip_any-length : (ps : List Text) (s t : Text) → strip_any ps s ≡ some t → length t ≤ length s
unfolding strip_any
strip_any-length [] s t h = cc
strip_any-length (p ∷ ps) s t h = elim (Option-cases (strip_prefix p s)) [
  | inl miss ↦ ground (arith, h, miss, strip_any-length ps s t)
  | inr (u, hit) ↦ ground (arith, h, hit, strip_prefix-length p s t)
]

pub length-trim_left-le : (ps : List Text) (n : ℕ) (s : Text) → length (trim_left ps n s) ≤ length s
unfolding trim_left
length-trim_left-le ps zero s = omega arith
length-trim_left-le ps (suc n) s = elim (Option-cases (strip_any ps s)) [
  | inl miss ↦ rw (miss, trim_left) (omega arith)
  | inr (t, hit) ↦
      rw (hit, trim_left) (omega (arith, length-trim_left-le ps n t, strip_any-length ps s t hit))
]

pub length-drop : (n : ℕ) (s : Text) → length (drop n s) ≡ length s - n
length-drop zero s = omega arith
length-drop (suc n) [] = omega arith
length-drop (suc n) (c ∷ s) = omega (arith, length-drop n s)

-- A slice within the text is in range, and shorter by its start.
pub slice_from-some :
    (i : ℕ) (s : Text)
    → i ≤ length s
    → (t : Text) × (slice_from i s ≡ some t) × (length t ≡ length s - i)
slice_from-some i s h = (drop i s, unfold slice_from in ground (arith, h), length-drop i s)

byte_at-some : (i : ℕ) (s : Text) → i < length s → is_some (byte_at i s) ≡ true
unfolding byte_at
byte_at-some i [] h = absurd (omega (arith, h))
byte_at-some zero (c ∷ s) h = refl
byte_at-some (suc i) (c ∷ s) h = byte_at-some i s (omega (arith, h))

is_edge-some :
    (free : Bool) (up : Text) (i : ℕ)
    → (free ≡ false → i < length up)
    → is_some (is_edge free up i) ≡ true
unfolding is_edge
is_edge-some true up i h = refl
is_edge-some false up i h = go (byte_at i up) (byte_at-some i up (h refl))
  where
    go :
        (o : Option ℕ)
        → is_some o ≡ true
        → is_some (elim o [ none ↦ none | some b ↦ some (not (is_ident_char b)) ]) ≡ true
    go none e = cc
    go (some b) e = refl

-- Neither byte at the edges of a place within the text is out of range.
pub is_word-some : (up : Text) (i end : ℕ) → i ≤ length up → is_some (is_word up i end) ≡ true
unfolding is_word
is_word-some up i end h =
    go (is_edge (i == 0) up (i - 1)) (is_edge (leb (length up) end) up end)
      (is_edge-some (i == 0) up (i - 1) (λ k. ground (arith, h, k)))
      (is_edge-some (leb (length up) end) up end (λ k. ground (arith, k)))
  where
    go :
        (before after : Option Bool)
        → is_some before ≡ true
        → is_some after ≡ true
        → is_some (elim before [
          | none ↦ none
          | some b ↦ elim after [ none ↦ none | some a ↦ some (b && a) ]
        ])
          ≡ true
    go none after e f = cc
    go (some b) none e f = cc
    go (some b) (some a) e f = refl

pub index_byte-lt : (c : ℕ) (s : Text) (i : ℕ) → index_byte c s ≡ some i → i < length s
unfolding index_byte
index_byte-lt c [] i h = cc
index_byte-lt c (d ∷ s) i h = elim (Option-cases (index_byte c s)) [
  | inl miss ↦ ground (arith, h, miss)
  | inr (j, later) ↦ ground (arith, h, later, index_byte-lt c s j later)
]

pub index_of-le : (p s : Text) (i : ℕ) → index_of p s ≡ some i → i + length p ≤ length s
unfolding index_of
index_of-le p [] i h = at_end p h
  where
    at_end : (q : Text) → (if is_nil q then some 0 else none) ≡ some i → i + length q ≤ 0
    at_end [] e = ground (arith, e)
    at_end (c ∷ q) e = cc
index_of-le p (c ∷ s) i h = elim (Option-cases (strip_prefix p (c ∷ s))) [
  | inl miss ↦ elim (Option-cases (index_of p s)) [
    | inl none' ↦ absurd (ground (arith, h, miss, none'))
    | inr (j, later) ↦ ground (arith, h, miss, later, index_of-le p s j later)
  ]
  | inr (t, hit) ↦ ground (arith, h, hit, strip_prefix-length p (c ∷ s) t hit)
]

-- A text with a prefix is not empty.
pub has_prefix-pos : (c : ℕ) (p s : Text) → has_prefix (c ∷ p) s ≡ true → 0 < length s
unfolding strip_prefix
has_prefix-pos c p [] h = cc
has_prefix-pos c p (d ∷ s) h = omega arith
