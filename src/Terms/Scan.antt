-- ===== src/Terms/Scan.antt =====
-- The scanners' parts: put together again they are the text, and none of them can be split.
use chaotic.Base.{
  ℕ, suc, ◌≡◌, refl, ap, ◌∙◌, true, false, ℤ, pos, List, [], ◌∷◌, ◌++◌, Option, none, some, Text,
  length, All, arith, Bool-cases, inl, inr, sym,
}
use chaotic.Terms.{
  next_depth, is_cut, split_from, split_top, index_from, index_top, ArrowState, outside, inside,
  escaped, in_arrow, next_state, arrow_depth, is_arrow, in_part, arrow_from, split_top_arrow,
  starts_with,
}

-- `strings.Join`.
abbrev pub join_onto : Text → Text → List Text → Text
join_onto sep t [] = t
join_onto sep t (u ∷ us) = t ++ (sep ++ join_onto sep u us)

abbrev pub join : Text → List Text → Text
join sep [] = []
join sep (t ∷ ts) = join_onto sep t ts

is_cut-sep : (sep depth c : ℕ) → is_cut sep depth c ≡ true → (c ≡ sep) × (depth ≡ 0)
unfolding is_cut
is_cut-sep sep depth c h = ground arith

join_onto-cons :
    (c : ℕ) (sep t : Text) (ts : List Text) → join_onto sep (c ∷ t) ts ≡ c ∷ join_onto sep t ts
join_onto-cons c sep t [] = refl
join_onto-cons c sep t (u ∷ us) = refl

split_from-join :
    (sep depth : ℕ) (s : Text)
    → join_onto (sep ∷ []) (split_from sep depth s).0 (split_from sep depth s).1 ≡ s
unfolding split_from
split_from-join sep depth [] = refl
split_from-join sep depth (c ∷ s) =
    let rest = split_from-join sep (next_depth c depth) s in
    elim (Bool-cases (is_cut sep depth c)) [
      | inl cut ↦
          rw cut (ap (λ t. sep ∷ t) rest ∙ ap (λ x. x ∷ s) (sym (is_cut-sep sep depth c cut).0))
      | inr goes ↦ rw goes (
          join_onto-cons c (sep ∷ []) (split_from sep (next_depth c depth) s).0
            (split_from sep (next_depth c depth) s).1
          ∙ ap (λ t. c ∷ t) rest)
    ]

-- The position of the first separator.
abbrev pub first_cut : Text × List Text → Option ℕ
first_cut (t, []) = none
first_cut (t, u ∷ us) = some (length t)

is_cut-next_depth : (sep depth c : ℕ) → is_cut sep depth c ≡ true → next_depth c depth ≡ 0
unfolding is_cut next_depth
is_cut-next_depth sep depth c h = ground arith

first_cut-cons :
    (c : ℕ) (t : Text) (ts : List Text)
    → elim (first_cut (t, ts)) [ none ↦ none | some i ↦ some (suc i) ] ≡ first_cut (c ∷ t, ts)
first_cut-cons c t [] = refl
first_cut-cons c t (u ∷ us) = refl

index_from-split_from :
    (sep depth : ℕ) (s : Text)
    → (index_from sep depth s ≡ first_cut (split_from sep depth s))
      × ((index_from sep depth (split_from sep depth s).0 ≡ none)
          × All (λ p. index_from sep 0 p ≡ none) (split_from sep depth s).1)
unfolding split_from index_from
index_from-split_from sep depth [] = (refl, (refl, tt))
index_from-split_from sep depth (c ∷ s) =
    let (first, (head, closed)) = index_from-split_from sep (next_depth c depth) s in
    elim (Bool-cases (is_cut sep depth c)) [
      | inl cut ↦ rw cut (
        refl,
        (
          refl,
          (
            sym (
                  ap (λ d. index_from sep d (split_from sep (next_depth c depth) s).0)
                    (is_cut-next_depth sep depth c cut))
                ∙ head,
            closed,
          ),
        ),
      )
      | inr goes ↦ rw goes (
        ap (λ o. elim o [ none ↦ none | some i ↦ some (suc i) ]) first
            ∙ first_cut-cons c (split_from sep (next_depth c depth) s).0
                (split_from sep (next_depth c depth) s).1,
        (rw (goes, head) refl, closed),
      )
    ]

-- The parts of `splitTop`, joined by the separator, are the text, and none of them has the separator
-- at depth 0.
pub split_top-join :
    (s : Text) (sep : ℕ)
    → (join (sep ∷ []) (split_top s sep) ≡ s) × All (λ p. index_top p sep ≡ none) (split_top s sep)
unfolding split_top index_top
split_top-join s sep = (split_from-join sep 0 s, (index_from-split_from sep 0 s).1)

-- `indexTop` is -1 exactly when `splitTop` gives one part, and the length of the first part otherwise.
pub index_top-split_top : (s : Text) (sep : ℕ) → index_top s sep ≡ first_cut (split_from sep 0 s)
unfolding index_top
index_top-split_top s sep = (index_from-split_from sep 0 s).0

-- The text that an arrow's second byte must still consume.
abbrev Pending : ArrowState → Text → Type 0
Pending in_arrow s = starts_with b'>' s ≡ true
Pending _ s = Unit {0}

-- The text without the ">" of the arrow that is open.
abbrev after_arrow : ArrowState → Text → Text
after_arrow in_arrow (c ∷ s) = s
after_arrow _ s = s

next_state-plain :
    (st : ArrowState) (depth : ℤ) (c : ℕ) (s : Text)
    → is_arrow st depth c s ≡ false
    → Pending (next_state st depth c s) s × (after_arrow (next_state st depth c s) s ≡ s)
unfolding next_state is_arrow
next_state-plain outside depth c s h = ground arith
next_state-plain inside depth c s h = ground arith
next_state-plain escaped depth c s h = (tt, refl)
next_state-plain in_arrow depth c s h = (tt, refl)

next_state-arrow :
    (depth : ℤ) (c : ℕ) (s : Text)
    → is_arrow outside depth c s ≡ true
    → (next_state outside depth c s ≡ in_arrow)
      × ((starts_with b'>' s ≡ true) × (b'-' ∷ b'>' ∷ after_arrow in_arrow s ≡ c ∷ s))
unfolding next_state is_arrow
next_state-arrow depth c [] h = ground arith
next_state-arrow depth c (d ∷ s) h = ground arith

arrow_from-quoted :
    (st : ArrowState) (depth : ℤ) (c : ℕ) (s : Text)
    → is_arrow st depth c s ≡ false
    → in_part st ≡ true
    → let rest = arrow_from (next_state st depth c s) (arrow_depth st depth c) s in
      join_onto (b'-' ∷ b'>' ∷ []) (arrow_from st depth (c ∷ s)).0 (arrow_from st depth (c ∷ s)).1
      ≡ c ∷ join_onto (b'-' ∷ b'>' ∷ []) rest.0 rest.1
unfolding arrow_from
arrow_from-quoted st depth c s h k =
    let rest = arrow_from (next_state st depth c s) (arrow_depth st depth c) s in
    rw (h, k) (join_onto-cons c (b'-' ∷ b'>' ∷ []) rest.0 rest.1)

arrow_from-past :
    (depth : ℤ) (c : ℕ) (s : Text) → arrow_from in_arrow depth (c ∷ s) ≡ arrow_from outside depth s
unfolding arrow_from is_arrow next_state arrow_depth
arrow_from-past depth c s = refl

arrow_from-join :
    (st : ArrowState) (depth : ℤ) (s : Text)
    → Pending st s
    → join_onto (b'-' ∷ b'>' ∷ []) (arrow_from st depth s).0 (arrow_from st depth s).1
      ≡ after_arrow st s
unfolding arrow_from
arrow_from-join outside depth [] h = refl
arrow_from-join inside depth [] h = refl
arrow_from-join escaped depth [] h = refl
arrow_from-join in_arrow depth [] h = refl
arrow_from-join outside depth (c ∷ s) h = elim (Bool-cases (is_arrow outside depth c s)) [
  | inl cut ↦
      let (goes, (ready, whole)) = next_state-arrow depth c s cut in
      rw cut (
        ap (λ t. b'-' ∷ b'>' ∷ t)
          (arrow_from-join (next_state outside depth c s) (arrow_depth outside depth c) s
              (rw goes ready)
            ∙ rw goes refl)
        ∙ whole)
  | inr plain ↦
      let (ready, whole) = next_state-plain outside depth c s plain in
      rw plain (
        join_onto-cons c (b'-' ∷ b'>' ∷ [])
          (arrow_from (next_state outside depth c s) (arrow_depth outside depth c) s).0
          (arrow_from (next_state outside depth c s) (arrow_depth outside depth c) s).1
        ∙ ap (λ t. c ∷ t)
            (arrow_from-join (next_state outside depth c s) (arrow_depth outside depth c) s ready
              ∙ whole))
]
arrow_from-join inside depth (c ∷ s) h =
    let (ready, whole) = next_state-plain inside depth c s (unfold is_arrow in refl) in
    arrow_from-quoted inside depth c s (unfold is_arrow in refl) refl
    ∙ ap (λ t. c ∷ t)
        (arrow_from-join (next_state inside depth c s) (arrow_depth inside depth c) s ready ∙ whole)
arrow_from-join escaped depth (c ∷ s) h =
    let (ready, whole) = next_state-plain escaped depth c s (unfold is_arrow in refl) in
    arrow_from-quoted escaped depth c s (unfold is_arrow in refl) refl
    ∙ ap (λ t. c ∷ t)
        (arrow_from-join (next_state escaped depth c s) (arrow_depth escaped depth c) s ready
          ∙ whole)
arrow_from-join in_arrow depth (c ∷ s) h =
    ap (λ p. join_onto (b'-' ∷ b'>' ∷ []) p.0 p.1) (arrow_from-past depth c s)
    ∙ arrow_from-join outside depth s tt

-- The segments of `splitTopArrow`, joined by "->", are the text, whatever its strings, escapes and
-- parentheses are.
pub split_top_arrow-join : (s : Text) → join (b'-' ∷ b'>' ∷ []) (split_top_arrow s) ≡ s
unfolding split_top_arrow
split_top_arrow-join s = arrow_from-join outside (pos 0) s tt
