-- ===== src/Adapter/Io/Cap.antt =====
-- What a truncated stream still passes.
use chaotic.Base.{
  ℕ, zero, suc, ◌+◌, ◌≤◌, ◌≡◌, ◌∙◌, refl, Bool, true, false, if◌then◌else◌, ltb_ℤ, leb_ℤ, ℤ, pos,
  negsuc, pos_part, List, [], ◌∷◌, Option, none, Text, length, take, arith, Bool-cases, inl, inr,
}
use chaotic.Fault.{truncation}
use chaotic.Engine.Rule.{Call}
use chaotic.Engine.World.{World, enabled}
use chaotic.Adapter.{CallErr}
use chaotic.Adapter.Io.{
  Stream, Moved, moved, stuck, panics, sub_nat, capped_read, shape_read, read, capped_write,
  shape_write, write,
}

-- The bytes that a read gave, and that a write took.
abbrev pub bytes_read : Moved Text → ℕ
bytes_read (moved got e t) = length got
bytes_read stuck = 0
bytes_read (panics v) = 0

abbrev pub bytes_written : Moved ℕ → ℕ
bytes_written (moved n e t) = n
bytes_written stuck = 0
bytes_written (panics v) = 0

-- io.Reader: no more bytes than the buffer has.
abbrev pub IsReader : {S : Type 0} → (ℕ → S → S × Text × Option CallErr) → Type 0
IsReader inner = (k : ℕ) (s : _) → length (inner k s).1 ≤ k

-- io.Writer: no more bytes than given, and fewer only with an error.
abbrev pub IsWriter : {S : Type 0} → (Text → S → S × ℕ × Option CallErr) → Type 0
IsWriter inner =
    (b : Text) (s : _)
    → ((inner b s).1 ≤ length b) × ((inner b s).2 ≡ none → (inner b s).1 ≡ length b)

pub length-take : (n : ℕ) (b : Text) → n ≤ length b → length (take n b) ≡ n
length-take zero b h = refl
length-take (suc n) [] h = omega (arith, h)
length-take (suc n) (x ∷ b) h = omega (arith, length-take n b (omega (arith, h)))

-- What a call moved comes out of the cap, which stays armed.
abbrev Spends : {S : Type 0} → Stream S → Stream S → ℕ → Type 0
Spends r r' n = (r'.armed ≡ r.armed) × (n + pos_part r'.remaining ≤ pos_part r.remaining)

sub_nat-le : (r : ℤ) (n : ℕ) → n ≤ pos_part r → n + pos_part (sub_nat r n) ≤ pos_part r
sub_nat-le (pos m) n h = ground (arith, h)
sub_nat-le (negsuc m) n h = ground (arith, h)

if_both :
    {A : Type 0} (a b : Bool) (x y z : A)
    → a ≡ true
    → b ≡ true
    → (if a then (if b then x else y) else z) ≡ x
if_both true true x y z h k = refl
if_both true false x y z h k = cc
if_both false b x y z h k = cc

-- Reads one after the other, each with its buffer's length, and the bytes that they gave.
unfoldable pub read_all :
    {S : Type 0} → (ℕ → S → S × Text × Option CallErr) → List (ℕ × Call) → World → Stream S → ℕ
read_all inner [] w r = 0
read_all inner ((k, c) ∷ calls) w r =
    let (w', r', m) = read inner k c w r in bytes_read m + read_all inner calls w' r'

unfoldable pub write_all :
    {S : Type 0} → (Text → S → S × ℕ × Option CallErr) → List (Text × Call) → World → Stream S → ℕ
write_all inner [] w r = 0
write_all inner ((b, c) ∷ calls) w r =
    let (w', r', m) = write inner b c w r in bytes_written m + write_all inner calls w' r'

module _ {S : Type 0} (inner : ℕ → S → S × Text × Option CallErr) (is_reader : IsReader inner) where
  capped_read-Spends :
      (k : ℕ) (r : Stream S)
      → Spends r (capped_read inner k r).0 (bytes_read (capped_read inner k r).1)
  unfolding capped_read
  capped_read-Spends k r = elim (Bool-cases (leb_ℤ r.remaining (pos 0))) [
    | inl spent ↦ rw (Spends, spent) (refl, omega arith)
    | inr left ↦
        rw (Spends, left) (refl, sub_nat-le r.remaining _ (fits (ltb_ℤ r.remaining (pos k)) refl))
  ]
    where
      fits :
          (b : Bool)
          → ltb_ℤ r.remaining (pos k) ≡ b
          → length (inner (if b then pos_part r.remaining else k) r.inner).1 ≤ pos_part r.remaining
      fits true e = is_reader (pos_part r.remaining) r.inner
      fits false e = ground (arith, is_reader k r.inner, e)

  read-capped :
      (k : ℕ) (c : Call) (w : World) (r : Stream S)
      → enabled w.engine ≡ true
      → r.armed ≡ true
      → read inner k c w r ≡ (w, (capped_read inner k r).0, (capped_read inner k r).1)
  unfolding read
  read-capped k c w r on armed = if_both (enabled w.engine) r.armed _ _ _ on armed

  reads-le-remaining :
      (calls : List (ℕ × Call)) (w : World) (r : Stream S)
      → enabled w.engine ≡ true
      → r.armed ≡ true
      → read_all inner calls w r ≤ pos_part r.remaining
  unfolding read_all
  reads-le-remaining [] w r on armed = omega arith
  reads-le-remaining ((k, c) ∷ calls) w r on armed =
      let (still, spent) = capped_read-Spends k r in
      let rest = reads-le-remaining calls w (capped_read inner k r).0 on (still ∙ armed) in
      rw (read-capped k c w r on armed) (omega (arith, spent, rest))

  -- From a stream that is armed on.
  armed-reads :
      (k : ℕ) (calls : List (ℕ × Call)) (w : World) (r : Stream S)
      → enabled w.engine ≡ true
      → r.armed ≡ true
      → bytes_read (capped_read inner k r).1 + read_all inner calls w (capped_read inner k r).0
        ≤ pos_part r.remaining
  armed-reads k calls w r on armed =
      let (still, spent) = capped_read-Spends k r in
      omega (arith, spent, reads-le-remaining calls w (capped_read inner k r).0 on (still ∙ armed))

module _ {S : Type 0} (inner : Text → S → S × ℕ × Option CallErr) (is_writer : IsWriter inner) where
  capped_write-Spends :
      (b : Text) (r : Stream S)
      → Spends r (capped_write inner b r).0 (bytes_written (capped_write inner b r).1)
  unfolding capped_write
  capped_write-Spends b r = elim (Bool-cases (leb_ℤ r.remaining (pos 0))) [
    | inl spent ↦ rw (Spends, spent) (refl, omega arith)
    | inr left ↦
        rw (Spends, left)
          (refl, sub_nat-le r.remaining _ (fits (ltb_ℤ r.remaining (pos (length b))) refl))
  ]
    where
      fits :
          (short : Bool)
          → ltb_ℤ r.remaining (pos (length b)) ≡ short
          → (inner (if short then take (pos_part r.remaining) b else b) r.inner).1
            ≤ pos_part r.remaining
      fits true e = ground (
        arith,
        e,
        (is_writer (take (pos_part r.remaining) b) r.inner).0,
        length-take (pos_part r.remaining) b,
      )
      fits false e = ground (arith, e, (is_writer b r.inner).0)

  write-capped :
      (b : Text) (c : Call) (w : World) (r : Stream S)
      → enabled w.engine ≡ true
      → r.armed ≡ true
      → write inner b c w r ≡ (w, (capped_write inner b r).0, (capped_write inner b r).1)
  unfolding write
  write-capped b c w r on armed = if_both (enabled w.engine) r.armed _ _ _ on armed

  writes-le-remaining :
      (calls : List (Text × Call)) (w : World) (r : Stream S)
      → enabled w.engine ≡ true
      → r.armed ≡ true
      → write_all inner calls w r ≤ pos_part r.remaining
  unfolding write_all
  writes-le-remaining [] w r on armed = omega arith
  writes-le-remaining ((b, c) ∷ calls) w r on armed =
      let (still, spent) = capped_write-Spends b r in
      let rest = writes-le-remaining calls w (capped_write inner b r).0 on (still ∙ armed) in
      rw (write-capped b c w r on armed) (omega (arith, spent, rest))

  -- From a stream that is armed on.
  armed-writes :
      (b : Text) (calls : List (Text × Call)) (w : World) (r : Stream S)
      → enabled w.engine ≡ true
      → r.armed ≡ true
      → bytes_written (capped_write inner b r).1
          + write_all inner calls w (capped_write inner b r).0
        ≤ pos_part r.remaining
  armed-writes b calls w r on armed =
      let (still, spent) = capped_write-Spends b r in
      omega
        (arith, spent, writes-le-remaining calls w (capped_write inner b r).0 on (still ∙ armed))

-- On an enabled engine, a Truncate fault of limit L lets through at most L bytes in all: with the read
-- that it hits and all later ones, whatever their buffers, of a reader that gives no more bytes than
-- a buffer has; and so for a writer that takes no more than it is given. A negative limit is 0.
pub truncated-le-limit :
    {S : Type 0} (inner_read : ℕ → S → S × Text × Option CallErr)
    (inner_write : Text → S → S × ℕ × Option CallErr) (rate limit : ℤ) (k : ℕ) (b : Text)
    (reads : List (ℕ × Call)) (writes : List (Text × Call)) (w : World) (r : Stream S)
    → IsReader inner_read
    → IsWriter inner_write
    → enabled w.engine ≡ true
    → let (r1, m1) = shape_read inner_read truncation rate limit k r in
      let (r2, m2) = shape_write inner_write truncation rate limit b r in
      (bytes_read m1 + read_all inner_read reads w r1 ≤ pos_part limit)
      × (bytes_written m2 + write_all inner_write writes w r2 ≤ pos_part limit)
truncated-le-limit inner_read inner_write rate limit k b reads writes w r rd wr on =
    unfold shape_read shape_write in
    (
      armed-reads inner_read rd k reads w (record r { armed = true; remaining = limit }) on refl,
      armed-writes inner_write wr b writes w (record r { armed = true; remaining = limit }) on refl,
    )
