-- ===== src/Adapter/Io.antt =====
-- The adapter of io (adapter/io/io.go): readers and writers, with the faults that shape a stream.
pub mod Cap
pub mod Contract
use chaotic.Base.{
  ℕ, suc, ◌+◌, ◌-◌, ◌*◌, ◌/◌, Bool, true, false, if◌then◌else◌, ltb, leb, ltb_ℤ, leb_ℤ, ℤ, pos,
  negsuc, pos_part, ◌==◌, List, [], Option, none, some, is_some, Text, bytes, length, take,
}
use chaotic.Fault.{
  Any, Err, StreamMode, truncation, slow_read, slow_write, stream_err, Outcome, returned, panicked,
}
use chaotic.Engine.Op.{Op}
use chaotic.Engine.Op.Kinds
use chaotic.Engine.Rule.{Call}
use chaotic.Engine.World.{World, Action, enabled}
use chaotic.Engine.Eval.{eval}
use chaotic.Engine.Action.{before}
use chaotic.Adapter.{CallErr, injected, eof, short_write, report_outcome, background}

-- A wrapped reader or writer, with its `truncCap`.
pub record Stream (S : Type 0) : Type 0 where
  pub inner : S
  pub armed : Bool
  pub remaining : ℤ

-- How a call ends: with what it moved, its error and the nanoseconds that it slept; never; or with
-- the panic of a fault.
pub data Moved (A : Type 0) : Type 0 where
  moved : A → Option CallErr → ℕ → Moved A
  stuck : Moved A
  panics : Any → Moved A

-- `opFor`.
abbrev pub op_for : Text → Op
op_for method = record { kind = Kinds.io; name = []; method = method; attrs = [] }

-- `remaining -= n`.
abbrev pub sub_nat : ℤ → ℕ → ℤ
sub_nat (pos n) k = if leb k n then pos (n - k) else negsuc (k - suc n)
sub_nat (negsuc n) k = negsuc (n + k)

-- `slow`: the time to move n bytes at a rate, where the code's float64 rounds; `none` does not return.
unfoldable pub slow : ℤ → ℕ → Option ℕ
slow rate n =
    if leb_ℤ rate (pos 0)
    then (if ltb_ℤ rate (pos 0) then some 0 else none)
    else (if n == 0 then some 0 else some (n * 1000000000 / pos_part rate))

unfoldable pub slowed : {A : Type 0} → Option ℕ → A → Option CallErr → Moved A
slowed none x e = stuck
slowed (some t) x e = moved x e t

-- A call in a world, with the stream after it.
abbrev pub Called : Type 0 → Type 0 → Type 0
Called S A = World × Stream S × Moved A

module _ {S : Type 0} (inner_read : ℕ → S → S × Text × Option CallErr) where
  -- The real read into a buffer of k bytes.
  unfoldable pub plain_read : ℕ → Stream S → Stream S × Moved Text
  plain_read k r = let (s, got, e) = inner_read k r.inner in (record r { inner = s }, moved got e 0)

  -- `cappedRead`.
  unfoldable pub capped_read : ℕ → Stream S → Stream S × Moved Text
  capped_read k r =
      if leb_ℤ r.remaining (pos 0)
      then (r, moved [] (some eof) 0)
      else let k' = if ltb_ℤ r.remaining (pos k) then pos_part r.remaining else k in
        let (s, got, e) = inner_read k' r.inner in
        (record r { inner = s; remaining = sub_nat r.remaining (length got) }, moved got e 0)

  -- `shapeRead`.
  unfoldable pub shape_read : StreamMode → ℤ → ℤ → ℕ → Stream S → Stream S × Moved Text
  unfolding plain_read capped_read slow slowed
  shape_read truncation rate limit k r =
      capped_read k (record r { armed = true; remaining = limit })
  shape_read slow_read rate limit k r =
      let (s, got, e) = inner_read k r.inner in
      (record r { inner = s }, slowed (slow rate (length got)) got e)
  shape_read slow_write rate limit k r = plain_read k r

  -- What follows `Before` in `Read`.
  unfoldable pub proceed_read : ℕ → Action → World → Stream S → Outcome → Called S Text
  unfolding plain_read shape_read report_outcome
  proceed_read k a w r (panicked v) = (w, r, panics v)
  proceed_read k a w r (returned none) =
      let (s, got, e) = inner_read k r.inner in
      (report_outcome a (is_some e) w, record r { inner = s }, moved got e 0)
  proceed_read k a w r (returned (some (stream_err mode rate limit))) =
      let (r', m) = shape_read mode rate limit k r in (report_outcome a false w, r', m)
  proceed_read k a w r (returned (some e)) =
      (report_outcome a true w, r, moved [] (some (injected e)) 0)

  unfoldable pub engine_read : ℕ → Call → World → Stream S → Called S Text
  unfolding proceed_read
  engine_read k c w r =
      let (evaluated, a) = eval (background c) (op_for (bytes "read")) w in
      let (a', begun, o) = before (background c).ctx a evaluated in proceed_read k a' begun r o

  -- `reader.Read`, into a buffer of k bytes.
  unfoldable pub read : ℕ → Call → World → Stream S → Called S Text
  unfolding engine_read capped_read plain_read
  read k c w r =
      if enabled w.engine
      then (if r.armed then (let (r', m) = capped_read k r in (w, r', m)) else engine_read k c w r)
      else (let (r', m) = plain_read k r in (w, r', m))

-- The error of `cappedWrite`: a write that is cut short has one.
unfoldable pub short_err : Bool → Option CallErr → Option CallErr
short_err true none = some short_write
short_err true (some e) = some e
short_err false e = e

module _ {S : Type 0} (inner_write : Text → S → S × ℕ × Option CallErr) where
  -- The real write.
  unfoldable pub plain_write : Text → Stream S → Stream S × Moved ℕ
  plain_write b r = let (s, n, e) = inner_write b r.inner in (record r { inner = s }, moved n e 0)

  -- `cappedWrite`.
  unfoldable pub capped_write : Text → Stream S → Stream S × Moved ℕ
  unfolding short_err
  capped_write b r =
      if leb_ℤ r.remaining (pos 0)
      then (r, moved 0 (some short_write) 0)
      else let short = ltb_ℤ r.remaining (pos (length b)) in
        let (s, n, e) = inner_write (if short then take (pos_part r.remaining) b else b) r.inner in
        (record r { inner = s; remaining = sub_nat r.remaining n }, moved n (short_err short e) 0)

  -- `shapeWrite`.
  unfoldable pub shape_write : StreamMode → ℤ → ℤ → Text → Stream S → Stream S × Moved ℕ
  unfolding plain_write capped_write slow slowed
  shape_write truncation rate limit b r =
      capped_write b (record r { armed = true; remaining = limit })
  shape_write slow_write rate limit b r =
      let (s, n, e) = inner_write b r.inner in (record r { inner = s }, slowed (slow rate n) n e)
  shape_write slow_read rate limit b r = plain_write b r

  -- What follows `Before` in `Write`.
  unfoldable pub proceed_write : Text → Action → World → Stream S → Outcome → Called S ℕ
  unfolding plain_write shape_write report_outcome
  proceed_write b a w r (panicked v) = (w, r, panics v)
  proceed_write b a w r (returned none) =
      let (s, n, e) = inner_write b r.inner in
      (report_outcome a (is_some e) w, record r { inner = s }, moved n e 0)
  proceed_write b a w r (returned (some (stream_err mode rate limit))) =
      let (r', m) = shape_write mode rate limit b r in (report_outcome a false w, r', m)
  proceed_write b a w r (returned (some e)) =
      (report_outcome a true w, r, moved 0 (some (injected e)) 0)

  unfoldable pub engine_write : Text → Call → World → Stream S → Called S ℕ
  unfolding proceed_write
  engine_write b c w r =
      let (evaluated, a) = eval (background c) (op_for (bytes "write")) w in
      let (a', begun, o) = before (background c).ctx a evaluated in proceed_write b a' begun r o

  -- `writer.Write`.
  unfoldable pub write : Text → Call → World → Stream S → Called S ℕ
  unfolding engine_write capped_write plain_write
  write b c w r =
      if enabled w.engine
      then (if r.armed
          then (let (r', m) = capped_write b r in (w, r', m))
          else engine_write b c w r)
      else (let (r', m) = plain_write b r in (w, r', m))
