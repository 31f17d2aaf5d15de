-- ===== src/Adapter/Io/Contract.antt =====
-- The contract of io.Writer, and the writes that the engine shapes.
use chaotic.Base.{
  ℕ, ◌≤◌, ◌≡◌, refl, Bool, true, false, if◌then◌else◌, ltb_ℤ, leb_ℤ, ℤ, pos, pos_part, Option, none,
  some, Text, bytes, length, take, arith, Bool-cases, inl, inr,
}
use chaotic.Fault.{
  conn_drop_err, disconnect_err, http_status_err, header_err, stream_err, context_err, plain_err,
  StreamMode, truncation, slow_read, slow_write, Outcome, returned, panicked,
}
use chaotic.Engine.Rule.{Call}
use chaotic.Engine.World.{World, Action, enabled}
use chaotic.Engine.Eval.{eval}
use chaotic.Engine.Action.{before}
use chaotic.Adapter.{CallErr, background}
use chaotic.Adapter.Io.{
  Stream, Moved, moved, stuck, panics, slowed, short_err, plain_write, capped_write, shape_write,
  proceed_write, engine_write, write, op_for,
}
use chaotic.Adapter.Io.Cap.{IsWriter, length-take}

-- A count of io.Writer's contract, for a call with this buffer.
abbrev pub Writes : Text → Moved ℕ → Type 0
Writes b (moved n e t) = (n ≤ length b) × (e ≡ none → n ≡ length b)
Writes b stuck = Unit {0}
Writes b (panics v) = Unit {0}

slowed-Writes :
    (b : Text) (t : Option ℕ) (n : ℕ) (e : Option CallErr)
    → (n ≤ length b) × (e ≡ none → n ≡ length b)
    → Writes b (slowed t n e)
unfolding slowed
slowed-Writes b none n e h = tt
slowed-Writes b (some t) n e h = h

if-Writes :
    {A B : Type 0} (b : Text) (x : Bool) (p q : A × B × Moved ℕ)
    → (x ≡ true → Writes b p.2)
    → (x ≡ false → Writes b q.2)
    → Writes b (if x then p else q).2
if-Writes b true p q h k = h refl
if-Writes b false p q h k = k refl

short_err-some : (e : Option CallErr) → ¬ (short_err true e ≡ none)
unfolding short_err
short_err-some none h = cc
short_err-some (some e) h = cc

module _ {S : Type 0} (inner : Text → S → S × ℕ × Option CallErr) (is_writer : IsWriter inner) where
  capped_write-Writes : (b : Text) (r : Stream S) → Writes b (capped_write inner b r).1
  unfolding capped_write
  capped_write-Writes b r = elim (Bool-cases (leb_ℤ r.remaining (pos 0))) [
    | inl spent ↦ rw (Writes, spent) (omega arith, λ e. cc)
    | inr left ↦ rw (Writes, left) (cut (ltb_ℤ r.remaining (pos (length b))) refl)
  ]
    where
      cut :
          (short : Bool)
          → ltb_ℤ r.remaining (pos (length b)) ≡ short
          → let (s, n, e) = inner (if short then take (pos_part r.remaining) b else b) r.inner in
            (n ≤ length b) × (short_err short e ≡ none → n ≡ length b)
      cut false h = unfold short_err in is_writer b r.inner
      cut true h = (
        ground (
          arith,
          h,
          (is_writer (take (pos_part r.remaining) b) r.inner).0,
          length-take (pos_part r.remaining) b,
        ),
        λ e. absurd (short_err-some (inner (take (pos_part r.remaining) b) r.inner).2 e),
      )

  shape_write-Writes :
      (mode : StreamMode) (rate limit : ℤ) (b : Text) (r : Stream S)
      → Writes b (shape_write inner mode rate limit b r).1
  unfolding shape_write
  shape_write-Writes truncation rate limit b r =
      capped_write-Writes b (record r { armed = true; remaining = limit })
  shape_write-Writes slow_write rate limit b r = slowed-Writes b _ _ _ (is_writer b r.inner)
  shape_write-Writes slow_read rate limit b r = unfold plain_write in is_writer b r.inner

  proceed_write-Writes :
      (b : Text) (a : Action) (w : World) (r : Stream S) (o : Outcome)
      → Writes b (proceed_write inner b a w r o).2
  unfolding proceed_write
  proceed_write-Writes b a w r (panicked v) = tt
  proceed_write-Writes b a w r (returned none) = is_writer b r.inner
  proceed_write-Writes b a w r (returned (some (stream_err mode rate limit))) =
      shape_write-Writes mode rate limit b r
  proceed_write-Writes b a w r (returned (some conn_drop_err)) = (omega arith, λ e. cc)
  proceed_write-Writes b a w r (returned (some disconnect_err)) = (omega arith, λ e. cc)
  proceed_write-Writes b a w r (returned (some (http_status_err c t))) = (omega arith, λ e. cc)
  proceed_write-Writes b a w r (returned (some (header_err s k v))) = (omega arith, λ e. cc)
  proceed_write-Writes b a w r (returned (some (context_err t))) = (omega arith, λ e. cc)
  proceed_write-Writes b a w r (returned (some (plain_err t))) = (omega arith, λ e. cc)

  engine_write-Writes :
      (b : Text) (c : Call) (w : World) (r : Stream S) → Writes b (engine_write inner b c w r).2
  unfolding engine_write
  engine_write-Writes b c w r =
      let (evaluated, a) = eval (background c) (op_for (bytes "write")) w in
      let (a', begun, o) = before (background c).ctx a evaluated in
      proceed_write-Writes b a' begun r o

-- Around a writer that keeps io.Writer's contract, `Write` keeps it, too, whatever the engine
-- injects: it counts no more bytes than it is given, and fewer only with an error.
pub write-Writes :
    {S : Type 0} (inner : Text → S → S × ℕ × Option CallErr) (b : Text) (c : Call) (w : World)
    (r : Stream S)
    → IsWriter inner
    → Writes b (write inner b c w r).2
unfolding write
write-Writes inner b c w r is_writer =
    if-Writes b (enabled w.engine) _ _
      (λ on.
        if-Writes b r.armed _ _ (λ armed. capped_write-Writes inner is_writer b r)
          (λ plain. engine_write-Writes inner is_writer b c w r))
      (λ off. unfold plain_write in is_writer b r.inner)
