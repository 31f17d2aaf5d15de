-- ===== src/Fault.antt =====
-- The fault primitives (fault/fault.go, fault/clock.go, fault/http.go, fault/mutate.go,
-- fault/stream.go, fault/kind.go): what each one does when a rule fires it.
pub mod Jitter
pub mod Clock
pub mod Laws
use chaotic.Base.{
  ℕ, suc, ◌+◌, ◌-◌, ◌%◌, ◌≡◌, refl, Bool, true, false, Option, none, some, if◌then◌else◌, ltb, leb,
  ltb_ℤ, leb_ℤ, ℤ, pos, negsuc, pos_part, neg_part, int64, full_word, Text, ◌==◌,
}

-- A Go value of type `any`. The program compares none of them; `ref` is a pointer of the caller.
pub data Any : Type 0 where
  nil : Any
  text : Text → Any
  ref : ℕ → Any

-- stream.go: the modes of a stream fault.
pub data StreamMode : Type 0 where
  slow_read slow_write truncation : StreamMode

-- kind.go.
pub data Kind : Type 0 where
  unknown_kind latency_kind jittered_kind error_kind panic_kind conn_drop_kind http_status_kind :
      Kind
  header_kind clock_kind disconnect_kind slow_reader_kind slow_writer_kind truncate_kind : Kind
  response_mutate_kind : Kind

-- The error values that a fault returns: the package's sentinels, and those of its caller.
pub data Err : Type 0 where
  conn_drop_err disconnect_err : Err
  http_status_err : ℤ → Text → Err
  header_err : Bool → Text → Text → Err
  stream_err : StreamMode → ℤ → ℤ → Err
  context_err : Text → Err
  plain_err : Text → Err

-- How a Go call ends: it returns an error (`none` is nil), or it panics.
pub data Outcome : Type 0 where
  returned : Option Err → Outcome
  panicked : Any → Outcome

-- A seeded generator: the stream of its answers to `Int64N`, and how many have been drawn.
pub record Rng : Type 0 where
  pub answers : ℕ → ℕ → ℕ
  pub drawn : ℕ

-- The state that faults share by pointers: clock cells and generators.
pub record Cells : Type 0 where
  pub skews : ℕ → ℤ
  pub rngs : ℕ → Rng

-- What a call sees of its context: when it is done and why, which of the two channels the select
-- of `sleep` takes when both are ready, the clock cell bound to it, and the answers of the global
-- generator's `Int64N` at this moment.
pub record Context : Type 0 where
  pub done_in : Option ℕ
  pub done_err : Text
  pub timer_first : Bool
  pub cell : Option ℕ
  pub int64_n : ℕ → ℕ

pub record Applied : Type 0 where
  pub outcome : Outcome
  pub slept : ℕ
  pub cells : Cells

pub data Fault : Type 0 where
  latency : ℤ → Fault
  jittered : ℤ → ℤ → Fault
  seeded_jitter : ℤ → ℤ → ℕ → Fault
  error : Option Err → Fault
  panic : Any → Fault
  conn_drop disconnect : Fault
  http_status : ℤ → Text → Fault
  header : Bool → Text → Text → Fault
  clock : ℤ → Fault
  response_mutate : Option (Any → Any) → Fault
  stream : StreamMode → ℤ → ℤ → Fault
  -- an implementation of the caller: how its Apply ends and how long it sleeps, and its MutateResult
  -- if it has one
  custom : (Context → Outcome × ℕ) → Option (Any → Any) → Fault

-- A function of pointers with one pointer's content replaced.
unfoldable pub update {ℓ} : {A : Type ℓ} → (ℕ → A) → ℕ → A → ℕ → A
update f p v q = if p == q then v else f q

-- `func sleep`: the error it returns, and how long it lasts.
pub sleep : Context → ℤ → Option Err × ℕ
sleep c d = if leb_ℤ d (pos 0) then (none, 0) else elim c.done_in [
  | none ↦ (none, pos_part d)
  | some t ↦
      if ltb (pos_part d) t
      then (none, pos_part d)
      else if ltb t (pos_part d)
      then (some (context_err c.done_err), t)
      else if c.timer_first
      then (none, t)
      else (some (context_err c.done_err), t)
]

-- `int64(hi - lo)` for `lo < hi`, as a bit pattern plus one: the argument of `Int64N`.
abbrev pub span : ℤ → ℤ → ℕ
span lo hi = (pos_part hi + neg_part lo) - (pos_part lo + neg_part hi)

-- `lo + time.Duration(k)`.
abbrev pub add_nat : ℤ → ℕ → ℤ
add_nat (pos n) k = pos (n + k)
add_nat (negsuc n) k = if ltb n k then pos (k - suc n) else negsuc (n - k)

-- The duration that a jitter window draws, given the generator's `Int64N`; `none` where `Int64N`
-- panics, on an argument that is not positive.
unfoldable pub draw : ℤ → ℤ → (ℕ → ℕ) → Option ℤ
draw lo hi gen =
    if leb_ℤ hi lo
    then some lo
    else if leb_ℤ (int64 ((span lo hi + 1) % full_word)) (pos 0)
    then none
    else some (add_nat lo (gen (span lo hi + 1)))

-- `sleep` on what the window drew. The panic is the one of `rand.Int64N`.
pub sleep_drawn : Context → Option ℤ → Cells → Applied
unfolding sleep
sleep_drawn c none s = record { outcome = panicked nil; slept = 0; cells = s }
sleep_drawn c (some d) s = record {
  outcome = returned (sleep c d).0;
  slept = (sleep c d).1;
  cells = s;
}

-- `seededJitter.draw` advances its generator only when it draws.
pub seeded_cells : ℤ → ℤ → ℕ → Cells → Cells
unfolding update
seeded_cells lo hi p s =
    let g = s.rngs p in
    if leb_ℤ hi lo
    then s
    else record s { rngs = update s.rngs p (record g { drawn = suc g.drawn }) }

-- `clockFault.Apply` stores the skew into the cell bound to the context, if any.
pub store_skew : Option ℕ → ℤ → Cells → Cells
unfolding update
store_skew none d s = s
store_skew (some p) d s = record s { skews = update s.skews p d }

abbrev at_once : Option Err → Cells → Applied
at_once e s = record { outcome = returned e; slept = 0; cells = s }

-- `Apply` of every fault type.
pub apply : Context → Fault → Cells → Applied
unfolding sleep_drawn draw seeded_cells store_skew
apply c (latency d) s = sleep_drawn c (some d) s
apply c (jittered lo hi) s = sleep_drawn c (draw lo hi c.int64_n) s
apply c (seeded_jitter lo hi p) s =
    let g = s.rngs p in sleep_drawn c (draw lo hi (g.answers g.drawn)) (seeded_cells lo hi p s)
apply c (error e) s = at_once e s
apply c (panic v) s = record { outcome = panicked v; slept = 0; cells = s }
apply c conn_drop s = at_once (some conn_drop_err) s
apply c disconnect s = at_once (some disconnect_err) s
apply c (http_status code body) s = at_once (some (http_status_err code body)) s
apply c (header strip key value) s = at_once (some (header_err strip key value)) s
apply c (clock d) s = at_once none (store_skew c.cell d s)
apply c (response_mutate f) s = at_once none s
apply c (stream m rate limit) s = at_once (some (stream_err m rate limit)) s
apply c (custom f m) s = record { outcome = (f c).0; slept = (f c).1; cells = s }

-- `streamFault.Kind`.
stream_kind : StreamMode → Kind
stream_kind slow_write = slow_writer_kind
stream_kind truncation = truncate_kind
stream_kind slow_read = slow_reader_kind

-- `KindOf`.
unfoldable pub kind_of : Fault → Kind
unfolding stream_kind
kind_of (latency d) = latency_kind
kind_of (jittered lo hi) = jittered_kind
kind_of (seeded_jitter lo hi p) = jittered_kind
kind_of (error e) = error_kind
kind_of (panic v) = panic_kind
kind_of conn_drop = conn_drop_kind
kind_of disconnect = disconnect_kind
kind_of (http_status code body) = http_status_kind
kind_of (header strip key value) = header_kind
kind_of (clock d) = clock_kind
kind_of (response_mutate f) = response_mutate_kind
kind_of (stream m rate limit) = stream_kind m
kind_of (custom f m) = unknown_kind

-- The `Duration` method, of the faults that have one.
unfoldable pub duration : Fault → Option ℤ
duration (latency d) = some d
duration (jittered lo hi) = some hi
duration (seeded_jitter lo hi p) = some hi
duration _ = none

-- The structural test for `resultMutator`, with the method. A nil function passes the result on.
unfoldable pub mutate_result : Fault → Option (Any → Any)
mutate_result (response_mutate none) = some (λ r. r)
mutate_result (response_mutate (some f)) = some f
mutate_result (custom f m) = m
mutate_result _ = none

-- `Skew` and `ResetClock`.
pub skew : Context → Cells → ℤ
skew c s = elim c.cell [ none ↦ pos 0 | some p ↦ s.skews p ]

pub reset_clock : Context → Cells → Cells
unfolding store_skew
reset_clock c s = store_skew c.cell (pos 0) s
