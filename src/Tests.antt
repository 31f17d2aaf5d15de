-- ===== src/Tests.antt =====
-- Concrete inputs on which the theorems are applied.
pub mod Calls
pub mod Schedules
pub mod Config
pub mod Faults
pub mod Sources
pub mod Adapters
pub mod Recordings
pub mod Queries
use chaotic.Base.{
  ℕ, ◌+◌, Bool, true, false, List, [], ◌∷◌, Option, none, some, Text, Map, bytes, pos, ℤ,
}
use chaotic.Fault.{Context, Cells, Rng, Fault, Any, plain_err}
use chaotic.Engine.Op.{Op}
use chaotic.Engine.Counter
use chaotic.Engine.Counter.{Counter}
use chaotic.Engine.Staged.{new_staged_counter, Stage}
use chaotic.Engine.Sticky.{new_tracker, Tracker}
use chaotic.Engine.Bucket.{Bucket}
use chaotic.Engine.Semaphore.{Semaphore}
use chaotic.Engine.Rule.{Rule, Store, Call}
use chaotic.Engine.World.{World, Engine, Action, RuleAction, rule_action}
use chaotic.Engine.Action.Interleaving.{System}

abbrev pub quiet : Context
quiet = record {
  done_in = none;
  done_err = [];
  timer_first = true;
  cell = some 0;
  int64_n = λ n. 0;
}

abbrev pub still : Cells
still = record { skews = λ p. pos 0; rngs = λ p. record { answers = λ k n. 0; drawn = 0 } }

abbrev pub noon : Call
noon = record { ctx = quiet; now = 1000; hour = 12; minute = 0 }

abbrev pub query : Op
query = record { kind = 3; name = bytes "q"; method = []; attrs = (bytes "user", bytes "7") ∷ [] }

abbrev pub two_stages : List Stage
two_stages =
    record { times = pos 2; faults = Fault.conn_drop ∷ [] }
    ∷ record { times = pos 0; faults = Fault.latency (pos 5) ∷ [] }
    ∷ []

abbrev pub tracker : Tracker
tracker = record { key = bytes "user"; window = pos 50; cap = 1; seen = (bytes "3", pos 20) ∷ [] }

abbrev pub bucket : Bucket
bucket = record { tokens = 0; max_tokens = 2000000000; rps = 2; last = 10 }

abbrev pub store : Store
store = record {
  counters = λ p. Counter.always;
  stageds = λ p. record { stages = []; cum = []; open_ended = false; cur = 0 };
  trackers = λ p. tracker;
  buckets = λ p. bucket;
  next = 1;
}

abbrev pub faults : List Fault
faults =
    Fault.latency (pos 7)
    ∷ Fault.response_mutate none
    ∷ Fault.error (some (plain_err (bytes "down")))
    ∷ []

abbrev pub rule : Rule
rule = record {
  name = bytes "r";
  matchers = (λ c op. true) ∷ [];
  counter = 0;
  faults = faults;
  sticky_at = none;
  limiter_at = none;
  staged_at = none;
}

abbrev pub engine : Engine
engine = record {
  rules = some (rule ∷ []);
  observer = true;
  rich_observer = true;
  killswitch = none;
  budget = none;
  rate_limiter = none;
  max_conc = some (record { capacity = 2; held = 0 });
  hits = (bytes "r", 0) ∷ [];
  disabled = false;
}

abbrev pub world : World
world = record { engine = engine; store = store; cells = still; notices = [] }

abbrev pub action : RuleAction
action = record {
  faults = Fault.latency (pos 7) ∷ Fault.error (some (plain_err (bytes "down"))) ∷ [];
  mutators = Fault.response_mutate none ∷ [];
  op = query;
  name = bytes "r";
  has_release = true;
  released = false;
}

abbrev pub idle : System
idle = record { world = world; live = [] }
