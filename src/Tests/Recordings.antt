-- ===== src/Tests/Recordings.antt =====
-- Recorded decisions.
use chaotic.Base.{List, [], ◌∷◌, some, bytes, pos}
use chaotic.Fault.{latency_kind}
use chaotic.Engine.World.{Notice, Reason}
use chaotic.Chaostest.Golden.{Event, record_all, build_replay_rules}
use chaotic.Chaostest.Golden.Replaying.{AllReplay, build_replay_rules-AllReplay}
use chaotic.Tests.{query, store, action}

abbrev events : List Event
events =
    record_all
      (Notice.rule_fired (bytes "r") query action
        ∷ Notice.fault_injected (bytes "r") query latency_kind (some (pos 7))
        ∷ Notice.rule_skipped (bytes "r") query Reason.counter
        ∷ [])
      []

build_replay_rules-AllReplay_example : AllReplay events (build_replay_rules events store)
build_replay_rules-AllReplay_example = build_replay_rules-AllReplay events store
