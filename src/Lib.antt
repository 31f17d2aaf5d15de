-- ===== src/Lib.antt =====
-- A model of chaotic's core, the part that decides which fault an intercepted call gets, and proofs
-- of what it promises.
--
-- The program. An adapter describes each intercepted call as an operation (engine/op.go) and asks
-- the engine (engine/engine.go) for an action. The engine walks its rules in order; a rule
-- (engine/rule.go) has selectors, a counter or stages (engine/staged.go), a sticky tracker
-- (engine/sticky.go) and faults (fault/). The safety rails, a failure budget (engine/budget.go),
-- token buckets (engine/ratelimit.go, engine/perrule.go) and a limit on concurrent faults
-- (engine/maxconcurrent.go), may hold a fault back. The adapter then uses the action: Before runs the
-- faults, Result lets mutators change the call's result, After gives the slot back, Outcome feeds the
-- budget. Rules may be written as specs (engine/spec.go) or in a compact syntax
-- (source/terms/terms.go), and a linter (engine/lint.go) looks at them first. chaos/point.go runs a
-- whole action at a named point of the program.
--
-- The files.
--   Base: helpers; signed integers over the native numbers, lists, texts as bytes, maps, float64
--     values that are compared with draws.
--   Fault: every fault of fault/ with its Apply, on explicit clock cells and generators. Fault/Jitter,
--     Fault/Clock and Fault/Laws hold what is proved of them.
--   Engine/Op, Counter, Staged, Sticky, Bucket, Budget, Semaphore: one part of the engine each, with
--     its proofs in the modules below it.
--   Engine/Rule: rules and the store of the objects that their copies share; Engine/Rule/Options has
--     the options, one function for each Go function.
--   Engine/World: the engine's state and administration; Engine/New: its construction;
--     Engine/Eval: Eval and the gates of evalRule; Engine/Action: Before, After, Result and Outcome;
--     Engine/Action/Interleaving: concurrent callers as a step relation; Engine/Action/Point:
--     chaos/point.go.
--   Engine/Spec: specs and BuildRule with every error as a value; Engine/Lint: the linter.
--   Terms: the scanners of the compact syntax; Terms/Parse: Parse and Compile.
--   Source/Http: the admin endpoint (source/http/handler.go), a request as a step on the handler and its
--     engine; Source/File: loading and watching a file (source/file/); Source/Env: source/env/env.go.
--   Adapter: the lifecycle that the methods of the adapters share, Eval, Before, the real call and
--     reportOutcome; Adapter/Kafka, Nats, Rabbitmq, Mongo, Aws, Redis, Grpc and Net: the methods of each
--     adapter (adapter/kafka/kafka.go and so on), with the real call as a parameter; Adapter/Io: readers and
--     writers whose streams are cut or slowed; Adapter/Http: the transport; Adapter/Httpsrv: the
--     middleware.
--   Sqlclass: the classification of SQL texts (internal/sqlclass/sqlclass.go); Adapter/Sql: the driver of
--     database/sql (adapter/sql/driver.go, conn_optional.go); Adapter/Pgx: pools, connections and
--     transactions of pgx (adapter/pgx/).
--   Chaostest/Golden: the recordings of chaostest/golden/golden.go and the rules that replay them.
--   Tests: concrete inputs.
--
-- How code is rendered. A method on a pointer takes the state and returns the new one. Objects that
-- rules share by pointers (counters, trackers, buckets, stages) are cells of a store. A panic is none
-- or an outcome of its own; an error is a value with what its message shows, and the text of the
-- message is not modelled. Times are nanoseconds given with each call. A 64-bit counter is its bit
-- pattern and wraps; theorems that need it say how many matches come before that. A float64
-- probability is a number of units of 2 ^ -53, the grid of the generator's draws, or NaN; the failure
-- rate is a fraction; tokens are counted in billionths, where the code's
-- float64 rounds, so that a bucket may let a call through a fraction of a token earlier or later. The order in
-- which Go ranges over a map is the order of the association list. Concurrency is an interleaving of
-- whole method calls: the steps inside one call, between which another call may run, are not told
-- apart. Recursion is on the rules, faults or bytes, so no fuel is needed, except in
-- trimming spaces, where it is the length of the text and each space that goes takes a byte, and in the
-- two loops of the classification of SQL texts, where it is one more than the length.
--
-- The real calls of clients return; the handlers of HTTP and gRPC servers may panic.
--
-- Parameters. time.ParseDuration, path.Match, the generators' streams, strconv.ParseFloat,
-- strconv.Unquote, yaml.v3, the events of fsnotify, the real calls of the adapters, net/http's headers
-- and the status codes that it rejects,
-- status.FromError, regular expressions, predicates and custom faults are arguments; what a theorem
-- needs of them is among its hypotheses.
--
-- Not modelled: the tracer of pgx (adapter/pgx/config.go), the observers'
-- exporters (observer/), the other test helpers
-- (chaostest/) and golden's files, the routing of net/http and its JSON, the
-- set-up of the file watcher, the commands (cmd/), logging, and the texts of messages.
pub mod Base
pub mod Fault
pub mod Engine
pub mod Terms
pub mod Source
pub mod Sqlclass
pub mod Adapter
pub mod Chaostest
pub mod Tests
