-- ===== src/Adapter/Clients.antt =====
-- What the methods of the adapters of message brokers, databases, remote calls and connections leave
-- with the engine (adapter/).
use chaotic.Base.{
  ℕ, List, [], ◌∷◌, Option, none, some, is_some, Text, bytes, refl, ◌≡◌, true, ap, sym,
}
use chaotic.Fault.{Any, Err}
use chaotic.Engine.Op.{Op}
use chaotic.Engine.Rule.{Call}
use chaotic.Engine.World.{World, Action}
use chaotic.Engine.Action.Slots.{WithinCapacity, result-engine}
use chaotic.Adapter.{
  CallErr, Ended, Returned, has_failed, opening, as_it_is, background, intercept_with,
}
use chaotic.Adapter.Settling.{
  Settles, SettlesError, SettlesValue, intercept-Settles, intercept_value-Settles,
  intercept_with-Settles,
}
use chaotic.Adapter.Kafka
use chaotic.Adapter.Nats
use chaotic.Adapter.Rabbitmq
use chaotic.Adapter.Mongo
use chaotic.Adapter.Aws
use chaotic.Adapter.Net
use chaotic.Adapter.Grpc.{
  to_status, show_reply, server_op, unary_client, unary_server, stream_client, stream_server,
}
use chaotic.Adapter.Grpc.Serving.{HandlesCall, handle_with-Handles}
use chaotic.Adapter.Redis.{
  Cmd, Processed, map_err, set_errs, err_of, process_hook, dial_hook, process_pipeline_hook,
}

-- The methods of the adapters of Kafka, NATS and RabbitMQ settle.
abbrev pub BrokersSettle :
    {S V : Type 0}
    → (S → S × Option CallErr)
    → (S → S × Returned V)
    → Text
    → Text
    → Text
    → Text
    → Text
    → Text
    → Call
    → World
    → S
    → Type 0
BrokersSettle send fetch topic group subj queue exchange key c w s =
    SettlesError Kafka.map_err send w s (Kafka.write_messages topic send c w s)
    × SettlesValue Kafka.map_err fetch w s (Kafka.read_message topic group fetch c w s)
    × SettlesValue Kafka.map_err fetch w s (Kafka.fetch_message topic group fetch c w s)
    × SettlesError Kafka.map_err send w s (Kafka.commit_messages topic group send c w s)
    × SettlesError Nats.map_err send w s (Nats.publish subj send c w s)
    × SettlesValue Nats.map_err fetch w s (Nats.request subj fetch c w s)
    × SettlesError Nats.map_err send w s (Nats.drain send c w s)
    × SettlesValue Nats.map_err fetch w s (Nats.subscribe subj fetch c w s)
    × SettlesValue Nats.map_err fetch w s (Nats.queue_subscribe subj queue fetch c w s)
    × SettlesValue Nats.map_err fetch w s (Nats.dial subj fetch c w s)
    × SettlesError Rabbitmq.map_err send w s (Rabbitmq.publish_with_context exchange key send c w s)
    × SettlesError Rabbitmq.map_err send w s (Rabbitmq.publish exchange key send c w s)
    × SettlesValue Rabbitmq.map_err fetch w s (Rabbitmq.consume queue fetch c w s)
    × SettlesError Rabbitmq.map_err send w s (Rabbitmq.ack send c w s)
    × SettlesError Rabbitmq.map_err send w s (Rabbitmq.nack send c w s)
    × SettlesValue Rabbitmq.map_err (opening fetch) w s (Rabbitmq.open_channel fetch c w s)

-- Every method of the adapters of Kafka, NATS and RabbitMQ leaves as many slots of the engine
-- in use as before it. On an enabled engine it has recorded one outcome, that of the error which its
-- caller sees, and none on a panic of a fault. It has made the real call once, and its result is the
-- caller's (a channel that opens is wrapped); or not, and the caller sees an injected error, mapped, or a panic.
pub brokers-Settle :
    {S V : Type 0} (send : S → S × Option CallErr) (fetch : S → S × Returned V)
    (topic group subj queue exchange key : Text) (c : Call) (w : World) (s : S)
    → WithinCapacity w.engine.max_conc
    → BrokersSettle send fetch topic group subj queue exchange key c w s
unfolding Kafka.write_messages Kafka.read_message Kafka.fetch_message Kafka.commit_messages
    Nats.publish Nats.request Nats.drain Nats.subscribe Nats.queue_subscribe Nats.dial
    Rabbitmq.publish_with_context Rabbitmq.publish Rabbitmq.consume Rabbitmq.ack Rabbitmq.nack
    Rabbitmq.open_channel
brokers-Settle send fetch topic group subj queue exchange key c w s h = (
  intercept-Settles Kafka.map_err send c _ w s h,
  intercept_value-Settles Kafka.map_err fetch c _ w s h,
  intercept_value-Settles Kafka.map_err fetch c _ w s h,
  intercept-Settles Kafka.map_err send c _ w s h,
  intercept-Settles Nats.map_err send (background c) _ w s h,
  intercept_value-Settles Nats.map_err fetch (background c) _ w s h,
  intercept-Settles Nats.map_err send (background c) _ w s h,
  intercept_value-Settles Nats.map_err fetch (background c) _ w s h,
  intercept_value-Settles Nats.map_err fetch (background c) _ w s h,
  intercept_value-Settles Nats.map_err fetch (background c) _ w s h,
  intercept-Settles Rabbitmq.map_err send c _ w s h,
  intercept-Settles Rabbitmq.map_err send (background c) _ w s h,
  intercept_value-Settles Rabbitmq.map_err fetch (background c) _ w s h,
  intercept-Settles Rabbitmq.map_err send (background c) _ w s h,
  intercept-Settles Rabbitmq.map_err send (background c) _ w s h,
  intercept_value-Settles Rabbitmq.map_err (opening fetch) (background c) _ w s h,
)

-- The methods of the adapters of MongoDB, the AWS SDK and net settle.
abbrev pub ServicesSettle :
    {S V : Type 0}
    → (S → S × Returned V)
    → Text
    → Text
    → Text
    → Text
    → Text
    → Text
    → Text
    → Option (Text × Text)
    → Call
    → World
    → S
    → Type 0
ServicesSettle fetch db coll service operation region network address remote c w s =
    SettlesValue Mongo.map_err fetch w s (Mongo.insert_one db coll fetch c w s)
    × SettlesValue Mongo.map_err fetch w s (Mongo.find_one db coll fetch c w s)
    × SettlesValue Mongo.map_err fetch w s (Mongo.find db coll fetch c w s)
    × SettlesValue Mongo.map_err fetch w s (Mongo.aggregate db coll fetch c w s)
    × SettlesValue Mongo.map_err fetch w s (Mongo.update_one db coll fetch c w s)
    × SettlesValue Mongo.map_err fetch w s (Mongo.delete_one db coll fetch c w s)
    × SettlesValue Aws.map_err fetch w s (Aws.handle_finalize service operation region fetch c w s)
    × SettlesValue Aws.map_err fetch w s (Aws.handle_build service operation region fetch c w s)
    × SettlesValue (Net.map_err (bytes "read") (Net.addr_info remote).1) fetch w s
        (Net.read remote fetch c w s)
    × SettlesValue (Net.map_err (bytes "write") (Net.addr_info remote).1) fetch w s
        (Net.write remote fetch c w s)
    × SettlesValue (Net.map_err (bytes "dial") network) (opening fetch) w s
        (Net.dial_context network address fetch c w s)

-- Every method of the adapters of MongoDB, the AWS SDK and net leaves as many slots of the engine
-- in use as before it. On an enabled engine it has recorded one outcome, that of the error which its
-- caller sees, and none on a panic of a fault. It has made the real call once, and its result is the
-- caller's (a connection that is dialled is wrapped); or not, and the caller sees an injected error, mapped, or a panic.
pub services-Settle :
    {S V : Type 0} (fetch : S → S × Returned V) (db coll : Text)
    (service operation region network address : Text) (remote : Option (Text × Text)) (c : Call)
    (w : World) (s : S)
    → WithinCapacity w.engine.max_conc
    → ServicesSettle fetch db coll service operation region network address remote c w s
unfolding Mongo.insert_one Mongo.find_one Mongo.find Mongo.aggregate Mongo.update_one
    Mongo.delete_one Aws.handle_finalize Aws.handle_build Net.read Net.write Net.dial_context
services-Settle fetch db coll service operation region network address remote c w s h = (
  intercept_value-Settles Mongo.map_err fetch c _ w s h,
  intercept_value-Settles Mongo.map_err fetch c _ w s h,
  intercept_value-Settles Mongo.map_err fetch c _ w s h,
  intercept_value-Settles Mongo.map_err fetch c _ w s h,
  intercept_value-Settles Mongo.map_err fetch c _ w s h,
  intercept_value-Settles Mongo.map_err fetch c _ w s h,
  intercept_value-Settles Aws.map_err fetch c _ w s h,
  intercept_value-Settles Aws.map_err fetch c _ w s h,
  intercept_value-Settles (Net.map_err (bytes "read") (Net.addr_info remote).1) fetch (background c)
      _ w s h,
  intercept_value-Settles (Net.map_err (bytes "write") (Net.addr_info remote).1) fetch
      (background c) _ w s h,
  intercept_value-Settles (Net.map_err (bytes "dial") network) (opening fetch) c _ w s h,
)

show_reply-kept :
    (reply : Any) (a : Action) (r : Option CallErr) (w : World)
    → ((show_reply reply a r w).0.engine ≡ w.engine) × (r ≡ (show_reply reply a r w).1)
unfolding show_reply
show_reply-kept reply a none w = (result-engine a reply w, refl)
show_reply-kept reply a (some e) w = (refl, refl)

set_errs-fails : (cmds : List Cmd) (e : Err) → err_of (set_errs cmds e) ≡ true
unfolding set_errs
set_errs-fails cmds e = refl

process-Settles :
    {S : Type 0} (cmds : List Cmd) (next : S → S × Processed) (c : Call) (op : Op) (w : World)
    (s : S)
    → WithinCapacity w.engine.max_conc
    → Settles
        (set_errs cmds)
        err_of
        (λ r r'. r ≡ r')
        next
        w
        s
        (intercept_with (set_errs cmds) err_of as_it_is next c op w s)
process-Settles cmds next c op w s h =
    intercept_with-Settles (set_errs cmds) err_of (λ r r'. r ≡ r') as_it_is next
      (set_errs-fails cmds) (λ a r w. refl) (λ a r w. refl) (λ a r w. refl) c op w s h refl

-- The interceptors of gRPC and the hooks of Redis settle.
abbrev pub HooksSettle :
    {S V : Type 0}
    → (Err → Option ℕ)
    → Text
    → Any
    → (S → S × Option CallErr)
    → (S → S × Returned V)
    → (S → S × Ended (Returned V))
    → (S → S × Ended (Option CallErr))
    → Cmd
    → List Cmd
    → (S → S × Processed)
    → Call
    → World
    → S
    → Type 0
HooksSettle from_error method reply send fetch unary stream cmd cmds next c w s =
    SettlesError (to_status from_error) send w s (unary_client from_error method reply send c w s)
    × HandlesCall (λ e. (none, some (to_status from_error e))) has_failed unary c
        (server_op method (bytes "unary")) w s (unary_server from_error method unary c w s)
    × SettlesValue (to_status from_error) fetch w s (stream_client from_error method fetch c w s)
    × HandlesCall (λ e. some (to_status from_error e)) is_some stream c
        (server_op method (bytes "stream")) w s (stream_server from_error method stream c w s)
    × Settles (set_errs (cmd ∷ [])) err_of (λ r r'. r ≡ r') next w s (process_hook cmd next c w s)
    × SettlesValue map_err fetch w s (dial_hook fetch c w s)
    × Settles (set_errs (cmd ∷ cmds)) err_of (λ r r'. r ≡ r') next w s
        (process_pipeline_hook (cmd ∷ cmds) next c w s)

-- The interceptors of gRPC's clients and the hooks of Redis leave as many slots of the engine in use as
-- before them. On an enabled engine, one outcome has been recorded, that of the error which the caller
-- sees, and none on a panic of a fault. The real call has been made once, and its result is the caller's; or
-- not, and the caller sees an injected error, as a status or mapped and set on every command, or a
-- panic. For pipelines, this is about those with commands. The interceptors of gRPC's servers call
-- the handler once, unless a fault ends the call: a handler that returns leaves one outcome and no
-- slot; a handler that panics leaves none, and the slot that the action holds stays in use.
pub hooks-Settle :
    {S V : Type 0} (from_error : Err → Option ℕ) (method : Text) (reply : Any)
    (send : S → S × Option CallErr) (fetch : S → S × Returned V)
    (unary : S → S × Ended (Returned V)) (stream : S → S × Ended (Option CallErr)) (cmd : Cmd)
    (cmds : List Cmd) (next : S → S × Processed) (c : Call) (w : World) (s : S)
    → WithinCapacity w.engine.max_conc
    → HooksSettle from_error method reply send fetch unary stream cmd cmds next c w s
unfolding unary_client unary_server stream_client stream_server process_hook dial_hook
    process_pipeline_hook
hooks-Settle from_error method reply send fetch unary stream cmd cmds next c w s h = (
  intercept_with-Settles (λ e. some (to_status from_error e)) is_some (λ r r'. r ≡ r')
      (show_reply reply) send (λ e. refl) (λ a r w. (show_reply-kept reply a r w).0)
      (λ a r w. ap is_some (sym (show_reply-kept reply a r w).1))
      (λ a r w. (show_reply-kept reply a r w).1) c _ w s h refl,
  handle_with-Handles (λ e. (none, some (to_status from_error e))) has_failed unary c _ w s h,
  intercept_value-Settles (to_status from_error) fetch c _ w s h,
  handle_with-Handles (λ e. some (to_status from_error e)) is_some stream c _ w s h,
  process-Settles (cmd ∷ []) next c _ w s h,
  intercept_value-Settles map_err fetch c _ w s h,
  process-Settles (cmd ∷ cmds) next c _ w s h,
)
