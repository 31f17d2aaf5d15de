-- ===== src/Adapter/Rabbitmq.antt =====
-- The adapter of amqp091-go (adapter/rabbitmq/rabbitmq.go): channels and connections. The real call,
-- with its arguments, is a parameter of each method.
use chaotic.Base.{[], ◌∷◌, Option, Text, bytes}
use chaotic.Fault.{Err}
use chaotic.Engine.Op.Kinds
use chaotic.Engine.Rule.{Call}
use chaotic.Engine.World.{World}
use chaotic.Adapter.{
  CallErr, Ended, Returned, Wrapped, on_conn_drop, background, opening, intercept, intercept_value,
  amqp_closed,
}

-- `mapErr`: ErrConnDrop becomes amqp.ErrClosed.
unfoldable pub map_err : Err → CallErr
map_err = on_conn_drop amqp_closed

-- `Channel.PublishWithContext`.
unfoldable pub publish_with_context :
    {S : Type 0}
    → Text
    → Text
    → (S → S × Option CallErr)
    → Call
    → World
    → S
    → World × S × Ended (Option CallErr)
unfolding intercept
publish_with_context exchange key inner c w s =
    intercept map_err inner c
      (record {
        kind = Kinds.rabbitmq;
        name = key;
        method = bytes "publish";
        attrs = (bytes "exchange", exchange) ∷ (bytes "routing_key", key) ∷ [];
      })
      w s

-- `Channel.Publish`.
unfoldable pub publish :
    {S : Type 0}
    → Text
    → Text
    → (S → S × Option CallErr)
    → Call
    → World
    → S
    → World × S × Ended (Option CallErr)
unfolding publish_with_context
publish exchange key inner c w s = publish_with_context exchange key inner (background c) w s

-- `Channel.Consume`.
unfoldable pub consume :
    {S V : Type 0} → Text → (S → S × Returned V) → Call → World → S → World × S × Ended (Returned V)
unfolding intercept_value
consume queue inner c w s =
    intercept_value map_err inner (background c)
      (record {
        kind = Kinds.rabbitmq;
        name = queue;
        method = bytes "consume";
        attrs = (bytes "queue", queue) ∷ [];
      })
      w s

-- `Channel.Ack`.
unfoldable pub ack :
    {S : Type 0} → (S → S × Option CallErr) → Call → World → S → World × S × Ended (Option CallErr)
unfolding intercept
ack inner c w s =
    intercept map_err inner (background c)
      (record { kind = Kinds.rabbitmq; name = bytes "ack"; method = bytes "ack"; attrs = [] }) w s

-- `Channel.Nack`.
unfoldable pub nack :
    {S : Type 0} → (S → S × Option CallErr) → Call → World → S → World × S × Ended (Option CallErr)
unfolding intercept
nack inner c w s =
    intercept map_err inner (background c)
      (record { kind = Kinds.rabbitmq; name = bytes "nack"; method = bytes "nack"; attrs = [] }) w s

-- `Conn.Channel`: a channel that opens is wrapped.
unfoldable pub open_channel :
    {S V : Type 0}
    → (S → S × Returned V)
    → Call
    → World
    → S
    → World × S × Ended (Returned (Wrapped V))
unfolding intercept_value
open_channel inner c w s =
    intercept_value map_err (opening inner) (background c)
      (record {
        kind = Kinds.rabbitmq;
        name = bytes "channel";
        method = bytes "channel";
        attrs = [];
      })
      w s
