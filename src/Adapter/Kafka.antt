-- ===== src/Adapter/Kafka.antt =====
-- The adapter of kafka-go (adapter/kafka/kafka.go): writers and readers. The real call, with its
-- arguments, is a parameter of each method.
use chaotic.Base.{[], ◌∷◌, Option, Text, bytes}
use chaotic.Fault.{Err}
use chaotic.Engine.Op.{Op}
use chaotic.Engine.Op.Kinds
use chaotic.Engine.Rule.{Call}
use chaotic.Engine.World.{World}
use chaotic.Adapter.{
  CallErr, Ended, Returned, on_conn_drop, intercept, intercept_value, unexpected_eof,
}

-- `mapErr`: ErrConnDrop becomes io.ErrUnexpectedEOF.
unfoldable pub map_err : Err → CallErr
map_err = on_conn_drop unexpected_eof

-- `Reader.op`: the topic and the consumer group of the reader.
unfoldable pub reader_op : Text → Text → Text → Op
reader_op topic group method = record {
  kind = Kinds.kafka;
  name = topic;
  method = method;
  attrs = (bytes "group", group) ∷ [];
}

-- `Writer.WriteMessages`, of a writer of the topic.
unfoldable pub write_messages :
    {S : Type 0}
    → Text
    → (S → S × Option CallErr)
    → Call
    → World
    → S
    → World × S × Ended (Option CallErr)
unfolding intercept
write_messages topic inner c w s =
    intercept map_err inner c
      (record { kind = Kinds.kafka; name = topic; method = bytes "write"; attrs = [] }) w s

-- `Reader.ReadMessage`.
unfoldable pub read_message :
    {S V : Type 0}
    → Text
    → Text
    → (S → S × Returned V)
    → Call
    → World
    → S
    → World × S × Ended (Returned V)
unfolding intercept_value reader_op
read_message topic group inner c w s =
    intercept_value map_err inner c (reader_op topic group (bytes "read")) w s

-- `Reader.FetchMessage`.
unfoldable pub fetch_message :
    {S V : Type 0}
    → Text
    → Text
    → (S → S × Returned V)
    → Call
    → World
    → S
    → World × S × Ended (Returned V)
unfolding intercept_value reader_op
fetch_message topic group inner c w s =
    intercept_value map_err inner c (reader_op topic group (bytes "fetch")) w s

-- `Reader.CommitMessages`.
unfoldable pub commit_messages :
    {S : Type 0}
    → Text
    → Text
    → (S → S × Option CallErr)
    → Call
    → World
    → S
    → World × S × Ended (Option CallErr)
unfolding intercept reader_op
commit_messages topic group inner c w s =
    intercept map_err inner c (reader_op topic group (bytes "commit")) w s
