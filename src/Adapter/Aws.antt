-- ===== src/Adapter/Aws.antt =====
-- The middleware of the AWS SDK (adapter/aws/aws.go). The next handler, with its input, is a parameter;
-- the value is its output with its metadata.
use chaotic.Base.{[], ◌∷◌, Text, bytes, ◌++◌}
use chaotic.Fault.{Err}
use chaotic.Engine.Op.{Op}
use chaotic.Engine.Op.Kinds
use chaotic.Engine.Rule.{Call}
use chaotic.Engine.World.{World}
use chaotic.Adapter.{
  CallErr, Ended, Returned, on_conn_drop, intercept_value, op_error, unexpected_eof,
}

-- `mapErr`: ErrConnDrop becomes a failed dial.
unfoldable pub map_err : Err → CallErr
map_err = on_conn_drop (op_error (bytes "dial") (bytes "tcp") unexpected_eof)

-- `op`: what the context says of the request.
unfoldable pub op : Text → Text → Text → Op
op service operation region = record {
  kind = Kinds.aws;
  name = service ++ b'.' ∷ operation;
  method = bytes "request";
  attrs =
      (bytes "service", service) ∷ (bytes "operation", operation) ∷ (bytes "region", region) ∷ [];
}

-- `HandleFinalize`.
unfoldable pub handle_finalize :
    {S V : Type 0}
    → Text
    → Text
    → Text
    → (S → S × Returned V)
    → Call
    → World
    → S
    → World × S × Ended (Returned V)
unfolding intercept_value op
handle_finalize service operation region inner c w s =
    intercept_value map_err inner c (op service operation region) w s

-- `HandleBuild`.
unfoldable pub handle_build :
    {S V : Type 0}
    → Text
    → Text
    → Text
    → (S → S × Returned V)
    → Call
    → World
    → S
    → World × S × Ended (Returned V)
unfolding intercept_value op
handle_build service operation region inner c w s =
    intercept_value map_err inner c (op service operation region) w s
