-- ===== src/Adapter/Redis.antt =====
-- The hook of go-redis (adapter/redis/redis.go). The next hook, with its arguments, is a parameter.
use chaotic.Base.{
  List, [], ◌∷◌, Option, none, some, Bool, is_some, if◌then◌else◌, Text, text_eq, bytes, map,
}
use chaotic.Fault.{Err}
use chaotic.Engine.Op.Kinds
use chaotic.Engine.Rule.{Call}
use chaotic.Engine.World.{World, is_nil}
use chaotic.Adapter.{
  CallErr, op_error, unexpected_eof, Ended, ends, Returned, on_conn_drop, as_it_is, intercept_with,
  intercept_value,
}

-- A command: its name and its arguments, where `none` is one that is no string.
pub record Cmd : Type 0 where
  pub name : Text
  pub args : List (Option Text)

-- `firstKey`.
unfoldable pub first_key : Cmd → Text
first_key cmd = second cmd.args
  where
    second : List (Option Text) → Text
    second (verb ∷ (some key ∷ rest)) = key
    second (verb ∷ (none ∷ rest)) = []
    second (verb ∷ []) = []
    second [] = []

-- `mapErr`: ErrConnDrop is a read from a dead connection.
unfoldable pub map_err : Err → CallErr
map_err = on_conn_drop (op_error (bytes "read") (bytes "tcp") unexpected_eof)

-- What a hook leaves: the error of each command, and its own.
pub record Processed : Type 0 where
  pub cmd_errs : List (Option CallErr)
  pub err : Option CallErr

-- An injected error is set on every command.
unfoldable pub set_errs : List Cmd → Err → Processed
unfolding map_err
set_errs cmds e = record {
  cmd_errs = map (λ (cmd : Cmd). some (map_err e)) cmds;
  err = some (map_err e);
}

abbrev pub err_of : Processed → Bool
err_of p = is_some p.err

-- `ProcessHook`.
unfoldable pub process_hook :
    {S : Type 0} → Cmd → (S → S × Processed) → Call → World → S → World × S × Ended Processed
unfolding intercept_with set_errs first_key
process_hook cmd next c w s =
    intercept_with (set_errs (cmd ∷ [])) err_of as_it_is next c
      (record {
        kind = Kinds.redis;
        name = cmd.name;
        method = bytes "single";
        attrs = (bytes "key", first_key cmd) ∷ [];
      })
      w s

-- `DialHook`.
unfoldable pub dial_hook :
    {S V : Type 0} → (S → S × Returned V) → Call → World → S → World × S × Ended (Returned V)
unfolding intercept_value
dial_hook next c w s =
    intercept_value map_err next c
      (record { kind = Kinds.redis; name = bytes "DIAL"; method = bytes "dial"; attrs = [] }) w s

-- `pipelineMethod`.
unfoldable pub pipeline_method : List Cmd → Text
pipeline_method [] = bytes "pipeline"
pipeline_method (cmd ∷ cmds) =
    if text_eq cmd.name (bytes "multi") then bytes "tx" else bytes "pipeline"

-- `ProcessPipelineHook`: an empty pipeline does not pass the engine.
unfoldable pub process_pipeline_hook :
    {S : Type 0} → List Cmd → (S → S × Processed) → Call → World → S → World × S × Ended Processed
unfolding intercept_with set_errs pipeline_method
process_pipeline_hook cmds next c w s =
    if is_nil cmds
    then (w, (next s).0, ends (next s).1)
    else intercept_with (set_errs cmds) err_of as_it_is next c
        (record {
          kind = Kinds.redis;
          name = bytes "pipeline";
          method = pipeline_method cmds;
          attrs = [];
        })
        w s
