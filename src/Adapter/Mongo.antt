-- ===== src/Adapter/Mongo.antt =====
-- The adapter of the MongoDB driver (adapter/mongo/mongo.go): collections. The real call, with its
-- arguments, is a parameter of each method; a SingleResult is its document and its `Err`.
use chaotic.Base.{[], ◌∷◌, Text, bytes}
use chaotic.Fault.{Err}
use chaotic.Engine.Op.{Op}
use chaotic.Engine.Op.Kinds
use chaotic.Engine.Rule.{Call}
use chaotic.Engine.World.{World}
use chaotic.Adapter.{CallErr, Ended, Returned, on_conn_drop, intercept_value, host_unreachable}

-- `mapErr`: ErrConnDrop becomes a network error of the driver.
unfoldable pub map_err : Err → CallErr
map_err = on_conn_drop host_unreachable

-- `Collection.op`.
unfoldable pub op : Text → Text → Text → Op
op db coll name = record {
  kind = Kinds.mongo;
  name = name;
  method = bytes "command";
  attrs = (bytes "db", db) ∷ (bytes "coll", coll) ∷ [];
}

-- `Collection.InsertOne`.
unfoldable pub insert_one :
    {S V : Type 0}
    → Text
    → Text
    → (S → S × Returned V)
    → Call
    → World
    → S
    → World × S × Ended (Returned V)
unfolding intercept_value op
insert_one db coll inner c w s = intercept_value map_err inner c (op db coll (bytes "insert")) w s

-- `Collection.FindOne`.
unfoldable pub find_one :
    {S V : Type 0}
    → Text
    → Text
    → (S → S × Returned V)
    → Call
    → World
    → S
    → World × S × Ended (Returned V)
unfolding intercept_value op
find_one db coll inner c w s = intercept_value map_err inner c (op db coll (bytes "find")) w s

-- `Collection.Find`.
unfoldable pub find :
    {S V : Type 0}
    → Text
    → Text
    → (S → S × Returned V)
    → Call
    → World
    → S
    → World × S × Ended (Returned V)
unfolding intercept_value op
find db coll inner c w s = intercept_value map_err inner c (op db coll (bytes "find")) w s

-- `Collection.Aggregate`.
unfoldable pub aggregate :
    {S V : Type 0}
    → Text
    → Text
    → (S → S × Returned V)
    → Call
    → World
    → S
    → World × S × Ended (Returned V)
unfolding intercept_value op
aggregate db coll inner c w s = intercept_value map_err inner c (op db coll (bytes "aggregate")) w s

-- `Collection.UpdateOne`.
unfoldable pub update_one :
    {S V : Type 0}
    → Text
    → Text
    → (S → S × Returned V)
    → Call
    → World
    → S
    → World × S × Ended (Returned V)
unfolding intercept_value op
update_one db coll inner c w s = intercept_value map_err inner c (op db coll (bytes "update")) w s

-- `Collection.DeleteOne`.
unfoldable pub delete_one :
    {S V : Type 0}
    → Text
    → Text
    → (S → S × Returned V)
    → Call
    → World
    → S
    → World × S × Ended (Returned V)
unfolding intercept_value op
delete_one db coll inner c w s = intercept_value map_err inner c (op db coll (bytes "delete")) w s
