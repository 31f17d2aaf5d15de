-- ===== src/Adapter/Sql/Settling.antt =====
-- What the calls of a connection and of a statement leave with the engine.
use chaotic.Engine.World.{World}
