-- ===== src/Engine/Op.antt =====
-- The description of an intercepted call (engine/op.go).
pub mod Kinds
use chaotic.Base.{ℕ, Text, Map}

-- `Kind` is a Go int; the constants are those that the adapters use.
abbrev pub Kind : Type 0
Kind = ℕ

pub record Op : Type 0 where
  pub kind : Kind
  pub name : Text
  pub method : Text
  pub attrs : Map Text
