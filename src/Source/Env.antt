-- ===== src/Source/Env.antt =====
-- Rules from an environment variable (source/env/env.go).
use chaotic.Base.{if◌then◌else◌, List, [], Option, some, Text, bytes}
use chaotic.Engine.Rule.{Rule, Store}
use chaotic.Engine.World.{is_nil}
use chaotic.Engine.Spec.{Library}
use chaotic.Engine.Lint.{LintMode}
use chaotic.Terms.{trim_space}
use chaotic.Terms.Parse.{Literals, Parsed, got, compile}

unfoldable pub variable : Text → Text
variable name = if is_nil name then bytes "CHAOTIC_RULES" else name

-- `FromEnv`, given `os.Getenv`, where an unset variable is empty; `none` is a panic.
unfoldable pub from_env :
    Library
    → Literals
    → LintMode
    → (Text → Text)
    → Text
    → Store
    → Option (Parsed (List Rule × Store))
unfolding variable
from_env std lits lint getenv name s =
    let value = getenv (variable name) in
    if is_nil (trim_space value) then some (got ([], s)) else compile std lits lint value s
