-- ===== src/Prelude/Effect.antt =====
-- What the subprocess calls of the services answer, and the record of the calls made.
use Prim.Native.Nat.{ℕ, zero}
use Prim.Native.String.{String}
use mathlib.Core.Bool.{Bool, true, false}
use mathlib.Core.List.{List}

-- A `returncode`: an exit status, or the signal that killed the child.
pub data ExitCode : Type 0 where
  exited killed : ℕ → ExitCode

-- `rc == 0`
abbrev pub succeeded : ExitCode → Bool
succeeded (exited zero) = true
succeeded _ = false

abbrev pub success : ExitCode
success = exited zero

abbrev pub Argv : Type 0
Argv = List String
