-- ===== src/WireGuard/Health.antt =====
-- `latest_handshake_for_peer` and `ensure_peer_health`. The output of `wg` is its lines, each as its
-- fields; a number is a field of digits, as `wg` prints it.
pub mod Restart
use cylon_local_infra.Prelude.{
  ℕ, ◌+◌, ◌-◌, ◌*◌, String, Bool, true, false, ◌&&◌, Option, none, some, List, [], ◌∷◌, all,
  if◌then◌else◌, ◌==◌, string_eq, leb, ltb,
}
use cylon_local_infra.Prelude.Text.{codes}
use cylon_local_infra.Prelude.State.{State, pure, ◌>>=◌}
use cylon_local_infra.Prelude.Effect.{ExitCode, Argv, succeeded}

-- `line.split()` of each of `output.splitlines()`.
abbrev pub Lines : Type 0
Lines = List (List String)

abbrev is_digit : ℕ → Bool
is_digit c = leb b'0' c && leb c b'9'

unfoldable pub value_from : ℕ → List ℕ → Option ℕ
value_from acc [] = some acc
value_from acc (c ∷ cs) =
    let rest = value_from (acc * 10 + (c - b'0')) cs in if is_digit c then rest else none

abbrev number_of_codes : List ℕ → Option ℕ
number_of_codes [] = none
number_of_codes (c ∷ cs) = value_from 0 (c ∷ cs)

-- `int(field)`; `none` is its `ValueError`.
unfoldable pub number_of : String → Option ℕ
number_of field = number_of_codes (codes field)

abbrev pub handshake_in : (peer_key : String) → List String → Option String
handshake_in peer_key (key ∷ stamp ∷ []) = if key == peer_key then some stamp else none
handshake_in peer_key _ = none

unfoldable pub latest_handshake_for_peer : Lines → (peer_key : String) → Option ℕ
latest_handshake_for_peer [] peer_key = none
latest_handshake_for_peer (fields ∷ rest) peer_key =
    let later = latest_handshake_for_peer rest peer_key in
    elim (handshake_in peer_key fields) [ none ↦ later | some stamp ↦ number_of stamp ]

-- What a command answers, and the world outside.
pub record Host : Type 1 where
  pub World : Type 0
  pub run : World → Argv → ExitCode × Lines × World

-- The newest command stands first in `history`.
pub record Machine (H : Host) : Type 0 where
  pub world : H.World
  pub history : List Argv

-- The result, or the `RuntimeError` of a restart that fails.
pub data Outcome : Type 0 where
  restarted : Bool → Outcome
  failed : Outcome

-- `latest > 0` and `0 <= now - latest <= max_age`
abbrev pub is_recent : (now max_age : ℕ) → Option ℕ → Bool
is_recent now max_age none = false
is_recent now max_age (some latest) = ltb 0 latest && (leb latest now && leb now (latest + max_age))

abbrev pub show_argv : (interface : String) → Argv
show_argv interface = "wg" ∷ "show" ∷ interface ∷ "latest-handshakes" ∷ []

abbrev pub restart_argv : (unit : String) → Argv
restart_argv unit = "systemctl" ∷ "restart" ∷ unit ∷ []

module _ (H : Host) where
  unfoldable pub run : Argv → State (Machine H) (ExitCode × Lines)
  run argv m =
      let (rc, out, w) = H.run m.world argv in
      ((rc, out), record { world = w; history = argv ∷ m.history })

  unfoldable pub restart_unit : (unit : String) → State (Machine H) Outcome
  restart_unit unit = do
    (rc, _) ← run (restart_argv unit)
    pure (if succeeded rc then restarted true else failed)

  unfoldable pub ensure_peer_health :
      (interface peer_key : String) (max_age_seconds : ℕ) (unit : String) (now : ℕ)
      → State (Machine H) Outcome
  ensure_peer_health interface peer_key max_age unit now = do
    (rc, out) ← run (show_argv interface)
    if succeeded rc && is_recent now max_age (latest_handshake_for_peer out peer_key)
        then pure (restarted false)
        else restart_unit unit
