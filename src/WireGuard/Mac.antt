-- ===== src/WireGuard/Mac.antt =====
-- roles/wireguard_mac/files/microscaler_wireguard.py: the tunnel of a Mac, which takes the place of
-- its route to the cluster's network.
pub mod Route
use cylon_local_infra.Prelude.{
  String, ◌<>◌, Bool, true, false, ◌&&◌, ◌||◌, not, Option, none, some, List, [], ◌∷◌,
  if◌then◌else◌, ◌==◌, string_eq,
}
use cylon_local_infra.Prelude.Text.{strip, is_space, join}
use cylon_local_infra.Prelude.State.{State, pure, ◌>>=◌, ◌>>◌}
use cylon_local_infra.Prelude.Effect.{ExitCode, succeeded, Argv}

pub record Completed : Type 0 where
  pub returncode : ExitCode
  pub out : String
  pub err : String

-- The commands, run with a `PATH` of their own, and `os.geteuid() == 0`.
pub record Host : Type 1 where
  pub World : Type 0
  pub run : World → Argv → Completed × World
  pub is_root : Bool

pub data Event : Type 0 where
  ran : Argv → ExitCode → Event

-- The newest event stands first in `history`.
pub record Machine (H : Host) : Type 0 where
  pub world : H.World
  pub history : List Event

abbrev pub M : Host → Type 0 → Type 0
M H A = State (Machine H) A

-- A result, a `RuntimeError` with its message, or the `PermissionError`.
pub data Result (A : Type 0) : Type 0 where
  done : A → Result A
  failed : (message : String) → Result A
  not_permitted : Result A

abbrev wg_quick : String
wg_quick = "/opt/homebrew/bin/wg-quick"

abbrev config : String
config = "/usr/local/etc/wireguard/ms02-away.conf"

abbrev plist : String
plist = "/Library/LaunchDaemons/com.microscaler.metallb-lan-route.plist"

abbrev pub up_argv : Argv
up_argv = wg_quick ∷ "up" ∷ config ∷ []

abbrev pub down_argv : Argv
down_argv = wg_quick ∷ "down" ∷ config ∷ []

abbrev pub show_argv : Argv
show_argv = "/opt/homebrew/bin/wg" ∷ "show" ∷ "interfaces" ∷ []

abbrev pub launchctl_argv : (verb : String) → Argv
launchctl_argv verb = "/bin/launchctl" ∷ verb ∷ "system" ∷ plist ∷ []

abbrev pub kickstart_argv : Argv
kickstart_argv =
    "/bin/launchctl" ∷ "kickstart" ∷ "-k" ∷ "system/com.microscaler.metallb-lan-route" ∷ []

abbrev pub route_argv : (verb : String) → Argv
route_argv verb = "/sbin/route" ∷ "-n" ∷ verb ∷ "-net" ∷ "10.177.76.0/24" ∷ "192.168.1.189" ∷ []

-- `a or b` on texts.
abbrev or_text : String → String → String
or_text a b = if a == "" then b else a

abbrev failure_message : Argv → Completed → String
failure_message command r =
    join " " command
    <> " failed: "
    <> or_text (strip is_space r.err) (or_text (strip is_space r.out) "unknown error")

module _ (H : Host) where
  -- `execute(command, check=False)`
  unfoldable pub execute : Argv → M H Completed
  execute command m =
      let (r, w) = H.run m.world command in
      (r, record { world = w; history = ran command r.returncode ∷ m.history })

  abbrev checked : Argv → Completed → Result Completed
  checked command r = if succeeded r.returncode then done r else failed (failure_message command r)

  -- `execute(command)`
  unfoldable pub execute_checked : Argv → M H (Result Completed)
  execute_checked command = do r ← execute command; pure (checked command r)

  -- `route change` is for a route that is there already.
  abbrev change_unless : Bool → M H Unit
  change_unless true = pure tt
  change_unless false = execute (route_argv "change") >> pure tt

  unfoldable pub restore_lan_route : M H Unit
  restore_lan_route = do
    execute (launchctl_argv "bootstrap")
    route ← execute (route_argv "add")
    change_unless (succeeded route.returncode)
    execute kickstart_argv
    pure tt

  unfoldable pub status : M H String
  status = do r ← execute show_argv; pure (or_text (strip is_space r.out) "down")

  -- `assert_root(require_root)`
  abbrev if_root : {A : Type 0} → (require_root : Bool) → M H (Result A) → M H (Result A)
  if_root require_root rest = if require_root && not H.is_root then pure not_permitted else rest

  -- `except RuntimeError: restore_lan_route(); raise`
  abbrev after_up : Result Completed → M H (Result String)
  after_up (done r) = do interface ← status; pure (done interface)
  after_up (failed message) = do restore_lan_route; pure (failed message)
  after_up not_permitted = pure not_permitted

  unfoldable pub activate : (require_root : Bool) → M H (Result String)
  activate require_root = if_root require_root (do
    execute (launchctl_argv "bootout")
    execute (route_argv "delete")
    up ← execute_checked up_argv
    after_up up)

  unfoldable pub deactivate : (require_root : Bool) → M H (Result Unit)
  deactivate require_root =
      if_root require_root (do execute down_argv; restore_lan_route; pure (done tt))

-- The argument of the command line, and what is printed of it.
pub data Command : Type 0 where
  up down show_status : Command

module _ (H : Host) where
  abbrev map_result : {A B : Type 0} → (A → B) → Result A → Result B
  map_result f (done a) = done (f a)
  map_result f (failed message) = failed message
  map_result f not_permitted = not_permitted

  unfoldable pub main : Command → M H (Result String)
  main up = do
    r ← activate H true
    pure (map_result (λ interface. "WireGuard active: " <> interface) r)
  main down = do
    r ← deactivate H true
    pure (map_result (λ _. "WireGuard down; LAN MetalLB route restored") r)
  main show_status = do s ← status H; pure (done s)
