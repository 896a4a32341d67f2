-- ===== src/WireGuard/Mac/Route.antt =====
-- The route to the cluster's network is put back whenever the tunnel is not up.
use cylon_local_infra.Prelude.{String, true, false, List, ◌∷◌, ◌≡◌, Bool-cases, inl, inr}
use cylon_local_infra.Prelude.State.{◌>>=◌}
use cylon_local_infra.Prelude.Effect.{ExitCode, succeeded}
use cylon_local_infra.WireGuard.Mac.{
  show_argv, show_status, Host, Machine, Event, ran, Result, done, failed, execute, execute_checked,
  restore_lan_route, status, activate, deactivate, main, Command, up, down, up_argv, down_argv,
  launchctl_argv, route_argv, kickstart_argv,
}

-- What the restore does on top of a history: the launch daemon is loaded, the route is added, or
-- changed if that fails, and the daemon is started again.
pub data Restored (h : List Event) : List Event → Type 0 where
  added :
      {load add start : ExitCode}
      → succeeded add ≡ true
      → Restored h (
          ran kickstart_argv start
          ∷ ran (route_argv "add") add
          ∷ ran (launchctl_argv "bootstrap") load
          ∷ h)
  changed :
      {load add change start : ExitCode}
      → succeeded add ≡ false
      → Restored h (
          ran kickstart_argv start
          ∷ ran (route_argv "change") change
          ∷ ran (route_argv "add") add
          ∷ ran (launchctl_argv "bootstrap") load
          ∷ h)

-- What became of a command, by the histories before and after it.
pub data Ends : Command → List Event → Result String → List Event → Type 0 where
  active :
      {h : List Event} {bootout delete rc shown : ExitCode} {interface : String}
      → succeeded rc ≡ true
      → Ends up h (done interface) (
          ran show_argv shown
          ∷ ran up_argv rc
          ∷ ran (route_argv "delete") delete
          ∷ ran (launchctl_argv "bootout") bootout
          ∷ h)
  put_back :
      {h h' : List Event} {bootout delete rc : ExitCode} {message : String}
      → succeeded rc ≡ false
      → Restored
          (ran up_argv rc
            ∷ ran (route_argv "delete") delete
            ∷ ran (launchctl_argv "bootout") bootout
            ∷ h)
          h'
      → Ends up h (failed message) h'
  taken_down :
      {h h' : List Event} {rc : ExitCode} {message : String}
      → Restored (ran down_argv rc ∷ h) h'
      → Ends down h (done message) h'
  asked :
      {h : List Event} {shown : ExitCode} {interface : String}
      → Ends show_status h (done interface) (ran show_argv shown ∷ h)

module _ (H : Host) where
  restore_lan_route-Restored :
      (m : Machine H) → Restored m.history (restore_lan_route H m).1.history
  unfolding restore_lan_route execute ◌>>=◌
  restore_lan_route-Restored m =
      let w = (H.run m.world (launchctl_argv "bootstrap")).1 in
      elim (Bool-cases (succeeded (H.run w (route_argv "add")).0.returncode)) [
        | inl ok ↦ rw ok (added ok)
        | inr bad ↦ rw bad (changed bad)
      ]

  -- Run by root, a command that fails to bring the tunnel up puts the route back and reports the
  -- failure; one that brings it up leaves the route away; and taking it down puts the route back,
  -- even when the tunnel could not be taken down.
  pub main-Ends :
      (c : Command) (m : Machine H)
      → H.is_root ≡ true
      → let (r, m') = main H c m in Ends c m.history r m'.history
  unfolding main activate deactivate status execute_checked execute ◌>>=◌
  main-Ends up m root =
      let w1 = (H.run m.world (launchctl_argv "bootout")).1 in
      let w2 = (H.run w1 (route_argv "delete")).1 in
      elim (Bool-cases (succeeded (H.run w2 up_argv).0.returncode)) [
        | inl ok ↦ rw (root, ok) (active ok)
        | inr bad ↦ rw (root, bad) (put_back bad (restore_lan_route-Restored _))
      ]
  main-Ends down m root = rw root (taken_down (restore_lan_route-Restored _))
  main-Ends show_status m root = asked
