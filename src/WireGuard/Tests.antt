-- ===== src/WireGuard/Tests.antt =====
-- The theorems at an interface whose peer was seen a minute ago, and on a Mac whose tunnel fails.
use cylon_local_infra.Prelude.{◌≡◌, ◌⊎◌, ◌++◌, refl, true, false, [], ◌∷◌, string_eq}
use cylon_local_infra.Prelude.Effect.{exited, success}
use cylon_local_infra.WireGuard.Health.{
  Lines, Host, Machine, restarted, show_argv, restart_argv, ensure_peer_health,
}
use cylon_local_infra.WireGuard.Health.Restart.{IsHealthy, ensure_peer_health-restarts}
use cylon_local_infra.WireGuard.Mac
use cylon_local_infra.WireGuard.Mac.{up, main}
use cylon_local_infra.WireGuard.Mac.Route.{Ends, main-Ends}

abbrev others : Lines
others = ("k1" ∷ "17" ∷ []) ∷ []

abbrev lines : Lines
lines = others ++ (("k2" ∷ "940" ∷ []) ∷ [])

abbrev host : Host
host = record { World = Unit; run = λ w argv. (success, lines, w) }

abbrev start : Machine host
start = record { world = tt; history = [] }

ensure_peer_health-restarts_example :
    let (o, m') = ensure_peer_health host "wg0" "k2" 180 "wg-quick@wg0" 1000 start in
    let healthy = IsHealthy host "wg0" "k2" 180 "wg-quick@wg0" 1000 start in
    (healthy × (m'.history ≡ show_argv "wg0" ∷ []) × (o ≡ restarted false))
    ⊎ ((¬ healthy)
        × (m'.history ≡ restart_argv "wg-quick@wg0" ∷ show_argv "wg0" ∷ [])
        × (o ≡ restarted true))
ensure_peer_health-restarts_example =
    ensure_peer_health-restarts host "wg0" "k2" 180 "wg-quick@wg0" 1000 start

-- Every command fails.
abbrev mac : Mac.Host
mac = record {
  World = Unit;
  run = λ w argv. (record { returncode = exited 1; out = ""; err = "no" }, w);
  is_root = true;
}

abbrev mac_start : Mac.Machine mac
mac_start = record { world = tt; history = [] }

main-Ends_example : let (r, m') = main mac up mac_start in Ends up [] r m'.history
main-Ends_example = main-Ends mac up mac_start refl
