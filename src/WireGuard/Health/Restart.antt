-- ===== src/WireGuard/Health/Restart.antt =====
-- When the health check restarts the interface.
use cylon_local_infra.Prelude.{
  ℕ, ◌+◌, ◌<◌, ◌≤◌, String, Bool, true, false, ◌&&◌, Option, none, some, List, [], ◌∷◌, ◌++◌, ◌≡◌,
  ◌∙◌, ap, refl, arith, string_eq, ◌⊎◌, inl, inr, Bool-cases, if◌then◌else◌,
}
use cylon_local_infra.Prelude.State.{pure, ◌>>=◌}
use cylon_local_infra.Prelude.Effect.{succeeded}
use cylon_local_infra.WireGuard.Health.{
  Lines, number_of, handshake_in, latest_handshake_for_peer, Host, Machine, restarted, failed,
  is_recent, show_argv, restart_argv, run, restart_unit, ensure_peer_health,
}

-- A line other than that of the peer.
abbrev pub IsOther : (peer_key : String) → List String → Type 0
IsOther peer_key fields = handshake_in peer_key fields ≡ none

abbrev AllOther : (peer_key : String) → Lines → Type 0
AllOther peer_key [] = Unit
AllOther peer_key (l ∷ ls) = IsOther peer_key l × AllOther peer_key ls

-- The first line of two fields that names the peer shows this time.
abbrev pub ShowsFirst : Lines → (peer_key : String) → ℕ → Type 0
ShowsFirst out peer_key latest =
    (before after : Lines) × (stamp : String) × (out ≡ before ++ ((peer_key ∷ stamp ∷ []) ∷ after))
    × AllOther peer_key before
    × (number_of stamp ≡ some latest)

-- The handshake is that of the first line of two fields that names the peer, wherever it stands.
latest_handshake-first :
    (before after : Lines) (peer_key stamp : String)
    → AllOther peer_key before
    → latest_handshake_for_peer (before ++ ((peer_key ∷ stamp ∷ []) ∷ after)) peer_key
      ≡ number_of stamp
unfolding latest_handshake_for_peer
latest_handshake-first [] after peer_key stamp h = ground arith
latest_handshake-first (l ∷ before) after peer_key stamp (other, h) =
    rw (latest_handshake_for_peer, other) (latest_handshake-first before after peer_key stamp h)

handshake_in-line :
    (peer_key : String) (fields : List String) (stamp : String)
    → handshake_in peer_key fields ≡ some stamp
    → fields ≡ peer_key ∷ stamp ∷ []
handshake_in-line peer_key [] stamp h = cc
handshake_in-line peer_key (a ∷ []) stamp h = cc
handshake_in-line peer_key (a ∷ b ∷ []) stamp h = ground arith
handshake_in-line peer_key (a ∷ b ∷ c ∷ r) stamp h = cc

line-shown :
    (l : List String) (out : Lines) (peer_key : String) (latest : ℕ) (x : Option String)
    → handshake_in peer_key l ≡ x
    → (latest_handshake_for_peer out peer_key ≡ some latest → ShowsFirst out peer_key latest)
    → latest_handshake_for_peer (l ∷ out) peer_key ≡ some latest
    → ShowsFirst (l ∷ out) peer_key latest
unfolding latest_handshake_for_peer
line-shown l out peer_key latest none e below h =
    let (before, after, stamp, split, others, read) =
      below (rw (latest_handshake_for_peer, e) at h) in
    (l ∷ before, after, stamp, ap (λ ls. l ∷ ls) split, (e, others), read)
line-shown l out peer_key latest (some stamp) e below h =
    let read : number_of stamp ≡ some latest = rw (latest_handshake_for_peer, e) at h in
    ([], out, stamp, ap (λ fields. fields ∷ out) (handshake_in-line peer_key l stamp e), tt, read)

-- A handshake that is found is shown by the first line of the peer.
latest_handshake-shown :
    (out : Lines) (peer_key : String) (latest : ℕ)
    → latest_handshake_for_peer out peer_key ≡ some latest
    → ShowsFirst out peer_key latest
unfolding latest_handshake_for_peer
latest_handshake-shown [] peer_key latest h = cc
latest_handshake-shown (l ∷ out) peer_key latest h =
    line-shown l out peer_key latest _ refl (latest_handshake-shown out peer_key latest) h

module _ (H : Host) (interface peer_key : String) (max_age : ℕ) (unit : String) (now : ℕ)
    (m : Machine H) where
  -- `wg` exits with 0, and the first line of the peer shows a time above 0, which is not in the future
  -- and at most the allowed age in the past.
  abbrev pub IsHealthy : Type 0
  IsHealthy =
      let (rc, out, _) = H.run m.world (show_argv interface) in
      (succeeded rc ≡ true)
      × ((latest : ℕ) × ShowsFirst out peer_key latest
          × (0 < latest)
          × (latest ≤ now)
          × (now ≤ latest + max_age))

  abbrev passes : Bool
  passes =
      let (rc, out, _) = H.run m.world (show_argv interface) in
      succeeded rc && is_recent now max_age (latest_handshake_for_peer out peer_key)

  recent-latest :
      (x : Option ℕ)
      → is_recent now max_age x ≡ true
      → (latest : ℕ) × (x ≡ some latest) × (0 < latest) × (latest ≤ now) × (now ≤ latest + max_age)
  recent-latest none h = cc
  recent-latest (some latest) h =
      (latest, refl, ground (arith, h), ground (arith, h), ground (arith, h))

  passes-IsHealthy : passes ≡ true → IsHealthy
  passes-IsHealthy h =
      let out = (H.run m.world (show_argv interface)).1 in
      let (latest, found, positive, past, young) =
        recent-latest (latest_handshake_for_peer out peer_key) (ground arith) in
      (
        ground arith,
        (latest, latest_handshake-shown out peer_key latest found, positive, past, young),
      )

  IsHealthy-passes : IsHealthy → passes ≡ true
  IsHealthy-passes
        (ok, (latest, (before, after, stamp, split, others, read), positive, past, young)) =
      let found : latest_handshake_for_peer (H.run m.world (show_argv interface)).1 peer_key
          ≡ some latest =
        rw split (latest_handshake-first before after peer_key stamp others ∙ read) in
      rw (ok, found) (ground (arith, positive, past, young))

  -- The interface is restarted, once, exactly when it is not healthy: unless `wg` exits with 0 and its
  -- first line for the peer shows a time above 0 that is neither in the future nor older than the
  -- allowed age. A healthy one is only looked at. A restart that does not exit with 0 is an error.
  pub ensure_peer_health-restarts :
      let (o, m') = ensure_peer_health H interface peer_key max_age unit now m in
      let rc = (H.run (H.run m.world (show_argv interface)).2 (restart_argv unit)).0 in
      (IsHealthy × (m'.history ≡ show_argv interface ∷ m.history) × (o ≡ restarted false))
      ⊎ ((¬ IsHealthy)
          × (m'.history ≡ restart_argv unit ∷ show_argv interface ∷ m.history)
          × (o ≡ (if succeeded rc then restarted true else failed)))
  unfolding ensure_peer_health restart_unit run ◌>>=◌ pure
  ensure_peer_health-restarts = elim (Bool-cases passes) [
    | inl yes_passes ↦ rw yes_passes (inl (passes-IsHealthy yes_passes, refl, refl))
    | inr fails ↦
        rw fails (inr ((λ healthy. let both = IsHealthy-passes healthy in cc), refl, refl))
  ]
