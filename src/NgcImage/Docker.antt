-- ===== src/NgcImage/Docker.antt =====
-- What the daemon asks of docker, here and on a peer, and how it reads the answers. The output of a
-- listing is its lines.
use cylon_local_infra.Prelude.{
  String, ◌<>◌, Bool, ◌&&◌, not, Option, none, some, List, [], ◌∷◌, ◌++◌, map, select,
  if◌then◌else◌, ◌==◌, string_eq,
}
use cylon_local_infra.Prelude.Text.{strip, is_space}
use cylon_local_infra.Prelude.Effect.{ExitCode, succeeded, Argv}
use cylon_local_infra.NgcImage.Config.{SyncTarget}

unfoldable pub images_argv : (repo : String) → Argv
images_argv repo = "docker" ∷ "images" ∷ repo ∷ "--format" ∷ "{{.Tag}}" ∷ []

-- `local_tags`: a listing that fails has no tags. The set is the list of its members.
unfoldable pub local_tags_of : ExitCode → (lines : List String) → List String
local_tags_of rc lines =
    let stripped = map (strip is_space) lines in
    if succeeded rc then select (λ tag. not (tag == "") && not (tag == "<none>")) stripped else []

unfoldable pub containers_argv : (key : String) → Argv
containers_argv key =
    "docker" ∷ "ps" ∷ "-a" ∷ "--filter" ∷ ("ancestor=" <> key) ∷ "--format" ∷ "{{.ID}}" ∷ []

-- `image_used_by_container`, which does not look at the exit code.
unfoldable pub used_of : ExitCode → (out : String) → Bool
used_of rc out = not (strip is_space out == "")

unfoldable pub inspect_argv : (key : String) → Argv
inspect_argv key = "docker" ∷ "image" ∷ "inspect" ∷ "--format" ∷ "{{.Id}}" ∷ key ∷ []

unfoldable pub ssh_argv : SyncTarget → Argv
ssh_argv target =
    "ssh"
    ∷ "-o"
    ∷ "StrictHostKeyChecking=no"
    ∷ "-o"
    ∷ "BatchMode=yes"
    ∷ "-o"
    ∷ "UserKnownHostsFile=/dev/null"
    ∷ "-o"
    ∷ "LogLevel=ERROR"
    ∷ (target.user <> "@" <> target.host)
    ∷ []

unfoldable pub peer_inspect_argv : SyncTarget → (key : String) → Argv
peer_inspect_argv target key = ssh_argv target ++ inspect_argv key

-- `_local_image_id` and `_peer_image_id`; no exit code is the time limit of the call to a peer.
unfoldable pub image_id_of : Option ExitCode → (out : String) → Option String
image_id_of none out = none
image_id_of (some rc) out =
    let id = strip is_space out in if succeeded rc && not (id == "") then some id else none
