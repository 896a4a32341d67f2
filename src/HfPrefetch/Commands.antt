-- ===== src/HfPrefetch/Commands.antt =====
-- The command lines that the prefetch daemon runs.
use cylon_local_infra.Prelude.{
  String, ◌<>◌, Option, none, some, [], ◌∷◌, ◌++◌, if◌then◌else◌, ◌==◌, string_eq,
}
use cylon_local_infra.Prelude.Dict.{Dict}
use cylon_local_infra.Prelude.Effect.{Argv}
use cylon_local_infra.Prelude.Text.{replace_char, take_chars, parent, ◌/_◌}
use cylon_local_infra.HfPrefetch.Config.{SyncTarget, ModelEntry, Config}
use cylon_local_infra.HfPrefetch.Cache.{repo_to_cache_dirname}

unfoldable pub container_name : String → String
container_name repo =
    take_chars 63 ("hf-prefetch-" <> replace_char b'.' "_" (replace_char b'/' "_" repo))

unfoldable pub rm_argv : String → Argv
unfolding container_name
rm_argv repo = "docker" ∷ "rm" ∷ "-f" ∷ container_name repo ∷ []

unfoldable pub env_flags : Dict String String → Argv
env_flags [] = []
env_flags ((k, v) ∷ env) = "-e" ∷ (k <> "=" <> v) ∷ env_flags env

-- An empty revision is no revision.
unfoldable pub revision_flags : Option String → Argv
unfolding string_eq
revision_flags none = []
revision_flags (some r) = if r == "" then [] else "--revision" ∷ r ∷ []

-- The mounted directory is the parent of the hub directory.
unfoldable pub download_argv : Config → ModelEntry → (hub_dir : String) → Argv
unfolding container_name env_flags revision_flags parent
download_argv cfg entry hub_dir =
    ("docker"
      ∷ "run"
      ∷ "--rm"
      ∷ "--name"
      ∷ container_name entry.repo
      ∷ "--network"
      ∷ "host"
      ∷ "-v"
      ∷ (parent hub_dir <> ":/root/.cache/huggingface")
      ∷ "--entrypoint"
      ∷ "hf"
      ∷ [])
    ++ (env_flags cfg.hf_env
        ++ (cfg.image ∷ "download" ∷ entry.repo ∷ revision_flags entry.revision))

unfoldable pub rsync_argv : (cache_dir repo : String) → SyncTarget → Argv
unfolding repo_to_cache_dirname
rsync_argv cache_dir repo target =
    let src = (cache_dir /_ repo_to_cache_dirname repo) <> "/" in
    let dest =
      target.user
      <> "@"
      <> target.host
      <> ":"
      <> target.cache_dir
      <> "/"
      <> repo_to_cache_dirname repo
      <> "/" in
    "rsync" ∷ "-a" ∷ "--delete" ∷ "--partial" ∷ "--partial-dir=.rsync-partial"
    ∷ "--info=stats2,progress0" ∷ "-e"
    ∷ "ssh -o StrictHostKeyChecking=no -o BatchMode=yes -o UserKnownHostsFile=/dev/null -o LogLevel=ERROR"
    ∷ src ∷ dest ∷ []
