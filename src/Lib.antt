-- ===== src/Lib.antt =====
-- The services of this repository that keep the nodes of a small GPU cluster supplied: models,
-- container images, the serving stack and the mirrors of data in the cloud, and the scripts that an
-- operator runs beside them. Each is a Python program of its own; they share no memory, and meet in
-- the state files that one writes and another reads.
--
-- The parts, and what models them:
--
--   HfPrefetch     roles/hf_prefetch_service/files/hf_prefetch_service.py
--     Downloads the configured models into the cache and copies them to the peers. Store is the class
--     StateStore, Cache is cache_status, Backoff is BackoffTracker, Commands holds the command lines,
--     Machine the state of the process with the host it runs on, Reconcile is hf_download,
--     rsync_to_peer and reconcile_once, Daemon the loop of main, and Load is Config.load and
--     ModelEntry.parse. Reconcile/Transitions is the state machine of the module's docstring.
--   NgcImage       roles/ngc_image_service/files/ngc_image_service.py
--     Pulls the newest tags of the configured images, replicates them and prunes stale ones. Version
--     and Select are _version_key and select_keep; Store, Backoff, Machine, Reconcile and Daemon are as
--     above. Docker is the commands and the readings of local_tags, image_used_by_container and the
--     image ids. Registry is fetch_tags, with Token for _http_get and _get_bearer_token, Challenge for
--     _parse_www_auth and Link for the header that names the next page; the host of Reconcile takes
--     the tags as an answer.
--   Autoupgrade    roles/vllm_stack_autoupgrade/files/vllm_stack_autoupgrade.py
--     Moves the serving stack to a newer image. Candidate is find_candidate, which reads the state file
--     of the image daemon, so that it takes a store of NgcImage; Quiet is is_quiet and wait_for_quiet,
--     Metrics is parse_metrics and the search of capture_vllm_serve_argv, Command is compose_run_cmd,
--     Bounce is capture_stack and bounce, Loop is the body of loop.
--   MassiveMirror  scripts/massive_flatfile_mirror.py
--     Copies the flat files of a provider into a bucket. Config is load_config and status_dict, Sync is
--     sync_all with the GcloudDest that it writes to, Source is BotoSource and _list_command.
--   ArchiveWatcher scripts/hf_archive_watcher.py
--     Archives the releases of a model, one precision at a time. Discover is discover_models and how
--     the metadata is read, Classify the classification and the ranking of the candidates, Watch is
--     archive_candidate and run_watcher.
--   WireGuard      roles/wireguard/files/wireguard_healthcheck.py,
--                  roles/wireguard_mac/files/microscaler_wireguard.py
--     Health restarts an interface whose peer is missing or stale. Mac brings a tunnel up and down,
--     which takes the place of a route.
--   SparkStatus    scripts/spark_model_status.py
--     Switches the served model over and reports on it. Command is the command lines, Cutover the
--     commands that run playbooks, Observe is run_observe_ssh, Probe and Report are run_report and
--     what it calls, Main is main. Report/Daemon reads the state file of HfPrefetch.
--   CargoCleanup   scripts/cargo_cleanup.py, also roles/dev_workstation/files/cargo_cleanup.py
--     Cleans the top-level Rust workspaces. Roots is find_cargo_roots, Clean is run_clean and main.
--   Prelude        what the parts share: Python's lists, dicts and texts, JSON values, equality that
--     can be decided, and code that passes a state with the rules for what it keeps.
--
-- Conventions. A program is a function on a machine: the state of the process, the world outside, and
-- the history of the commands that were run, the newest first. The host is a record of functions, one
-- for each call of the clock, the file system, docker, ssh, rsync, gcloud or a registry; each takes the
-- world and may change it, so that a theorem about every host holds whatever these calls answer, and
-- whatever other processes do between them. A stop signal is an answer of the call is_set. A return out
-- of a loop, a continue, a break or an exception is a value of a data type with one constructor for
-- each. Clock readings are whole seconds, where Python has fractions. A file that a program writes and
-- renames over the old one is written as a whole; a write in place may raise and leave anything. The messages in a state file are constructors with
-- the values that they print.
--
-- Loops over lists are structural recursion. A loop that polls until a deadline reads a list with one
-- entry for each turn, the answers of its calls in that turn, and has a verdict of its own for a list
-- that is used up; Quiet/Ending shows when it does not occur. Fuel is taken by the decimal digits of a
-- number, where it is the number itself, and by the pages of a registry, where Registry/Pages shows
-- that one unit for each page is enough. A text is read character by character, for the letters, the
-- digits and the whitespace of ASCII.
--
-- Not modelled: argument parsing, logging, printed sizes, the parsing of YAML and JSON, signal handlers
-- and the child processes themselves, which are calls of the host; the loading of the configuration of
-- the image and the autoupgrade daemons; a pass of HfPrefetch that raises, which its loop logs, and a
-- heartbeat that writes after the limit of its join; the systemd units that scripts print. The GPU kernels, whose
-- semantics is that of a compiler, and the patchers, which replace texts of third-party packages that
-- are not in the repository, are left out, as are the HTTP server around a third-party model and the
-- Ansible roles.
pub mod Prelude
pub mod HfPrefetch
pub mod NgcImage
pub mod MassiveMirror
pub mod Autoupgrade
pub mod ArchiveWatcher
pub mod WireGuard
pub mod SparkStatus
pub mod CargoCleanup
