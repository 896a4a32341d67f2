-- ===== src/SparkStatus/Command.antt =====
-- The command lines: `ansible-playbook` for the playbooks, and `ssh` for one pass of the prefetch
-- daemon on the leader. An optional text that is empty counts as missing, as in Python's `or`.
use cylon_local_infra.Prelude.{
  ℕ, zero, suc, min, max, String, ◌<>◌, Bool, true, false, Option, none, some, List, [], ◌∷◌, ◌++◌,
  if◌then◌else◌, ◌==◌, string_eq,
}
use cylon_local_infra.Prelude.Dict.{Dict, lookup}
use cylon_local_infra.Prelude.Effect.{Argv}
use cylon_local_infra.Prelude.Text.{◌/_◌}

abbrev pub Environ : Type 0
Environ = Dict String String

-- `a or b`
infixl 30 ◌or◌
unfoldable pub ◌or◌ : Option String → Option String → Option String
none or b = b
some s or b = if s == "" then b else some s

-- `if s: …` for an optional text.
unfoldable pub when_given : {A : Type 0} → Option String → (String → List A) → List A
when_given none f = []
when_given (some s) f = if s == "" then [] else f s

unfoldable pub ansible_inventory_args : Environ → Option String → Argv
ansible_inventory_args environ inventory =
    when_given
      ((inventory or lookup "SPARK_ANSIBLE_INVENTORY" environ)
        or lookup "ANSIBLE_INVENTORY" environ)
      (λ inv. "-i" ∷ inv ∷ [])

-- `p / name` for a path as `pathlib` prints it: the root and the current directory add no part.
abbrev child : (p name : String) → String
child p name = if p == "/" then "/" <> name else (if p == "." then name else p /_ name)

unfoldable pub playbook : (repo name : String) → String
playbook repo name = child repo "playbooks" /_ name

abbrev check_flag : Bool → Argv
check_flag false = []
check_flag true = "--check" ∷ []

-- `for raw in extra_vars: cmd.extend(["-e", raw])`
abbrev pub extra_args : List String → Argv
extra_args [] = []
extra_args (raw ∷ rest) = "-e" ∷ raw ∷ extra_args rest

unfoldable pub provision_sparks_cmd :
    Environ
    → (repo : String) (inventory : Option String) (extra_vars : List String) (tags : Option String)
      (check : Bool)
    → Argv
provision_sparks_cmd environ repo inventory extra_vars tags check =
    ("ansible-playbook" ∷ playbook repo "provision_sparks.yml" ∷ "-l" ∷ "sparks" ∷ [])
    ++ ansible_inventory_args environ inventory
    ++ when_given tags (λ t. "--tags" ∷ t ∷ [])
    ++ extra_args extra_vars
    ++ check_flag check

unfoldable pub cmd_ansible_prefetch :
    Environ → (repo : String) (inventory : Option String) (check : Bool) → Argv
cmd_ansible_prefetch environ repo inventory check =
    provision_sparks_cmd environ repo inventory [] (some "hf_prefetch,spark_assert") check

unfoldable pub cmd_ansible_vllm :
    Environ
    → (repo : String) (inventory : Option String) (extra_vars : List String) (check : Bool) → Argv
cmd_ansible_vllm environ repo inventory extra_vars check =
    provision_sparks_cmd environ repo inventory extra_vars none check

unfoldable pub cmd_ansible_sync_hermes_ms02 :
    Environ → (repo : String) (inventory : Option String) (check : Bool) → Argv
cmd_ansible_sync_hermes_ms02 environ repo inventory check =
    ("ansible-playbook" ∷ playbook repo "sync_hermes_ms02.yml" ∷ "-l" ∷ "ms02" ∷ [])
    ++ ansible_inventory_args environ inventory
    ++ check_flag check

-- `text * n`
abbrev repeat : String → ℕ → String
repeat text zero = ""
repeat text (suc n) = text <> repeat text n

-- `quote` is `shlex.quote`. The count of `-v` options is a natural number, so that `max 0` is what
-- the code writes and changes nothing.
unfoldable pub cmd_prefetch_once_ssh :
    (quote : String → String) (ssh_host install_py config_yaml state_json runtime_home : String)
    (verbose : ℕ)
    → Argv
cmd_prefetch_once_ssh quote ssh_host install_py config_yaml state_json runtime_home verbose =
    let rh = quote runtime_home in
    let vflag = repeat " -v" (max 0 (min verbose 3)) in
    let inner =
      "sudo -u nvidia env HOME="
      <> rh
      <> " XDG_CONFIG_HOME="
      <> rh
      <> "/.config /usr/bin/python3 "
      <> quote install_py
      <> " --config "
      <> quote config_yaml
      <> " --state "
      <> quote state_json
      <> " --once"
      <> vflag in
    "ssh" ∷ "-o" ∷ "BatchMode=yes" ∷ "-o" ∷ "ConnectTimeout=15" ∷ ssh_host ∷ inner ∷ []
