-- ===== src/ArchiveWatcher/Tests.antt =====
-- The theorems at one backstop and an archive where every step succeeds, and at a disk that is full.
use cylon_local_infra.Prelude.{
  ℕ, ◌+◌, ◌*◌, ◌^◌, ◌<◌, ◌≡◌, refl, String, string_eq, true, none, some, [], ◌∷◌, arith, inr,
}
use cylon_local_infra.Prelude.Dict.{lookup, insert}
use cylon_local_infra.Prelude.Json.{Json, object, end, field, field_of, str, truth}
use cylon_local_infra.ArchiveWatcher.Discover.{collect, keep_plain}
use cylon_local_infra.ArchiveWatcher.Classify.{Candidate, Model, nvfp4}
use cylon_local_infra.ArchiveWatcher.Watch.{Host, Run, raises, archive_candidate, run_watcher}
use cylon_local_infra.ArchiveWatcher.Watch.Verified.{
  IsSafe, archive_candidate-guard, run_watcher-IsSafe,
}
use cylon_local_infra.ArchiveWatcher.Watch.Ordered.{IsOrdered, run_watcher-IsOrdered}

abbrev with_free : (free : ℕ) → Host
with_free free = record {
  dry_run = λ h c. some (some 5);
  free_bytes = λ h. free;
  download = λ h c. true;
  copy = λ h c. true;
  verify = λ h c. some "Completed";
  save = λ h. true;
  is_below_root = λ c. true;
  rmtree = λ h c. true;
}

abbrev sha : String
sha = "0123456789abcdef0123456789abcdef01234567"

abbrev backstop : Model
backstop = record {
  id = "RedHatAI/Kimi-K3-NVFP4";
  lower_id = "redhatai/kimi-k3-nvfp4";
  lower_author = "redhatai";
  sha = sha;
  lower_sha = sha;
  text = "kimik3basemodelmoonshotaikimik3nvfp4packquantizedcompressedtensorsnumbits4";
  normal_id = "redhataikimik3nvfp4";
  siblings = "model.safetensors" ∷ [];
  parameters = [];
}

abbrev candidate : Candidate
candidate = record {
  repo_id = backstop.id;
  lower_id = backstop.lower_id;
  sha = sha;
  precision = nvfp4;
  score = 100;
}

abbrev start : Run
start = record { archived = []; history = [] }

nothing_archived : IsOrdered (with_free 9) "b" start
unfolding lookup
nothing_archived = inr refl

too_full : 9 < 5 + 20 * 1024 ^ 3
too_full = omega arith

some_bytes : 0 < 5
some_bytes = omega arith

run_watcher-IsSafe_example :
    IsSafe (run_watcher (with_free 30000000000) "b" (backstop ∷ []) start).1.history
run_watcher-IsSafe_example =
    run_watcher-IsSafe (with_free 30000000000) "b" (backstop ∷ []) start refl

run_watcher-IsOrdered_example :
    IsOrdered (with_free 9) "b" (run_watcher (with_free 9) "b" (backstop ∷ []) start).1
run_watcher-IsOrdered_example =
    run_watcher-IsOrdered (with_free 9) "b" (backstop ∷ []) start nothing_archived

archive_candidate-guard_example :
    archive_candidate (with_free 9) "b" candidate start ≡ (raises, start)
archive_candidate-guard_example =
    archive_candidate-guard (with_free 9) "b" candidate start 5 refl some_bytes too_full

-- The later of two models with one id is kept, at the place of the earlier.
found_once :
    collect
      (λ s. s)
      (λ v. "")
      (λ v. "")
      (λ s. none)
      (λ v. none)
      []
      (object (field "id" (Json.text "a") (field "sha" (Json.text "1") end))
        ∷ object (field "id" (Json.text "b") end)
        ∷ object (field "id" (Json.text "a") end)
        ∷ [])
    ≡ some (("a", field "id" (Json.text "a") end) ∷ ("b", field "id" (Json.text "b") end) ∷ [])
unfolding collect insert field_of str truth string_eq
found_once = refl

plain_text : keep_plain "kimi-k3 fp8!" ≡ "kimik3fp8"
unfolding keep_plain
plain_text = refl
