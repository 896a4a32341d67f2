-- ===== src/ArchiveWatcher/Watch/Verified.antt =====
-- What precedes the removal of a local copy, and what never starts.
use cylon_local_infra.Prelude.{
  ℕ, ◌+◌, ◌*◌, ◌^◌, ◌<◌, String, Option, none, some, List, [], ◌∷◌, ◌≡◌, arith,
}
use cylon_local_infra.Prelude.State.{
  pure, ◌>>=◌, Keeps, Keeps-bind, Keeps-if, Keeps-gets, keeps_rules,
}
use cylon_local_infra.ArchiveWatcher.Classify.{
  Precision, fp8, fp16, Candidate, Model, rank_candidates,
}
use cylon_local_infra.ArchiveWatcher.Watch.{
  Event, downloaded, copied, verified, saved, removed, Host, Run, M, Flow, goes_on, raises,
  is_too_big, and_then, step, check_space, save_entry, remove_local, archive_candidate,
  archive_some, archive_backstop, archive_next, archive_in_order, run_watcher,
}

-- The newest steps are those of an archive of `c` that was verified and saved.
abbrev pub IsSaved : Candidate → List Event → Type 0
IsSaved c (saved s ∷ verified v ∷ copied k ∷ downloaded d ∷ h) =
    (s ≡ c) × (v ≡ c) × (k ≡ c) × (d ≡ c)
IsSaved c _ = ⊥

-- Every removal of a local copy comes right after the download, the copy to the bucket, its
-- verification and the entry in the state file, of that very candidate.
abbrev pub IsSafe : List Event → Type 0
IsSafe [] = Unit
IsSafe (removed c ∷ h) = IsSaved c h × IsSafe h
IsSafe (downloaded c ∷ h) = IsSafe h
IsSafe (copied c ∷ h) = IsSafe h
IsSafe (verified c ∷ h) = IsSafe h
IsSafe (saved c ∷ h) = IsSafe h

module _ (H : Host) (bucket : String) where
  abbrev KeptSafe : Run → Type 0
  KeptSafe run = IsSafe run.history

  archive-Safe : (c : Candidate) → Keeps KeptSafe (archive_candidate H bucket c)
  unfolding archive_candidate check_space step save_entry remove_local ◌>>=◌ pure
  archive-Safe c = record { at = λ run h. ground (arith, h) }

  -- A candidate whose size was read as more than 0, and which does not leave the reserve free, ends the
  -- run with an exception, and nothing is downloaded.
  pub archive_candidate-guard :
      (c : Candidate) (run : Run) (required : ℕ)
      → H.dry_run run.history c ≡ some (some required)
      → 0 < required
      → H.free_bytes run.history < required + 20 * 1024 ^ 3
      → archive_candidate H bucket c run ≡ (raises, run)
  unfolding archive_candidate check_space is_too_big ◌>>=◌ pure
  archive_candidate-guard c run required read some_bytes full =
      rw read (ground (arith, some_bytes, full))

  and_then-Safe :
      (next : M Flow) (f : Flow) → Keeps KeptSafe next → Keeps KeptSafe (and_then H bucket next f)
  and_then-Safe next goes_on k = k
  and_then-Safe next raises k = search keeps_rules

  some-Safe : (o : Option Candidate) → Keeps KeptSafe (archive_some H bucket o)
  some-Safe none = search keeps_rules
  some-Safe (some c) = archive-Safe c

  backstop-Safe : (models : List Model) → Keeps KeptSafe (archive_backstop H bucket models)
  unfolding archive_backstop
  backstop-Safe models = search (keeps_rules, some-Safe)

  next-Safe :
      (rest : M Flow) (o : Option Candidate)
      → Keeps KeptSafe rest
      → Keeps KeptSafe (archive_next H bucket rest o)
  next-Safe rest none k = search keeps_rules
  next-Safe rest (some c) k = Keeps-bind _ _ (archive-Safe c) (λ f. and_then-Safe rest f k)

  order-Safe :
      (cs : List Candidate) (ps : List Precision) → Keeps KeptSafe (archive_in_order H bucket cs ps)
  unfolding archive_in_order
  order-Safe cs [] = search keeps_rules
  order-Safe cs (p ∷ ps) =
      Keeps-bind _ _ (Keeps-gets _)
        (λ done. Keeps-if done _ _ (order-Safe cs ps) (next-Safe _ _ (order-Safe cs ps)))

  -- In a run that starts with no steps noted, every removal of a local copy comes right after the
  -- download, the copy to the bucket, its verification and the entry in the state file, of that very
  -- candidate, however the run ends.
  pub run_watcher-IsSafe :
      (models : List Model) (run : Run)
      → run.history ≡ []
      → IsSafe (run_watcher H bucket models run).1.history
  unfolding run_watcher
  run_watcher-IsSafe models run fresh =
      (Keeps-bind _ _ (backstop-Safe models)
          (λ f. and_then-Safe _ f (order-Safe (rank_candidates models) (fp8 ∷ fp16 ∷ [])))).at
        run (rw fresh tt)
