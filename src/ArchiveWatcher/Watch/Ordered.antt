-- ===== src/ArchiveWatcher/Watch/Ordered.antt =====
-- In which order the precisions are archived.
use mathlib.Core.Path.{subst}
use cylon_local_infra.Prelude.{
  String, true, false, Option, none, some, List, [], ◌∷◌, ◌≡◌, ◌⊎◌, inl, inr, refl, arith,
  Bool-cases, ◌==◌,
}
use cylon_local_infra.Prelude.Dict.{lookup-insert}
use cylon_local_infra.Prelude.State.{
  pure, ◌>>=◌, gets, Keeps, Keeps-bind, Keeps-if, Keeps-gets, Keeps-pure, keeps_rules,
}
use cylon_local_infra.ArchiveWatcher.Classify.{
  Precision, fp8, fp16, nvfp4, precision_eq, Candidate, Model, classify_backstop_model,
  candidate_for_precision, rank_candidates,
}
use cylon_local_infra.ArchiveWatcher.Watch.{
  Host, Run, M, Flow, goes_on, raises, is_archived, entry_of, and_then, step, check_space,
  save_entry, remove_local, archive_candidate, first_backstop, archive_some, archive_backstop,
  archive_next, archive_in_order, run_watcher,
}

fp16-fp8_differ : (fp16 == fp8) ≡ false
fp16-fp8_differ = ground arith

fp16-nvfp4_differ : (fp16 == nvfp4) ≡ false
fp16-nvfp4_differ = ground arith

candidate_for_precision-precision :
    (cs : List Candidate) (p : Precision) (c : Candidate)
    → candidate_for_precision cs p ≡ some c
    → c.precision ≡ p
unfolding candidate_for_precision
candidate_for_precision-precision [] p c h = cc
candidate_for_precision-precision (x ∷ xs) p c h =
    ground (arith, h, candidate_for_precision-precision xs p c)

backstop-precision :
    (m : Model) (c : Candidate) → classify_backstop_model m ≡ some c → c.precision ≡ nvfp4
unfolding classify_backstop_model
backstop-precision m c h = ground (arith, h)

module _ (H : Host) (bucket : String) where
  -- FP8 is archived, or FP16 is not.
  abbrev pub IsOrdered : Run → Type 0
  IsOrdered run = (is_archived H bucket fp8 run ≡ true) ⊎ (is_archived H bucket fp16 run ≡ false)

  -- An archive keeps a precision that is there, and adds no other than that of its candidate.
  archive-stays :
      (c : Candidate) (p : Precision)
      → Keeps (λ run. is_archived H bucket p run ≡ true) (archive_candidate H bucket c)
  unfolding archive_candidate check_space step save_entry remove_local ◌>>=◌ pure
  archive-stays c p = record {
    at = λ run h. ground (arith, h, lookup-insert p c.precision (entry_of H bucket c) run.archived);
  }

  archive-adds_no :
      (c : Candidate) (p : Precision)
      → (p == c.precision) ≡ false
      → Keeps (λ run. is_archived H bucket p run ≡ false) (archive_candidate H bucket c)
  unfolding archive_candidate check_space step save_entry remove_local ◌>>=◌ pure
  archive-adds_no c p other = record {
    at = λ run h.
        ground (arith, h, other, lookup-insert p c.precision (entry_of H bucket c) run.archived);
  }

  archive-adds :
      (c : Candidate) (run : Run)
      → (archive_candidate H bucket c run).0 ≡ goes_on
      → is_archived H bucket c.precision (archive_candidate H bucket c run).1 ≡ true
  unfolding archive_candidate check_space step save_entry remove_local ◌>>=◌ pure
  archive-adds c run done =
      ground (arith, done, lookup-insert c.precision c.precision (entry_of H bucket c) run.archived)

  archive-IsOrdered :
      (c : Candidate)
      → (fp16 == c.precision) ≡ false
      → Keeps IsOrdered (archive_candidate H bucket c)
  archive-IsOrdered c other = record { at = go }
    where
      go : (run : Run) → IsOrdered run → IsOrdered (archive_candidate H bucket c run).1
      go run (inl has) = inl ((archive-stays c fp8).at run has)
      go run (inr lacks) = inr ((archive-adds_no c fp16 other).at run lacks)

  abbrev HasFp8 : Run → Type 0
  HasFp8 run = is_archived H bucket fp8 run ≡ true

  and_then-HasFp8 :
      (next : M Flow) (f : Flow) → Keeps HasFp8 next → Keeps HasFp8 (and_then H bucket next f)
  and_then-HasFp8 next goes_on k = k
  and_then-HasFp8 next raises k = search keeps_rules

  next-HasFp8 :
      (rest : M Flow) (o : Option Candidate)
      → Keeps HasFp8 rest
      → Keeps HasFp8 (archive_next H bucket rest o)
  next-HasFp8 rest none k = search keeps_rules
  next-HasFp8 rest (some c) k = Keeps-bind _ _ (archive-stays c fp8) (λ f. and_then-HasFp8 rest f k)

  order-HasFp8 :
      (cs : List Candidate) (ps : List Precision) → Keeps HasFp8 (archive_in_order H bucket cs ps)
  unfolding archive_in_order
  order-HasFp8 cs [] = search keeps_rules
  order-HasFp8 cs (p ∷ ps) =
      Keeps-bind _ _ (Keeps-gets _)
        (λ done. Keeps-if done _ _ (order-HasFp8 cs ps) (next-HasFp8 _ _ (order-HasFp8 cs ps)))

  -- What follows the archive of an FP8 candidate.
  then-IsOrdered :
      (rest : M Flow) (f : Flow) (run : Run)
      → Keeps HasFp8 rest
      → (f ≡ goes_on → HasFp8 run)
      → IsOrdered run
      → IsOrdered (and_then H bucket rest f run).1
  unfolding pure
  then-IsOrdered rest goes_on run k has h = inl (k.at run (has refl))
  then-IsOrdered rest raises run k has h = h

  next-IsOrdered :
      (rest : M Flow) (o : Option Candidate) (run : Run)
      → Keeps HasFp8 rest
      → ((c : Candidate) → o ≡ some c → c.precision ≡ fp8)
      → IsOrdered run
      → IsOrdered (archive_next H bucket rest o run).1
  unfolding ◌>>=◌ pure
  next-IsOrdered rest none run k is_fp8 h = h
  next-IsOrdered rest (some c) run k is_fp8 h =
      let same = is_fp8 c refl in
      let has : (archive_candidate H bucket c run).0 ≡ goes_on
          → HasFp8 (archive_candidate H bucket c run).1 =
        λ done.
          subst (λ p. is_archived H bucket p (archive_candidate H bucket c run).1 ≡ true) same
            (archive-adds c run done) in
      then-IsOrdered rest _ _ k has ((archive-IsOrdered c (rw same fp16-fp8_differ)).at run h)

  order-IsOrdered :
      (cs : List Candidate) (ps : List Precision)
      → Keeps IsOrdered (archive_in_order H bucket cs (fp8 ∷ ps))
  unfolding archive_in_order ◌>>=◌ gets
  order-IsOrdered cs ps = record { at = go }
    where
      go : (run : Run) → IsOrdered run → IsOrdered (archive_in_order H bucket cs (fp8 ∷ ps) run).1
      go run h = elim (Bool-cases (is_archived H bucket fp8 run)) [
        | inl has ↦ rw has (inl ((order-HasFp8 cs ps).at run has))
        | inr lacks ↦ rw lacks (
            next-IsOrdered (archive_in_order H bucket cs ps) (candidate_for_precision cs fp8) run
              (order-HasFp8 cs ps) (candidate_for_precision-precision cs fp8) h)
      ]

  some-IsOrdered :
      (o : Option Candidate)
      → ((c : Candidate) → o ≡ some c → c.precision ≡ nvfp4)
      → Keeps IsOrdered (archive_some H bucket o)
  some-IsOrdered none is_nvfp4 = search keeps_rules
  some-IsOrdered (some c) is_nvfp4 = archive-IsOrdered c (rw (is_nvfp4 c refl) fp16-nvfp4_differ)

  first_backstop-precision :
      (models : List Model) (c : Candidate)
      → first_backstop H bucket models ≡ some c
      → c.precision ≡ nvfp4
  unfolding first_backstop
  first_backstop-precision [] c h = cc
  first_backstop-precision (m ∷ ms) c h =
      ground (arith, h, backstop-precision m c, first_backstop-precision ms c)

  backstop-IsOrdered : (models : List Model) → Keeps IsOrdered (archive_backstop H bucket models)
  unfolding archive_backstop
  backstop-IsOrdered models = Keeps-bind _ _ (Keeps-gets _) (λ done.
      Keeps-if done _ _ (Keeps-pure _) (some-IsOrdered _ (first_backstop-precision models)))

  and_then-IsOrdered :
      (next : M Flow) (f : Flow) → Keeps IsOrdered next → Keeps IsOrdered (and_then H bucket next f)
  and_then-IsOrdered next goes_on k = k
  and_then-IsOrdered next raises k = search keeps_rules

  -- A run keeps the order of the archive, however it ends: when FP16 is archived, so is FP8.
  pub run_watcher-IsOrdered :
      (models : List Model) (run : Run)
      → IsOrdered run
      → IsOrdered (run_watcher H bucket models run).1
  unfolding run_watcher
  run_watcher-IsOrdered models =
      (Keeps-bind _ _ (backstop-IsOrdered models)
        (λ f. and_then-IsOrdered _ f (order-IsOrdered (rank_candidates models) (fp16 ∷ [])))).at
