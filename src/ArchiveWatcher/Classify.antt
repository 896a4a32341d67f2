-- ===== src/ArchiveWatcher/Classify.antt =====
-- `classify_model`, `classify_backstop_model` and `rank_candidates`. A model is what its metadata gives
-- to these functions: the texts that are lowered or normalised are read in that form.
use cylon_local_infra.Prelude.{
  ℕ, ◌+◌, ◌*◌, String, Bool, true, ◌&&◌, ◌||◌, not, Option, none, some, List, [], ◌∷◌, any, all,
  contains, if◌then◌else◌, ◌==◌, string_eq, eqb, ltb, leb, Eq, length,
}
use Prim.Native.String.{compare}
use text.Mathlib.Text.{is_lt}
use cylon_local_infra.Prelude.Text.{codes, starts_with, ends_with, has_part}

pub data Precision : Type 0 where
  fp8 fp16 nvfp4 : Precision

precision_discrete : Discrete Precision
precision_discrete = hlevel

instance unfoldable pub precision_eq : Eq Precision
unfolding precision_discrete
precision_eq = record { dec = precision_discrete }

abbrev pub precision_text : Precision → String
precision_text fp8 = "fp8"
precision_text fp16 = "fp16"
precision_text nvfp4 = "nvfp4"

-- The metadata of a model. `lower_id` and `lower_author` are the texts in lower case, `lower_sha` too,
-- `text` is `_metadata_text` and `normal_id` is `normalize_text(repo_id)`. The parameter counts stand
-- with their normalised names; a count that is no number is left out.
pub record Model : Type 0 where
  pub id : String
  pub lower_id : String
  pub lower_author : String
  pub sha : String
  pub lower_sha : String
  pub text : String
  pub normal_id : String
  pub siblings : List String
  pub parameters : List (String × ℕ)

pub record Candidate : Type 0 where
  pub repo_id : String
  -- `repo_id.lower()`, the last key of the ranking
  pub lower_id : String
  pub sha : String
  pub precision : Precision
  pub score : ℕ

abbrev incompatible_markers : List String
incompatible_markers =
    "gguf" ∷ "mlx" ∷ "onnx" ∷ "awq" ∷ "gptq" ∷ "exl2" ∷ "int4" ∷ "int8" ∷ "mxfp4" ∷ "nvfp4" ∷ "fp4"
    ∷ []

abbrev is_hex : ℕ → Bool
is_hex c = (leb b'0' c && leb c b'9') || ((leb b'a' c && leb c b'f') || (leb b'A' c && leb c b'F'))

-- `re.fullmatch(r"[0-9a-fA-F]{40}", sha)`
unfoldable pub is_commit : String → Bool
is_commit sha = eqb (length (codes sha)) 40 && all is_hex (codes sha)

abbrev counts_as_fp8 : String → Bool
counts_as_fp8 name = starts_with name "f8" || (has_part "float8" name || has_part "fp8" name)

abbrev counts_as_fp16 : String → Bool
counts_as_fp16 name = contains ("f16" ∷ "fp16" ∷ "float16" ∷ "bf16" ∷ "bfloat16" ∷ []) name

unfoldable pub sum_where : (String → Bool) → List (String × ℕ) → ℕ
sum_where p [] = 0
sum_where p ((name, n) ∷ rest) = let r = sum_where p rest in if p name then n + r else r

-- `total > 0 and count / total >= 0.5`
abbrev is_half : (count total : ℕ) → Bool
is_half count total = ltb 0 total && leb total (2 * count)

abbrev mentions : List String → String → Bool
mentions markers text = any (λ (m : String). has_part m text) markers

unfoldable pub precision_of : Model → Option Precision
precision_of m =
    let total = sum_where (λ name. true) m.parameters in
    if is_half (sum_where (λ name. counts_as_fp8 name) m.parameters) total
    then some fp8
    else if is_half (sum_where (λ name. counts_as_fp16 name) m.parameters) total
    then some fp16
    else if mentions ("fp8" ∷ "float8" ∷ "f8e4m3" ∷ "nvfp8" ∷ []) m.text
    then some fp8
    else if mentions ("fp16" ∷ "float16" ∷ "bf16" ∷ "bfloat16" ∷ []) m.text
    then some fp16
    else none

abbrev points : Bool → ℕ → ℕ
points b n = if b then n else 0

unfoldable pub score_of : Model → Precision → ℕ
score_of m p =
    100
    + points (has_part "nvidia" m.text) 30
    + points (has_part "vllm" m.text) 20
    + points (has_part "safetensors" m.text) 15
    + points (has_part (precision_text p) m.normal_id) 20
    + points (not (has_part "base" m.normal_id)) 5

abbrev has_weights : Model → Bool
has_weights m = any (λ name. ends_with name ".safetensors") m.siblings

-- The guards of `classify_model`.
unfoldable pub is_archivable : Model → Bool
is_archivable m =
    (m.lower_author == "moonshotai" && starts_with m.lower_id "moonshotai/")
    && (is_commit m.sha
        && (has_part "kimik3" m.text
            && (not (mentions incompatible_markers m.text) && has_weights m)))

abbrev candidate_of : Model → Option Precision → Option Candidate
candidate_of m none = none
candidate_of m (some p) = some (record {
  repo_id = m.id;
  lower_id = m.lower_id;
  sha = m.lower_sha;
  precision = p;
  score = score_of m p;
})

unfoldable pub classify_model : Model → Option Candidate
classify_model m = if is_archivable m then candidate_of m (precision_of m) else none

unfoldable pub classify_backstop_model : Model → Option Candidate
classify_backstop_model m =
    if (m.id == "RedHatAI/Kimi-K3-NVFP4" && m.lower_author == "redhatai")
      && (is_commit m.sha
          && (all (λ marker. has_part marker m.text)
                ("kimik3" ∷ "basemodelmoonshotaikimik3" ∷ "nvfp4packquantized" ∷ "compressedtensors"
                  ∷ "numbits4" ∷ [])
              && has_weights m))
    then some (record {
      repo_id = m.id;
      lower_id = m.lower_id;
      sha = m.lower_sha;
      precision = nvfp4;
      score = 100;
    })
    else none

-- The place of a precision in `PRECISION_ORDER`. The backstop's precision is never ranked.
abbrev pub rank_of : Precision → ℕ
rank_of fp8 = 0
rank_of fp16 = 1
rank_of nvfp4 = 2

-- `a < b` on the keys `(order, -score, lower id)`.
unfoldable pub comes_before : Candidate → Candidate → Bool
comes_before a b =
    ltb (rank_of a.precision) (rank_of b.precision)
    || (eqb (rank_of a.precision) (rank_of b.precision)
        && (ltb b.score a.score || (eqb a.score b.score && is_lt (compare a.lower_id b.lower_id))))

-- One step of a stable sort.
unfoldable pub insert_candidate : Candidate → List Candidate → List Candidate
insert_candidate x [] = x ∷ []
insert_candidate x (y ∷ ys) = if comes_before y x then y ∷ insert_candidate x ys else x ∷ y ∷ ys

unfoldable pub sort_candidates : List Candidate → List Candidate
sort_candidates [] = []
sort_candidates (x ∷ xs) = insert_candidate x (sort_candidates xs)

unfoldable pub classify_all : List Model → List Candidate
classify_all [] = []
classify_all (m ∷ ms) =
    let rest = classify_all ms in elim (classify_model m) [ none ↦ rest | some c ↦ c ∷ rest ]

unfoldable pub rank_candidates : List Model → List Candidate
rank_candidates models = sort_candidates (classify_all models)

unfoldable pub candidate_for_precision : List Candidate → Precision → Option Candidate
candidate_for_precision [] p = none
candidate_for_precision (c ∷ cs) p =
    if c.precision == p then some c else candidate_for_precision cs p
