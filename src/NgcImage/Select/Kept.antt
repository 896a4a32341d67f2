-- ===== src/NgcImage/Select/Kept.antt =====
-- Which tags `select_keep` returns.
use cylon_local_infra.Prelude.{
  String, Bool, ◌||◌, ◌&&◌, not, List, [], ◌∷◌, ◌++◌, take, select, contains, ◌≡◌, refl, ◌∙◌, arith,
  Bool-cases, inl, inr, string_eq, IsUnique,
}
use cylon_local_infra.NgcImage.Config.{ImageSpec}
use cylon_local_infra.NgcImage.Select.{ranked, unique_from, select_keep}

pub unique_from-mem :
    (seen ts : List String) (t : String)
    → contains (unique_from seen ts) t ≡ (contains ts t && not (contains seen t))
unfolding unique_from
unique_from-mem seen [] t = refl
unique_from-mem seen (x ∷ ts) t =
    ground (arith, unique_from-mem seen ts t, unique_from-mem (x ∷ seen) ts t)

pub unique_from-IsUnique : (seen ts : List String) → IsUnique (unique_from seen ts)
unfolding unique_from
unique_from-IsUnique seen [] = tt
unique_from-IsUnique seen (t ∷ ts) = elim (Bool-cases (contains seen t)) [
  | inl old ↦ rw old (unique_from-IsUnique seen ts)
  | inr new ↦
      rw new (ground (arith, unique_from-mem (t ∷ seen) ts t), unique_from-IsUnique (t ∷ seen) ts)
]

contains-append :
    (xs ys : List String) (t : String) → contains (xs ++ ys) t ≡ (contains xs t || contains ys t)
contains-append [] ys t = refl
contains-append (x ∷ xs) ys t = ground (arith, contains-append xs ys t)

-- A tag is kept exactly when it is one of the `keep_latest` newest of the matching tags or stands
-- in `always_keep`, and no tag is kept twice.
pub select_keep-mem :
    (matches : String → Bool) (tags : List String) (spec : ImageSpec) (t : String)
    → (contains (select_keep matches tags spec) t ≡ (
        contains (take spec.keep_latest (ranked (select matches tags))) t
        || contains spec.always_keep t))
      × IsUnique (select_keep matches tags spec)
unfolding select_keep
select_keep-mem matches tags spec t =
    let newest = take spec.keep_latest (ranked (select matches tags)) in
    (
      unique_from-mem [] (newest ++ spec.always_keep) t
          ∙ ground (arith, contains-append newest spec.always_keep t),
      unique_from-IsUnique [] _,
    )
