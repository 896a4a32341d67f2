-- ===== src/NgcImage/Select/Newest.antt =====
-- The ranked tags are sorted, so that those taken are the newest.
use mathlib.Core.List.{Perm}
use mathlib.Core.List.Perm
use cylon_local_infra.Prelude.{
  ℕ, zero, suc, String, false, List, [], ◌∷◌, All, take, drop, ◌≡◌, arith, Bool-cases, inl, inr,
}
use cylon_local_infra.NgcImage.Version.{version_key, tuple_lt}
use cylon_local_infra.NgcImage.Version.Order.{tuple_lt_asymm, tuple_ge_trans}
use cylon_local_infra.NgcImage.Select.{insert_ranked, ranked}

-- `x` is at least as new as `y`.
abbrev pub IsNewer : String → String → Type 0
IsNewer x y = tuple_lt (version_key x) (version_key y) ≡ false

abbrev pub IsRanked : List String → Type 0
IsRanked [] = Unit
IsRanked (x ∷ xs) = All (IsNewer x) xs × IsRanked xs

IsNewer-All :
    (x y : String) (ys : List String) → IsNewer x y → All (IsNewer y) ys → All (IsNewer x) ys
IsNewer-All x y [] h k = tt
IsNewer-All x y (z ∷ zs) h k = (tuple_ge_trans _ _ _ h k.0, IsNewer-All x y zs h k.1)

insert-All :
    (z x : String) (ys : List String)
    → IsNewer z x
    → All (IsNewer z) ys
    → All (IsNewer z) (insert_ranked x ys)
unfolding insert_ranked
insert-All z x [] h k = (h, tt)
insert-All z x (y ∷ ys) h k = ground (arith, insert-All z x ys h k.1)

insert-IsRanked : (x : String) (ys : List String) → IsRanked ys → IsRanked (insert_ranked x ys)
unfolding insert_ranked
insert-IsRanked x [] h = (tt, tt)
insert-IsRanked x (y ∷ ys) h = elim (Bool-cases (tuple_lt (version_key x) (version_key y))) [
  | inl older ↦
      rw older (insert-All y x ys (tuple_lt_asymm _ _ older) h.0, insert-IsRanked x ys h.1)
  | inr newer ↦ rw newer ((newer, IsNewer-All x y ys newer h.0), h)
]

ranked-IsRanked : (xs : List String) → IsRanked (ranked xs)
unfolding ranked
ranked-IsRanked [] = tt
ranked-IsRanked (x ∷ xs) = insert-IsRanked x (ranked xs) (ranked-IsRanked xs)

insert-perm : (x : String) (ys : List String) → Perm (insert_ranked x ys) (x ∷ ys)
unfolding insert_ranked
insert-perm x [] = Perm.refl _
insert-perm x (y ∷ ys) = elim (Bool-cases (tuple_lt (version_key x) (version_key y))) [
  | inl older ↦ rw older (Perm.trans (Perm.cons y (insert-perm x ys)) (Perm.swap _ _ _))
  | inr newer ↦ rw newer (Perm.refl _)
]

ranked-perm : (xs : List String) → Perm (ranked xs) xs
unfolding ranked
ranked-perm [] = Perm.refl _
ranked-perm (x ∷ xs) = Perm.trans (insert-perm x (ranked xs)) (Perm.cons x (ranked-perm xs))

-- Every tag of the first list is at least as new as every tag of the second.
abbrev pub AllNewer : List String → List String → Type 0
AllNewer xs ys = All (λ x. All (IsNewer x) ys) xs

All-drop :
    (x : String) (n : ℕ) (xs : List String) → All (IsNewer x) xs → All (IsNewer x) (drop n xs)
All-drop x zero xs h = h
All-drop x (suc n) [] h = tt
All-drop x (suc n) (y ∷ ys) h = All-drop x n ys h.1

take_newest : (n : ℕ) (xs : List String) → IsRanked xs → AllNewer (take n xs) (drop n xs)
take_newest zero xs h = tt
take_newest (suc n) [] h = tt
take_newest (suc n) (x ∷ xs) h = (All-drop x n xs h.0, take_newest n xs h.1)

-- Ranking loses no tag and adds none, and each of the first `n` ranked tags has numbers at least as
-- great, as tuples, as each of the others, where a tag without a number counts as 0.
pub take-ranked_newest :
    (n : ℕ) (tags : List String)
    → Perm (ranked tags) tags × AllNewer (take n (ranked tags)) (drop n (ranked tags))
take-ranked_newest n tags = (ranked-perm tags, take_newest n (ranked tags) (ranked-IsRanked tags))
