-- ===== src/NgcImage/Version/Order.antt =====
-- The order of version keys is a total preorder, in fact a linear order of the tuples.
use cylon_local_infra.Prelude.{ℕ, List, [], ◌∷◌, true, false, ◌≡◌, refl, arith}
use cylon_local_infra.NgcImage.Version.{tuple_lt}

pub tuple_lt_irrefl : (a : List ℕ) → tuple_lt a a ≡ false
unfolding tuple_lt
tuple_lt_irrefl [] = refl
tuple_lt_irrefl (a ∷ r) = ground (arith, tuple_lt_irrefl r)

pub tuple_lt_asymm : (a b : List ℕ) → tuple_lt a b ≡ true → tuple_lt b a ≡ false
unfolding tuple_lt
tuple_lt_asymm [] [] h = refl
tuple_lt_asymm [] (b ∷ bs) h = refl
tuple_lt_asymm (a ∷ r) [] h = cc
tuple_lt_asymm (a ∷ r) (b ∷ s) h = ground (arith, tuple_lt_asymm r s)

-- `a >= b` and `b >= c` give `a >= c`.
pub tuple_ge_trans :
    (a b c : List ℕ) → tuple_lt a b ≡ false → tuple_lt b c ≡ false → tuple_lt a c ≡ false
unfolding tuple_lt
tuple_ge_trans [] [] c h k = k
tuple_ge_trans [] (b ∷ s) c h k = cc
tuple_ge_trans (a ∷ r) b [] h k = refl
tuple_ge_trans (a ∷ r) [] (c ∷ t) h k = cc
tuple_ge_trans (a ∷ r) (b ∷ s) (c ∷ t) h k = ground (arith, tuple_ge_trans r s t)
