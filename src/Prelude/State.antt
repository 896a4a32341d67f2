-- ===== src/Prelude/State.antt =====
-- Code that runs on a state, and one rule for each way to build such code: what keeps a property
-- of the state, and what ends with a property of its result and the state.
use mathlib.Core.Bool.{Bool, true, false}
use cylon_local_infra.Prelude.Equality.{if◌then◌else◌}

abbrev pub State {ℓ} : Type ℓ → Type ℓ → Type ℓ
State S A = S → A × S

module _ {ℓ} {S A : Type ℓ} where
  unfoldable pub pure : A → State S A
  pure a s = (a, s)

  unfoldable pub gets : (S → A) → State S A
  gets f s = (f s, s)

unfoldable pub modify {ℓ} : {S : Type ℓ} → (S → S) → State S Unit
modify f s = (tt, f s)

module _ {ℓ} {S A B : Type ℓ} where
  infixl 5 ◌>>=◌ ◌>>◌
  -- Opening this opens `pure`, `gets` and `modify` too.
  unfoldable pub ◌>>=◌ : State S A → (A → State S B) → State S B
  unfolding pure gets modify
  ◌>>=◌ m f s = let (a, s') = m s in f a s'

  abbrev pub ◌>>◌ : State S A → State S B → State S B
  m >> k = m >>= λ _. k

-- `m` keeps `P`.
pub record Keeps {ℓ} {S A : Type ℓ} (P : S → Type ℓ) (code : State S A) : Type ℓ where
  pub at : (before : S) → P before → P (code before).1

module _ {ℓ} {S A : Type ℓ} {P : S → Type ℓ} where
  pub Keeps-if :
      (test : Bool) (yes_code no_code : State S A)
      → Keeps P yes_code
      → Keeps P no_code
      → Keeps P (if test then yes_code else no_code)
  Keeps-if true yes_code no_code k l = k
  Keeps-if false yes_code no_code k l = l

  pub Keeps-gets : (look : S → A) → Keeps P (gets look)
  unfolding gets
  Keeps-gets look = record { at = λ before h. h }

  pub Keeps-pure : (result : A) → Keeps P (pure result)
  unfolding pure
  Keeps-pure result = record { at = λ before h. h }

module _ {ℓ} {S A B : Type ℓ} {P : S → Type ℓ} where
  pub Keeps-bind :
      (code : State S A) (next : A → State S B)
      → Keeps P code
      → ((result : A) → Keeps P (next result))
      → Keeps P (code >>= next)
  unfolding ◌>>=◌
  Keeps-bind code next k l = record {
    at = λ before h. (l (code before).0).at (code before).1 (k.at before h);
  }

pub ruleset keeps_rules = (Keeps-pure, Keeps-gets, Keeps-if, Keeps-bind)
