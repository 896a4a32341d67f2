-- ===== src/HfPrefetch/Backoff.antt =====
-- `BackoffTracker` and the table `RETRY_BACKOFF`. Clock readings are whole seconds.
pub mod Laws
use cylon_local_infra.Prelude.{
  ℕ, ◌+◌, ◌-◌, String, Bool, true, Option, none, some, List, [], ◌∷◌, length, get_or, leb, min,
  if◌then◌else◌, eqb, string_eq,
}
use cylon_local_infra.Prelude.Dict.{Dict, lookup, insert, erase}

abbrev pub retry_backoff : List ℕ
retry_backoff = 30 ∷ 60 ∷ 120 ∷ 300 ∷ 600 ∷ 900 ∷ []

pub record BackoffTracker : Type 0 where
  pub failures : Dict String ℕ
  pub last_attempt : Dict String ℕ

-- `d.get(key, 0)`
abbrev pub or_zero : Option ℕ → ℕ
or_zero none = 0
or_zero (some n) = n

unfoldable pub failure_count : BackoffTracker → String → ℕ
failure_count b repo = or_zero (lookup repo b.failures)

-- The wait after `n` failures, `n` at least 1.
unfoldable pub wait_after : ℕ → ℕ
wait_after n = get_or retry_backoff (min (n - 1) (length retry_backoff - 1)) 0

-- `now - last >= wait`, with the difference moved across so that an earlier `now` is less.
unfoldable pub ready : BackoffTracker → String → ℕ → Bool
ready b repo now =
    let n = failure_count b repo in
    if eqb n 0 then true else leb (wait_after n + or_zero (lookup repo b.last_attempt)) now

unfoldable pub succeed : BackoffTracker → String → BackoffTracker
succeed b repo = record {
  failures = erase repo b.failures;
  last_attempt = erase repo b.last_attempt;
}

unfoldable pub fail : BackoffTracker → String → ℕ → BackoffTracker
fail b repo now = record {
  failures = insert repo (failure_count b repo + 1) b.failures;
  last_attempt = insert repo now b.last_attempt;
}
