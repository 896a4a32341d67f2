-- ===== src/NgcImage/Backoff.antt =====
-- `BackoffTracker` and the table `RETRY_BACKOFF`. Clock readings are whole seconds.
use cylon_local_infra.Prelude.{
  ℕ, ◌+◌, ◌-◌, String, Bool, true, Option, none, some, List, [], ◌∷◌, length, get_or, leb, min,
  if◌then◌else◌, eqb, string_eq,
}
use cylon_local_infra.Prelude.Dict.{Dict, lookup, insert, erase}

abbrev pub retry_backoff : List ℕ
retry_backoff = 60 ∷ 300 ∷ 900 ∷ 1800 ∷ 3600 ∷ []

pub record BackoffTracker : Type 0 where
  pub failures : Dict String ℕ
  pub last_attempt : Dict String ℕ

-- `d.get(key, 0)`
abbrev pub or_zero : Option ℕ → ℕ
or_zero none = 0
or_zero (some n) = n

unfoldable pub failure_count : BackoffTracker → String → ℕ
failure_count b key = or_zero (lookup key b.failures)

-- `now - last >= wait`, with the difference moved across so that an earlier `now` is less.
unfoldable pub due : BackoffTracker → String → ℕ → Bool
due b key now =
    let n = failure_count b key in
    let wait = get_or retry_backoff (min (n - 1) (length retry_backoff - 1)) 0 in
    if eqb n 0 then true else leb (wait + or_zero (lookup key b.last_attempt)) now

unfoldable pub succeed : BackoffTracker → String → BackoffTracker
succeed b key = record { failures = erase key b.failures; last_attempt = erase key b.last_attempt }

unfoldable pub fail : BackoffTracker → String → ℕ → BackoffTracker
fail b key now = record {
  failures = insert key (failure_count b key + 1) b.failures;
  last_attempt = insert key now b.last_attempt;
}
