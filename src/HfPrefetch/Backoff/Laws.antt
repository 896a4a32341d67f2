-- ===== src/HfPrefetch/Backoff/Laws.antt =====
-- How long a failed repository waits, and that it never waits for ever.
use cylon_local_infra.Prelude.{
  ℕ, zero, suc, ◌+◌, ◌-◌, ◌≤◌, String, true, ◌≡◌, ◌≢◌, ◌↔◌, arith, string_eq, min, get_or,
}
use cylon_local_infra.Prelude.Dict.{
  lookup, lookup-insert_self, lookup-insert_ne, lookup-erase_self, lookup-erase_ne,
}
use cylon_local_infra.HfPrefetch.Backoff.{
  BackoffTracker, retry_backoff, or_zero, failure_count, wait_after, ready, succeed, fail,
}

table_bounds : (k : ℕ) → k ≤ 5 → (30 ≤ get_or retry_backoff k 0) × (get_or retry_backoff k 0 ≤ 900)
table_bounds zero h = omega arith
table_bounds (suc zero) h = omega arith
table_bounds (suc (suc zero)) h = omega arith
table_bounds (suc (suc (suc zero))) h = omega arith
table_bounds (suc (suc (suc (suc zero)))) h = omega arith
table_bounds (suc (suc (suc (suc (suc zero))))) h = omega arith
table_bounds (suc (suc (suc (suc (suc (suc k)))))) h = absurd (omega arith)

wait_after_bounds : (n : ℕ) → (30 ≤ wait_after n) × (wait_after n ≤ 900)
unfolding wait_after
wait_after_bounds n = table_bounds (min (n - 1) 5) (omega arith)

pub failure_count-fail_ne :
    (b : BackoffTracker) (r repo : String) (now : ℕ)
    → r ≢ repo
    → failure_count (fail b repo now) r ≡ failure_count b r
unfolding failure_count fail
failure_count-fail_ne b r repo now ne = grind (arith, lookup-insert_ne)

pub failure_count-succeed_ne :
    (b : BackoffTracker) (r repo : String)
    → r ≢ repo
    → failure_count (succeed b repo) r ≡ failure_count b r
unfolding failure_count succeed
failure_count-succeed_ne b r repo ne = grind (arith, lookup-erase_ne)

pub failure_count-succeed_self :
    (b : BackoffTracker) (repo : String) → failure_count (succeed b repo) repo ≡ 0
unfolding failure_count succeed
failure_count-succeed_self b repo = rw (lookup-erase_self repo b.failures, or_zero)

-- After a failure at `now` the next attempt is due from `now` plus the table's wait for the number
-- of failures so far, and not before; that wait lies between 30 and 900 seconds, however many
-- failures there were.
pub ready-fail :
    (b : BackoffTracker) (repo : String) (now t : ℕ)
    → let wait = wait_after (failure_count b repo + 1) in
      ((ready (fail b repo now) repo t ≡ true) ↔ (now + wait ≤ t)) × (30 ≤ wait) × (wait ≤ 900)
unfolding ready fail failure_count
ready-fail b repo now t = ground (
  arith,
  lookup-insert_self repo (or_zero (lookup repo b.failures) + 1) b.failures,
  lookup-insert_self repo now b.last_attempt,
  wait_after_bounds (or_zero (lookup repo b.failures) + 1),
)

-- After a success nothing delays the next attempt.
pub ready-succeed :
    (b : BackoffTracker) (repo : String) (t : ℕ) → ready (succeed b repo) repo t ≡ true
unfolding ready succeed failure_count
ready-succeed b repo t = ground (arith, lookup-erase_self repo b.failures)

-- Neither a success nor a failure moves the wait of another repository.
ready-other :
    (b : BackoffTracker) (r repo : String) (now t : ℕ)
    → r ≢ repo
    → (ready (succeed b repo) r t ≡ ready b r t) × (ready (fail b repo now) r t ≡ ready b r t)
unfolding ready succeed fail failure_count
ready-other b r repo now t ne = grind (arith, lookup-insert_ne, lookup-erase_ne)
