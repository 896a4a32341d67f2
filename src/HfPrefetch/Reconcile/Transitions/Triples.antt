-- ===== src/HfPrefetch/Reconcile/Transitions/Triples.antt =====
-- Hoare triples over the status of a model, with the trail of the writes.
use cylon_local_infra.Prelude.{
  String, Bool, true, false, Option, some, List, ◌≡◌, refl, if◌then◌else◌,
}
use cylon_local_infra.Prelude.State.{pure, gets, ◌>>=◌}
use cylon_local_infra.Prelude.Effect.{Argv}
use cylon_local_infra.HfPrefetch.Store.{Status, Entry, status_of, is_ready}
use cylon_local_infra.HfPrefetch.Backoff.{BackoffTracker}
use cylon_local_infra.HfPrefetch.Machine.{
  Host, Machine, M, time, is_set, check_cache, run, set_fields, update_backoff,
}
use cylon_local_infra.HfPrefetch.Reconcile.Readiness.{status_of-set_self}
use cylon_local_infra.HfPrefetch.Reconcile.Transitions.{◌⟶◌, stay, Trail, here, onward, traced}

abbrev pub View : Type 1
View = Option Status → Type 0

abbrev pub Any : View
Any s = Unit

abbrev pub Is : Status → View
Is u s = s ≡ some u

abbrev pub IsOpen : View
IsOpen s = is_ready s ≡ false

Trail-trans :
    {s t : Option Status} {h k : List (Option Status)} {u : Option Status}
    {l : List (Option Status)}
    → Trail s h t k
    → Trail t k u l
    → Trail s h u l
Trail-trans p here = p
Trail-trans p (onward q e) = onward (Trail-trans p q) e

module _ (H : Host) (repo : String) where
  abbrev pub H' : Host
  H' = traced repo H

  -- From a status that fits `Before`, the code writes along the machine and ends in one that fits
  -- `After`.
  pub record Goes {A : Type 0} (Before : View) (code : M H' A) (After : A → View) : Type 0 where
    pub at :
        (m : Machine H')
        → Before (status_of m.store repo)
        → let (a, m') = code m in
          Trail (status_of m.store repo) m.world.1 (status_of m'.store repo) m'.world.1
          × After a (status_of m'.store repo)

  pub Goes-bind :
      {A B : Type 0} {P : View} {Q : A → View} {R : B → View} (code : M H' A) (next : A → M H' B)
      → Goes P code Q
      → ((a : A) → Goes (Q a) (next a) R)
      → Goes P (code >>= next) R
  unfolding ◌>>=◌
  Goes-bind code next g k = record {
    at = λ m p.
        let (trail, q) = g.at m p in
        let (trail', r) = (k (code m).0).at (code m).1 q in (Trail-trans trail trail', r);
  }

  pub Goes-pure :
      {A : Type 0} {P : View} {Q : A → View} (a : A)
      → ((s : Option Status) → P s → Q a s)
      → Goes P (pure a) Q
  unfolding pure
  Goes-pure a h = record { at = λ m p. (here, h _ p) }

  pub Goes-gets : {A : Type 0} {P : View} (look : Machine H' → A) → Goes P (gets look) (λ _. P)
  unfolding gets
  Goes-gets look = record { at = λ m p. (here, p) }

  pub Goes-if :
      {A : Type 0} {P : View} {Q : A → View} (test : Bool) (yes_code no_code : M H' A)
      → Goes P yes_code Q
      → Goes P no_code Q
      → Goes P (if test then yes_code else no_code) Q
  Goes-if true yes_code no_code g k = g
  Goes-if false yes_code no_code g k = k

  pub Goes-from :
      {A : Type 0} {P P' : View} {Q : A → View} (code : M H' A)
      → ((s : Option Status) → P' s → P s)
      → Goes P code Q
      → Goes P' code Q
  Goes-from code h g = record { at = λ m p. g.at m (h _ p) }

  module _ {P : View} where
    pub Goes-time : Goes P (time H') (λ _. P)
    unfolding time
    Goes-time = record { at = λ m p. (here, p) }

    pub Goes-is_set : Goes P (is_set H') (λ _. P)
    unfolding is_set
    Goes-is_set = record { at = λ m p. (here, p) }

    pub Goes-check : (hub_dir r : String) → Goes P (check_cache H' hub_dir r) (λ _. P)
    unfolding check_cache
    Goes-check hub_dir r = record { at = λ m p. (here, p) }

    pub Goes-run : (argv : Argv) → Goes P (run H' argv) (λ _. P)
    unfolding run
    Goes-run argv = record { at = λ m p. (here, p) }

    pub Goes-backoff : (f : BackoffTracker → BackoffTracker) → Goes P (update_backoff H' f) (λ _. P)
    unfolding update_backoff
    Goes-backoff f = record { at = λ m p. (here, p) }

  -- A write that sets the status, and one that leaves it.
  pub Goes-set :
      {P : View} (u : Status) (f : Entry → Entry)
      → ((e : Entry) → (f e).status ≡ some u)
      → ((s : Option Status) → P s → s ⟶ some u)
      → Goes P (set_fields H' repo f) (λ _. Is u)
  unfolding set_fields
  Goes-set u f sets step = record {
    at = λ m p. rw (status_of-set_self m.store repo f _ _, sets _) (onward here (step _ p), refl);
  }

  pub Goes-set_same :
      {P : View} (f : Entry → Entry)
      → ((e : Entry) → (f e).status ≡ e.status)
      → Goes P (set_fields H' repo f) (λ _. P)
  unfolding set_fields status_of
  Goes-set_same f same = record {
    at = λ m p. rw (status_of-set_self m.store repo f _ _, same _) (onward here stay, p);
  }
