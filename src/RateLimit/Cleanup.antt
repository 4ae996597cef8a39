-- ===== src/RateLimit/Cleanup.antt =====
-- What the periodic cleanup of services/ratelimit.py drops.
use model_weaver.Base.{
  ℕ, ◌+◌, ◌<◌, ◌≤◌, String, ◌≡◌, refl, ap, true, Option, none, some, List, [], ◌∷◌, ◌++◌, arith,
  ltb, not, text_eq, Bool-cases, inl, inr, ◌∙◌, if◌then◌else◌,
}
use model_weaver.Base.Dict
use model_weaver.Base.Dict.{UniqueKeys, lookup-select, keep_if}
use model_weaver.RateLimit.{
  Event, RateLimiter, passed, is_stale, drop_stale, cleanup, cleanup_due, maybe_cleanup,
  check_events, check,
}

-- The bucket of a key, after a cleanup, is what the test for stale buckets leaves of it.
lookup-cleanup_keep :
    (rl : RateLimiter) (now : ℕ) (key : String)
    → UniqueKeys rl.buckets
    → Dict.lookup (cleanup rl now).buckets key
      ≡ keep_if (λ events. not (is_stale now events)) (Dict.lookup rl.buckets key)
unfolding cleanup drop_stale
lookup-cleanup_keep rl now key u =
    lookup-select (λ events. not (is_stale now events)) rl.buckets key u

-- What a cleanup at the time `now` makes of what is found at a key: a bucket is dropped exactly if
-- ten minutes have passed since its last event.
pub data Cleaned (now : ℕ) (found after : Option (List Event)) : Type 0 where
  absent : found ≡ none → after ≡ none → Cleaned now found after
  empty : found ≡ some [] → after ≡ some [] → Cleaned now found after
  dropped :
      (earlier : List Event) (last : Event)
      → found ≡ some (earlier ++ last ∷ [])
      → last.time + 600000000000 < now
      → after ≡ none
      → Cleaned now found after
  kept :
      (earlier : List Event) (last : Event)
      → found ≡ some (earlier ++ last ∷ [])
      → now ≤ last.time + 600000000000
      → after ≡ some (earlier ++ last ∷ [])
      → Cleaned now found after

is_stale-last :
    (now : ℕ) (earlier : List Event) (last : Event)
    → is_stale now (earlier ++ last ∷ []) ≡ ltb (last.time + 600000000000) now
unfolding is_stale
is_stale-last now [] last = refl
is_stale-last now (e ∷ []) last = refl
is_stale-last now (e ∷ f ∷ earlier) last = is_stale-last now (f ∷ earlier) last

-- The last member of a list.
split_last :
    (e : Event) (events : List Event)
    → (earlier : List Event) × (last : Event) × (e ∷ events ≡ earlier ++ last ∷ [])
split_last e [] = ([], e, refl)
split_last e (f ∷ events) =
    let (earlier, last, split) = split_last f events in (e ∷ earlier, last, ap (λ es. e ∷ es) split)

keep_if-last :
    (now : ℕ) (events earlier : List Event) (last : Event)
    → events ≡ earlier ++ last ∷ []
    → Cleaned now (some events) (if not (is_stale now events) then some events else none)
keep_if-last now events earlier last split =
    let stale = ap (is_stale now) split ∙ is_stale-last now earlier last in
    elim (Bool-cases (ltb (last.time + 600000000000) now)) [
      | inl old ↦ Cleaned.dropped earlier last (ap some split) (ground arith) (simp (stale, old))
      | inr young ↦
          Cleaned.kept earlier last (ap some split) (ground arith)
            (simp (stale, young) (ap some split))
    ]

keep_if-Cleaned :
    (now : ℕ) (found : Option (List Event))
    → Cleaned now found (keep_if (λ events. not (is_stale now events)) found)
unfolding is_stale
keep_if-Cleaned now none = Cleaned.absent refl refl
keep_if-Cleaned now (some []) = Cleaned.empty refl refl
keep_if-Cleaned now (some (e ∷ events)) =
    let (earlier, last, split) = split_last e events in
    keep_if-last now (e ∷ events) earlier last split

-- A cleanup drops a bucket exactly if more than ten minutes have passed since its last event,
-- whatever the window of the bucket; every other bucket is found as it was, an empty one included,
-- and a key that was not there is not there after it.
pub lookup-cleanup :
    (rl : RateLimiter) (now : ℕ) (key : String)
    → UniqueKeys rl.buckets
    → Cleaned now (Dict.lookup rl.buckets key) (Dict.lookup (cleanup rl now).buckets key)
lookup-cleanup rl now key u =
    rw (lookup-cleanup_keep rl now key u) (keep_if-Cleaned now (Dict.lookup rl.buckets key))

-- When a cleanup is due, a bucket whose last event is older than twice the cleanup interval no
-- longer counts: the next call on its key passes for every limit, window and weight, also for
-- the window of a day, in which those events still lie.
pub check-forgets :
    (rl : RateLimiter) (now : ℕ) (key : String) (events : List Event) (limit window weight : ℕ)
    → UniqueKeys rl.buckets
    → cleanup_due rl now ≡ true
    → Dict.lookup rl.buckets key ≡ some events
    → is_stale now events ≡ true
    → (check rl now key limit window weight).0 ≡ passed
unfolding check maybe_cleanup check_events
check-forgets rl now key events limit window weight u due found stale =
    ground (arith, lookup-cleanup_keep rl now key u)
