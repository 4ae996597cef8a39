-- ===== src/RateLimit/Bounds.antt =====
-- How the verdict of `check` (services/ratelimit.py) relates to the weights inside the window.
use model_weaver.Base.{
  ℕ, ◌+◌, ◌*◌, ◌≤◌, ◌<◌, String, ◌≡◌, refl, Bool, some, List, [], ◌∷◌, ◌++◌, arith, select, le→ltb,
  text_eq, Bool-cases, inl, inr, not, ap,
}
use model_weaver.Base.Dict
use model_weaver.Base.Dict.{lookup-AllValues}
use model_weaver.RateLimit.{
  Event, nanos, RateLimiter, Verdict, passed, exceeded, index_error, total, is_live, is_past, prune,
  maybe_cleanup, check_events, check, judge,
}
use model_weaver.RateLimit.Window.{SortedFrom, IsBucket, IsValid, maybe_cleanup-IsValid}

total-append : (xs ys : List Event) → total (xs ++ ys) ≡ total xs + total ys
unfolding total
total-append [] ys = omega arith
total-append (x ∷ xs) ys = omega (arith, total-append xs ys)

live-le-prune :
    (now window : ℕ) (events : List Event)
    → total (select (is_live now window) events) ≤ total (prune now window events)
unfolding total prune
live-le-prune now window [] = omega arith
live-le-prune now window (e ∷ events) = ground (arith, select-le (is_live now window) events)
  where
    select-le : (p : Event → Bool) (events : List Event) → total (select p events) ≤ total events
    select-le p [] = omega arith
    select-le p (e ∷ events) = ground (arith, select-le p events)

-- In a bucket in the order of time, an event that is not past has only such events behind it.
select-not-past :
    (now window low : ℕ) (events : List Event) (then_ : ℕ)
    → now ≤ low + window * nanos
    → SortedFrom low events then_
    → select (λ e. not (is_past now window e)) events ≡ events
select-not-past now window low [] then_ l h = refl
select-not-past now window low (e ∷ events) then_ l h = rw (
  le→ltb (e.time + window * nanos) now (omega arith),
  select-not-past now window e.time events then_ (omega arith) h.1,
)

total-live-le-not-past :
    (now window : ℕ) (events : List Event)
    → total (select (is_live now window) events)
      ≤ total (select (λ e. not (is_past now window e)) events)
unfolding total
total-live-le-not-past now window [] = omega arith
total-live-le-not-past now window (e ∷ events) =
    ground (arith, total-live-le-not-past now window events)

prune-le-not-past :
    (now window : ℕ) (events : List Event) (then_ : ℕ)
    → SortedFrom 0 events then_
    → total (prune now window events) ≤ total (select (λ e. not (is_past now window e)) events)
unfolding prune
prune-le-not-past now window [] then_ h = omega arith
prune-le-not-past now window (e ∷ events) then_ h = elim (Bool-cases (is_past now window e)) [
  | inl past ↦ ground (arith, total-live-le-not-past now window (e ∷ events))
  | inr kept ↦ ground (arith, ap total (all_kept (ground arith)))
]
  where
    all_kept :
        now ≤ e.time + window * nanos
        → select (λ f. not (is_past now window f)) (e ∷ events) ≡ e ∷ events
    all_kept l = select-not-past now window e.time (e ∷ events) then_ l (omega arith, h.1)

-- The weights of the events of a bucket that lie in the window, the newest end included and the
-- oldest end not.
abbrev pub used_in : (now window : ℕ) → List Event → ℕ
used_in now window events = total (select (is_live now window) events)

-- The same with the oldest end included.
abbrev pub used_up_to : (now window : ℕ) → List Event → ℕ
used_up_to now window events = total (select (λ e. not (is_past now window e)) events)

-- What the verdict says, in terms of the events that lie in the window.
abbrev pub Explains : (used_live used_closed limit weight : ℕ) → Verdict → Type 0
Explains live closed limit weight passed = live + weight ≤ limit
Explains live closed limit weight (exceeded x) = limit < closed + weight
Explains live closed limit weight index_error = ⊥

judge-Explains :
    (now limit window weight : ℕ) (kept : List Event) (live closed : ℕ)
    → live ≤ total kept
    → total kept ≤ closed
    → Explains live closed limit weight
        (judge now limit window weight (kept ++ record { time = now; weight = weight } ∷ []))
unfolding judge total
judge-Explains now limit window weight [] live closed l h = ground arith
judge-Explains now limit window weight (e ∷ events) live closed l h =
    ground (arith, total-append events (record { time = now; weight = weight } ∷ []))

-- On a bucket that exists, check passes only if the weights inside the window and its own make at
-- most the limit, and raises only if they make more, counting an event that lies exactly at the
-- old end of the window; it never fails on an empty bucket.
pub check-Explains :
    (rl : RateLimiter) (then_ now : ℕ) (key : String) (limit window weight : ℕ)
    (events : List Event)
    → IsValid rl then_
    → Dict.lookup (maybe_cleanup rl now).buckets key ≡ some events
    → Explains
        (used_in now window events)
        (used_up_to now window events)
        limit
        weight
        (check rl now key limit window weight).0
unfolding check
check-Explains rl then_ now key limit window weight events v found =
    rw found (on_bucket events bucket)
  where
    bucket : IsBucket then_ events
    bucket =
        lookup-AllValues (IsBucket then_) _ key (maybe_cleanup-IsValid rl then_ now v).all found

    on_bucket :
        (events : List Event)
        → IsBucket then_ events
        → Explains
            (used_in now window events)
            (used_up_to now window events)
            limit
            weight
            (check_events (maybe_cleanup rl now) now key limit window weight (some events)).0
    on_bucket [] b = absurd (b.0 refl)
    on_bucket (e ∷ events) b =
        judge-Explains now limit window weight (prune now window (e ∷ events)) _ _
          (live-le-prune now window (e ∷ events))
          (prune-le-not-past now window (e ∷ events) then_ b.1)
