-- ===== src/RateLimit/Window.antt =====
-- What `check` and `record` of services/ratelimit.py accept, and the order of the stored events.
use model_weaver.Base.{
  ℕ, ◌≤◌, String, ◌≡◌, refl, ◌≢◌, Bool, Option, none, some, List, [], ◌∷◌, ◌++◌, arith, select,
  text_eq, Bool-cases, inl, inr,
}
use model_weaver.Base.Dict
use model_weaver.Base.Dict.{Dict, lookup-AllValues, insert-AllValues, select-AllValues}
use model_weaver.RateLimit.{
  Event, RateLimiter, is_live, prune, drop_stale, cleanup, maybe_cleanup, cleanup_due, check_events,
  check, put,
}

-- The events of a bucket stand in the order of their times, none later than `now`, and there is
-- at least one.
abbrev pub SortedFrom : ℕ → List Event → (now : ℕ) → Type 0
SortedFrom low [] now = low ≤ now
SortedFrom low (e ∷ events) now = (low ≤ e.time) × SortedFrom e.time events now

abbrev pub IsBucket : (now : ℕ) → List Event → Type 0
IsBucket now events = (events ≢ []) × SortedFrom 0 events now

-- Every bucket of the limiter is one.
pub record IsValid (rl : RateLimiter) (now : ℕ) : Type 0 where
  pub all : Dict.AllValues (IsBucket now) rl.buckets

SortedFrom-le : (low : ℕ) (events : List Event) (now : ℕ) → SortedFrom low events now → low ≤ now
SortedFrom-le low [] now h = h
SortedFrom-le low (e ∷ events) now h = omega (arith, SortedFrom-le e.time events now h.1)

SortedFrom-weaken :
    (low low' : ℕ) (events : List Event) (now : ℕ)
    → low' ≤ low
    → SortedFrom low events now
    → SortedFrom low' events now
SortedFrom-weaken low low' [] now l h = omega arith
SortedFrom-weaken low low' (e ∷ events) now l h = (omega arith, h.1)

SortedFrom-select :
    (p : Event → Bool) (low : ℕ) (events : List Event) (now : ℕ)
    → SortedFrom low events now
    → SortedFrom low (select p events) now
SortedFrom-select p low [] now h = h
SortedFrom-select p low (e ∷ events) now h =
    let rest = SortedFrom-select p e.time events now h.1 in
    ground (arith, SortedFrom-weaken e.time low (select p events) now)

SortedFrom-append :
    (low : ℕ) (events : List Event) (then_ now weight : ℕ)
    → SortedFrom low events then_
    → then_ ≤ now
    → SortedFrom low (events ++ record { time = now; weight = weight } ∷ []) now
SortedFrom-append low [] then_ now weight h l = (omega arith, omega arith)
SortedFrom-append low (e ∷ events) then_ now weight h l =
    (h.0, SortedFrom-append e.time events then_ now weight h.1 l)

IsBucket-later :
    (then_ now : ℕ) (events : List Event)
    → then_ ≤ now
    → IsBucket then_ events
    → IsBucket now events
IsBucket-later then_ now events l (some_event, sorted) = (some_event, later 0 events sorted)
  where
    later :
        (low : ℕ) (events : List Event) → SortedFrom low events then_ → SortedFrom low events now
    later low [] h = omega arith
    later low (e ∷ events) h = (h.0, later e.time events h.1)

AllValues-later :
    (then_ now : ℕ) (d : Dict String (List Event))
    → then_ ≤ now
    → Dict.AllValues (IsBucket then_) d
    → Dict.AllValues (IsBucket now) d
AllValues-later then_ now [] l h = tt
AllValues-later then_ now ((k, v) ∷ d) l h =
    (IsBucket-later then_ now v l h.0, AllValues-later then_ now d l h.1)

pub IsValid-later :
    (then_ now : ℕ) (rl : RateLimiter) → then_ ≤ now → IsValid rl then_ → IsValid rl now
IsValid-later then_ now rl l v = record { all = AllValues-later then_ now rl.buckets l v.all }

put-IsValid :
    (then_ now : ℕ) (rl : RateLimiter) (key : String) (events : List Event)
    → then_ ≤ now
    → IsValid rl then_
    → IsBucket now events
    → IsValid (put rl key events) now
put-IsValid then_ now rl key events l v b = record {
  all =
      insert-AllValues (IsBucket now) rl.buckets key events
        (AllValues-later then_ now rl.buckets l v.all) b;
}

append-ne-nil : (xs : List Event) (e : Event) → xs ++ e ∷ [] ≢ []
append-ne-nil [] e h = cc
append-ne-nil (x ∷ xs) e h = cc

prune-SortedFrom :
    (now window : ℕ) (events : List Event) (then_ : ℕ)
    → SortedFrom 0 events then_
    → SortedFrom 0 (prune now window events) then_
unfolding prune
prune-SortedFrom now window [] then_ h = h
prune-SortedFrom now window (e ∷ events) then_ h =
    let kept = SortedFrom-select (is_live now window) 0 (e ∷ events) then_ h in ground arith

-- The bucket that a call on `events` writes back.
prune-IsBucket :
    (now window weight then_ : ℕ) (events : List Event)
    → then_ ≤ now
    → IsBucket then_ events
    → IsBucket now (prune now window events ++ record { time = now; weight = weight } ∷ [])
prune-IsBucket now window weight then_ events l h = (
  append-ne-nil _ _,
  SortedFrom-append 0 (prune now window events) then_ now weight
      (prune-SortedFrom now window events then_ h.1) l,
)

pub maybe_cleanup-IsValid :
    (rl : RateLimiter) (then_ now : ℕ) → IsValid rl then_ → IsValid (maybe_cleanup rl now) then_
unfolding maybe_cleanup cleanup drop_stale
maybe_cleanup-IsValid rl then_ now v = elim (Bool-cases (cleanup_due rl now)) [
  | inl due ↦ rw due (record { all = select-AllValues (IsBucket then_) _ rl.buckets v.all })
  | inr not_due ↦ rw not_due v
]

check_events-IsValid :
    (rl : RateLimiter) (then_ now : ℕ) (key : String) (limit window weight : ℕ)
    (found : Option (List Event))
    → then_ ≤ now
    → IsValid rl then_
    → ((events : List Event) → found ≡ some events → IsBucket then_ events)
    → IsValid (check_events rl now key limit window weight found).1 now
unfolding check_events
check_events-IsValid rl then_ now key limit window weight none l v b =
    put-IsValid then_ now rl key _ l v (λ e. cc, (omega arith, omega arith))
check_events-IsValid rl then_ now key limit window weight (some []) l v b =
    IsValid-later then_ now rl l v
check_events-IsValid rl then_ now key limit window weight (some (e ∷ events)) l v b =
    put-IsValid then_ now rl key _ l v
      (prune-IsBucket now window weight then_ (e ∷ events) l (b (e ∷ events) refl))

-- A call of check at a later time keeps every bucket non-empty and in the order of time, whether
-- it accepts or raises.
pub check-IsValid :
    (rl : RateLimiter) (then_ now : ℕ) (key : String) (limit window weight : ℕ)
    → then_ ≤ now
    → IsValid rl then_
    → IsValid (check rl now key limit window weight).1 now
unfolding check
check-IsValid rl then_ now key limit window weight l v =
    let v' = maybe_cleanup-IsValid rl then_ now v in
    check_events-IsValid (maybe_cleanup rl now) then_ now key limit window weight _ l v'
      (λ events q. lookup-AllValues (IsBucket then_) _ key v'.all q)
