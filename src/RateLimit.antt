-- ===== src/RateLimit.antt =====
-- services/ratelimit.py: sliding-window counters per key, the periodic cleanup of idle buckets,
-- and the limits of each HTTP route. Times are whole nanoseconds of the monotonic clock, and a
-- window is a number of seconds, as in the source. `now - window` is written without
-- subtraction, so that no difference stops at 0.
pub mod Window
pub mod Bounds
pub mod Cleanup
pub mod Routes
pub mod Admits
mod Samples
use model_weaver.Base.{
  ℕ, ◌+◌, ◌-◌, ◌*◌, ◌/◌, String, Bool, Option, none, some, List, [], ◌∷◌, ◌++◌, ◌&&◌, ltb,
  if◌then◌else◌, select, not, text_eq,
}
use model_weaver.Base.Dict
use model_weaver.Base.Dict.{Dict}

-- `(now, weight)`
pub record Event : Type 0 where
  pub time : ℕ
  pub weight : ℕ

abbrev pub nanos : ℕ
nanos = 1000000000

-- Seconds between two cleanups.
abbrev pub cleanup_interval : ℕ
cleanup_interval = 300

pub record RateLimiter : Type 0 where
  pub buckets : Dict String (List Event)
  pub last_cleanup : ℕ

pub data Kind : Type 0 where
  req token : Kind

-- The fields of `RateLimitExceeded`.
pub record Exceeded : Type 0 where
  pub limit : ℕ
  pub window : ℕ
  pub retry_after : ℕ
  pub kind : Kind

-- What a call of `check` ends with; `index_error` is what `events[0]` raises on an empty list.
pub data Verdict : Type 0 where
  passed : Verdict
  exceeded : Exceeded → Verdict
  index_error : Verdict

-- sum(w for _, w in events)
unfoldable pub total : List Event → ℕ
total [] = 0
total (e ∷ events) = e.weight + total events

-- t > now - window
abbrev pub is_live : (now window : ℕ) → Event → Bool
is_live now window e = ltb now (e.time + window * nanos)

-- events[0][0] < now - window
abbrev pub is_past : (now window : ℕ) → Event → Bool
is_past now window e = ltb (e.time + window * nanos) now

-- The events that a call keeps, before it appends its own.
unfoldable pub prune : (now window : ℕ) → List Event → List Event
prune now window [] = []
prune now window (e ∷ events) =
    if is_past now window e then select (is_live now window) (e ∷ events) else e ∷ events

-- `v and v[-1][0] < cutoff`
unfoldable pub is_stale : (now : ℕ) → List Event → Bool
is_stale now [] = Bool.false
is_stale now (e ∷ []) = ltb (e.time + cleanup_interval * 2 * nanos) now
is_stale now (e ∷ f ∷ events) = is_stale now (f ∷ events)

unfoldable pub drop_stale : (now : ℕ) → Dict String (List Event) → Dict String (List Event)
drop_stale now = select (λ entry. not (is_stale now entry.1))

unfoldable pub cleanup : RateLimiter → ℕ → RateLimiter
unfolding drop_stale
cleanup rl now = record { buckets = drop_stale now rl.buckets; last_cleanup = now }

-- now - self._last_cleanup > self._cleanup_interval
abbrev pub cleanup_due : RateLimiter → ℕ → Bool
cleanup_due rl now = ltb (rl.last_cleanup + cleanup_interval * nanos) now

unfoldable pub maybe_cleanup : RateLimiter → ℕ → RateLimiter
maybe_cleanup rl now = if cleanup_due rl now then cleanup rl now else rl

abbrev pub put : RateLimiter → String → List Event → RateLimiter
put rl key events = record rl { buckets = Dict.insert rl.buckets key events }

abbrev kind_of : ℕ → Kind
kind_of weight = if ltb 1 weight then token else req

-- int(events[0][0] + window - now) + 1, for the events after the append
abbrev retry_after : (now window : ℕ) → Event → ℕ
retry_after now window first = (first.time + window * nanos - now) / nanos + 1

-- The test after the append: the kept events with the new one, whose first member is `first`.
unfoldable pub judge : (now limit window weight : ℕ) → List Event → Verdict
judge now limit window weight [] = index_error
judge now limit window weight (first ∷ events) =
    if ltb limit (total (first ∷ events))
    then exceeded (record {
      limit = limit;
      window = window;
      retry_after = retry_after now window first;
      kind = kind_of weight;
    })
    else passed

-- The part of `check` behind the lookup of the bucket.
unfoldable pub check_events :
    RateLimiter
    → (now : ℕ) (key : String) (limit window weight : ℕ) → Option (List Event)
    → Verdict × RateLimiter
unfolding prune
check_events rl now key limit window weight none =
    (passed, put rl key (record { time = now; weight = weight } ∷ []))
check_events rl now key limit window weight (some []) = (index_error, rl)
check_events rl now key limit window weight (some (e ∷ events)) =
    let events' = prune now window (e ∷ events) ++ record { time = now; weight = weight } ∷ [] in
    (judge now limit window weight events', put rl key events')

unfoldable pub check :
    RateLimiter → (now : ℕ) (key : String) (limit window weight : ℕ) → Verdict × RateLimiter
unfolding check_events maybe_cleanup
check rl now key limit window weight =
    let rl' = maybe_cleanup rl now in
    check_events rl' now key limit window weight (Dict.lookup rl'.buckets key)

-- The part of `record` behind the lookup; the flag is false where `events[0]` raises.
unfoldable pub record_in :
    RateLimiter
    → (now : ℕ) (key : String) (window weight : ℕ) → Option (List Event)
    → Bool × RateLimiter
unfolding prune
record_in rl now key window weight none =
    (Bool.true, put rl key (record { time = now; weight = weight } ∷ []))
record_in rl now key window weight (some []) = (Bool.false, rl)
record_in rl now key window weight (some (e ∷ events)) = (
  Bool.true,
  put rl key (prune now window (e ∷ events) ++ record { time = now; weight = weight } ∷ []),
)

unfoldable pub record_event :
    RateLimiter → (now : ℕ) (key : String) (window weight : ℕ) → Bool × RateLimiter
unfolding record_in maybe_cleanup
record_event rl now key window weight =
    let rl' = maybe_cleanup rl now in
    record_in rl' now key window weight (Dict.lookup rl'.buckets key)

abbrev pub fresh : RateLimiter
fresh = record { buckets = []; last_cleanup = 0 }
