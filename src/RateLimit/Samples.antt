-- ===== src/RateLimit/Samples.antt =====
-- Small runs of the limiter, and the theorems at concrete inputs.
use model_weaver.Base.{ℕ, String, ◌⊎◌, ◌*◌, ◌≡◌, refl, List, [], ◌∷◌, arith, true, text_eq, some}
use model_weaver.Base.Dict
use model_weaver.RateLimit.{
  Event, nanos, RateLimiter, Verdict, passed, exceeded, req, fresh, check, maybe_cleanup, is_stale,
  cleanup,
}
use model_weaver.RateLimit.Window.{IsValid, check-IsValid}
use model_weaver.RateLimit.Bounds.{Explains, used_in, used_up_to, check-Explains}
use model_weaver.RateLimit.Routes.{
  Reads, InOrder, check_rate_limit, check_tokens, and_then, minute_limit,
}
use model_weaver.RateLimit.Admits.{RouteLimit, HasRooms, check_rate_limit-HasRooms}
use model_weaver.RateLimit.Cleanup.{Cleaned, lookup-cleanup, check-forgets}

-- Two events of weight 1, one second apart.
abbrev two : RateLimiter
two = record {
  buckets =
      ("k", record { time = 1 * nanos; weight = 1 } ∷ record { time = 2 * nanos; weight = 1 } ∷ [])
      ∷ [];
  last_cleanup = 0;
}

third_is_rejected :
    (check two (3 * nanos) "k" 2 60 1).0
    ≡ exceeded (record { limit = 2; window = 60; retry_after = 59; kind = req })
unfolding check Dict.lookup model_weaver.RateLimit.judge model_weaver.RateLimit.total
third_is_rejected = refl

two-IsValid : IsValid two (2 * nanos)
two-IsValid = record { all = ((λ e. cc, omega arith), tt) }

check-IsValid_example : IsValid (check two (3 * nanos) "k" 2 60 1).1 (3 * nanos)
check-IsValid_example =
    check-IsValid two (2 * nanos) (3 * nanos) "k" 2 60 1 (omega arith) two-IsValid

abbrev two_events : List Event
two_events = record { time = 1 * nanos; weight = 1 } ∷ record { time = 2 * nanos; weight = 1 } ∷ []

two_found : Dict.lookup (maybe_cleanup two (3 * nanos)).buckets "k" ≡ some two_events
unfolding maybe_cleanup Dict.lookup
two_found = refl

check-Explains_example :
    Explains
      (used_in (3 * nanos) 60 two_events)
      (used_up_to (3 * nanos) 60 two_events)
      2
      1
      (check two (3 * nanos) "k" 2 60 1).0
check-Explains_example =
    check-Explains two (2 * nanos) (3 * nanos) "k" 2 60 1 two_events two-IsValid two_found

-- The daily budget of a key, used up an hour ago.
abbrev spent : RateLimiter
spent = record {
  buckets = ("d:k", record { time = 1 * nanos; weight = 5000 } ∷ []) ∷ [];
  last_cleanup = 0;
}

abbrev spent_events : List Event
spent_events = record { time = 1 * nanos; weight = 5000 } ∷ []

spent_found : Dict.lookup spent.buckets "d:k" ≡ some spent_events
unfolding Dict.lookup
spent_found = refl

spent_stale : is_stale (3600 * nanos) spent_events ≡ true
unfolding is_stale
spent_stale = refl

spent_unique : Dict.UniqueKeys spent.buckets
unfolding Dict.has
spent_unique = (refl, tt)

lookup-cleanup_example :
    Cleaned
      (3600 * nanos)
      (Dict.lookup spent.buckets "d:k")
      (Dict.lookup (cleanup spent (3600 * nanos)).buckets "d:k")
lookup-cleanup_example = lookup-cleanup spent (3600 * nanos) "d:k" spent_unique

check-forgets_example : (check spent (3600 * nanos) "d:k" 5000 86400 1).0 ≡ passed
check-forgets_example =
    check-forgets spent (3600 * nanos) "d:k" spent_events 5000 86400 1 spent_unique refl spent_found
      spent_stale

abbrev same_reads : Reads
same_reads = record {
  minute = 3 * nanos;
  day = 3 * nanos;
  token_minute = 3 * nanos;
  token_day = 3 * nanos;
}

reads-InOrder : InOrder (2 * nanos) same_reads (3 * nanos)
reads-InOrder = omega arith

-- The key of the client for the route has been used once in this minute.
abbrev once : RateLimiter
once = record {
  buckets = ("r:ip:llm/chat", record { time = 2 * nanos; weight = 1 } ∷ []) ∷ [];
  last_cleanup = 0;
}

once-IsValid : IsValid once (2 * nanos)
once-IsValid = record { all = ((λ e. cc, omega arith), tt) }

once_passes : (check_rate_limit (λ s. s) once same_reads "llm/chat" "ip" 7).0 ≡ passed
unfolding check_rate_limit check Dict.lookup Dict.insert model_weaver.RateLimit.judge
    model_weaver.RateLimit.total check_tokens and_then minute_limit
once_passes = refl

check_rate_limit-HasRooms_example :
    (◌≡◌ {A = String} "llm/chat" "health")
    ⊎ ((limit : ℕ) × RouteLimit "llm/chat" limit × HasRooms once same_reads "ip:llm/chat" limit 7)
check_rate_limit-HasRooms_example =
    check_rate_limit-HasRooms (λ s. s) once (2 * nanos) (3 * nanos) same_reads "llm/chat" "ip" 7
      reads-InOrder once-IsValid once_passes
