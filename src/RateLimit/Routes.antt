-- ===== src/RateLimit/Routes.antt =====
-- `check_rate_limit` of services/ratelimit.py: which buckets a request is counted in, and in what
-- order. `str.lower` of Python is the parameter `lower`.
use Prim.Native.String.{len, slice}
use text.Mathlib.Text.{starts_with}
use model_weaver.Base.{
  ℕ, ◌-◌, ◌≤◌, String, ◌+s◌, Bool, ◌&&◌, ◌||◌, arith, leb, nat_beq, ◌==◌, if◌then◌else◌, Bool-cases,
  inl, inr,
}
use model_weaver.RateLimit.{RateLimiter, Verdict, passed, exceeded, index_error, check}
use model_weaver.RateLimit.Window.{IsValid, IsValid-later, check-IsValid}

-- What `time.monotonic()` answers in the calls of one request.
pub record Reads : Type 0 where
  pub minute : ℕ
  pub day : ℕ
  pub token_minute : ℕ
  pub token_day : ℕ

-- s.endswith(t)
unfoldable pub ends_with : String → String → Bool
ends_with s t = leb (len t) (len s) && slice s (len s - len t) (len s) == t

-- The requests a minute that the chain of `if route_lower …` gives a route.
unfoldable pub minute_limit : String → ℕ
unfolding ends_with
minute_limit route =
    if route == "capabilities"
    then 100
    else if starts_with route "keys/"
    then 10
    else if starts_with route "tools/"
    then 10
    else if starts_with route "agents/" && (ends_with route "/spawn" || ends_with route "/delete")
    then 20
    else if starts_with route "agents/"
    then 120
    else 30

-- A raised exception ends the function, and the limiter keeps what was written.
unfoldable pub and_then :
    Verdict × RateLimiter → (RateLimiter → Verdict × RateLimiter) → Verdict × RateLimiter
and_then (passed, rl) next = next rl
and_then (exceeded x, rl) next = (exceeded x, rl)
and_then (index_error, rl) next = (index_error, rl)

-- The two `if tokens:` blocks.
unfoldable pub check_tokens :
    RateLimiter → Reads → (base_key : String) (tokens : ℕ) → Verdict × RateLimiter
check_tokens rl at base_key tokens =
    if nat_beq tokens 0
    then (passed, rl)
    else and_then (check rl at.token_minute ("t:m:" +s base_key) 50000 60 tokens)
        (λ rl. check rl at.token_day ("t:d:" +s base_key) 1000000 86400 tokens)

unfoldable pub check_rate_limit :
    (lower : String → String)
    → RateLimiter
    → Reads
    → (route client_ip : String) (tokens : ℕ) → Verdict × RateLimiter
unfolding minute_limit
check_rate_limit lower rl at route client_ip tokens =
    let route_lower = lower route in
    let base_key = client_ip +s ":" +s route_lower in
    if route_lower == "health"
    then (passed, rl)
    else and_then (check rl at.minute ("r:" +s base_key) (minute_limit route_lower) 60 1) (λ rl.
      and_then (check rl at.day ("d:" +s base_key) 5000 86400 1)
        (λ rl. check_tokens rl at base_key tokens))

-- The clock does not go back between the calls of one request.
pub record InOrder (then_ : ℕ) (at : Reads) (now : ℕ) : Type 0 where
  pub minute : then_ ≤ at.minute
  pub day : at.minute ≤ at.day
  pub token_minute : at.day ≤ at.token_minute
  pub token_day : at.token_minute ≤ at.token_day
  pub last : at.token_day ≤ now

and_then-IsValid :
    (out : Verdict × RateLimiter) (next : RateLimiter → Verdict × RateLimiter) (then_ now : ℕ)
    → then_ ≤ now
    → IsValid out.1 then_
    → ((rl : RateLimiter) → IsValid rl then_ → IsValid (next rl).1 now)
    → IsValid (and_then out next).1 now
unfolding and_then
and_then-IsValid (passed, rl) next then_ now l v h = h rl v
and_then-IsValid (exceeded x, rl) next then_ now l v h = IsValid-later then_ now rl l v
and_then-IsValid (index_error, rl) next then_ now l v h = IsValid-later then_ now rl l v

check_tokens-IsValid :
    (rl : RateLimiter) (then_ now : ℕ) (at : Reads) (base_key : String) (tokens : ℕ)
    → InOrder then_ at now
    → IsValid rl at.day
    → IsValid (check_tokens rl at base_key tokens).1 now
unfolding check_tokens
check_tokens-IsValid rl then_ now at base_key tokens o v = elim (Bool-cases (nat_beq tokens 0)) [
  | inl none_used ↦ rw none_used (IsValid-later at.day now rl (omega arith) v)
  | inr some_used ↦ rw some_used (
      and_then-IsValid _ _ at.token_minute now (omega arith)
        (check-IsValid rl at.day at.token_minute _ 50000 60 tokens o.token_minute v)
        λ rl v.
          IsValid-later at.token_day now _ o.last
            (check-IsValid rl at.token_minute at.token_day _ 1000000 86400 tokens o.token_day v))
]

-- A request, limited or not, leaves every bucket non-empty and in the order of time, if the
-- clock does not go back.
pub check_rate_limit-IsValid :
    (lower : String → String) (rl : RateLimiter) (then_ now : ℕ) (at : Reads)
    (route client_ip : String) (tokens : ℕ)
    → InOrder then_ at now
    → IsValid rl then_
    → IsValid (check_rate_limit lower rl at route client_ip tokens).1 now
unfolding check_rate_limit
check_rate_limit-IsValid lower rl then_ now at route client_ip tokens o v =
    elim (Bool-cases (lower route == "health")) [
      | inl exempt ↦ rw exempt (IsValid-later then_ now rl (omega arith) v)
      | inr limited ↦ rw limited (
          and_then-IsValid _ _ at.minute now (omega arith)
            (check-IsValid rl then_ at.minute _ _ 60 1 o.minute v)
            λ rl v.
              and_then-IsValid _ _ at.day now (omega arith)
                (check-IsValid rl at.minute at.day _ 5000 86400 1 o.day v)
                λ rl v. check_tokens-IsValid rl then_ now at _ tokens o v)
    ]
