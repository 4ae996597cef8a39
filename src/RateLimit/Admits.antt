-- ===== src/RateLimit/Admits.antt =====
-- What a request that check_rate_limit of services/ratelimit.py lets pass has been counted against.
use text.Mathlib.Text.{starts_with}
use model_weaver.Base.{
  arith, ℕ, ◌+◌, ◌≤◌, String, ◌+s◌, ◌≡◌, refl, ◌⊎◌, true, false, ◌||◌, none, some, List, nat_beq,
  nat_beq_iff, ◌==◌, text_eq, Bool-cases, Option-cases, inl, inr,
}
use model_weaver.Base.Dict
use model_weaver.RateLimit.{
  Event, RateLimiter, Verdict, passed, exceeded, index_error, maybe_cleanup, check,
}
use model_weaver.RateLimit.Window.{IsValid, check-IsValid}
use model_weaver.RateLimit.Bounds.{Explains, used_in, check-Explains}
use model_weaver.RateLimit.Routes.{
  Reads, InOrder, ends_with, minute_limit, and_then, check_tokens, check_rate_limit,
}

-- A call of check on `rl` has room: its key is new, or the weights in the window leave room.
pub data HasRoom (rl : RateLimiter) (now : ℕ) (key : String) (limit window weight : ℕ)
    : Type 0 where
  first :
      Dict.lookup (maybe_cleanup rl now).buckets key ≡ none → HasRoom rl now key limit window weight
  counted :
      (events : List Event)
      → Dict.lookup (maybe_cleanup rl now).buckets key ≡ some events
      → used_in now window events + weight ≤ limit
      → HasRoom rl now key limit window weight

Explains-passed :
    (live closed limit weight : ℕ) (verdict : Verdict)
    → verdict ≡ passed
    → Explains live closed limit weight verdict
    → live + weight ≤ limit
Explains-passed live closed limit weight passed e h = h
Explains-passed live closed limit weight (exceeded x) e h = ground arith
Explains-passed live closed limit weight index_error e h = absurd h

check-HasRoom :
    (rl : RateLimiter) (then_ now : ℕ) (key : String) (limit window weight : ℕ)
    → IsValid rl then_
    → (check rl now key limit window weight).0 ≡ passed
    → HasRoom rl now key limit window weight
check-HasRoom rl then_ now key limit window weight v fine =
    elim (Option-cases (Dict.lookup (maybe_cleanup rl now).buckets key)) [
      | inl new ↦ HasRoom.first new
      | inr (events, found) ↦ HasRoom.counted events found (
          Explains-passed _ _ limit weight _ fine
            (check-Explains rl then_ now key limit window weight events v found))
    ]

-- The requests a minute of a route, in small letters.
pub data RouteLimit (route : String) : ℕ → Type 0 where
  capabilities : route ≡ "capabilities" → RouteLimit route 100
  secrets :
      (route == "capabilities") ≡ false
      → (starts_with route "keys/" || starts_with route "tools/") ≡ true
      → RouteLimit route 10
  lifecycle :
      starts_with route "agents/" ≡ true
      → (ends_with route "/spawn" || ends_with route "/delete") ≡ true
      → RouteLimit route 20
  agents :
      starts_with route "agents/" ≡ true
      → (ends_with route "/spawn" || ends_with route "/delete") ≡ false
      → RouteLimit route 120
  other :
      (route == "capabilities") ≡ false
      → (starts_with route "keys/" || starts_with route "tools/") ≡ false
      → starts_with route "agents/" ≡ false
      → RouteLimit route 30

minute_limit-RouteLimit : (route : String) → RouteLimit route (minute_limit route)
unfolding minute_limit
minute_limit-RouteLimit route = elim (Bool-cases (route == "capabilities")) [
  | inl c ↦ simp c (RouteLimit.capabilities ((text_eq.beq_iff route "capabilities").0 c))
  | inr nc ↦ elim (Bool-cases (starts_with route "keys/")) [
    | inl k ↦ simp (nc, k) (RouteLimit.secrets nc (simp k))
    | inr nk ↦ elim (Bool-cases (starts_with route "tools/")) [
      | inl t ↦ simp (nc, nk, t) (RouteLimit.secrets nc (simp (nk, t)))
      | inr nt ↦ elim (Bool-cases (starts_with route "agents/")) [
        | inr na ↦ simp (nc, nk, nt, na) (RouteLimit.other nc (simp (nk, nt)) na)
        | inl a ↦ elim (Bool-cases (ends_with route "/spawn" || ends_with route "/delete")) [
          | inl l ↦ simp (nc, nk, nt, a, l) (RouteLimit.lifecycle a l)
          | inr nl ↦ simp (nc, nk, nt, a, nl) (RouteLimit.agents a nl)
        ]
      ]
    ]
  ]
]

and_then-passed :
    (out : Verdict × RateLimiter) (next : RateLimiter → Verdict × RateLimiter)
    → (and_then out next).0 ≡ passed
    → (out.0 ≡ passed) × ((next out.1).0 ≡ passed)
unfolding and_then
and_then-passed (passed, rl) next h = (refl, h)
and_then-passed (exceeded x, rl) next h = ground arith
and_then-passed (index_error, rl) next h = ground arith

abbrev pub after_minute : RateLimiter → Reads → (base_key : String) (limit : ℕ) → RateLimiter
after_minute rl at base_key limit = (check rl at.minute ("r:" +s base_key) limit 60 1).1

abbrev pub after_day : RateLimiter → Reads → (base_key : String) → RateLimiter
after_day rl at base_key = (check rl at.day ("d:" +s base_key) 5000 86400 1).1

abbrev pub after_token_minute : RateLimiter → Reads → (base_key : String) (tokens : ℕ) → RateLimiter
after_token_minute rl at base_key tokens =
    (check rl at.token_minute ("t:m:" +s base_key) 50000 60 tokens).1

-- The two counters of tokens have room, the second as the first call leaves it.
pub record HasTokens (rl : RateLimiter) (at : Reads) (base_key : String) (tokens : ℕ) : Type 0 where
  pub minute : HasRoom rl at.token_minute ("t:m:" +s base_key) 50000 60 tokens
  pub day :
      HasRoom
        (after_token_minute rl at base_key tokens)
        at.token_day
        ("t:d:" +s base_key)
        1000000
        86400
        tokens

-- Every counter of a request has room for it, each as the call before leaves it.
pub record HasRooms (rl : RateLimiter) (at : Reads) (base_key : String) (limit tokens : ℕ)
    : Type 0 where
  pub minute : HasRoom rl at.minute ("r:" +s base_key) limit 60 1
  pub day : HasRoom (after_minute rl at base_key limit) at.day ("d:" +s base_key) 5000 86400 1
  pub used :
      (tokens ≡ 0)
      ⊎ HasTokens (after_day (after_minute rl at base_key limit) at base_key) at base_key tokens

check_tokens-HasTokens :
    (rl : RateLimiter) (then_ now : ℕ) (at : Reads) (base_key : String) (tokens : ℕ)
    → InOrder then_ at now
    → IsValid rl at.day
    → (check_tokens rl at base_key tokens).0 ≡ passed
    → (tokens ≡ 0) ⊎ HasTokens rl at base_key tokens
unfolding check_tokens
check_tokens-HasTokens rl then_ now at base_key tokens o v fine =
    elim (Bool-cases (nat_beq tokens 0)) [
      | inl none_used ↦ inl ((nat_beq_iff tokens 0).0 none_used)
      | inr some_used ↦
          let both =
            and_then-passed (check rl at.token_minute ("t:m:" +s base_key) 50000 60 tokens) _
              (rw some_used at fine) in
          inr (record {
            minute = check-HasRoom rl at.day at.token_minute _ 50000 60 tokens v both.0;
            day =
                check-HasRoom (after_token_minute rl at base_key tokens) at.token_minute
                  at.token_day _ 1000000 86400 tokens
                  (check-IsValid rl at.day at.token_minute _ 50000 60 tokens o.token_minute v)
                  both.1;
          })
    ]

-- If the clock does not go back and every bucket is non-empty and in the order of time, a request
-- that passes is exempt, being for the route health, or each of its counters had room for it, as
-- the call before left the counters: the key was new, or the weights inside the window and its own
-- make at most the limit. The counters are the one of a minute with the limit of the route (100,
-- 10, 20, 120 or 30), the one of a day with 5000 and, if there are tokens, those of tokens with
-- 50000 a minute and 1000000 a day.
pub check_rate_limit-HasRooms :
    (lower : String → String) (rl : RateLimiter) (then_ now : ℕ) (at : Reads)
    (route client_ip : String) (tokens : ℕ)
    → InOrder then_ at now
    → IsValid rl then_
    → (check_rate_limit lower rl at route client_ip tokens).0 ≡ passed
    → (lower route ≡ "health")
      ⊎ ((limit : ℕ) × RouteLimit (lower route) limit
          × HasRooms rl at (client_ip +s ":" +s lower route) limit tokens)
unfolding check_rate_limit
check_rate_limit-HasRooms lower rl then_ now at route client_ip tokens o v fine =
    elim (Bool-cases (lower route == "health")) [
      | inl exempt ↦ inl ((text_eq.beq_iff (lower route) "health").0 exempt)
      | inr limited ↦
          let base_key = client_ip +s ":" +s lower route in
          let limit = minute_limit (lower route) in
          let minute =
            and_then-passed (check rl at.minute ("r:" +s base_key) limit 60 1) _
              (rw limited at fine) in
          let v1 = check-IsValid rl then_ at.minute ("r:" +s base_key) limit 60 1 o.minute v in
          let rl1 = after_minute rl at base_key limit in
          let day = and_then-passed (check rl1 at.day ("d:" +s base_key) 5000 86400 1) _ minute.1 in
          let v2 = check-IsValid rl1 at.minute at.day ("d:" +s base_key) 5000 86400 1 o.day v1 in
          inr (
            limit,
            minute_limit-RouteLimit (lower route),
            record {
              minute = check-HasRoom rl then_ at.minute _ limit 60 1 v minute.0;
              day = check-HasRoom rl1 at.minute at.day _ 5000 86400 1 v1 day.0;
              used =
                  check_tokens-HasTokens (after_day rl1 at base_key) then_ now at base_key tokens o
                    v2 day.1;
            },
          )
    ]
