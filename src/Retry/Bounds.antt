-- ===== src/Retry/Bounds.antt =====
-- How often resilient_chat calls an LLM, and which it names.
use model_weaver.Base.{
  ℕ, zero, suc, ◌+◌, ◌≤◌, ◌<◌, Bool, Option, none, some, List, [], ◌∷◌, ◌++◌, ◌≡◌, refl, arith,
  length, length-append, Bool-cases, inl, inr, ◌⊎◌,
}
use model_weaver.Retry.{
  Llm, BridgeError, Pool, Outcome, served, gave_up, Session, run_with_timeout, call, after_failure,
  conclude, attempts, resilient_chat,
}

module _ {W R : Type 0} where
  -- After at most `limit` calls: the LLM that answered is the last that was called, and the calls
  -- before it are counted; or none answered.
  abbrev pub Honest : (limit : ℕ) → Outcome R × Session W → Type 0
  Honest limit (served r llm fallbacks, s) =
      (earlier : List Llm) × (s.called ≡ earlier ++ llm ∷ [])
      × (length earlier ≡ fallbacks)
      × (fallbacks < limit)
  Honest limit (gave_up e, s) = length s.called ≤ limit

record Keeps {W R : Type 0} (limit : ℕ) (out : Outcome R × Session W) : Type 0 where
  holds : Honest limit out

module _ {W R : Type 0} (pool : Pool W R) (timeout : ℕ) (fallback : Bool) where
  after_failure-Honest :
      (limit : ℕ) (retry : Llm → Session W → Outcome R × Session W) (e : BridgeError) (llm : Llm)
      (s : Session W)
      → length s.called ≤ limit
      → ((other : Llm) (s' : Session W)
          → length s'.called ≡ length s.called
          → Keeps limit (retry other s'))
      → Keeps limit (after_failure pool timeout fallback retry e llm s)
  unfolding after_failure
  after_failure-Honest limit retry e llm s l more = elim (Bool-cases fallback) [
    | inr final ↦ simp (final, after_failure) (record { holds = l })
    | inl again ↦ simp (again, after_failure) (found (pool.assign_llm s.env llm))
  ]
    where
      found :
          (o : Option Llm × W)
          → Keeps {W = W} {R = R} limit (elim o.0 [
            | none ↦ (gave_up e, record s { env = o.1 })
            | some other ↦ retry other (record s { env = o.1 })
          ])
      found (none, w) = record { holds = l }
      found (some other, w) = more other (record s { env = w }) refl

  conclude-Honest :
      (limit attempt : ℕ) (llm : Llm) (s : Session W)
      (on_error : BridgeError → Outcome R × Session W) (o : R ⊎ BridgeError)
      → length s.called ≡ attempt
      → attempt < limit
      → ((e : BridgeError) → Keeps limit (on_error e))
      → Keeps limit (
          conclude pool timeout fallback attempt llm
            (record s { called = s.called ++ llm ∷ [] })
            on_error
            o)
  unfolding conclude
  conclude-Honest limit attempt llm s on_error (inl r) l b h = record {
    holds = (s.called, refl, l, b);
  }
  conclude-Honest limit attempt llm s on_error (inr e) l b h = h e

  attempts-Honest :
      (left attempt limit : ℕ) (llm : Llm) (s : Session W)
      → length s.called ≡ attempt
      → suc (attempt + left) ≡ limit
      → Keeps limit (attempts pool timeout fallback left attempt llm s)
  unfolding attempts
  attempts-Honest zero attempt limit llm s l q =
      let one = length-append s.called (llm ∷ []) in
      let bound : length (s.called ++ llm ∷ []) ≤ limit = omega (arith, one, l, q) in
      conclude-Honest limit attempt llm (record s { env = (pool.chat s.env llm timeout).1 })
        (λ e. (gave_up e, (call pool timeout fallback llm s).1))
        (run_with_timeout pool timeout fallback llm (pool.chat s.env llm timeout).0) l
        (omega (arith, q)) (λ e. record { holds = bound })
  attempts-Honest (suc left) attempt limit llm s l q =
      let one = length-append s.called (llm ∷ []) in
      let bound : length (s.called ++ llm ∷ []) ≤ limit = omega (arith, one, l, q) in
      conclude-Honest limit attempt llm (record s { env = (pool.chat s.env llm timeout).1 })
        (λ e.
          after_failure pool timeout fallback
            (λ other s''. attempts pool timeout fallback left (attempt + 1) other s'') e llm
            (call pool timeout fallback llm s).1)
        (run_with_timeout pool timeout fallback llm (pool.chat s.env llm timeout).0) l
        (omega (arith, q))
        (λ e.
          after_failure-Honest limit _ e llm (call pool timeout fallback llm s).1 bound
            (λ other s' same.
              attempts-Honest left (attempt + 1) limit other s' (omega (arith, one, l, same))
                (omega (arith, q))))

  -- A resilient call tries at most max_retries LLMs. If it is answered, the LLM that it names is
  -- the one that it called last, and the fallbacks that it counts are the calls before that.
  pub resilient_chat-Honest :
      (max_retries : ℕ) (llm : Llm) (env : W)
      → Honest max_retries (resilient_chat pool timeout fallback max_retries llm env)
  unfolding resilient_chat
  resilient_chat-Honest zero llm env = omega arith
  resilient_chat-Honest (suc left) llm env =
      (attempts-Honest left 0 (suc left) llm (record { env = env; called = [] }) refl
        (omega arith)).holds
