-- ===== src/Retry.antt =====
-- modules/llm_manager/resilient.py: a call of an LLM with a timeout, retried with another LLM.
pub mod Bounds
mod Samples
use model_weaver.Base.{
  ℕ, zero, suc, ◌+◌, String, ◌+s◌, Bool, true, false, ◌||◌, not, Option, none, some, List, [], ◌∷◌,
  ◌++◌, if◌then◌else◌, ◌⊎◌, inl, inr,
}

-- The provider and the model of a call.
pub record Llm : Type 0 where
  pub provider : String
  pub model : String

-- How a call of the bridge in its thread ends: with a response, not in time, with a BridgeError
-- or another exception, or without either.
pub data ThreadEnd (R : Type 0) : Type 0 where
  responded : R → ThreadEnd R
  late : ThreadEnd R
  bridge_failed : String → ThreadEnd R
  other_failed : String → ThreadEnd R
  silent : ThreadEnd R

pub data ErrorCategory : Type 0 where
  timed_out unknown : ErrorCategory

-- The BridgeError that is raised at last: a new one, or the bridge's own.
pub data BridgeError : Type 0 where
  own : String → BridgeError
  made : ErrorCategory → (message : String) → Llm → BridgeError

-- The bridge and the manager of LLMs, on a state of the world.
pub record Pool (W R : Type 0) : Type 0 where
  pub chat : W → Llm → (timeout : ℕ) → ThreadEnd R × W
  pub assign_llm : W → (excluded : Llm) → Option Llm × W
  pub timeout_text : Llm → String

-- A response with `provider_used`, `model_used` and `fallbacks`, or the last error.
pub data Outcome (R : Type 0) : Type 0 where
  served : R → (by_llm : Llm) → (fallbacks : ℕ) → Outcome R
  gave_up : BridgeError → Outcome R

-- The world, and the LLMs that were called.
pub record Session (W : Type 0) : Type 0 where
  pub env : W
  pub called : List Llm

module _ {W R : Type 0} (pool : Pool W R) (timeout : ℕ) (fallback : Bool) where
  -- _run_with_timeout, with the error that its caller makes of a timeout
  unfoldable pub run_with_timeout : Llm → ThreadEnd R → R ⊎ BridgeError
  run_with_timeout llm (responded r) = inl r
  run_with_timeout llm late = inr (made timed_out (pool.timeout_text llm) llm)
  run_with_timeout llm (bridge_failed e) = inr (own e)
  run_with_timeout llm (other_failed e) = inr (made unknown e llm)
  run_with_timeout llm silent = inr (made unknown "aucune réponse du LLM" llm)

  abbrev pub call : Llm → Session W → ThreadEnd R × Session W
  call llm s =
      let (end, w) = pool.chat s.env llm timeout in
      (end, record { env = w; called = s.called ++ llm ∷ [] })

  abbrev assign : Llm → Session W → Option Llm × Session W
  assign llm s = let (found, w) = pool.assign_llm s.env llm in (found, record s { env = w })

  -- What follows a failed attempt, `retry` being the rest of the loop.
  unfoldable pub after_failure :
      (retry : Llm → Session W → Outcome R × Session W)
      → BridgeError
      → Llm
      → Session W
      → Outcome R × Session W
  after_failure retry e llm s =
      if fallback
      then (let (found, s') = assign llm s in
          elim found [ none ↦ (gave_up e, s') | some other ↦ retry other s' ])
      else (gave_up e, s)

  -- What an attempt ends in, with the treatment of its error.
  unfoldable pub conclude :
      (attempt : ℕ)
      → Llm
      → Session W
      → (BridgeError → Outcome R × Session W)
      → R ⊎ BridgeError
      → Outcome R × Session W
  conclude attempt llm s on_error (inl r) = (served r llm attempt, s)
  conclude attempt llm s on_error (inr e) = on_error e

  -- The loop from an attempt on, with `left` further ones to come.
  unfoldable pub attempts : (left attempt : ℕ) → Llm → Session W → Outcome R × Session W
  unfolding run_with_timeout after_failure conclude
  attempts zero attempt llm s =
      let (end, s') = call llm s in
      conclude attempt llm s' (λ e. (gave_up e, s')) (run_with_timeout llm end)
  attempts (suc left) attempt llm s =
      let (end, s') = call llm s in
      conclude attempt llm s'
        (λ e. after_failure (λ other s''. attempts left (attempt + 1) other s'') e llm s')
        (run_with_timeout llm end)

  -- resilient_chat
  unfoldable pub resilient_chat : (max_retries : ℕ) → Llm → W → Outcome R × Session W
  unfolding attempts
  resilient_chat zero llm w =
      (gave_up (made unknown "échec de l'appel résilient" llm), record { env = w; called = [] })
  resilient_chat (suc left) llm w = attempts left 0 llm (record { env = w; called = [] })
