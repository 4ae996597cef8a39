-- ===== src/Fsm/Returns.antt =====
-- When the handlers answer: what a workflow needs for its runs to end, and that every handler
-- without a body answers.
pub mod Bodies
pub mod Blocks
pub mod Runs
use model_weaver.Base.{
  ℕ, ◌≤◌, String, Bool, true, false, not, ◌&&◌, ◌||◌, Option, none, some, List, [], ◌∷◌, ◌≡◌, refl,
  ◌==◌, if◌then◌else◌, text_eq, ap, ◌∙◌, sym, Bool-cases, inl, inr, arith, Option-cases,
}
use model_weaver.Fsm.Value.{nonempty}
use model_weaver.Fsm.Step.{StepKeys, Step, step, Body, Steps}
use model_weaver.Fsm.State.{State, Runtime}
use model_weaver.Fsm.Control
use model_weaver.Fsm.Calls.{step_call, step_tool_call}
use model_weaver.Fsm.Llm.{step_llm_call}
use model_weaver.Fsm.Agents.{step_spawn, step_handoff, step_agent_call}
use model_weaver.Fsm.Graph.{Compiled, find_entry_point, keys_of}
use model_weaver.Fsm.Run.{simple_handler, compile_step, compile_body, compile_steps}
use model_weaver.Fsm.Extends.Handlers.{KeepsOpt}

abbrev given : Option String → Bool
given none = false
given (some id) = true

-- The steps have one to start at, whose id is not empty.
unfoldable pub has_start : List StepKeys → Bool
unfolding find_entry_point
has_start steps = given (nonempty (find_entry_point steps))

abbrev pub step_keys : Steps → List StepKeys
step_keys Steps.nil = []
step_keys (Steps.cons (step s body) steps) = s ∷ step_keys steps

abbrev pub body_keys : Body → List StepKeys
body_keys Body.no_body = []
body_keys (Body.wrapped steps) = step_keys steps
body_keys (Body.plain steps) = step_keys steps

-- The body of every `while` step has a step to start at.
unfoldable mutual
  unfolding has_start

  pub step_starts : Step → Bool
  step_starts (step s body) =
      (not (s.type == "while") || has_start (body_keys body)) && body_starts body

  pub body_starts : Body → Bool
  body_starts Body.no_body = true
  body_starts (Body.wrapped steps) = whiles_start steps
  body_starts (Body.plain steps) = whiles_start steps

  pub whiles_start : Steps → Bool
  whiles_start Steps.nil = true
  whiles_start (Steps.cons s steps) = step_starts s && whiles_start steps

pub keys_of-compile_steps :
    {W : Type 0} (rt : Runtime W) (fuel : ℕ) (steps : Steps)
    → keys_of (compile_steps rt fuel steps) ≡ step_keys steps
unfolding compile_steps compile_step
keys_of-compile_steps rt fuel Steps.nil = refl
keys_of-compile_steps rt fuel (Steps.cons (step s body) steps) =
    ap (λ ks. s ∷ ks) (keys_of-compile_steps rt fuel steps)

pub keys_of-compile_body :
    {W : Type 0} (rt : Runtime W) (fuel : ℕ) (body : Body)
    → keys_of (compile_body rt fuel body) ≡ body_keys body
unfolding compile_body
keys_of-compile_body rt fuel Body.no_body = refl
keys_of-compile_body rt fuel (Body.wrapped steps) = keys_of-compile_steps rt fuel steps
keys_of-compile_body rt fuel (Body.plain steps) = keys_of-compile_steps rt fuel steps

-- Within the limit, the handler answers, if there is one.
pub record Answers {W : Type 0} (limit : ℕ) (o : Option (State W → Option (Bool × State W)))
    : Type 0 where
  pub each :
      (h : State W → Option (Bool × State W)) (st : State W)
      → o ≡ some h
      → st.result.iterations ≤ limit
      → (out : Bool × State W) × (h st ≡ some out)

abbrev pub Ready : {W : Type 0} → (limit : ℕ) → Compiled W → Type 0
Ready limit c = Answers limit c.handler × KeepsOpt limit c.handler

module _ {W : Type 0} (limit : ℕ) where
  pub Answers-if :
      (b : Bool) (x y : Option (State W → Option (Bool × State W)))
      → (b ≡ true → Answers limit x)
      → Answers limit y
      → Answers limit (if b then x else y)
  Answers-if true x y p q = p refl
  Answers-if false x y p q = q

  Answers-none : Answers {W = W} limit none
  Answers-none = record { each = λ h st e l. cc }

  pub Answers-some :
      (h : State W → Option (Bool × State W))
      → ((st : State W) → st.result.iterations ≤ limit → (out : Bool × State W) × (h st ≡ some out))
      → Answers limit (some h)
  Answers-some h f = record {
    each = λ h' st e l.
        let (out, q) = f st l in
        let p : h ≡ h' = cc in
        (out, ap (λ (g : State W → Option (Bool × State W)). g st) (sym p) ∙ q);
  }

  -- One more type of a handler that always answers.
  Answers-total :
      (b : Bool) (h : State W → Bool × State W) (y : Option (State W → Option (Bool × State W)))
      → Answers limit y
      → Answers limit (if b then some (λ st. some (h st)) else y)
  Answers-total b h y q = Answers-if b _ y (λ _. Answers-some _ (λ st l. (h st, refl))) q

module _ {W : Type 0} (rt : Runtime W) (limit : ℕ) where
  pub simple_handler-Answers : (fuel : ℕ) (s : StepKeys) → Answers limit (simple_handler rt fuel s)
  unfolding simple_handler
  simple_handler-Answers fuel s = search (Answers-total, Answers-none) depth 16
