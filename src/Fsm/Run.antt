-- ===== src/Fsm/Run.antt =====
-- The dispatch on the type of a step, and the main loop `FSMInterpreter.run`.
use model_weaver.Base.{
  ℕ, zero, suc, String, ◌+s◌, Bool, true, false, ◌&&◌, Option, none, some, List, [], ◌∷◌, ltb, ◌==◌,
  if◌then◌else◌, text_eq,
}
use model_weaver.Base.Dict
use model_weaver.Base.Dict.{Dict}
use mathlib.Core.Option
use model_weaver.Fsm.Value.{Vars, nonempty}
use model_weaver.Fsm.Step.{StepKeys, Step, step, Body, Steps}
use model_weaver.Fsm.State.{
  Status, failed, aborted, Message, new_result, Signal, on_error, post_exec, State, Runtime, fail,
  publish, check_signals,
}
use model_weaver.Fsm.Control.{
  step_switch, step_set_variable, step_sleep, step_end, step_break, step_continue,
}
use model_weaver.Fsm.Calls.{step_call, step_tool_call}
use model_weaver.Fsm.Llm.{step_llm_call}
use model_weaver.Fsm.Agents.{step_spawn, step_handoff, step_agent_call}
use model_weaver.Fsm.Graph.{Compiled, keys_of, find_entry_point, by_id}
use model_weaver.Fsm.Loops.{
  is_running, limit_message, at_limit, count_step, publish_step, step_while, step_for, step_if,
  step_group,
}

module _ {W : Type 0} (rt : Runtime W) (fuel : ℕ) where
  abbrev Handler : Type 0
  Handler = State W → Option (Bool × State W)

  -- A handler with no loop in it always answers.
  abbrev simple : (State W → Bool × State W) → Option Handler
  simple h = some (λ st. some (h st))

  -- getattr(self, f"_step_{type}", None), for the types without a body.
  unfoldable pub simple_handler : StepKeys → Option Handler
  simple_handler s =
      if s.type == "llm_call"
      then simple (step_llm_call rt s)
      else if s.type == "call"
      then simple (step_call rt s)
      else if s.type == "tool_call"
      then simple (step_tool_call rt s)
      else if s.type == "switch"
      then simple (step_switch rt s)
      else if s.type == "sleep"
      then simple (step_sleep s)
      else if s.type == "end"
      then simple (step_end s)
      else if s.type == "set_variable"
      then simple (step_set_variable rt s)
      else if s.type == "spawn"
      then simple (step_spawn rt s)
      else if s.type == "handoff"
      then simple (step_handoff rt s)
      else if s.type == "agent_call"
      then simple (step_agent_call rt s)
      else if s.type == "break"
      then simple (step_break s)
      else if s.type == "continue"
      then simple (step_continue s)
      else none

  -- The same for all types.
  unfoldable pub handler_of : StepKeys → List (Compiled W) → Option Handler
  unfolding simple_handler
  handler_of s body =
      if s.type == "while"
      then some (step_while rt fuel s body)
      else if s.type == "for"
      then some (step_for rt fuel s body)
      else if s.type == "if"
      then some (step_if rt fuel s body)
      else if s.type == "group"
      then some (step_group rt fuel s body)
      else simple_handler s

unfoldable mutual
  -- A step, its body's steps with their handlers included.
  pub compile_step : {W : Type 0} → Runtime W → ℕ → Step → Compiled W
  compile_step rt fuel (step s body) = record {
    keys = s;
    handler = handler_of rt fuel s (compile_body rt fuel body);
  }

  -- FSMInterpreter._body_steps
  pub compile_body : {W : Type 0} → Runtime W → ℕ → Body → List (Compiled W)
  compile_body rt fuel Body.no_body = []
  compile_body rt fuel (Body.wrapped steps) = compile_steps rt fuel steps
  compile_body rt fuel (Body.plain steps) = compile_steps rt fuel steps

  pub compile_steps : {W : Type 0} → Runtime W → ℕ → Steps → List (Compiled W)
  compile_steps rt fuel Steps.nil = []
  compile_steps rt fuel (Steps.cons s steps) = compile_step rt fuel s ∷ compile_steps rt fuel steps

-- How one round of the main loop ends: with the loop left at a step, or with the next step.
pub data Round (W : Type 0) : Type 0 where
  finished : Option String → State W → Round W
  again : Option String → State W → Round W

-- What the control by signals lets a round do.
pub data Poll (W : Type 0) : Type 0 where
  proceed retry interrupted : State W → Poll W

module _ {W : Type 0} (rt : Runtime W) where
  -- The loop of a pause; nothing, if the run is still paused when no signal will come any more.
  unfoldable pub wait_paused : List (List Signal) → State W → Option (State W)
  unfolding check_signals
  wait_paused [] st = if st.result.paused && is_running st.result.status then none else some st
  wait_paused (batch ∷ later) st =
      let more = wait_paused later (check_signals (record st { signals = batch ∷ later })) in
      if st.result.paused && is_running st.result.status then more else some st

  -- The first lines of a round.
  unfoldable pub poll : State W → Option (Poll W)
  unfolding wait_paused check_signals
  poll st =
      if rt.has_signal_check
      then (let st' = check_signals st in
          if st'.result.paused
          then elim (wait_paused st'.signals st') [
            | none ↦ none
            | some st'' ↦
                some (if is_running st''.result.status then retry st'' else interrupted st'')
          ]
          else some (proceed st'))
      else some (proceed st)

  -- The lines of a round behind the call of the handler.
  unfoldable pub after_step : String → Bool × State W → Round W
  unfolding publish_step
  after_step id (cont, st) =
      if is_running st.result.status && cont
      then (let st' = publish_step rt id st in again st'.result.next_step_id st')
      else finished (some id) st

  -- A round from the lookup of the step on.
  unfoldable pub take_step : Dict String (Compiled W) → String → State W → Option (Round W)
  unfolding fail count_step after_step
  take_step steps id st = elim (Dict.lookup steps id) [
    | none ↦ some (finished (some id) (fail ("Étape '" +s id +s "' introuvable") st))
    | some c ↦ elim c.handler [
      | none ↦
          some
            (finished (some id) (fail ("Type d'étape inconnu: " +s c.keys.type) (count_step rt st)))
      | some handler ↦ Option.map (after_step id) (handler (count_step rt st))
    ]
  ]

  unfoldable pub main_round : Dict String (Compiled W) → String → State W → Option (Round W)
  unfolding poll take_step
  main_round steps id st = elim (poll st) [
    | none ↦ none
    | some (proceed st') ↦ take_step steps id st'
    | some (retry st') ↦ some (again (some id) st')
    | some (interrupted st') ↦ some (finished (some id) st')
  ]

  -- while current_id and result.iterations < max_iter: …
  unfoldable pub main_loop :
      Dict String (Compiled W)
      → (fuel : ℕ) → (cur : Option String) → State W
      → Option (Option String × State W)
  main_loop steps zero cur st = none
  main_loop steps (suc fuel) cur st = elim (nonempty cur) [
    | none ↦ some (cur, st)
    | some id ↦ elim (ltb st.result.iterations rt.max_iter) [
      | false ↦ some (cur, st)
      | true ↦ elim (main_round steps id st) [
        | none ↦ none
        | some (finished cur' st') ↦ some (cur', st')
        | some (again cur' st') ↦ main_loop steps fuel cur' st'
      ]
    ]
  ]

  -- The test of the limit behind the loop.
  unfoldable pub check_limit : State W → State W
  unfolding fail limit_message
  check_limit st =
      if at_limit rt st && is_running st.result.status then fail (limit_message rt) st else st

  abbrev pub is_error : Status → Bool
  is_error failed = true
  is_error aborted = true
  is_error _ = false

  abbrev reason_text : Option String → String
  reason_text none = ""
  reason_text (some reason) = reason

  -- The final hooks.
  unfoldable pub final_hooks : (cur : Option String) → State W → State W
  unfolding publish
  final_hooks cur st =
      if rt.has_lifecycle
      then (let st' =
            if is_error st.result.status
            then publish (on_error cur st.result.status (reason_text st.result.end_reason)) st
            else st in
          publish (post_exec st'.result.status st'.result.variables) st')
      else st

  abbrev pub finish : Option (Option String × State W) → Option (State W)
  finish none = none
  finish (some (cur, st)) = some (final_hooks cur (check_limit st))

  abbrev pub start : (messages : List Message) (variables : Vars) → W → List (List Signal) → State W
  start messages variables env signals = record {
    result = record new_result { messages = messages; variables = variables };
    env = env;
    signals = signals;
    events = [];
    sunk = [];
  }

  unfoldable pub run_from :
      (fuel : ℕ) → List (Compiled W) → (start_step_id : Option String) → State W → Option (State W)
  unfolding main_loop by_id find_entry_point final_hooks check_limit fail
  run_from fuel steps start_step_id st = elim (nonempty start_step_id) [
    | some id ↦ finish (main_loop (by_id steps []) fuel (some id) st)
    | none ↦ elim (nonempty (find_entry_point (keys_of steps))) [
      | some id ↦ finish (main_loop (by_id steps []) fuel (some id) st)
      | none ↦ some (fail "Aucune étape de départ trouvée" st)
    ]
  ]

  -- FSMInterpreter.run
  unfoldable pub run :
      (fuel : ℕ)
      → Steps
      → List Message
      → Vars
      → (start_step_id : Option String) → W
      → List (List Signal)
      → Option (State W)
  unfolding run_from compile_steps
  run fuel steps messages variables start_step_id env signals =
      run_from fuel (compile_steps rt fuel steps) start_step_id
        (start messages variables env signals)
