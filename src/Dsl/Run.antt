-- ===== src/Dsl/Run.antt =====
-- DSLExecutor.run of AgentFrameWork/dsl_executor.py.
use mathlib.Core.Option
use model_weaver.Base.{
  ℕ, zero, suc, ◌+◌, String, ◌+s◌, Bool, true, false, ◌&&◌, Option, none, some, List, [], ◌∷◌, ltb,
  leb, ◌==◌, if◌then◌else◌, text_eq, map,
}
use model_weaver.Base.Dict
use model_weaver.Base.Dict.{Dict}
use model_weaver.Base.Int.{pos}
use model_weaver.Fsm.Value.{Vars, int, str, nonempty}
use model_weaver.Fsm.State.{Message}
use model_weaver.Fsm.Graph.{find_entry_point}
use model_weaver.Dsl.{
  WorkflowStatus, running, new_workflow_result, DslStep, Hooks, Workflow, Handled, answered,
  escaped, with_result, fail_workflow,
}
use model_weaver.Dsl.Steps.{
  dsl_llm_call, dsl_switch, dsl_sleep, dsl_end, dsl_signal_successor, dsl_save_state, dsl_connect,
  dsl_disconnect, dsl_set_variable, dsl_concat, dsl_translate_context, dsl_tool_call,
  after_pipeline,
}

abbrev pub is_active : WorkflowStatus → Bool
is_active running = true
is_active _ = false

-- {s["id"]: s for s in steps}
unfoldable pub steps_by_id : List DslStep → Dict String DslStep → Dict String DslStep
steps_by_id [] d = d
steps_by_id (s ∷ steps) d = steps_by_id steps (Dict.insert d s.keys.id s)

-- How a run ends, or a round of its loop: `going` with the next step, `left` where the loop is
-- left, `thrown` with an exception of a hook.
pub data DslRound (W : Type 0) : Type 0 where
  going : Option String → Workflow W → DslRound W
  left : Workflow W → DslRound W
  thrown : String → Workflow W → DslRound W

module _ {W : Type 0} (hooks : Hooks W) (max_iterations : ℕ) where
  abbrev DslHandler : Type 0
  DslHandler = Workflow W → Handled W

  -- getattr(self, f"_dsl_{step_type}", None)
  unfoldable pub dsl_handler : DslStep → Option DslHandler
  unfolding after_pipeline
  dsl_handler step =
      let type = step.keys.type in
      if type == "llm_call"
      then some (dsl_llm_call hooks step)
      else if type == "switch"
      then some (dsl_switch hooks step)
      else if type == "sleep"
      then some (dsl_sleep hooks step)
      else if type == "end"
      then some (dsl_end hooks step)
      else if type == "signal_successor"
      then some (dsl_signal_successor hooks step)
      else if type == "save_state"
      then some (dsl_save_state hooks step)
      else if type == "connect"
      then some (dsl_connect hooks step)
      else if type == "disconnect"
      then some (dsl_disconnect hooks step)
      else if type == "set_variable"
      then some (dsl_set_variable hooks step)
      else if type == "concat"
      then some (dsl_concat hooks step)
      else if type == "extract_context"
      then some (λ wf.
        after_pipeline hooks step
          (hooks.extract_context wf.env step wf.result.messages wf.result.variables) wf)
      else if type == "translate_context"
      then some (dsl_translate_context hooks step)
      else if type == "call_function"
      then some (λ wf.
        after_pipeline hooks step
          (hooks.call_function wf.env step wf.result.messages wf.result.variables) wf)
      else if type == "tool_call"
      then some (dsl_tool_call hooks step)
      else none

  -- result.iterations += 1; result.next_step_id = None
  unfoldable pub count_round : Workflow W → Workflow W
  count_round wf =
      with_result wf (λ r. record r { iterations = r.iterations + 1; next_step_id = none })

  -- The lines of a round behind the call of the handler.
  unfoldable pub after_answer : Handled W → DslRound W
  after_answer (escaped e wf) = thrown e wf
  after_answer (answered cont wf) =
      if is_active wf.result.status && cont then going wf.result.next_step_id wf else left wf

  unfoldable pub dsl_round : Dict String DslStep → String → Workflow W → DslRound W
  unfolding dsl_handler count_round after_answer fail_workflow
  dsl_round steps id wf = elim (Dict.lookup steps id) [
    | none ↦ left (fail_workflow ("Étape '" +s id +s "' introuvable") wf)
    | some step ↦ elim (dsl_handler step) [
      | none ↦ left (fail_workflow ("Type d'étape inconnu: " +s step.keys.type) (count_round wf))
      | some handler ↦ after_answer (handler (count_round wf))
    ]
  ]

  -- while current_id and result.iterations < max_iterations: …
  unfoldable pub dsl_loop :
      Dict String DslStep → (fuel : ℕ) → (cur : Option String) → Workflow W → Option (Handled W)
  unfolding dsl_round
  dsl_loop steps zero cur wf = none
  dsl_loop steps (suc fuel) cur wf = elim (nonempty cur) [
    | none ↦ some (answered true wf)
    | some id ↦ elim (ltb wf.result.iterations max_iterations) [
      | false ↦ some (answered true wf)
      | true ↦ elim (dsl_round steps id wf) [
        | going next wf' ↦ dsl_loop steps fuel next wf'
        | left wf' ↦ some (answered true wf')
        | thrown e wf' ↦ some (escaped e wf')
      ]
    ]
  ]

  -- The test of the limit behind the loop, which an exception does not reach.
  unfoldable pub dsl_finish : Handled W → Handled W
  unfolding fail_workflow str
  dsl_finish (escaped e wf) = escaped e wf
  dsl_finish (answered cont wf) =
      if leb max_iterations wf.result.iterations && is_active wf.result.status
      then answered cont (
          fail_workflow
            ("Limite d'itérations atteinte (" +s str hooks.py (int (pos max_iterations)) +s ")") wf)
      else answered cont wf

  -- start_step_id or self._find_entry_point(steps), if it is not empty
  unfoldable pub first_step : List DslStep → (start_step_id : Option String) → Option String
  unfolding find_entry_point
  first_step steps start_step_id = elim (nonempty start_step_id) [
    | some id ↦ some id
    | none ↦ nonempty (find_entry_point (map (λ (s : DslStep). s.keys) steps))
  ]

  -- result = WorkflowResult(); result.messages = list(messages); …
  abbrev pub begin : List Message → Vars → W → Workflow W
  begin messages variables env = record {
    result = record new_workflow_result { messages = messages; variables = variables };
    env = env;
  }

  -- DSLExecutor.run
  unfoldable pub dsl_run :
      (fuel : ℕ)
      → List DslStep
      → List Message
      → Vars
      → (start_step_id : Option String) → W
      → Option (Handled W)
  unfolding dsl_loop dsl_finish steps_by_id first_step fail_workflow
  dsl_run fuel steps messages variables start_step_id env =
      let wf = begin messages variables env in
      elim (first_step steps start_step_id) [
        | none ↦ some (answered true (fail_workflow "Aucune étape de départ trouvée" wf))
        | some id ↦ Option.map dsl_finish (dsl_loop (steps_by_id steps []) fuel (some id) wf)
      ]
