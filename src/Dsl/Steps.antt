-- ===== src/Dsl/Steps.antt =====
-- The handlers `_dsl_*` of AgentFrameWork/dsl_executor.py.
use model_weaver.Base.{
  String, ◌+s◌, Bool, true, false, Option, none, some, List, [], ◌∷◌, ◌==◌, if◌then◌else◌, text_eq,
}
use model_weaver.Base.Dict
use model_weaver.Fsm.Value.{Value, text, Vars, str, get_or_empty, nonempty, resolve}
use model_weaver.Fsm.Control.{select_branch, default_to}
use model_weaver.Fsm.Calls.{resolve_value, resolve_all}
use model_weaver.Dsl.Pipeline.{concat, translate}
use model_weaver.Fsm.State.{Message}
use model_weaver.Dsl.{
  success, failed, sleeping, WorkflowResult, DslStep, Attempt, value, error, Done, Hooks, Workflow,
  Handled, answered, escaped, with_result, with_env, to_next, fail_workflow, assign, append_message,
}

-- {name: variables[name] for name in var_names if name in variables}
unfoldable pub select_vars : List String → Vars → Vars → Vars
unfolding Dict.insert
select_vars [] variables state = state
select_vars (name ∷ names) variables state =
    select_vars names variables
      (elim (Dict.lookup variables name) [ none ↦ state | some v ↦ Dict.insert state name v ])

-- The state that `_dsl_save_state` saves.
unfoldable pub saved_state : List String → Vars → Vars
unfolding select_vars
saved_state [] variables = variables
saved_state (name ∷ names) variables = select_vars (name ∷ names) variables []

abbrev is_given {ℓ} : {A : Type ℓ} → Option A → Bool
is_given none = false
is_given (some a) = true

-- if successor_role and self.signal_successor: …
unfoldable pub name_successor :
    (config : Option Value) (can_signal : Bool) → Option String → WorkflowResult → WorkflowResult
name_successor config can_signal none r = r
name_successor config false (some role) r = r
name_successor config true (some role) r = record r {
  successor_role = some role;
  successor_config = config;
}

module _ {W : Type 0} (hooks : Hooks W) where
  -- The behaviour behind a hook whose exception nobody catches.
  unfoldable pub after_hook : DslStep → Attempt Done × W → Workflow W → Handled W
  unfolding to_next
  after_hook step (value u, w) wf = to_next step (with_env w wf)
  after_hook step (error e, w) wf = escaped e (with_env w wf)

  abbrev capture : Option String → String → Workflow W → Workflow W
  capture none content wf = wf
  capture (some name) content wf = assign name (text content) wf

  -- A text that a call answers: captured and appended to the messages, or the end of the run.
  unfoldable pub after_text :
      DslStep → (role intro problem : String) → Attempt String × W → Workflow W → Handled W
  unfolding to_next assign append_message fail_workflow
  after_text step role intro problem (value content, w) wf = to_next step (
      append_message role (intro +s content)
        (capture (nonempty step.keys.output_capture) content (with_env w wf)))
  after_text step role intro problem (error e, w) wf =
      answered false (fail_workflow (problem +s e) (with_env w wf))

  -- DSLExecutor._dsl_llm_call
  unfoldable pub dsl_llm_call : DslStep → Workflow W → Handled W
  unfolding after_text fail_workflow resolve
  dsl_llm_call step wf = elim hooks.llm_call [
    | none ↦ answered false (fail_workflow "Aucune fonction LLM configurée" wf)
    | some llm_call ↦
        after_text step "assistant" "" "LLM call error: "
          (llm_call wf.env wf.result.messages wf.result.variables
            (resolve hooks.py wf.result.variables step.keys.skill_prompt))
          wf
  ]

  -- DSLExecutor._dsl_switch
  unfoldable pub dsl_switch : DslStep → Workflow W → Handled W
  unfolding select_branch get_or_empty
  dsl_switch step wf =
      let var_value = str hooks.py (get_or_empty wf.result.variables step.keys.variable) in
      let next = select_branch hooks.py var_value step.keys.conditions step.keys.default in
      answered true (with_result wf (λ r. record r { next_step_id = next }))

  -- DSLExecutor._dsl_sleep
  unfoldable pub dsl_sleep : DslStep → Workflow W → Handled W
  dsl_sleep step wf = answered false (
      with_result wf (λ r. record r {
        sleep_seconds = some (elim step.keys.duration_seconds [ none ↦ 60 | some n ↦ n ]);
        status = sleeping;
        next_step_id = step.keys.next;
      }))

  -- DSLExecutor._dsl_end
  unfoldable pub dsl_end : DslStep → Workflow W → Handled W
  unfolding name_successor
  dsl_end step wf =
      let status = default_to step.keys.status "SUCCESS" in
      answered false (
        with_result wf (λ r.
          name_successor step.successor_config (is_given hooks.signal_successor)
            (nonempty step.successor)
            (record r {
              status = if status == "SUCCESS" then success else failed;
              end_reason = some status;
            })))

  -- DSLExecutor._dsl_signal_successor
  unfoldable pub dsl_signal_successor : DslStep → Workflow W → Handled W
  unfolding after_hook to_next
  dsl_signal_successor step wf =
      let wf' = with_result wf (λ r. record r {
        successor_role = step.successor_role;
        successor_config = step.successor_config;
      }) in
      elim hooks.signal_successor [
        | none ↦ to_next step wf'
        | some signal ↦
            after_hook step
              (signal wf'.env (default_to step.reason "unknown") wf'.result.variables
                wf'.result.messages)
              wf'
      ]

  -- DSLExecutor._dsl_save_state
  unfoldable pub dsl_save_state : DslStep → Workflow W → Handled W
  unfolding after_hook to_next saved_state
  dsl_save_state step wf = elim hooks.save_state [
    | none ↦ to_next step wf
    | some save ↦ after_hook step (save wf.env (saved_state step.saved wf.result.variables)) wf
  ]

  -- DSLExecutor._dsl_connect
  unfoldable pub dsl_connect : DslStep → Workflow W → Handled W
  unfolding after_hook to_next
  dsl_connect step wf = elim hooks.connect [
    | none ↦ to_next step wf
    | some connect ↦ after_hook step (connect wf.env step.channel step.target false) wf
  ]

  -- DSLExecutor._dsl_disconnect
  unfoldable pub dsl_disconnect : DslStep → Workflow W → Handled W
  unfolding after_hook to_next
  dsl_disconnect step wf = elim hooks.connect [
    | none ↦ to_next step wf
    | some connect ↦ after_hook step (connect wf.env step.channel none true) wf
  ]

  -- DSLExecutor._dsl_set_variable
  unfoldable pub dsl_set_variable : DslStep → Workflow W → Handled W
  unfolding to_next assign resolve_value
  dsl_set_variable step wf = to_next step (
      assign (default_to step.keys.name "")
        (resolve_value hooks.py wf.result.variables step.set_value) wf)

  -- DSLExecutor._dsl_concat
  unfoldable pub dsl_concat : DslStep → Workflow W → Handled W
  unfolding to_next concat resolve
  dsl_concat step wf = to_next step (
      with_result wf (λ r. record r {
        messages =
            concat (default_to step.position "after") (default_to step.target "system")
              (resolve hooks.py r.variables step.keys.value) r.messages;
      }))

  -- DSLExecutor._dsl_translate_context
  unfoldable pub dsl_translate_context : DslStep → Workflow W → Handled W
  unfolding to_next translate
  dsl_translate_context step wf = to_next step (
      with_result wf (λ r. record r {
        messages =
            translate (default_to step.strategy "truncate")
              (elim step.max_tokens [ none ↦ 4096 | some n ↦ n ]) r.messages;
      }))

  -- The steps that the pipeline answers with messages and variables.
  unfoldable pub after_pipeline :
      DslStep → Attempt (List Message × Vars) × W → Workflow W → Handled W
  unfolding to_next
  after_pipeline step (value (messages, variables), w) wf =
      to_next step
        (with_result (with_env w wf) (λ r. record r { messages = messages; variables = variables }))
  after_pipeline step (error e, w) wf = escaped e (with_env w wf)

  -- DSLExecutor._dsl_tool_call
  unfoldable pub dsl_tool_call : DslStep → Workflow W → Handled W
  unfolding after_text fail_workflow resolve_all
  dsl_tool_call step wf = elim hooks.tool_call [
    | none ↦ answered false (fail_workflow "Aucun ToolExecutor configuré" wf)
    | some tool_call ↦
        after_text step "system" ("Outil " +s step.keys.tool +s " résultat : ") "Tool call error: "
          (tool_call wf.env step.keys.tool
            (resolve_all hooks.py wf.result.variables step.keys.args))
          wf
  ]
