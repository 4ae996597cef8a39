-- ===== src/Dsl.antt =====
-- AgentFrameWork/dsl_executor.py: the result of a workflow, the keys of its steps, and what the
-- executor is given from outside.
pub mod Pipeline
pub mod Steps
pub mod Run
pub mod Counts
pub mod Bounds
pub mod Saves
mod Samples
use model_weaver.Base.{ℕ, String, Bool, true, Option, none, some, List, [], ◌++◌, ◌∷◌, text_eq}
use model_weaver.Base.Dict
use model_weaver.Fsm.Value.{Value, Vars, Python}
use model_weaver.Fsm.Step.{StepKeys}
use model_weaver.Fsm.State.{Message}

pub data WorkflowStatus : Type 0 where
  running success failed sleeping terminated : WorkflowStatus

pub record WorkflowResult : Type 0 where
  pub status : WorkflowStatus
  pub variables : Vars
  pub messages : List Message
  pub next_step_id : Option String
  pub sleep_seconds : Option ℕ
  pub successor_role : Option String
  pub successor_config : Option Value
  pub end_reason : Option String
  pub iterations : ℕ

-- WorkflowResult.__init__
abbrev pub new_workflow_result : WorkflowResult
new_workflow_result = record {
  status = running;
  variables = [];
  messages = [];
  next_step_id = none;
  sleep_seconds = none;
  successor_role = none;
  successor_config = none;
  end_reason = none;
  iterations = 0;
}

-- A step: the keys that it shares with the steps of the interpreter, and its own.
pub record DslStep : Type 0 where
  pub keys : StepKeys
  -- of `end`, `signal_successor`
  pub successor : Option String
  pub successor_role : Option String
  pub successor_config : Option Value
  pub reason : Option String
  -- "value" of `set_variable`, of any type
  pub set_value : Value
  -- "variables" of `save_state`
  pub saved : List String
  -- of `connect`, `disconnect`, `concat`
  pub channel : String
  pub target : Option String
  pub position : Option String
  -- of `translate_context`, `llm_call`
  pub strategy : Option String
  pub max_tokens : Option ℕ

-- A call that returns or raises.
pub data Attempt {ℓ} (A : Type ℓ) : Type ℓ where
  value : A → Attempt A
  error : String → Attempt A

-- The answer of a call that is made for its effect.
pub data Done : Type 0 where
  done : Done

-- The functions that the caller injects, each with the state of the world, and the steps of the
-- pipeline that read files, run commands or call a registered function.
pub record Hooks (W : Type 0) : Type 0 where
  pub py : Python
  pub llm_call : Option (W → List Message → Vars → (skill_prompt : String) → Attempt String × W)
  pub tool_call : Option (W → String → Vars → Attempt String × W)
  pub save_state : Option (W → Vars → Attempt Done × W)
  pub signal_successor : Option (W → String → Vars → List Message → Attempt Done × W)
  pub connect : Option (W → String → Option String → (disconnect : Bool) → Attempt Done × W)
  pub extract_context : W → DslStep → List Message → Vars → Attempt (List Message × Vars) × W
  pub call_function : W → DslStep → List Message → Vars → Attempt (List Message × Vars) × W

-- The result under construction, and the world.
pub record Workflow (W : Type 0) : Type 0 where
  pub result : WorkflowResult
  pub env : W

-- What a handler does: it answers whether to go on, or an exception leaves the executor.
pub data Handled (W : Type 0) : Type 0 where
  answered : (go_on : Bool) → Workflow W → Handled W
  escaped : String → Workflow W → Handled W

module _ {W : Type 0} where
  abbrev pub with_result : Workflow W → (WorkflowResult → WorkflowResult) → Workflow W
  with_result wf f = record wf { result = f wf.result }

  abbrev pub with_env : W → Workflow W → Workflow W
  with_env w wf = record wf { env = w }

  -- result.next_step_id = step.get("next"); return True
  unfoldable pub to_next : DslStep → Workflow W → Handled W
  to_next step wf = answered true (with_result wf (λ r. record r { next_step_id = step.keys.next }))

  -- result.status = "failed"; result.end_reason = reason
  unfoldable pub fail_workflow : String → Workflow W → Workflow W
  fail_workflow reason wf =
      with_result wf (λ r. record r { status = failed; end_reason = some reason })

  unfoldable pub assign : String → Value → Workflow W → Workflow W
  assign name v wf = with_result wf (λ r. record r { variables = Dict.insert r.variables name v })

  unfoldable pub append_message : (role content : String) → Workflow W → Workflow W
  append_message role content wf =
      with_result wf
        (λ r. record r { messages = r.messages ++ record { role = role; content = content } ∷ [] })
