-- ===== src/Fsm/Step.antt =====
-- The steps of a workflow: the keys that AgentFrameWork/fsm_interpreter.py reads of a step's dict.
-- A key that is missing is `none`, an empty dict or an empty list.
use model_weaver.Base.{ℕ, String, Bool, Option, List}
use model_weaver.Base.Dict.{Dict}
use model_weaver.Fsm.Value.{Value, Vars}

-- {variable, operator, value, next}
pub record Cond : Type 0 where
  pub variable : String
  pub operator : Option String
  pub value : Option Value
  pub next : Option String

pub record StepKeys : Type 0 where
  pub id : String
  pub type : String
  pub next : Option String
  pub default : Option String
  pub conditions : List Cond
  pub on_error : Option String
  -- llm_call
  pub skill_prompt : String
  pub output_capture : Option String
  pub provider_ref : Option String
  pub model_ref : Option String
  pub timeout : Option ℕ
  pub fallback : Bool
  pub strip_fences : Bool
  -- call, tool_call, agent_call
  pub fn : String
  pub inputs : Vars
  pub capture : Dict String String
  pub tool : String
  pub args : Vars
  pub agent : Option String
  pub entrypoint : Option String
  pub agent_inputs : Dict String String
  -- switch, while, if
  pub variable : String
  pub condition : Option Cond
  -- sleep, end, set_variable
  pub duration_seconds : Option ℕ
  pub status : Option String
  pub name : Option String
  pub value : String
  -- spawn, handoff
  pub role : Option String
  pub occupation : Option String
  pub request : String
  pub resources : Option Value
  pub config : Option Value
  pub to : Option String
  -- for
  pub var : Option String
  pub items : Option Value
  pub start : Option Value
  pub end : Option Value
  pub stride : Option Value

-- `body` is missing or of another type, a dict with `steps`, or a list.
mutual
  pub data Step : Type 0 where
    step : StepKeys → Body → Step

  pub data Body : Type 0 where
    no_body : Body
    wrapped : Steps → Body
    plain : Steps → Body

  pub data Steps : Type 0 where
    nil : Steps
    cons : Step → Steps → Steps
