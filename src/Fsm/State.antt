-- ===== src/Fsm/State.antt =====
-- `FSMResult`, the signals, and the world around the interpreter.
use model_weaver.Base.{
  ℕ, ◌+◌, String, Bool, true, false, Option, none, some, List, [], ◌∷◌, ◌++◌, text_eq,
  if◌then◌else◌,
}
use model_weaver.Base.Dict
use model_weaver.Base.Dict.{Dict}
use model_weaver.Fsm.Value.{Value, Vars, Python}

pub data Status : Type 0 where
  running success failed aborted sleeping : Status

pub record Message : Type 0 where
  pub role : String
  pub content : String

pub data LoopCtl : Type 0 where
  break continue : LoopCtl

-- `FSMResult`
pub record FsmResult : Type 0 where
  pub status : Status
  pub content : String
  pub variables : Vars
  pub messages : List Message
  pub next_step_id : Option String
  pub sleep_seconds : Option ℕ
  pub end_reason : Option String
  pub iterations : ℕ
  pub tokens_used : ℕ
  pub budget : Vars
  pub paused : Bool
  pub loop_ctl : Option LoopCtl

-- FSMResult.__init__
abbrev pub new_result : FsmResult
new_result = record {
  status = running;
  content = "";
  variables = [];
  messages = [];
  next_step_id = none;
  sleep_seconds = none;
  end_reason = none;
  iterations = 0;
  tokens_used = 0;
  budget = [];
  paused = false;
  loop_ctl = none;
}

-- A pending signal of the agent.
pub data Signal : Type 0 where
  kill pause resume : Signal
  configure : Vars → Signal
  other : String → Signal

-- What the agent's lifecycle manager publishes.
pub data HookEvent : Type 0 where
  post_step : (step_id : String) → Status → Vars → HookEvent
  on_error : (step_id : Option String) → Status → (error : String) → HookEvent
  post_exec : Status → Vars → HookEvent
  on_signal : Signal → Vars → HookEvent

-- Everything a run changes. `signals` holds what each later call of `signal_check` will find
-- pending; once it is used up, nothing is pending any more.
pub record State (W : Type 0) : Type 0 where
  pub result : FsmResult
  pub env : W
  pub signals : List (List Signal)
  pub events : List HookEvent
  pub sunk : List String

-- What the bridge is asked.
pub record ChatRequest : Type 0 where
  pub provider : String
  pub model : String
  pub messages : List Message
  pub agent_id : Value

pub record ChatResponse : Type 0 where
  pub content : String
  pub total_tokens : ℕ
  pub budget : Option Vars
  pub provider_used : String
  pub model_used : String
  pub fallbacks : Value

-- A call that returns, or raises `BridgeError` or another exception.
pub data Reply {ℓ} (A : Type ℓ) : Type ℓ where
  returned : A → Reply A
  bridge_error : String → Reply A
  raised : String → Reply A

-- How a stream ends behind its last chunk.
pub data StreamEnd : Type 0 where
  complete : StreamEnd
  stream_bridge_error : String → StreamEnd
  stream_raised : String → StreamEnd

pub record SpawnSpec : Type 0 where
  pub name : String
  pub role : String
  pub occupation : String
  pub resources : Option Value
  pub config : Option Value
  pub provider_ref : String
  pub model_ref : String

-- The dict that a spawned or called agent answers.
pub record AgentReply : Type 0 where
  pub status : Option String
  pub error : Option String
  pub content : String
  pub out : Vars

-- What the interpreter is given and does not implement: the LLM bridge, the skills, the handlers
-- of the agent and the legacy tools. Each call may change the outside world `W`.
pub record Runtime (W : Type 0) : Type 0 where
  pub py : Python
  pub chat : W → ChatRequest → Reply ChatResponse × W
  pub chat_stream : W → ChatRequest → List String × StreamEnd × W
  pub resilient_chat : W → ChatRequest → (timeout : ℕ) → (fallback : Bool) → Reply ChatResponse × W
  pub call_skill : W → String → Vars → (workspace : String) → Reply Vars × W
  pub tool_execute : W → String → Vars → Reply String × W
  pub spawn : Option (W → SpawnSpec → String → Reply AgentReply × W)
  pub handoff : Option (W → String → Reply Value × W)
  pub agent_call : Option (W → String → String → Dict String String → Reply AgentReply × W)
  -- mw_home() / "memagent", with its last slash
  pub memagent : String
  pub workspace_root : String
  -- the arguments of `run`
  pub provider_ref : String
  pub model_ref : String
  pub max_iter : ℕ
  pub has_signal_check : Bool
  pub has_stream_sink : Bool
  pub has_lifecycle : Bool

module _ {W : Type 0} where
  -- A change of the result alone.
  abbrev pub on_result : State W → (FsmResult → FsmResult) → State W
  on_result st f = record st { result = f st.result }

  -- result.status = "failed"; result.end_reason = reason
  unfoldable pub fail : String → State W → State W
  fail reason st = record st {
    result = record st.result { status = failed; end_reason = some reason };
  }

  -- result.next_step_id = next
  unfoldable pub goto : Option String → State W → State W
  goto next st = record st { result = record st.result { next_step_id = next } }

  -- result.variables[name] = value
  unfoldable pub set_var : String → Value → State W → State W
  set_var name value st = record st {
    result = record st.result { variables = Dict.insert st.result.variables name value };
  }

  -- result.messages.append({"role": role, "content": content})
  unfoldable pub say : (role content : String) → State W → State W
  say role content st = record st {
    result = record st.result {
      messages = st.result.messages ++ record { role = role; content = content } ∷ [];
    };
  }

  abbrev pub set_env : W → State W → State W
  set_env w st = record st { env = w }

  -- stream_sink(delta)
  unfoldable pub sink : String → State W → State W
  sink delta st = record st { sunk = st.sunk ++ delta ∷ [] }

  -- result.content = content; result.tokens_used += tokens
  unfoldable pub set_content : String → ℕ → State W → State W
  set_content content tokens st = record st {
    result = record st.result { content = content; tokens_used = st.result.tokens_used + tokens };
  }

  -- lifecycle_mgr.publish(…)
  unfoldable pub publish : HookEvent → State W → State W
  publish e st = record st { events = st.events ++ e ∷ [] }

module _ {W : Type 0} where
  -- One call of `signal_check`: the effects of the pending signals, each published first, and
  -- whether `AgentAbort` is raised, which leaves the signals behind a kill unread.
  unfoldable pub apply_signals : List Signal → State W → Bool × State W
  unfolding publish
  apply_signals [] st = (false, st)
  apply_signals (sig ∷ rest) st =
      let heard = publish (on_signal sig st.result.variables) st in
      elim sig [
        | kill ↦ (true, heard)
        | pause ↦ apply_signals rest (on_result heard (λ r. record r { paused = true }))
        | resume ↦ apply_signals rest (on_result heard (λ r. record r { paused = false }))
        | configure new ↦
            apply_signals rest
              (on_result heard (λ r. record r { variables = Dict.update r.variables new }))
        | other type ↦ apply_signals rest heard
      ]

  -- The handler of `AgentAbort`.
  unfoldable pub abort : State W → State W
  abort st = record st {
    result = record st.result { status = aborted; end_reason = some "Interrompu par signal kill" };
  }

  unfoldable pub take_pending : List (List Signal) → State W → Bool × State W
  take_pending [] st = (false, st)
  take_pending (batch ∷ later) st = apply_signals batch (record st { signals = later })

  -- signal_check(result): whether it raises `AgentAbort`, and the state it leaves
  unfoldable pub signal_check : State W → Bool × State W
  unfolding take_pending
  signal_check st = take_pending st.signals st

  -- FSMInterpreter._check_signals
  unfoldable pub check_signals : State W → State W
  unfolding abort
  check_signals st = let (killed, st') = signal_check st in if killed then abort st' else st'
