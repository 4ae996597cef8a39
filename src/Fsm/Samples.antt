-- ===== src/Fsm/Samples.antt =====
-- A small workflow in a world without other agents, and the theorems at it.
use model_weaver.Base.{
  arith, ℕ, ◌≤◌, String, true, false, Option, none, some, List, [], ◌∷◌, ◌++◌, ◌≡◌, refl, text_eq,
}
use model_weaver.Base.Dict
use model_weaver.Base.Int.{pos}
use model_weaver.Fsm.Control
use model_weaver.Fsm.Loops
use model_weaver.Fsm.Llm
use model_weaver.Fsm.State
use model_weaver.Fsm.Run
use model_weaver.Fsm.Value
use model_weaver.Fsm.Value.{Value, text, int, bool, Vars, Python}
use model_weaver.Fsm.Step.{StepKeys, step, Body, Steps}
use model_weaver.Fsm.State.{
  Status, running, success, failed, post_step, post_exec, Message, Signal, kill, State, returned,
  complete, Runtime,
}
use model_weaver.Fsm.Run.{run, start}
use model_weaver.Fsm.Extends.Runs.{run_bounds}
use model_weaver.Fsm.Returns
use model_weaver.Fsm.Returns.{whiles_start}
use model_weaver.Fsm.Returns.Runs.{run_returns}

abbrev pub plain_python : Python
plain_python = record {
  repr = λ v. "?";
  same = λ v w. false;
  lower = λ s. s;
  float_lt = λ s t. none;
  int_of = λ v. none;
  strip_braces = λ s. s;
  dumps = λ out. "{}";
  strip_code_fences = λ s. s;
}

-- A world that is not changed: the LLM answers "hello", and every skill answers nothing.
abbrev pub quiet : Runtime Unit
quiet = record {
  py = plain_python;
  chat = λ w r. (
    returned (record {
      content = "hello";
      total_tokens = 2;
      budget = none;
      provider_used = "p";
      model_used = "m";
      fallbacks = int (pos 0);
    }),
    w,
  );
  chat_stream = λ w r. ([], complete, w);
  resilient_chat = λ w r t f. (
    returned (record {
      content = "hello";
      total_tokens = 2;
      budget = none;
      provider_used = "p";
      model_used = "m";
      fallbacks = int (pos 0);
    }),
    w,
  );
  call_skill = λ w fn inputs ws. (returned [], w);
  tool_execute = λ w tool args. (returned "", w);
  spawn = none;
  handoff = none;
  agent_call = none;
  memagent = "/home/memagent/";
  workspace_root = "/tmp";
  provider_ref = "p";
  model_ref = "m";
  max_iter = 10;
  has_signal_check = true;
  has_stream_sink = false;
  has_lifecycle = true;
}

-- A step with no key but its id, its type and its successor.
abbrev pub bare : (id type : String) → Option String → StepKeys
bare id type next = record {
  id = id;
  type = type;
  next = next;
  default = none;
  conditions = [];
  on_error = none;
  skill_prompt = "";
  output_capture = none;
  provider_ref = none;
  model_ref = none;
  timeout = none;
  fallback = false;
  strip_fences = false;
  fn = "";
  inputs = [];
  capture = [];
  tool = "";
  args = [];
  agent = none;
  entrypoint = none;
  agent_inputs = [];
  variable = "";
  condition = none;
  duration_seconds = none;
  status = none;
  name = none;
  value = "";
  role = none;
  occupation = none;
  request = "";
  resources = none;
  config = none;
  to = none;
  var = none;
  items = none;
  start = none;
  end = none;
  stride = none;
}

abbrev pub set_x : String → (value : String) → Option String → StepKeys
set_x id value next = record (bare id "set_variable" next) { name = some "x"; value = value }

-- x = "go"; while x == "go": { ask; x = "stop" }; end
abbrev pub loop_once : Steps
loop_once = Steps.cons (step (set_x "a" "go" (some "w")) Body.no_body) (
    Steps.cons
      (step
        (record (bare "w" "while" (some "z")) {
          condition =
              some
                (record { variable = "x"; operator = none; value = some (text "go"); next = none });
        })
        (Body.wrapped (
          Steps.cons (step (bare "b" "llm_call" (some "c")) Body.no_body)
            (Steps.cons (step (set_x "c" "stop" none) Body.no_body) Steps.nil))))
      (Steps.cons (step (bare "z" "end" none) Body.no_body) Steps.nil))

abbrev pub greeting : List Message
greeting = record { role = "user"; content = "hi" } ∷ []

abbrev pub loop_once_end : Option (State Unit)
loop_once_end = run quiet 12 loop_once greeting [] none tt []

abbrev pub seen : Option (State Unit) → Option (Status × ℕ × ℕ)
seen none = none
seen (some st) = some (st.result.status, st.result.iterations, st.result.tokens_used)

abbrev pub loop_once_final : State Unit
loop_once_final = record {
  result = record {
    status = success;
    content = "hello";
    variables = ("x", text "stop") ∷ [];
    messages = greeting ++ record { role = "assistant"; content = "hello" } ∷ [];
    next_step_id = none;
    sleep_seconds = none;
    end_reason = some "SUCCESS";
    iterations = 5;
    tokens_used = 2;
    budget = [];
    paused = false;
    loop_ctl = none;
  };
  env = tt;
  signals = [];
  events =
      post_step "a" running (("x", text "go") ∷ [])
      ∷ post_step "b" running (("x", text "go") ∷ [])
      ∷ post_step "c" running (("x", text "stop") ∷ [])
      ∷ post_step "w" running (("x", text "stop") ∷ [])
      ∷ post_exec success (("x", text "stop") ∷ [])
      ∷ [];
  sunk = [];
}

run-loop_once : run quiet 12 loop_once greeting [] none tt [] ≡ some loop_once_final
unfolding run Run.main_round State.signal_check Dict.lookup Dict.insert Run.handler_of
    Control.step_set_variable Loops.step_while Value.resolve Loops.run_body Loops.body_turn
    Llm.step_llm_call Control.step_end
run-loop_once = refl

run_bounds_example :
    (5 ≤ 10) × ((rest : List Message) × (loop_once_final.result.messages ≡ greeting ++ rest))
run_bounds_example =
    run_bounds quiet 12 loop_once greeting [] none tt [] loop_once_final run-loop_once

abbrev deaf : Runtime Unit
deaf = record quiet { has_signal_check = false }

loop_once-starts : whiles_start loop_once ≡ true
unfolding Returns.whiles_start
loop_once-starts = refl

run_returns_example : (st : State Unit) × (run deaf 12 loop_once greeting [] none tt [] ≡ some st)
run_returns_example =
    run_returns deaf 12 loop_once greeting [] none tt [] refl (omega arith) loop_once-starts
