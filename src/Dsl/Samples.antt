-- ===== src/Dsl/Samples.antt =====
-- A workflow of the executor that saves its state, and the theorems at it.
use model_weaver.Base.{
  ◌⊎◌, ◌≤◌, String, false, ◌||◌, none, some, List, [], ◌∷◌, ◌≡◌, arith, contains, if◌then◌else◌,
  text_eq,
}
use model_weaver.Base.Dict
use model_weaver.Fsm.Value.{text, Vars}
use model_weaver.Fsm.Samples.{plain_python, bare, set_x, greeting}
use model_weaver.Fsm.Step.{StepKeys}
use model_weaver.Dsl.{DslStep, value, error, done, Hooks, Handled}
use model_weaver.Dsl.Pipeline.{concat, FirstChanged, Passed, concat_lem}
use model_weaver.Dsl.Steps.{saved_state}
use model_weaver.Dsl.Run.{dsl_run}
use model_weaver.Dsl.Counts.{handled_state}
use model_weaver.Dsl.Bounds.{dsl_run_ends}
use model_weaver.Dsl.Saves.{lookup-saved_state}

-- Hooks that keep what was saved last.
abbrev saving : Hooks Vars
saving = record {
  py = plain_python;
  llm_call = none;
  tool_call = none;
  save_state = some (λ w state. (value done, state));
  signal_successor = none;
  connect = none;
  extract_context = λ w step messages variables. (value (messages, variables), w);
  call_function = λ w step messages variables. (error "unknown", w);
}

abbrev plain_step : StepKeys → DslStep
plain_step keys = record {
  keys = keys;
  successor = none;
  successor_role = none;
  successor_config = none;
  reason = none;
  set_value = text "";
  saved = [];
  channel = "";
  target = none;
  position = none;
  strategy = none;
  max_tokens = none;
}

-- x = "go"; save; end
abbrev saves_x : List DslStep
saves_x =
    plain_step (set_x "a" "go" (some "b"))
    ∷ plain_step (bare "b" "save_state" (some "c"))
    ∷ plain_step (bare "c" "end" none)
    ∷ []

dsl_run_ends_example :
    (out : Handled Vars) × (dsl_run saving 100 101 saves_x greeting [] none [] ≡ some out)
    × ((handled_state out).result.iterations ≤ 100)
dsl_run_ends_example = dsl_run_ends saving 100 101 saves_x greeting [] none [] (omega arith)

abbrev two_vars : Vars
two_vars = ("x", text "1") ∷ ("y", text "2") ∷ []

lookup-saved_state_example :
    Dict.lookup (saved_state ("y" ∷ []) two_vars) "y"
    ≡ (if false || contains {A = String} ("y" ∷ []) "y" then Dict.lookup two_vars "y" else none)
lookup-saved_state_example = lookup-saved_state ("y" ∷ []) two_vars "y"

concat_lem_example :
    FirstChanged "before" "user" "note" greeting (concat "before" "user" "note" greeting)
    ⊎ (Passed "user" greeting × (concat "before" "user" "note" greeting ≡ greeting))
concat_lem_example = concat_lem "before" "user" "note" greeting
