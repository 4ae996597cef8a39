-- ===== src/Fsm/Control.antt =====
-- The handlers that only steer: switch, sleep, end, set_variable, break, continue, conditions, and
-- the common treatment of errors.
use package.text.Mathlib.Text.{find?}
use model_weaver.Base.{
  String, Bool, true, false, not, ◌&&◌, ◌||◌, Option, none, some, List, [], ◌∷◌, ◌==◌,
  if◌then◌else◌, text_eq,
}
use model_weaver.Fsm.Value.{
  Value, bool, text, Vars, Python, truthy, str, get_or_empty, nonempty, resolve,
}
use model_weaver.Fsm.Step.{Cond, StepKeys}
use model_weaver.Fsm.State.{
  success, failed, sleeping, break, continue, State, Runtime, on_result, fail, goto, set_var,
}

-- t in s
unfoldable pub has_text : (s t : String) → Bool
has_text s t = elim (find? s t) [ none ↦ false | some i ↦ true ]

abbrev or_false : Option Bool → Bool
or_false none = false
or_false (some b) = b

abbrev pub default_to : Option String → String → String
default_to none d = d
default_to (some s) d = s

-- str(cond.get("value", ""))
abbrev pub cond_value : Python → Cond → String
cond_value py c = elim c.value [ none ↦ "" | some v ↦ str py v ]

-- The comparisons that `switch` and the conditions of loops share.
unfoldable pub compare_by : Python → (operator var_value value : String) → Bool
unfolding has_text
compare_by py operator var_value value =
    if operator == "EQUALS"
    then var_value == value
    else if operator == "NOT_EQUALS"
    then not (var_value == value)
    else if operator == "CONTAINS"
    then has_text var_value value
    else if operator == "GREATER"
    then or_false (py.float_lt value var_value)
    else if operator == "LESS"
    then or_false (py.float_lt var_value value)
    else false

-- The loop of `switch` over its conditions: the target of the first that holds.
unfoldable pub select_branch :
    Python → (var_value : String) → List Cond → (default : Option String) → Option String
unfolding compare_by
select_branch py var_value [] default = default
select_branch py var_value (c ∷ rest) default =
    if compare_by py (default_to c.operator "EQUALS") var_value (cond_value py c)
    then c.next
    else select_branch py var_value rest default

-- bool(raw) and str(raw).lower() not in ("false", "0", "")
abbrev pub is_truthy_text : Python → Value → Bool
is_truthy_text py raw =
    let low = py.lower (str py raw) in truthy raw && not (low == "false" || low == "0" || low == "")

-- FSMInterpreter._eval_condition
unfoldable pub eval_condition : Python → Option Cond → Vars → Bool
unfolding compare_by get_or_empty
eval_condition py none variables = false
eval_condition py (some c) variables =
    let raw = get_or_empty variables c.variable in
    let operator = default_to c.operator (elim c.value [ none ↦ "TRUTHY" | some v ↦ "EQUALS" ]) in
    if operator == "TRUTHY"
    then is_truthy_text py raw
    else compare_by py operator (str py raw) (cond_value py c)

module _ {W : Type 0} (rt : Runtime W) where
  -- FSMInterpreter._branch_on_error
  unfoldable pub branch_on_error : StepKeys → String → State W → Bool × State W
  unfolding set_var goto fail
  branch_on_error step msg st =
      let st' = set_var "_last_call_ok" (bool false) (set_var "_last_error" (text msg) st) in
      elim (nonempty step.on_error) [
        | some handler ↦ (true, goto (some handler) st')
        | none ↦ (false, fail msg st')
      ]

  -- FSMInterpreter._step_switch
  unfoldable pub step_switch : StepKeys → State W → Bool × State W
  unfolding select_branch goto get_or_empty
  step_switch step st =
      let var_value = str rt.py (get_or_empty st.result.variables step.variable) in
      (true, goto (select_branch rt.py var_value step.conditions step.default) st)

  -- FSMInterpreter._step_set_variable
  unfoldable pub step_set_variable : StepKeys → State W → Bool × State W
  unfolding set_var goto
  step_set_variable step st = (
    true,
    goto step.next (
        set_var (default_to step.name "") (text (resolve rt.py st.result.variables step.value)) st),
  )

module _ {W : Type 0} where
  -- FSMInterpreter._step_sleep
  unfoldable pub step_sleep : StepKeys → State W → Bool × State W
  step_sleep step st = (
    false,
    on_result st (λ result. record result {
      sleep_seconds = some (elim step.duration_seconds [ none ↦ 60 | some n ↦ n ]);
      status = sleeping;
      next_step_id = step.next;
    }),
  )

  -- FSMInterpreter._step_end
  unfoldable pub step_end : StepKeys → State W → Bool × State W
  step_end step st =
      let end_status = default_to step.status "SUCCESS" in
      (
        false,
        on_result st (λ result. record result {
          status = if end_status == "SUCCESS" then success else failed;
          end_reason = some end_status;
        }),
      )

  -- FSMInterpreter._step_break
  unfoldable pub step_break : StepKeys → State W → Bool × State W
  step_break step st = (false, on_result st (λ result. record result { loop_ctl = some break }))

  -- FSMInterpreter._step_continue
  unfoldable pub step_continue : StepKeys → State W → Bool × State W
  step_continue step st =
      (false, on_result st (λ result. record result { loop_ctl = some continue }))
