-- ===== src/Fsm/Calls.antt =====
-- The handlers `call` and `tool_call`: skills, and the legacy tools.
use model_weaver.Base.{
  String, ◌+s◌, Bool, true, false, not, ◌||◌, Option, none, some, List, [], ◌∷◌, nat_beq, ◌==◌,
  if◌then◌else◌, text_eq,
}
use model_weaver.Base.Dict
use model_weaver.Base.Dict.{Dict}
use model_weaver.Base.Int.{pos, negsuc}
use model_weaver.Fsm.Value.{
  Value, null, bool, int, text, Vars, Python, truthy, str, get_or_empty, nonempty, first_chars,
  resolve,
}
use model_weaver.Fsm.Step.{StepKeys}
use model_weaver.Fsm.State.{
  State, Runtime, Reply, returned, bridge_error, raised, fail, goto, set_var, say, set_env,
}

-- self._resolve(v, result.variables) if isinstance(v, str) else v
unfoldable pub resolve_value : Python → Vars → Value → Value
unfolding resolve
resolve_value py variables (text s) = text (resolve py variables s)
resolve_value py variables v = v

unfoldable pub resolve_all : Python → Vars → Vars → Vars
unfolding resolve_value
resolve_all py variables [] = []
resolve_all py variables ((k, v) ∷ inputs) =
    (k, resolve_value py variables v) ∷ resolve_all py variables inputs

-- The agent's own id is forced on the inputs of a skill.
unfoldable pub own_identity : Python → (agent_id : Value) → Vars → Vars
own_identity py agent_id inputs =
    if truthy agent_id
    then elim (Dict.lookup inputs "agent_id") [
      | some given ↦
          if py.same given agent_id then inputs else Dict.insert inputs "agent_id" agent_id
      | none ↦ Dict.insert inputs "agent_id" agent_id
    ]
    else inputs

-- ws
unfoldable pub workspace : {W : Type 0} → Runtime W → (agent_id : Value) → String
unfolding truthy str
workspace rt agent_id =
    if truthy agent_id then rt.memagent +s str rt.py agent_id else rt.workspace_root

abbrev pub is_false : Option Value → Bool
is_false (some (bool false)) = true
is_false _ = false

-- d.get(k) of a missing key is None
abbrev pub or_null : Option Value → Value
or_null none = null
or_null (some v) = v

-- a or b
abbrev pub or_value : Value → Value → Value
or_value a b = if truthy a then a else b

abbrev pub is_error_status : Option Value → Bool
is_error_status (some (text s)) = s == "error" || s == "failed" || s == "FAILED"
is_error_status _ = false

-- isinstance(v, int) and v != 0, where a Boolean is an integer
abbrev pub is_nonzero : Option Value → Bool
is_nonzero (some (int (pos n))) = not (nat_beq n 0)
is_nonzero (some (int (negsuc n))) = true
is_nonzero (some (bool b)) = b
is_nonzero _ = false

-- FSMInterpreter._skill_outcome: nothing, or the error of a failed skill. Error texts that are
-- no texts are printed before "CONFLIT" is put in front.
unfoldable pub skill_outcome : Python → Vars → Option String
unfolding truthy str
skill_outcome py out =
    let at = λ (k : String). Dict.lookup out k in
    if is_false (at "ok")
    then (let err =
          str py (or_value (or_null (at "stderr")) (or_value (or_null (at "error")) (text ""))) in
        if truthy (or_null (at "conflict")) then some ("CONFLIT DE MERGE — " +s err) else some err)
    else if is_error_status (at "status")
    then some
        (str py (or_value (or_null (at "error")) (or_value (or_null (at "message")) (text ""))))
    else if is_nonzero (at "exit_code")
    then some (str py (or_value (or_null (at "stderr")) (text "")))
    else none

module _ {W : Type 0} where
  -- for out_key, var_name in capture.items(): …
  unfoldable pub capture_all : Dict String String → (out : Vars) → State W → State W
  unfolding set_var
  capture_all [] out st = st
  capture_all ((out_key, var_name) ∷ capture) out st =
      capture_all capture out
        (elim (Dict.lookup out out_key) [ some v ↦ set_var var_name v st | none ↦ st ])

module _ {W : Type 0} (rt : Runtime W) where
  abbrev pub own_id : State W → Value
  own_id st = get_or_empty st.result.variables "agent_id"

  -- The tail of `_step_call` behind the skill's answer.
  unfoldable pub after_skill : StepKeys → (out : Vars) → Option String → State W → Bool × State W
  unfolding capture_all set_var say goto fail first_chars
  after_skill step out none st = (
    true,
    goto step.next (
        say "system" ("[" +s step.fn +s "] " +s first_chars 500 (rt.py.dumps out))
          (capture_all step.capture out (set_var "_last_call_ok" (bool true) st))),
  )
  after_skill step out (some err) st =
      let st' = say "system" ("[call:" +s step.fn +s "] ÉCHEC: " +s first_chars 300 err) (
        say "system" ("[" +s step.fn +s "] " +s first_chars 500 (rt.py.dumps out)) (
          capture_all step.capture out
            (set_var "_last_call_error" (text err) (set_var "_last_call_ok" (bool false) st)))) in
      elim (nonempty step.on_error) [
        | some handler ↦ (true, goto (some handler) st')
        | none ↦ (
          false,
          goto step.next (fail ("call " +s step.fn +s " a échoué: " +s first_chars 200 err) st'),
        )
      ]

  -- What is handed to `call_skill`.
  unfoldable pub skill_inputs : Vars → State W → Vars
  unfolding own_identity get_or_empty
  skill_inputs inputs st = own_identity rt.py (own_id st) inputs

  unfoldable pub after_call : StepKeys → Reply Vars × W → State W → Bool × State W
  unfolding after_skill skill_outcome
  after_call step (returned out, w) st =
      after_skill step out (skill_outcome rt.py out) (set_env w st)
  after_call step (bridge_error e, w) st =
      (false, fail ("call " +s step.fn +s ": " +s e) (set_env w st))
  after_call step (raised e, w) st = (false, fail ("call " +s step.fn +s ": " +s e) (set_env w st))

  -- FSMInterpreter._step_call
  unfoldable pub step_call : StepKeys → State W → Bool × State W
  unfolding after_call skill_inputs resolve_all workspace
  step_call step st =
      if step.fn == ""
      then (false, fail "call: 'fn' requis" st)
      else after_call step
          (rt.call_skill st.env step.fn
            (skill_inputs (resolve_all rt.py st.result.variables step.inputs) st)
            (workspace rt (own_id st)))
          st

  -- The skill of a legacy tool, and the arguments that it takes over.
  unfoldable pub tool_to_skill : String → Option (String × List String)
  tool_to_skill tool =
      if tool == "read_file"
      then some ("system/read_file@v1", "path" ∷ [])
      else if tool == "write_file"
      then some ("system/write_file@v1", "path" ∷ "content" ∷ [])
      else if tool == "run_shell"
      then some ("system/run_shell@v1", "command" ∷ [])
      else none

  unfoldable pub pick : List String → Vars → Vars
  pick [] args = []
  pick (k ∷ ks) args = elim (Dict.lookup args k) [
    | some v ↦ (k, v) ∷ pick ks args
    | none ↦ pick ks args
  ]

  abbrev shown : Vars → String → (default : String) → String
  shown out k default = elim (Dict.lookup out k) [ none ↦ default | some v ↦ str rt.py v ]

  -- What `output_capture` receives from a tool's skill.
  unfoldable pub tool_output : (tool : String) → (out : Vars) → Option Value
  tool_output tool out =
      if tool == "read_file"
      then Dict.lookup out "content"
      else if tool == "run_shell"
      then some (
          text (
            "stdout:\n"
            +s shown out "stdout" ""
            +s "\nstderr:\n"
            +s shown out "stderr" ""
            +s "\nexit_code: "
            +s shown out "exit_code" "-1"))
      else if tool == "write_file"
      then Dict.lookup out "result"
      else none

  unfoldable pub capture_opt : Option String → Option Value → State W → State W
  capture_opt (some name) (some v) st = if name == "" then st else set_var name v st
  capture_opt (some name) none st = st
  capture_opt none v st = st

  unfoldable pub after_tool_skill :
      StepKeys → (skill : String) → Reply Vars × W → State W → Bool × State W
  unfolding capture_opt tool_output
  after_tool_skill step skill (returned out, w) st = (
    true,
    goto step.next (
        say "system"
          ("[" +s step.tool +s "->" +s skill +s "] " +s first_chars 500 (rt.py.dumps out))
          (capture_opt step.output_capture (tool_output step.tool out) (set_env w st))),
  )
  after_tool_skill step skill (bridge_error e, w) st =
      (false, fail ("Tool->skill error: " +s e) (set_env w st))
  after_tool_skill step skill (raised e, w) st =
      (false, fail ("Tool->skill error: " +s e) (set_env w st))

  unfoldable pub after_tool : StepKeys → Reply String × W → State W → Bool × State W
  unfolding capture_opt
  after_tool step (returned output, w) st = (
    true,
    goto step.next (
        say "system" ("[" +s step.tool +s "] " +s first_chars 500 output)
          (capture_opt step.output_capture (some (text output)) (set_env w st))),
  )
  after_tool step (bridge_error e, w) st = (false, fail ("Tool error: " +s e) (set_env w st))
  after_tool step (raised e, w) st = (false, fail ("Tool error: " +s e) (set_env w st))

  -- FSMInterpreter._step_tool_call
  unfoldable pub step_tool_call : StepKeys → State W → Bool × State W
  unfolding after_tool_skill after_tool tool_to_skill pick skill_inputs resolve_all workspace
  step_tool_call step st =
      let args = resolve_all rt.py st.result.variables step.args in
      elim (tool_to_skill step.tool) [
        | some (skill, names) ↦
            after_tool_skill step skill
              (rt.call_skill st.env skill (skill_inputs (pick names args) st)
                (workspace rt (own_id st)))
              st
        | none ↦ after_tool step (rt.tool_execute st.env step.tool args) st
      ]
