-- ===== src/Fsm/Agents.antt =====
-- The handlers `spawn`, `handoff` and `agent_call`, which reach other agents.
use model_weaver.Base.{
  String, ◌+s◌, Bool, true, false, ◌||◌, Option, none, some, [], ◌∷◌, ◌==◌, if◌then◌else◌, text_eq,
}
use model_weaver.Base.Dict
use model_weaver.Base.Dict.{Dict}
use model_weaver.Base.Int.{pos}
use model_weaver.Fsm.Value.{Value, int, text, Vars, Python, str, nonempty, first_chars, resolve}
use model_weaver.Fsm.Step.{StepKeys}
use model_weaver.Fsm.State.{
  State, Reply, returned, bridge_error, raised, SpawnSpec, AgentReply, Runtime, fail, goto, set_var,
  say, set_env,
}
use model_weaver.Fsm.Control.{branch_on_error, default_to}
use model_weaver.Fsm.Calls.{capture_opt}

abbrev pub is_ok : Option String → Bool
is_ok none = false
is_ok (some s) = s == "ok"

abbrev pub is_ok_or_success : Option String → Bool
is_ok_or_success none = false
is_ok_or_success (some s) = s == "ok" || s == "success"

unfoldable pub resolve_texts : Python → Vars → Dict String String → Dict String String
unfolding resolve
resolve_texts py variables [] = []
resolve_texts py variables ((k, v) ∷ inputs) =
    (k, resolve py variables v) ∷ resolve_texts py variables inputs

module _ {W : Type 0} (rt : Runtime W) where
  unfoldable pub spawn_spec : StepKeys → State W → SpawnSpec
  spawn_spec step st = record {
    name = default_to step.name ("child_" +s str rt.py (int (pos st.result.iterations)));
    role = default_to step.role "spawned";
    occupation = default_to step.occupation "disparate";
    resources = step.resources;
    config = step.config;
    provider_ref = default_to step.provider_ref "";
    model_ref = default_to step.model_ref "";
  }

  unfoldable pub after_spawn :
      StepKeys → (name : String) → Reply AgentReply × W → State W → Bool × State W
  unfolding fail say goto capture_opt
  after_spawn step name (returned out, w) st =
      let st' = set_env w st in
      if is_ok out.status
      then (
        true,
        goto step.next (
            say "system" ("[spawn:" +s name +s "] " +s first_chars 500 out.content)
              (capture_opt rt step.output_capture (some (text out.content)) st')),
      )
      else (false, fail ("spawn échoué: " +s default_to out.error "None") st')
  after_spawn step name (bridge_error e, w) st = (false, fail ("spawn error: " +s e) (set_env w st))
  after_spawn step name (raised e, w) st = (false, fail ("spawn error: " +s e) (set_env w st))

  -- FSMInterpreter._step_spawn
  unfoldable pub step_spawn : StepKeys → State W → Bool × State W
  unfolding after_spawn spawn_spec
  step_spawn step st = elim rt.spawn [
    | none ↦ (false, fail "spawn_handler non configuré" st)
    | some handler ↦
        let spec = spawn_spec step st in
        after_spawn step spec.name
          (handler st.env spec (resolve rt.py st.result.variables step.request)) st
  ]

  unfoldable pub after_handoff : StepKeys → Reply Value × W → State W → Bool × State W
  unfolding fail set_var goto
  after_handoff step (returned out, w) st =
      (true, goto step.next (set_var "_handoff" out (set_env w st)))
  after_handoff step (bridge_error e, w) st = (false, fail ("handoff error: " +s e) (set_env w st))
  after_handoff step (raised e, w) st = (false, fail ("handoff error: " +s e) (set_env w st))

  -- FSMInterpreter._step_handoff
  unfoldable pub step_handoff : StepKeys → State W → Bool × State W
  unfolding after_handoff
  step_handoff step st = elim rt.handoff [
    | none ↦ (false, fail "handoff_handler non configuré" st)
    | some handler ↦ elim (nonempty step.to) [
      | none ↦ (false, fail "handoff: cible 'to' requise" st)
      | some target ↦ after_handoff step (handler st.env target) st
    ]
  ]

  -- for out_key, var_name in capture.items(): out.get(out_key, out.get("content", ""))
  unfoldable pub capture_reply : Dict String String → AgentReply → State W → State W
  unfolding set_var
  capture_reply [] out st = st
  capture_reply ((out_key, var_name) ∷ capture) out st = capture_reply capture out (
      set_var var_name (elim (Dict.lookup out.out out_key) [ none ↦ text out.content | some v ↦ v ])
        st)

  -- `step.get("on_error")` decides between the branch and a plain failure.
  unfoldable pub fail_or_branch :
      StepKeys → (branch_message fail_message : String) → State W → Bool × State W
  unfolding branch_on_error fail
  fail_or_branch step branch_message fail_message st = elim (nonempty step.on_error) [
    | some handler ↦ branch_on_error rt step branch_message st
    | none ↦ (false, fail fail_message st)
  ]

  unfoldable pub after_agent_call : StepKeys → Reply AgentReply × W → State W → Bool × State W
  unfolding fail_or_branch capture_reply goto
  after_agent_call step (returned out, w) st =
      let st' = set_env w st in
      if is_ok_or_success out.status
      then (true, goto step.next (capture_reply step.capture out st'))
      else fail_or_branch step (default_to out.error "agent_call failed")
          ("agent_call échoué: " +s default_to out.error "inconnu") st'
  after_agent_call step (bridge_error e, w) st =
      let message = "agent_call error: " +s e in fail_or_branch step message message (set_env w st)
  after_agent_call step (raised e, w) st =
      let message = "agent_call error: " +s e in fail_or_branch step message message (set_env w st)

  -- FSMInterpreter._step_agent_call
  unfoldable pub step_agent_call : StepKeys → State W → Bool × State W
  unfolding after_agent_call
  step_agent_call step st = elim rt.agent_call [
    | none ↦ (false, fail "agent_call_handler non configuré" st)
    | some handler ↦ elim (nonempty step.agent) [
      | none ↦ (false, fail "agent_call: 'agent' requis" st)
      | some name ↦
          after_agent_call step
            (handler st.env name (default_to step.entrypoint "main")
              (resolve_texts rt.py st.result.variables step.agent_inputs))
            st
    ]
  ]
