-- ===== src/Fsm/Extends/Leaves.antt =====
-- The handlers without a body extend the state that they are given.
use model_weaver.Base.{
  ℕ, String, Option, none, some, [], ◌∷◌, Bool-cases, Option-cases, inl, inr, text_eq, ◌==◌,
}
use model_weaver.Base.Dict
use model_weaver.Base.Dict.{Dict}
use model_weaver.Fsm.Value.{Value, Vars, nonempty}
use model_weaver.Fsm.Step.{StepKeys}
use model_weaver.Fsm.State.{State, Reply, returned, bridge_error, raised, Runtime}
use model_weaver.Fsm.Control
use model_weaver.Fsm.Calls
use model_weaver.Fsm.Extends.{
  Extends, Extends-keep, Extends-say, extends_rules, signal_check-Extends, more,
}

module _ {W : Type 0} (rt : Runtime W) {limit : ℕ} where
  pub branch_on_error-Extends :
      {a : State W} (s : StepKeys) (m : String) (b : State W)
      → Extends limit a b
      → Extends limit a (Control.branch_on_error rt s m b).1
  unfolding Control.branch_on_error
  branch_on_error-Extends s m b p = elim (Option-cases (nonempty s.on_error)) [
    | inl missing ↦ rw (missing, Control.branch_on_error) (search extends_rules)
    | inr (handler, found) ↦ rw (found, Control.branch_on_error) (search extends_rules)
  ]

  pub step_switch-Extends :
      (s : StepKeys) (st : State W) → Extends limit st (Control.step_switch rt s st).1
  unfolding Control.step_switch
  step_switch-Extends s st = search extends_rules

  pub step_set_variable-Extends :
      (s : StepKeys) (st : State W) → Extends limit st (Control.step_set_variable rt s st).1
  unfolding Control.step_set_variable
  step_set_variable-Extends s st = search extends_rules

  pub capture_all-Extends :
      {a : State W} (capture : Dict String String) (out : Vars) (b : State W)
      → Extends limit a b
      → Extends limit a (Calls.capture_all capture out b)
  unfolding Calls.capture_all
  capture_all-Extends [] out b p = p
  capture_all-Extends ((k, n) ∷ capture) out b p = elim (Option-cases (Dict.lookup out k)) [
    | inl missing ↦ rw missing (capture_all-Extends capture out _ p)
    | inr (v, found) ↦ rw found (capture_all-Extends capture out _ (search extends_rules))
  ]

  after_skill-Extends :
      {a : State W} (s : StepKeys) (out : Vars) (err : Option String) (b : State W)
      → Extends limit a b
      → Extends limit a (Calls.after_skill rt s out err b).1
  unfolding Calls.after_skill
  after_skill-Extends s out none b p = search (extends_rules, capture_all-Extends) depth 9
  after_skill-Extends s out (some err) b p = elim (Option-cases (nonempty s.on_error)) [
    | inl missing ↦
        rw (missing, Calls.after_skill) (search (extends_rules, capture_all-Extends) depth 9)
    | inr (handler, found) ↦
        rw (found, Calls.after_skill) (search (extends_rules, capture_all-Extends) depth 9)
  ]

  after_call-Extends :
      {a : State W} (s : StepKeys) (reply : Reply Vars × W) (b : State W)
      → Extends limit a b
      → Extends limit a (Calls.after_call rt s reply b).1
  unfolding Calls.after_call
  after_call-Extends s (returned out, w) b p = after_skill-Extends s out _ _ (search extends_rules)
  after_call-Extends s (bridge_error e, w) b p = search extends_rules
  after_call-Extends s (raised e, w) b p = search extends_rules

  pub step_call-Extends :
      (s : StepKeys) (st : State W) → Extends limit st (Calls.step_call rt s st).1
  unfolding Calls.step_call
  step_call-Extends s st = elim (Bool-cases (s.fn == "")) [
    | inl missing ↦ rw (missing, Calls.step_call) (search extends_rules)
    | inr given ↦ rw (given, Calls.step_call) (after_call-Extends s _ st (search extends_rules))
  ]

  pub capture_opt-Extends :
      {a : State W} (name : Option String) (v : Option Value) (b : State W)
      → Extends limit a b
      → Extends limit a (Calls.capture_opt rt name v b)
  unfolding Calls.capture_opt
  capture_opt-Extends (some name) (some v) b p = elim (Bool-cases (name == "")) [
    | inl empty ↦ rw (empty, Calls.capture_opt) p
    | inr given ↦ rw (given, Calls.capture_opt) (search extends_rules)
  ]
  capture_opt-Extends (some name) none b p = p
  capture_opt-Extends none v b p = p

  pub ruleset leaf_rules = (extends_rules, capture_all-Extends, capture_opt-Extends)

  after_tool_skill-Extends :
      {a : State W} (s : StepKeys) (skill : String) (reply : Reply Vars × W) (b : State W)
      → Extends limit a b
      → Extends limit a (Calls.after_tool_skill rt s skill reply b).1
  unfolding Calls.after_tool_skill
  after_tool_skill-Extends s skill (returned out, w) b p = search leaf_rules depth 7
  after_tool_skill-Extends s skill (bridge_error e, w) b p = search leaf_rules
  after_tool_skill-Extends s skill (raised e, w) b p = search leaf_rules

  after_tool-Extends :
      {a : State W} (s : StepKeys) (reply : Reply String × W) (b : State W)
      → Extends limit a b
      → Extends limit a (Calls.after_tool rt s reply b).1
  unfolding Calls.after_tool
  after_tool-Extends s (returned out, w) b p = search leaf_rules depth 7
  after_tool-Extends s (bridge_error e, w) b p = search leaf_rules
  after_tool-Extends s (raised e, w) b p = search leaf_rules

  pub step_tool_call-Extends :
      (s : StepKeys) (st : State W) → Extends limit st (Calls.step_tool_call rt s st).1
  unfolding Calls.step_tool_call
  step_tool_call-Extends s st = elim (Option-cases (Calls.tool_to_skill rt s.tool)) [
    | inl legacy ↦
        rw (legacy, Calls.step_tool_call) (after_tool-Extends s _ st (search extends_rules))
    | inr ((skill, names), mapped) ↦
        rw (mapped, Calls.step_tool_call)
          (after_tool_skill-Extends s skill _ st (search extends_rules))
  ]
