-- ===== src/Fsm/Extends/Handlers.antt =====
-- What a handler has to keep, and that the handlers without a body keep it.
use model_weaver.Base.{
  ℕ, String, Bool, true, false, Option, none, some, List, [], ◌∷◌, ◌≡◌, refl, if◌then◌else◌, ◌==◌,
  text_eq, subst, ap, ◌∙◌,
}
use model_weaver.Base.Dict
use model_weaver.Base.Dict.{Dict, insert-AllValues}
use model_weaver.Fsm.Step.{StepKeys}
use model_weaver.Fsm.State.{State, Runtime}
use model_weaver.Fsm.Control
use model_weaver.Fsm.Calls.{step_call, step_tool_call}
use model_weaver.Fsm.Llm.{step_llm_call}
use model_weaver.Fsm.Agents.{step_spawn, step_handoff, step_agent_call}
use model_weaver.Fsm.Graph.{Compiled, by_id}
use model_weaver.Fsm.Run.{simple_handler}
use model_weaver.Fsm.Extends.{Extends, Extends-refl, Extends-keep}
use model_weaver.Fsm.Extends.Leaves.{
  step_switch-Extends, step_set_variable-Extends, step_call-Extends, step_tool_call-Extends,
}
use model_weaver.Fsm.Extends.Calling.{
  step_llm_call-Extends, step_spawn-Extends, step_handoff-Extends, step_agent_call-Extends,
}

-- Whatever the handler answers extends the state that it was given.
pub record Keeps {W : Type 0} (limit : ℕ) (h : State W → Option (Bool × State W)) : Type 0 where
  pub at : (st : State W) (out : Bool × State W) → h st ≡ some out → Extends limit st out.1

-- The same for a handler that may be missing.
pub record KeepsOpt {W : Type 0} (limit : ℕ) (o : Option (State W → Option (Bool × State W)))
    : Type 0 where
  pub each :
      (h : State W → Option (Bool × State W)) (st : State W) (out : Bool × State W)
      → o ≡ some h
      → h st ≡ some out
      → Extends limit st out.1

abbrev pub CompiledKeeps : {W : Type 0} → (limit : ℕ) → Compiled W → Type 0
CompiledKeeps limit c = KeepsOpt limit c.handler

-- The property of every step.
abbrev pub AllOf : {W : Type 0} → (P : Compiled W → Type 0) → List (Compiled W) → Type 0
AllOf P [] = Unit
AllOf P (c ∷ cs) = P c × AllOf P cs

abbrev pub AllKeep : {W : Type 0} → (limit : ℕ) → List (Compiled W) → Type 0
AllKeep limit = AllOf (CompiledKeeps limit)

pub by_id-AllValues :
    {W : Type 0} (P : Compiled W → Type 0) (cs : List (Compiled W)) (d : Dict String (Compiled W))
    → AllOf P cs
    → Dict.AllValues P d
    → Dict.AllValues P (by_id cs d)
unfolding by_id
by_id-AllValues P [] d h k = k
by_id-AllValues P (c ∷ cs) d h k =
    by_id-AllValues P cs _ h.1 (insert-AllValues P d c.keys.id c k h.0)

module _ {W : Type 0} (limit : ℕ) where
  pub KeepsOpt-if :
      (b : Bool) (x y : Option (State W → Option (Bool × State W)))
      → KeepsOpt limit x
      → KeepsOpt limit y
      → KeepsOpt limit (if b then x else y)
  KeepsOpt-if true x y p q = p
  KeepsOpt-if false x y p q = q

  pub KeepsOpt-none : KeepsOpt {W = W} limit none
  KeepsOpt-none = record { each = λ h st out e f. cc }

  pub KeepsOpt-some :
      (h : State W → Option (Bool × State W)) → Keeps limit h → KeepsOpt limit (some h)
  KeepsOpt-some h k = record {
    each = λ h' st out e f.
        let q : h ≡ h' = cc in
        k.at st out (ap (λ (g : State W → Option (Bool × State W)). g st) q ∙ f);
  }

  -- A handler that always answers.
  KeepsOpt-total :
      (h : State W → Bool × State W)
      → ((st : State W) → Extends limit st (h st).1)
      → KeepsOpt limit (some (λ st. some (h st)))
  KeepsOpt-total h p = KeepsOpt-some _ (record {
    at = λ st out e.
        let q : h st ≡ out = cc in subst (λ (o : Bool × State W). Extends limit st o.1) q (p st);
  })

module _ {W : Type 0} (rt : Runtime W) (limit : ℕ) where
  own_state-Extends :
      (st b : State W)
      → b.result.iterations ≡ st.result.iterations
      → b.result.messages ≡ st.result.messages
      → b.events ≡ st.events
      → Extends limit st b
  own_state-Extends st b i m e = Extends-keep b i m e (Extends-refl st)

  pub simple_handler-Keeps : (fuel : ℕ) (s : StepKeys) → KeepsOpt limit (simple_handler rt fuel s)
  unfolding simple_handler Control.step_sleep Control.step_end Control.step_break
      Control.step_continue
  simple_handler-Keeps fuel s =
      (KeepsOpt-if limit (s.type == "llm_call") (some (λ st. some (step_llm_call rt s st))) _
        (KeepsOpt-total limit (step_llm_call rt s) (step_llm_call-Extends rt s))
        (KeepsOpt-if limit (s.type == "call") (some (λ st. some (step_call rt s st))) _
          (KeepsOpt-total limit (step_call rt s) (step_call-Extends rt s))
          (KeepsOpt-if limit (s.type == "tool_call") (some (λ st. some (step_tool_call rt s st))) _
            (KeepsOpt-total limit (step_tool_call rt s) (step_tool_call-Extends rt s))
            (KeepsOpt-if limit (s.type == "switch")
              (some (λ st. some (Control.step_switch rt s st))) _
              (KeepsOpt-total limit (Control.step_switch rt s) (step_switch-Extends rt s))
              (KeepsOpt-if limit (s.type == "sleep") (some (λ st. some (Control.step_sleep s st))) _
                (KeepsOpt-total limit (Control.step_sleep s)
                  (λ st. own_state-Extends st _ refl refl refl))
                (KeepsOpt-if limit (s.type == "end") (some (λ st. some (Control.step_end s st))) _
                  (KeepsOpt-total limit (Control.step_end s)
                    (λ st. own_state-Extends st _ refl refl refl))
                  (KeepsOpt-if limit (s.type == "set_variable")
                    (some (λ st. some (Control.step_set_variable rt s st))) _
                    (KeepsOpt-total limit (Control.step_set_variable rt s)
                      (step_set_variable-Extends rt s))
                    (KeepsOpt-if limit (s.type == "spawn") (some (λ st. some (step_spawn rt s st)))
                      _ (KeepsOpt-total limit (step_spawn rt s) (step_spawn-Extends rt s))
                      (KeepsOpt-if limit (s.type == "handoff")
                        (some (λ st. some (step_handoff rt s st))) _
                        (KeepsOpt-total limit (step_handoff rt s) (step_handoff-Extends rt s))
                        (KeepsOpt-if limit (s.type == "agent_call")
                          (some (λ st. some (step_agent_call rt s st))) _
                          (KeepsOpt-total limit (step_agent_call rt s)
                            (step_agent_call-Extends rt s))
                          (KeepsOpt-if limit (s.type == "break")
                            (some (λ st. some (Control.step_break s st))) _
                            (KeepsOpt-total limit (Control.step_break s)
                              (λ st. own_state-Extends st _ refl refl refl))
                            (KeepsOpt-if limit (s.type == "continue")
                              (some (λ st. some (Control.step_continue s st))) _
                              (KeepsOpt-total limit (Control.step_continue s)
                                (λ st. own_state-Extends st _ refl refl refl))
                              (KeepsOpt-none limit)))))))))))))
