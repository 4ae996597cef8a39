-- ===== src/Dsl/Counts.antt =====
-- The handlers of the executor count no iteration.
use model_weaver.Base.{
  ℕ, String, Bool, true, false, Option, none, some, List, ◌≡◌, refl, ◌==◌, if◌then◌else◌, text_eq,
  Option-cases, inl, inr, ap, sym, ◌∙◌,
}
use model_weaver.Fsm.Value.{Value, Vars, nonempty}
use model_weaver.Fsm.State.{Message}
use model_weaver.Dsl.{
  DslStep, Attempt, value, error, Done, Hooks, Workflow, Handled, answered, escaped, to_next,
  fail_workflow, assign, append_message, WorkflowResult,
}
use model_weaver.Dsl.Steps.{
  after_hook, after_text, after_pipeline, dsl_llm_call, dsl_switch, dsl_sleep, dsl_end,
  dsl_signal_successor, dsl_save_state, dsl_connect, dsl_disconnect, dsl_set_variable, dsl_concat,
  dsl_translate_context, dsl_tool_call, name_successor,
}
use model_weaver.Dsl.Run.{dsl_handler}

abbrev pub handled_state : {W : Type 0} → Handled W → Workflow W
handled_state (answered cont wf) = wf
handled_state (escaped e wf) = wf

-- What a handler answers has counted no further iteration.
pub record Same {W : Type 0} (wf : Workflow W) (out : Handled W) : Type 0 where
  pub count : (handled_state out).result.iterations ≡ wf.result.iterations

pub record SameCount {W : Type 0} (o : Option (Workflow W → Handled W)) : Type 0 where
  pub each : (h : Workflow W → Handled W) (wf : Workflow W) → o ≡ some h → Same wf (h wf)

module _ {W : Type 0} where
  SameCount-none : SameCount {W = W} none
  SameCount-none = record { each = λ h wf e. cc }

  SameCount-some :
      (h : Workflow W → Handled W) → ((wf : Workflow W) → Same wf (h wf)) → SameCount (some h)
  SameCount-some h f = record {
    each = λ h' wf e.
        let p : h ≡ h' = cc in
        record {
          count =
              ap (λ (g : Workflow W → Handled W). (handled_state (g wf)).result.iterations) (sym p)
              ∙ (f wf).count;
        };
  }

  SameCount-if :
      (b : Bool) (h : Workflow W → Handled W) (y : Option (Workflow W → Handled W))
      → ((wf : Workflow W) → Same wf (h wf))
      → SameCount y
      → SameCount (if b then some h else y)
  SameCount-if true h y f q = SameCount-some h f
  SameCount-if false h y f q = q

name_successor-keeps :
    (config : Option Value) (can_signal : Bool) (role : Option String) (r : WorkflowResult)
    → (name_successor config can_signal role r).iterations ≡ r.iterations
unfolding name_successor
name_successor-keeps config can_signal none r = refl
name_successor-keeps config false (some role) r = refl
name_successor-keeps config true (some role) r = refl

module _ {W : Type 0} (hooks : Hooks W) where
  to_next-Same : (step : DslStep) (wf : Workflow W) → Same wf (to_next step wf)
  unfolding to_next
  to_next-Same step wf = record { count = refl }

  after_hook-Same :
      (step : DslStep) (a : Attempt Done × W) (wf : Workflow W)
      → (handled_state (after_hook hooks step a wf)).result.iterations ≡ wf.result.iterations
  unfolding after_hook to_next
  after_hook-Same step (value u, w) wf = refl
  after_hook-Same step (error e, w) wf = refl

  after_pipeline-Same :
      (step : DslStep) (a : Attempt (List Message × Vars) × W) (wf : Workflow W)
      → Same wf (after_pipeline hooks step a wf)
  unfolding after_pipeline to_next
  after_pipeline-Same step (value (messages, variables), w) wf = record { count = refl }
  after_pipeline-Same step (error e, w) wf = record { count = refl }

  after_text-Same :
      (step : DslStep) (role intro problem : String) (a : Attempt String × W) (wf : Workflow W)
      → Same wf (after_text hooks step role intro problem a wf)
  unfolding after_text to_next assign append_message fail_workflow
  after_text-Same step role intro problem (error e, w) wf = record { count = refl }
  after_text-Same step role intro problem (value content, w) wf =
      elim (Option-cases (nonempty step.keys.output_capture)) [
        | inl unnamed ↦ simp (unnamed, after_text) (record { count = refl })
        | inr (name, named) ↦ simp (named, after_text) (record { count = refl })
      ]

  dsl_llm_call-Same : (step : DslStep) (wf : Workflow W) → Same wf (dsl_llm_call hooks step wf)
  unfolding dsl_llm_call fail_workflow
  dsl_llm_call-Same step wf = elim (Option-cases hooks.llm_call) [
    | inl missing ↦ simp (missing, dsl_llm_call) (record { count = refl })
    | inr (f, set) ↦ simp (set, dsl_llm_call) (after_text-Same step _ _ _ _ wf)
  ]

  dsl_tool_call-Same : (step : DslStep) (wf : Workflow W) → Same wf (dsl_tool_call hooks step wf)
  unfolding dsl_tool_call fail_workflow
  dsl_tool_call-Same step wf = elim (Option-cases hooks.tool_call) [
    | inl missing ↦ simp (missing, dsl_tool_call) (record { count = refl })
    | inr (f, set) ↦ simp (set, dsl_tool_call) (after_text-Same step _ _ _ _ wf)
  ]

  dsl_switch-Same : (step : DslStep) (wf : Workflow W) → Same wf (dsl_switch hooks step wf)
  unfolding dsl_switch
  dsl_switch-Same step wf = record { count = refl }

  dsl_sleep-Same : (step : DslStep) (wf : Workflow W) → Same wf (dsl_sleep hooks step wf)
  unfolding dsl_sleep
  dsl_sleep-Same step wf = record { count = refl }

  dsl_end-Same : (step : DslStep) (wf : Workflow W) → Same wf (dsl_end hooks step wf)
  unfolding dsl_end
  dsl_end-Same step wf = record { count = name_successor-keeps _ _ (nonempty step.successor) _ }

  dsl_signal_successor-Same :
      (step : DslStep) (wf : Workflow W) → Same wf (dsl_signal_successor hooks step wf)
  unfolding dsl_signal_successor to_next
  dsl_signal_successor-Same step wf = elim (Option-cases hooks.signal_successor) [
    | inl missing ↦ simp (missing, dsl_signal_successor) (record { count = refl })
    | inr (f, set) ↦ simp (set, dsl_signal_successor) (record { count = after_hook-Same step _ _ })
  ]

  dsl_save_state-Same : (step : DslStep) (wf : Workflow W) → Same wf (dsl_save_state hooks step wf)
  unfolding dsl_save_state to_next
  dsl_save_state-Same step wf = elim (Option-cases hooks.save_state) [
    | inl missing ↦ simp (missing, dsl_save_state) (record { count = refl })
    | inr (f, set) ↦ simp (set, dsl_save_state) (record { count = after_hook-Same step _ wf })
  ]

  dsl_connect-Same : (step : DslStep) (wf : Workflow W) → Same wf (dsl_connect hooks step wf)
  unfolding dsl_connect to_next
  dsl_connect-Same step wf = elim (Option-cases hooks.connect) [
    | inl missing ↦ simp (missing, dsl_connect) (record { count = refl })
    | inr (f, set) ↦ simp (set, dsl_connect) (record { count = after_hook-Same step _ wf })
  ]

  dsl_disconnect-Same : (step : DslStep) (wf : Workflow W) → Same wf (dsl_disconnect hooks step wf)
  unfolding dsl_disconnect to_next
  dsl_disconnect-Same step wf = elim (Option-cases hooks.connect) [
    | inl missing ↦ simp (missing, dsl_disconnect) (record { count = refl })
    | inr (f, set) ↦ simp (set, dsl_disconnect) (record { count = after_hook-Same step _ wf })
  ]

  dsl_set_variable-Same :
      (step : DslStep) (wf : Workflow W) → Same wf (dsl_set_variable hooks step wf)
  unfolding dsl_set_variable to_next assign
  dsl_set_variable-Same step wf = record { count = refl }

  dsl_concat-Same : (step : DslStep) (wf : Workflow W) → Same wf (dsl_concat hooks step wf)
  unfolding dsl_concat to_next
  dsl_concat-Same step wf = record { count = refl }

  dsl_translate_context-Same :
      (step : DslStep) (wf : Workflow W) → Same wf (dsl_translate_context hooks step wf)
  unfolding dsl_translate_context to_next
  dsl_translate_context-Same step wf = record { count = refl }

  pub dsl_handler-SameCount : (n : ℕ) (step : DslStep) → SameCount (dsl_handler hooks n step)
  unfolding dsl_handler
  dsl_handler-SameCount n step =
      SameCount-if (step.keys.type == "llm_call") _ _ (dsl_llm_call-Same step) (
        SameCount-if (step.keys.type == "switch") _ _ (dsl_switch-Same step) (
          SameCount-if (step.keys.type == "sleep") _ _ (dsl_sleep-Same step) (
            SameCount-if (step.keys.type == "end") _ _ (dsl_end-Same step) (
              SameCount-if (step.keys.type == "signal_successor") _ _
                (dsl_signal_successor-Same step)
                (SameCount-if (step.keys.type == "save_state") _ _ (dsl_save_state-Same step) (
                  SameCount-if (step.keys.type == "connect") _ _ (dsl_connect-Same step) (
                    SameCount-if (step.keys.type == "disconnect") _ _ (dsl_disconnect-Same step) (
                      SameCount-if (step.keys.type == "set_variable") _ _
                        (dsl_set_variable-Same step)
                        (SameCount-if (step.keys.type == "concat") _ _ (dsl_concat-Same step) (
                          SameCount-if (step.keys.type == "extract_context") _ _
                            (λ wf. after_pipeline-Same step _ wf)
                            (SameCount-if (step.keys.type == "translate_context") _ _
                              (dsl_translate_context-Same step)
                              (SameCount-if (step.keys.type == "call_function") _ _
                                (λ wf. after_pipeline-Same step _ wf)
                                (SameCount-if (step.keys.type == "tool_call") _ _
                                  (dsl_tool_call-Same step) SameCount-none)))))))))))))
