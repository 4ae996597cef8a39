-- ===== src/Fsm/Extends/Calling.antt =====
-- The handlers `llm_call`, `spawn`, `handoff` and `agent_call` extend the state that they are given.
use model_weaver.Base.{
  ℕ, String, Bool, true, false, Option, none, some, List, [], ◌∷◌, refl, Bool-cases, Option-cases,
  inl, inr, text_eq,
}
use model_weaver.Base.Dict.{Dict}
use model_weaver.Fsm.Value.{Value, Vars, nonempty, resolve}
use model_weaver.Fsm.Step.{StepKeys}
use model_weaver.Fsm.State.{
  State, Reply, returned, bridge_error, raised, StreamEnd, complete, stream_bridge_error,
  stream_raised, ChatResponse, AgentReply, Runtime, signal_check, sink, set_env,
}
use model_weaver.Fsm.Control
use model_weaver.Fsm.Llm
use model_weaver.Fsm.Agents
use model_weaver.Fsm.Extends.{
  Extends, Extends-refl, Extends-keep, Extends-sink, extends_rules, signal_check-Extends,
}
use model_weaver.Fsm.Extends.Leaves.{branch_on_error-Extends, leaf_rules}

module _ {W : Type 0} (rt : Runtime W) {limit : ℕ} where
  finish_llm-Extends :
      {a : State W} (s : StepKeys) (content : String) (tokens : ℕ) (b : State W)
      → Extends limit a b
      → Extends limit a (Llm.finish_llm rt s content tokens b).1
  unfolding Llm.finish_llm
  finish_llm-Extends s content tokens b p = search leaf_rules depth 7

  consume-Extends :
      {a : State W} (chunks : List String) (content : String) (b : State W)
      → Extends limit a b
      → Extends limit a (Llm.consume rt chunks content b).2
  unfolding Llm.consume
  consume-Extends [] content b p = p
  consume-Extends (delta ∷ rest) content b p =
      let q = Extends-sink delta p in
      elim (Bool-cases rt.has_signal_check) [
        | inl listening ↦ elim (Bool-cases (signal_check (sink delta b)).0) [
          | inl killed ↦ simp (listening, killed, Llm.consume) (signal_check-Extends _ q)
          | inr alive ↦
              simp (listening, alive, Llm.consume)
                (consume-Extends rest _ _ (signal_check-Extends _ q))
        ]
        | inr deaf ↦ simp (deaf, Llm.consume) (consume-Extends rest _ _ q)
      ]

  after_stream-Extends :
      {a : State W} (s : StepKeys) (end : StreamEnd) (killed : Bool) (content : String)
      (b : State W)
      → Extends limit a b
      → Extends limit a (Llm.after_stream rt s end (killed, content, b)).1
  unfolding Llm.after_stream
  after_stream-Extends s end true content b p = search extends_rules
  after_stream-Extends s complete false content b p = finish_llm-Extends s content _ b p
  after_stream-Extends s (stream_bridge_error e) false content b p =
      branch_on_error-Extends rt s _ b p
  after_stream-Extends s (stream_raised e) false content b p = branch_on_error-Extends rt s _ b p

  set_budget-Extends :
      {a : State W} (budget : Option Vars) (b : State W)
      → Extends limit a b
      → Extends limit a (Llm.set_budget rt budget b)
  unfolding Llm.set_budget
  set_budget-Extends none b p = p
  set_budget-Extends (some budget) b p = Extends-keep _ refl refl refl p

  note_llm-Extends :
      {a : State W} (reply : Reply ChatResponse × W) (b : State W)
      → Extends limit a b
      → Extends limit a (Llm.note_llm rt reply b)
  unfolding Llm.note_llm
  note_llm-Extends (returned r, w) b p = search extends_rules
  note_llm-Extends (bridge_error e, w) b p = p
  note_llm-Extends (raised e, w) b p = p

  after_chat-Extends :
      {a : State W} (s : StepKeys) (reply : Reply ChatResponse × W) (b : State W)
      → Extends limit a b
      → Extends limit a (Llm.after_chat rt s reply b).1
  unfolding Llm.after_chat
  after_chat-Extends s (returned r, w) b p =
      finish_llm-Extends s _ _ _ (set_budget-Extends r.budget _ (search extends_rules))
  after_chat-Extends s (bridge_error e, w) b p =
      branch_on_error-Extends rt s _ _ (search extends_rules)
  after_chat-Extends s (raised e, w) b p = branch_on_error-Extends rt s _ _ (search extends_rules)

  pub step_llm_call-Extends :
      (s : StepKeys) (st : State W) → Extends limit st (Llm.step_llm_call rt s st).1
  unfolding Llm.step_llm_call
  step_llm_call-Extends s st = elim (Bool-cases rt.has_stream_sink) [
    | inl streamed ↦
        simp (streamed, Llm.step_llm_call)
          (after_stream-Extends s _ _ _ _
            (consume-Extends _ "" (set_env _ st) (search extends_rules)))
    | inr whole ↦ elim (Option-cases (Llm.timeout_of rt s.timeout)) [
      | inl endless ↦
          simp (whole, endless, Llm.step_llm_call)
            (after_chat-Extends s _ st (search extends_rules))
      | inr (timeout, given) ↦
          simp (whole, given, Llm.step_llm_call)
            (after_chat-Extends s _ _ (note_llm-Extends _ st (search extends_rules)))
    ]
  ]

  after_spawn-Extends :
      {a : State W} (s : StepKeys) (name : String) (reply : Reply AgentReply × W) (b : State W)
      → Extends limit a b
      → Extends limit a (Agents.after_spawn rt s name reply b).1
  unfolding Agents.after_spawn
  after_spawn-Extends s name (returned out, w) b p = elim (Bool-cases (Agents.is_ok out.status)) [
    | inl fine ↦ rw (fine, Agents.after_spawn) (search leaf_rules depth 7)
    | inr wrong ↦ rw (wrong, Agents.after_spawn) (search extends_rules)
  ]
  after_spawn-Extends s name (bridge_error e, w) b p = search extends_rules
  after_spawn-Extends s name (raised e, w) b p = search extends_rules

  pub step_spawn-Extends :
      (s : StepKeys) (st : State W) → Extends limit st (Agents.step_spawn rt s st).1
  unfolding Agents.step_spawn
  step_spawn-Extends s st = elim (Option-cases rt.spawn) [
    | inl absent ↦ simp (absent, Agents.step_spawn) (search extends_rules)
    | inr (handler, given) ↦
        simp (given, Agents.step_spawn)
          (after_spawn-Extends s (Agents.spawn_spec rt s st).name
            (handler st.env (Agents.spawn_spec rt s st)
              (resolve rt.py st.result.variables s.request))
            st (Extends-refl st))
  ]

  after_handoff-Extends :
      {a : State W} (s : StepKeys) (reply : Reply Value × W) (b : State W)
      → Extends limit a b
      → Extends limit a (Agents.after_handoff rt s reply b).1
  unfolding Agents.after_handoff
  after_handoff-Extends s (returned out, w) b p = search extends_rules
  after_handoff-Extends s (bridge_error e, w) b p = search extends_rules
  after_handoff-Extends s (raised e, w) b p = search extends_rules

  pub step_handoff-Extends :
      (s : StepKeys) (st : State W) → Extends limit st (Agents.step_handoff rt s st).1
  unfolding Agents.step_handoff
  step_handoff-Extends s st = elim (Option-cases rt.handoff) [
    | inl absent ↦ simp (absent, Agents.step_handoff) (search extends_rules)
    | inr (handler, given) ↦ elim (Option-cases (nonempty s.to)) [
      | inl nobody ↦ simp (given, nobody, Agents.step_handoff) (search extends_rules)
      | inr (target, named) ↦
          simp (given, named, Agents.step_handoff)
            (after_handoff-Extends s _ st (search extends_rules))
    ]
  ]

  capture_reply-Extends :
      {a : State W} (capture : Dict String String) (out : AgentReply) (b : State W)
      → Extends limit a b
      → Extends limit a (Agents.capture_reply rt capture out b)
  unfolding Agents.capture_reply
  capture_reply-Extends [] out b p = p
  capture_reply-Extends ((k, n) ∷ capture) out b p =
      capture_reply-Extends capture out _ (search extends_rules)

  fail_or_branch-Extends :
      {a : State W} (s : StepKeys) (m n : String) (b : State W)
      → Extends limit a b
      → Extends limit a (Agents.fail_or_branch rt s m n b).1
  unfolding Agents.fail_or_branch
  fail_or_branch-Extends s m n b p = elim (Option-cases (nonempty s.on_error)) [
    | inl missing ↦ rw (missing, Agents.fail_or_branch) (search extends_rules)
    | inr (handler, found) ↦ rw (found, Agents.fail_or_branch) (branch_on_error-Extends rt s m b p)
  ]

  after_agent_call-Extends :
      {a : State W} (s : StepKeys) (reply : Reply AgentReply × W) (b : State W)
      → Extends limit a b
      → Extends limit a (Agents.after_agent_call rt s reply b).1
  unfolding Agents.after_agent_call
  after_agent_call-Extends s (returned out, w) b p =
      elim (Bool-cases (Agents.is_ok_or_success out.status)) [
        | inl fine ↦
            rw (fine, Agents.after_agent_call)
              (search (extends_rules, capture_reply-Extends) depth 7)
        | inr wrong ↦
            rw (wrong, Agents.after_agent_call)
              (fail_or_branch-Extends s _ _ _ (search extends_rules))
      ]
  after_agent_call-Extends s (bridge_error e, w) b p =
      fail_or_branch-Extends s _ _ _ (search extends_rules)
  after_agent_call-Extends s (raised e, w) b p =
      fail_or_branch-Extends s _ _ _ (search extends_rules)

  pub step_agent_call-Extends :
      (s : StepKeys) (st : State W) → Extends limit st (Agents.step_agent_call rt s st).1
  unfolding Agents.step_agent_call
  step_agent_call-Extends s st = elim (Option-cases rt.agent_call) [
    | inl absent ↦ simp (absent, Agents.step_agent_call) (search extends_rules)
    | inr (handler, given) ↦ elim (Option-cases (nonempty s.agent)) [
      | inl nobody ↦ simp (given, nobody, Agents.step_agent_call) (search extends_rules)
      | inr (name, named) ↦
          simp (given, named, Agents.step_agent_call)
            (after_agent_call-Extends s
              (handler st.env name (Control.default_to s.entrypoint "main")
                (Agents.resolve_texts rt.py st.result.variables s.agent_inputs))
              st (Extends-refl st))
    ]
  ]
