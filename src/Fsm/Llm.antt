-- ===== src/Fsm/Llm.antt =====
-- The handler `llm_call`: streamed, with a timeout and a fallback, or plain.
use Prim.Native.String.{count}
use model_weaver.Base.{
  ℕ, ◌/◌, String, ◌+s◌, Bool, true, false, Option, none, some, List, [], ◌∷◌, ◌++◌, nat_beq, ◌==◌,
  if◌then◌else◌, text_eq,
}
use model_weaver.Fsm.Value.{text, Vars, get_or_empty, or_text, resolve}
use model_weaver.Fsm.Step.{StepKeys}
use model_weaver.Fsm.State.{
  State, ChatRequest, ChatResponse, Reply, returned, bridge_error, raised, StreamEnd, complete,
  stream_bridge_error, stream_raised, Runtime, on_result, goto, sink, set_content, set_var, say,
  set_env, abort, signal_check,
}
use model_weaver.Fsm.Control.{branch_on_error}
use model_weaver.Fsm.Calls.{capture_opt}

module _ {W : Type 0} (rt : Runtime W) where
  unfoldable pub llm_request : StepKeys → State W → ChatRequest
  unfolding resolve get_or_empty
  llm_request step st =
      let prompt = resolve rt.py st.result.variables step.skill_prompt in
      record {
        provider = or_text step.provider_ref rt.provider_ref;
        model = or_text step.model_ref rt.model_ref;
        messages =
            if prompt == ""
            then st.result.messages
            else st.result.messages ++ record { role = "system"; content = prompt } ∷ [];
        agent_id = get_or_empty st.result.variables "agent_id";
      }

  -- The last lines of `_step_llm_call`.
  unfoldable pub finish_llm :
      StepKeys → (content : String) → (tokens : ℕ) → State W → Bool × State W
  unfolding capture_opt say goto set_content
  finish_llm step content tokens st =
      let content' = if step.strip_fences then rt.py.strip_code_fences content else content in
      let st' =
        say "assistant" content' (capture_opt rt step.output_capture (some (text content')) st) in
      (true, goto step.next (set_content content' tokens st'))

  -- The loop over the chunks: whether a kill signal ended it, the text so far, and the state.
  unfoldable pub consume : List String → (content : String) → State W → Bool × String × State W
  unfolding sink
  consume [] content st = (false, content, st)
  consume (delta ∷ rest) content st =
      let content' = content +s delta in
      let sunk = sink delta st in
      let (killed, st') = if rt.has_signal_check then signal_check sunk else (false, sunk) in
      let more = consume rest content' st' in if killed then (true, content', st') else more

  unfoldable pub after_stream : StepKeys → StreamEnd → Bool × String × State W → Bool × State W
  unfolding finish_llm branch_on_error abort
  after_stream step end (true, content, st) = (false, abort st)
  after_stream step complete (false, content, st) = finish_llm step content (count content / 4) st
  after_stream step (stream_bridge_error e) (false, content, st) =
      branch_on_error rt step ("LLM error: " +s e) st
  after_stream step (stream_raised e) (false, content, st) =
      branch_on_error rt step ("LLM call error: " +s e) st

  unfoldable pub set_budget : Option Vars → State W → State W
  set_budget none st = st
  set_budget (some budget) st = on_result st (λ result. record result { budget = budget })

  unfoldable pub after_chat : StepKeys → Reply ChatResponse × W → State W → Bool × State W
  unfolding finish_llm branch_on_error set_budget
  after_chat step (returned r, w) st =
      finish_llm step r.content r.total_tokens (set_budget r.budget (set_env w st))
  after_chat step (bridge_error e, w) st =
      branch_on_error rt step ("LLM error: " +s e) (set_env w st)
  after_chat step (raised e, w) st =
      branch_on_error rt step ("LLM call error: " +s e) (set_env w st)

  -- The variables that tell which LLM answered a resilient call.
  unfoldable pub note_llm : Reply ChatResponse × W → State W → State W
  unfolding set_var
  note_llm (returned r, w) st =
      set_var "_llm_fallbacks" r.fallbacks (
        set_var "_llm_model" (text r.model_used)
          (set_var "_llm_provider" (text r.provider_used) st))
  note_llm (bridge_error e, w) st = st
  note_llm (raised e, w) st = st

  abbrev pub timeout_of : Option ℕ → Option ℕ
  timeout_of none = none
  timeout_of (some n) = if nat_beq n 0 then none else some n

  -- FSMInterpreter._step_llm_call
  unfoldable pub step_llm_call : StepKeys → State W → Bool × State W
  unfolding after_stream after_chat note_llm consume llm_request
  step_llm_call step st =
      let request = llm_request step st in
      if rt.has_stream_sink
      then (let (chunks, end, w) = rt.chat_stream st.env request in
          after_stream step end (consume chunks "" (set_env w st)))
      else elim (timeout_of step.timeout) [
        | some timeout ↦
            let reply = rt.resilient_chat st.env request timeout step.fallback in
            after_chat step reply (note_llm reply st)
        | none ↦ after_chat step (rt.chat st.env request) st
      ]
