-- ===== src/Fsm/Identity.antt =====
-- The identity that a `call` step hands to a skill.
use model_weaver.Base.{
  true, false, some, ◌≡◌, refl, ◌⊎◌, inl, inr, ◌==◌, text_eq, Bool-cases, Option-cases,
}
use model_weaver.Base.Dict
use model_weaver.Base.Dict.{lookup-insert_self}
use model_weaver.Fsm.Value.{Value, Vars, Python, truthy}
use model_weaver.Fsm.Step.{StepKeys}
use model_weaver.Fsm.State.{State, Runtime}
use model_weaver.Fsm.Calls.{
  own_identity, own_id, workspace, skill_inputs, resolve_all, after_call, step_call,
}

-- The `agent_id` among the inputs is the agent's own, or one that Python calls equal to it.
abbrev pub NamesAgent : Python → (agent_id : Value) → Vars → Type 0
NamesAgent py agent_id inputs =
    (v : Value) × (Dict.lookup inputs "agent_id" ≡ some v)
    × ((v ≡ agent_id) ⊎ (py.same v agent_id ≡ true))

own_identity-NamesAgent :
    (py : Python) (agent_id : Value) (inputs : Vars)
    → truthy agent_id ≡ true
    → NamesAgent py agent_id (own_identity py agent_id inputs)
unfolding own_identity
own_identity-NamesAgent py agent_id inputs t = elim (Option-cases (Dict.lookup inputs "agent_id")) [
  | inl absent ↦
      simp (t, absent) (agent_id, lookup-insert_self inputs "agent_id" agent_id, inl refl)
  | inr (given, found) ↦ elim (Bool-cases (py.same given agent_id)) [
    | inl equal ↦ simp (t, found, equal) (given, refl, inr equal)
    | inr differs ↦
        simp (t, found, differs) (agent_id, lookup-insert_self inputs "agent_id" agent_id, inl refl)
  ]
]

-- A call step of an agent with an id calls its skill with inputs whose agent_id is the agent's
-- own, whatever the step gives as inputs.
pub step_call-NamesAgent :
    {W : Type 0} (rt : Runtime W) (s : StepKeys) (st : State W)
    → (s.fn == "") ≡ false
    → truthy (own_id rt st) ≡ true
    → (inputs : Vars) × (step_call rt s st
        ≡ after_call rt s (rt.call_skill st.env s.fn inputs (workspace rt (own_id rt st))) st)
      × NamesAgent rt.py (own_id rt st) inputs
unfolding step_call skill_inputs
step_call-NamesAgent rt s st given t = (
  skill_inputs rt (resolve_all rt.py st.result.variables s.inputs) st,
  simp given,
  own_identity-NamesAgent rt.py (own_id rt st) (resolve_all rt.py st.result.variables s.inputs) t,
)
