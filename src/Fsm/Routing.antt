-- ===== src/Fsm/Routing.antt =====
-- Where the graph of steps starts, and where `switch`, `call` and failing steps lead.
use model_weaver.Base.{
  String, Bool, true, false, Option, none, some, List, [], ◌∷◌, ◌++◌, ◌≡◌, refl, ◌⊎◌, inl, inr,
  ◌==◌, text_eq, Bool-cases, Option-cases, ap,
}
use model_weaver.Base.Dict
use model_weaver.Base.Dict.{Dict}
use model_weaver.Fsm.Value.{Vars, Python, nonempty}
use model_weaver.Fsm.Step.{Cond, StepKeys}
use model_weaver.Fsm.State.{
  failed, State, Runtime, Reply, returned, bridge_error, raised, fail, set_env,
}
use model_weaver.Fsm.Control.{compare_by, default_to, cond_value, select_branch}
use model_weaver.Fsm.Calls.{
  capture_all, after_skill, after_call, skill_outcome, skill_inputs, resolve_all, workspace, own_id,
  step_call,
}

-- A condition of `switch` holds of the variable's text.
abbrev pub matches : Python → String → Cond → Bool
matches py var_value c = compare_by py (default_to c.operator "EQUALS") var_value (cond_value py c)

abbrev pub NoneMatch : Python → String → List Cond → Type 0
NoneMatch py var_value [] = Unit
NoneMatch py var_value (c ∷ conds) = (matches py var_value c ≡ false) × NoneMatch py var_value conds

-- The first condition that holds.
pub record FirstMatch (py : Python) (var_value : String) (conds : List Cond)
    (target : Option String) : Type 0 where
  pub before : List Cond
  pub hit : Cond
  pub after : List Cond
  pub split : conds ≡ before ++ hit ∷ after
  pub passed_over : NoneMatch py var_value before
  pub holds : matches py var_value hit ≡ true
  pub leads : target ≡ hit.next

-- switch leads to the target of the first condition that holds, and to the default exactly if none
-- does.
pub select_branch_lem :
    (py : Python) (var_value : String) (conds : List Cond) (default : Option String)
    → FirstMatch py var_value conds (select_branch py var_value conds default)
      ⊎ (NoneMatch py var_value conds × (select_branch py var_value conds default ≡ default))
unfolding select_branch
select_branch_lem py var_value [] default = inr (tt, refl)
select_branch_lem py var_value (c ∷ conds) default = elim (Bool-cases (matches py var_value c)) [
  | inl yes_ ↦ inl (record {
    before = [];
    hit = c;
    after = conds;
    split = refl;
    passed_over = tt;
    holds = yes_;
    leads = simp yes_;
  })
  | inr no_ ↦ elim (select_branch_lem py var_value conds default) [
    | inl m ↦ inl (record {
      before = c ∷ m.before;
      hit = m.hit;
      after = m.after;
      split = ap (λ l. c ∷ l) m.split;
      passed_over = (no_, m.passed_over);
      holds = m.holds;
      leads = simp no_ m.leads;
    })
    | inr (none_holds, e) ↦ inr ((no_, none_holds), simp no_ e)
  ]
]

module _ {W : Type 0} (rt : Runtime W) where
  capture_all-status :
      (capture : Dict String String) (out : Vars) (st : State W)
      → (capture_all capture out st).result.status ≡ st.result.status
  unfolding capture_all
  capture_all-status [] out st = refl
  capture_all-status ((k, n) ∷ capture) out st = elim (Option-cases (Dict.lookup out k)) [
    | inl missing ↦ simp missing (capture_all-status capture out st)
    | inr (v, found) ↦ simp found (capture_all-status capture out _)
  ]

  after_skill-status :
      (s : StepKeys) (out : Vars) (st : State W)
      → ((after_skill rt s out none st).0 ≡ true)
        × ((after_skill rt s out none st).1.result.next_step_id ≡ s.next)
        × ((after_skill rt s out none st).1.result.status ≡ st.result.status)
  unfolding after_skill
  after_skill-status s out st = (refl, refl, capture_all-status s.capture out _)

  after_skill_failure :
      (s : StepKeys) (out : Vars) (err : String) (st : State W)
      → ((handler : String) × (nonempty s.on_error ≡ some handler)
          × ((after_skill rt s out (some err) st).0 ≡ true)
          × ((after_skill rt s out (some err) st).1.result.next_step_id ≡ some handler)
          × ((after_skill rt s out (some err) st).1.result.status ≡ st.result.status))
        ⊎ ((nonempty s.on_error ≡ none)
            × ((after_skill rt s out (some err) st).0 ≡ false)
            × ((after_skill rt s out (some err) st).1.result.status ≡ failed))
  unfolding after_skill
  after_skill_failure s out err st = elim (Option-cases (nonempty s.on_error)) [
    | inl missing ↦ inr (missing, simp (missing, after_skill), simp (missing, after_skill))
    | inr (handler, found) ↦ inl (
      handler,
      found,
      simp (found, after_skill),
      simp (found, after_skill),
      simp (found, after_skill) (capture_all-status s.capture out _),
    )
  ]

  -- The ways in which a step `call` whose skill has given `reply` ends: the flag and the state.
  pub data CallEnd (s : StepKeys) (st : State W) (reply : Reply Vars) (end : Bool × State W)
      : Type 0 where
    went_on :
        (out : Vars)
        → reply ≡ returned out
        → skill_outcome rt.py out ≡ none
        → end.0 ≡ true
        → end.1.result.next_step_id ≡ s.next
        → end.1.result.status ≡ st.result.status
        → CallEnd s st reply end
    branched :
        (out : Vars) (err handler : String)
        → reply ≡ returned out
        → skill_outcome rt.py out ≡ some err
        → nonempty s.on_error ≡ some handler
        → end.0 ≡ true
        → end.1.result.next_step_id ≡ some handler
        → end.1.result.status ≡ st.result.status
        → CallEnd s st reply end
    gave_up :
        (out : Vars) (err : String)
        → reply ≡ returned out
        → skill_outcome rt.py out ≡ some err
        → nonempty s.on_error ≡ none
        → end.0 ≡ false
        → end.1.result.status ≡ failed
        → CallEnd s st reply end
    crashed :
        (err : String)
        → (reply ≡ raised err) ⊎ (reply ≡ bridge_error err)
        → end.0 ≡ false
        → end.1.result.status ≡ failed
        → CallEnd s st reply end

  after_call-CallEnd :
      (s : StepKeys) (st : State W) (reply : Reply Vars) (w : W)
      → CallEnd s st reply (after_call rt s (reply, w) st)
  unfolding after_call fail
  after_call-CallEnd s st (returned out) w = elim (Option-cases (skill_outcome rt.py out)) [
    | inl fine ↦
        let (goes, next, status) = after_skill-status s out (set_env w st) in
        CallEnd.went_on out refl fine (simp (fine, after_call) goes) (simp (fine, after_call) next)
          (simp (fine, after_call) status)
    | inr (err, failed_) ↦ elim (after_skill_failure s out err (set_env w st)) [
      | inl (handler, named, goes, next, status) ↦
          CallEnd.branched out err handler refl failed_ named (simp (failed_, after_call) goes)
            (simp (failed_, after_call) next) (simp (failed_, after_call) status)
      | inr (unnamed, stops, status) ↦
          CallEnd.gave_up out err refl failed_ unnamed (simp (failed_, after_call) stops)
            (simp (failed_, after_call) status)
    ]
  ]
  after_call-CallEnd s st (bridge_error e) w = CallEnd.crashed e (inr refl) refl refl
  after_call-CallEnd s st (raised e) w = CallEnd.crashed e (inl refl) refl refl

  -- The answer of the skill that a step `call` calls.
  abbrev pub skill_reply : StepKeys → State W → Reply Vars × W
  skill_reply s st =
      rt.call_skill st.env s.fn
        (skill_inputs rt (resolve_all rt.py st.result.variables s.inputs) st)
        (workspace rt (own_id rt st))

  -- A step call that names a skill ends in one of four ways, as the skill answers: if the answer
  -- is no failure, the run goes on with the next step; if it is one, the run goes on with the step
  -- named by on_error, and where none is named it ends as failed; if the skill or its bridge
  -- raises, the run ends as failed, whether on_error names a step or not. Where the run goes on it
  -- keeps its status.
  pub step_call-CallEnd :
      (s : StepKeys) (st : State W)
      → (s.fn == "") ≡ false
      → CallEnd s st (skill_reply s st).0 (step_call rt s st)
  unfolding step_call
  step_call-CallEnd s st named =
      simp (named, step_call) (after_call-CallEnd s st (skill_reply s st).0 (skill_reply s st).1)
