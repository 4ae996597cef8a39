-- ===== src/Fsm/Extends/Blocks.antt =====
-- The loops, the handlers with a body and whole runs extend the state that they are given.
use mathlib.Core.Option
use model_weaver.Base.{
  ℕ, zero, suc, String, Bool, false, Option, none, some, List, [], ◌∷◌, ◌≡◌, refl, arith, ◌==◌,
  text_eq, Bool-cases, Option-cases, inl, inr,
}
use model_weaver.Base.Ends.{Ends, Ends-none, Ends-some, Ends-map, Ends-cases}
use model_weaver.Base.Dict
use model_weaver.Base.Dict.{Dict, lookup-AllValues}
use model_weaver.Fsm.Value.{Value, nonempty}
use model_weaver.Fsm.Step.{StepKeys, Step, step, Body, Steps}
use model_weaver.Fsm.State.{State, Runtime}
use model_weaver.Fsm.Control.{eval_condition}
use model_weaver.Fsm.Graph.{Compiled, by_id}
use model_weaver.Fsm.Loops.{
  Code, broken, stop, Turn, leave, go_on, at_limit, is_running, count_step, publish_step, clear_ctl,
  after_handler, body_turn, body_loop, run_body, step_while, after_pass, for_loop, step_for,
  after_block, step_group, step_if,
}
use model_weaver.Fsm.Run.{handler_of, compile_step, compile_body, compile_steps}
use model_weaver.Fsm.Extends.{
  Extends, Extends-fail, Extends-set_var, Extends-refl, Extends-trans, Extends-keep,
  Extends-publish, extends_rules,
}
use model_weaver.Fsm.Extends.Handlers.{
  KeepsOpt, KeepsOpt-some, KeepsOpt-if, CompiledKeeps, AllKeep, by_id-AllValues,
  simple_handler-Keeps,
}

-- The state in which a round ends.
abbrev pub turn_state : {W : Type 0} → Turn W → State W
turn_state (leave code st) = st
turn_state (go_on next st) = st

module _ {W : Type 0} (rt : Runtime W) where
  abbrev Ext : State W → State W → Type 0
  Ext = Extends rt.max_iter

  pub count_step-Extends :
      (st : State W) → at_limit rt st ≡ false → Extends rt.max_iter st (count_step rt st)
  unfolding count_step
  count_step-Extends st below = record {
    count = ground arith;
    within = λ h. ground arith;
    messages = (Extends-refl {limit = 0} st).messages;
    events = (Extends-refl {limit = 0} st).events;
  }

  pub publish_step-Extends :
      {a : State W} (id : String) (b : State W)
      → Extends rt.max_iter a b
      → Extends rt.max_iter a (publish_step rt id b)
  unfolding publish_step
  publish_step-Extends id b p = elim (Bool-cases rt.has_lifecycle) [
    | inl watched ↦ simp (watched, publish_step) (Extends-publish _ p)
    | inr alone ↦ simp (alone, publish_step) p
  ]

  pub after_handler-Extends :
      {a : State W} (id : String) (cont : Bool) (b : State W)
      → Extends rt.max_iter a b
      → Extends rt.max_iter a (turn_state (after_handler rt id (cont, b)))
  unfolding after_handler
  after_handler-Extends id cont b p = elim (Option-cases b.result.loop_ctl) [
    | inr (ctl, set) ↦
        simp (set, after_handler) (unfold clear_ctl in Extends-keep _ refl refl refl p)
    | inl unset ↦ elim (Bool-cases (is_running b.result.status)) [
      | inr over ↦ simp (unset, over, after_handler) p
      | inl alive ↦ elim (Bool-cases cont) [
        | inr held ↦ simp (unset, alive, held, after_handler) p
        | inl cont' ↦ simp (unset, alive, cont', after_handler) (publish_step-Extends id b p)
      ]
    ]
  ]

  -- What a round of a body, or the whole of it, may end in.
  abbrev TurnFrom : State W → Turn W → Type 0
  TurnFrom a t = Ext a (turn_state t)

  abbrev BodyFrom : State W → Code × State W → Type 0
  BodyFrom a out = Ext a out.1

  abbrev StepFrom : State W → Bool × State W → Type 0
  StepFrom a out = Ext a out.1

  run_handler-Extends :
      (id : String) (c : Compiled W) (st : State W)
      → CompiledKeeps rt.max_iter c
      → at_limit rt st ≡ false
      → (h : State W → Option (Bool × State W)) → c.handler ≡ some h
      → Ends (TurnFrom st) (Option.map (after_handler rt id) (h (count_step rt st)))
  run_handler-Extends id c st k below h found =
      Ends-map (TurnFrom st) (after_handler rt id) (h (count_step rt st)) (record {
        at = λ out e.
            after_handler-Extends id out.0 out.1
              (Extends-trans (count_step-Extends st below) (k.each h _ out found e));
      })

  body_turn-Extends :
      (sub : Dict String (Compiled W)) (id : String) (st : State W)
      → Dict.AllValues (CompiledKeeps rt.max_iter) sub
      → Ends (TurnFrom st) (body_turn rt sub id st)
  unfolding body_turn
  body_turn-Extends sub id st k = elim (Bool-cases (at_limit rt st)) [
    | inl over ↦ simp (over, body_turn) (Ends-some (TurnFrom st) _ (search extends_rules))
    | inr below ↦ elim (Option-cases (Dict.lookup sub id)) [
      | inl missing ↦
          simp (below, missing, body_turn) (Ends-some (TurnFrom st) _ (search extends_rules))
      | inr (c, found) ↦ elim (Option-cases c.handler) [
        | inl unknown ↦
            simp (below, found, unknown, body_turn)
              (Ends-some (TurnFrom st) _ (Extends-fail _ (count_step-Extends st below)))
        | inr (h, known) ↦
            simp (below, found, known, body_turn)
              (run_handler-Extends id c st
                (lookup-AllValues (CompiledKeeps rt.max_iter) sub id k found) below h known)
      ]
    ]
  ]

  body_loop-Extends :
      (sub : Dict String (Compiled W)) (fuel : ℕ) (cur : Option String) (a st : State W)
      → Dict.AllValues (CompiledKeeps rt.max_iter) sub
      → Ext a st
      → Ends (BodyFrom a) (body_loop rt sub fuel cur st)
  unfolding body_loop
  body_loop-Extends sub zero cur a st k p = Ends-none (BodyFrom a)
  body_loop-Extends sub (suc fuel) cur a st k p = elim (Option-cases (nonempty cur)) [
    | inl done ↦ simp (done, body_loop) (Ends-some (BodyFrom a) _ p)
    | inr (id, at) ↦
        simp (at, body_loop)
          (Ends-cases (TurnFrom st)
            (λ o. Ends (BodyFrom a) (elim o [
              | none ↦ none
              | some (leave code st') ↦ some (code, st')
              | some (go_on next st') ↦ body_loop rt sub fuel next st'
            ]))
            (body_turn rt sub id st) (body_turn-Extends sub id st k) (Ends-none (BodyFrom a))
            (elim [
              | leave code st' ↦ λ q. Ends-some (BodyFrom a) _ (Extends-trans p q)
              | go_on next st' ↦ λ q. body_loop-Extends sub fuel next a st' k (Extends-trans p q)
            ]))
  ]

  pub run_body-Extends :
      (fuel : ℕ) (body : List (Compiled W)) (a st : State W)
      → AllKeep rt.max_iter body
      → Ext a st
      → Ends (BodyFrom a) (run_body rt fuel body st)
  unfolding run_body
  run_body-Extends fuel [] a st k p = Ends-some (BodyFrom a) _ p
  run_body-Extends fuel (c ∷ cs) a st k p =
      body_loop-Extends (by_id (c ∷ cs) []) fuel _ a st
        (by_id-AllValues (CompiledKeeps rt.max_iter) (c ∷ cs) [] k tt) p

  after_pass-Extends :
      (s : StepKeys) (next : State W → Option (Bool × State W)) (a : State W) (out : Code × State W)
      → ((st : State W) → Ext a st → Ends (StepFrom a) (next st))
      → Ext a out.1
      → Ends (StepFrom a) (after_pass rt s next out)
  unfolding after_pass
  after_pass-Extends s next a (stop, st) more q = Ends-some (StepFrom a) _ q
  after_pass-Extends s next a (broken, st) more q = Ends-some (StepFrom a) _ (search extends_rules)
  after_pass-Extends s next a (_, st) more q = more st q

  -- A pass through the body, and what follows it.
  pass-Extends :
      (s : StepKeys) (next : State W → Option (Bool × State W)) (a : State W)
      (out : Option (Code × State W))
      → ((st : State W) → Ext a st → Ends (StepFrom a) (next st))
      → Ends (BodyFrom a) out
      → Ends (StepFrom a) (elim out [ none ↦ none | some o ↦ after_pass rt s next o ])
  pass-Extends s next a none more h = Ends-none (StepFrom a)
  pass-Extends s next a (some out) more h = after_pass-Extends s next a out more (h.at out refl)

  step_while-Extends :
      (fuel : ℕ) (s : StepKeys) (body : List (Compiled W)) (a st : State W)
      → AllKeep rt.max_iter body
      → Ext a st
      → Ends (StepFrom a) (step_while rt fuel s body st)
  unfolding step_while
  step_while-Extends zero s body a st k p = Ends-none (StepFrom a)
  step_while-Extends (suc fuel) s body a st k p =
      elim (Bool-cases (eval_condition rt.py s.condition st.result.variables)) [
        | inr over ↦ simp (over, step_while) (Ends-some (StepFrom a) _ (search extends_rules))
        | inl holds ↦ elim (Bool-cases (at_limit rt st)) [
          | inl full ↦
              simp (holds, full, step_while) (Ends-some (StepFrom a) _ (search extends_rules))
          | inr below ↦
              simp (holds, below, step_while)
                (pass-Extends s _ a _ (λ st' q. step_while-Extends fuel s body a st' k q)
                  (run_body-Extends (suc fuel) body a st k p))
        ]
      ]

  for_loop-Extends :
      (fuel : ℕ) (s : StepKeys) (body : List (Compiled W)) (values : List Value) (a st : State W)
      → AllKeep rt.max_iter body
      → Ext a st
      → Ends (StepFrom a) (for_loop rt fuel s body values st)
  unfolding for_loop
  for_loop-Extends fuel s body [] a st k p = Ends-some (StepFrom a) _ (search extends_rules)
  for_loop-Extends fuel s body (v ∷ values) a st k p = elim (Bool-cases (at_limit rt st)) [
    | inl full ↦ simp (full, for_loop) (Ends-some (StepFrom a) _ (search extends_rules))
    | inr below ↦
        simp (below, for_loop)
          (pass-Extends s _ a _ (λ st' q. for_loop-Extends fuel s body values a st' k q)
            (run_body-Extends fuel body a _ k (Extends-set_var _ v p)))
  ]

  after_block-Extends :
      (s : StepKeys) (a : State W) (out : Code × State W)
      → Ext a out.1
      → Ext a (after_block rt s out).1
  unfolding after_block
  after_block-Extends s a (stop, st) p = p
  after_block-Extends s a (_, st) p = search extends_rules

  step_group-Extends :
      (fuel : ℕ) (s : StepKeys) (body : List (Compiled W)) (st : State W)
      → AllKeep rt.max_iter body
      → Ends (StepFrom st) (step_group rt fuel s body st)
  unfolding step_group
  step_group-Extends fuel s body st k =
      Ends-map (StepFrom st) (after_block rt s) (run_body rt fuel body st) (record {
        at = λ out e.
            after_block-Extends s st out
              ((run_body-Extends fuel body st st k (Extends-refl st)).at out e);
      })

  step_if-Extends :
      (fuel : ℕ) (s : StepKeys) (body : List (Compiled W)) (st : State W)
      → AllKeep rt.max_iter body
      → Ends (StepFrom st) (step_if rt fuel s body st)
  unfolding step_if
  step_if-Extends fuel s body st k =
      elim (Bool-cases (eval_condition rt.py s.condition st.result.variables)) [
        | inl holds ↦ simp (holds, step_if) (step_group-Extends fuel s body st k)
        | inr fails ↦ simp (fails, step_if) (Ends-some (StepFrom st) _ (search extends_rules))
      ]

  to_KeepsOpt :
      (h : State W → Option (Bool × State W))
      → ((st : State W) → Ends (StepFrom st) (h st))
      → KeepsOpt rt.max_iter (some h)
  to_KeepsOpt h p = KeepsOpt-some rt.max_iter h (record { at = λ st out e. (p st).at out e })

  pub handler_of-Keeps :
      (fuel : ℕ) (s : StepKeys) (body : List (Compiled W))
      → AllKeep rt.max_iter body
      → KeepsOpt rt.max_iter (handler_of rt fuel s body)
  unfolding handler_of step_for
  handler_of-Keeps fuel s body k =
      KeepsOpt-if rt.max_iter (s.type == "while") _ _
        (to_KeepsOpt _ (λ st. step_while-Extends fuel s body st st k (Extends-refl st)))
        (KeepsOpt-if rt.max_iter (s.type == "for") _ _
          (to_KeepsOpt _ (λ st. for_loop-Extends fuel s body _ st st k (Extends-refl st)))
          (KeepsOpt-if rt.max_iter (s.type == "if") _ _
            (to_KeepsOpt _ (λ st. step_if-Extends fuel s body st k))
            (KeepsOpt-if rt.max_iter (s.type == "group") _ _
              (to_KeepsOpt _ (λ st. step_group-Extends fuel s body st k))
              (simple_handler-Keeps rt rt.max_iter fuel s))))

mutual
  unfolding compile_step compile_body compile_steps

  compile_step-Keeps :
      {W : Type 0} (rt : Runtime W) (fuel : ℕ) (s : Step)
      → CompiledKeeps rt.max_iter (compile_step rt fuel s)
  compile_step-Keeps rt fuel (step s body) =
      handler_of-Keeps rt fuel s _ (compile_body-Keeps rt fuel body)

  compile_body-Keeps :
      {W : Type 0} (rt : Runtime W) (fuel : ℕ) (b : Body)
      → AllKeep rt.max_iter (compile_body rt fuel b)
  compile_body-Keeps rt fuel Body.no_body = tt
  compile_body-Keeps rt fuel (Body.wrapped steps) = compile_steps-Keeps rt fuel steps
  compile_body-Keeps rt fuel (Body.plain steps) = compile_steps-Keeps rt fuel steps

  pub compile_steps-Keeps :
      {W : Type 0} (rt : Runtime W) (fuel : ℕ) (steps : Steps)
      → AllKeep rt.max_iter (compile_steps rt fuel steps)
  compile_steps-Keeps rt fuel Steps.nil = tt
  compile_steps-Keeps rt fuel (Steps.cons s steps) =
      (compile_step-Keeps rt fuel s, compile_steps-Keeps rt fuel steps)
