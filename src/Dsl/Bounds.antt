-- ===== src/Dsl/Bounds.antt =====
-- A run of the executor ends within its limit.
use model_weaver.Base.{
  ℕ, zero, suc, ◌≤◌, ◌<◌, ◌+◌, String, true, ◌&&◌, Option, some, List, [], ◌≡◌, arith, ltb, leb,
  text_eq, Bool-cases, Option-cases, inl, inr,
}
use model_weaver.Base.Ends.{Gives, Gives-some}
use model_weaver.Base.Dict
use model_weaver.Base.Dict.{Dict}
use model_weaver.Fsm.Value.{Vars, nonempty}
use model_weaver.Fsm.State.{Message}
use model_weaver.Dsl.{DslStep, Hooks, Workflow, Handled, answered, escaped, fail_workflow}
use model_weaver.Dsl.Run.{
  DslRound, going, left, thrown, is_active, steps_by_id, dsl_handler, count_round, after_answer,
  dsl_round, dsl_loop, dsl_finish, begin, dsl_run, first_step,
}
use model_weaver.Dsl.Counts.{handled_state, dsl_handler-SameCount}

module _ {W : Type 0} (hooks : Hooks W) (max_iterations : ℕ) where
  -- A round counts one iteration, unless it leaves the loop.
  abbrev RoundCounts : Workflow W → DslRound W → Type 0
  RoundCounts wf (going next wf') = wf'.result.iterations ≡ suc wf.result.iterations
  RoundCounts wf (left wf') = wf'.result.iterations ≤ suc wf.result.iterations
  RoundCounts wf (thrown e wf') = wf'.result.iterations ≤ suc wf.result.iterations

  after_answer-Counts :
      (wf : Workflow W) (out : Handled W)
      → (handled_state out).result.iterations ≡ suc wf.result.iterations
      → RoundCounts wf (after_answer hooks max_iterations out)
  unfolding after_answer
  after_answer-Counts wf (escaped e wf') p = omega (arith, p)
  after_answer-Counts wf (answered cont wf') p =
      elim (Bool-cases (is_active wf'.result.status && cont)) [
        | inl goes ↦ simp goes p
        | inr stops ↦ simp stops (omega (arith, p))
      ]

  dsl_round-Counts :
      (steps : Dict String DslStep) (id : String) (wf : Workflow W)
      → RoundCounts wf (dsl_round hooks max_iterations steps id wf)
  unfolding dsl_round fail_workflow count_round
  dsl_round-Counts steps id wf = elim (Option-cases (Dict.lookup steps id)) [
    | inl missing ↦ simp (missing, dsl_round) (omega arith)
    | inr (step, found) ↦ elim (Option-cases (dsl_handler hooks max_iterations step)) [
      | inl unknown ↦ simp (found, unknown, dsl_round) (omega arith)
      | inr (h, known) ↦
          let kept =
            (dsl_handler-SameCount hooks max_iterations step).each h
              (count_round hooks max_iterations wf) known in
          simp (found, known, dsl_round)
            (after_answer-Counts wf (h (count_round hooks max_iterations wf))
              (omega (arith, kept.count)))
    ]
  ]

  -- What the loop leaves is within the limit.
  abbrev Within : Handled W → Type 0
  Within out = (handled_state out).result.iterations ≤ max_iterations

  behind :
      (wf : Workflow W) (rest : Option String → Workflow W → Option (Handled W)) (r : DslRound W)
      → RoundCounts wf r
      → suc wf.result.iterations ≤ max_iterations
      → ((next : Option String) (wf' : Workflow W)
          → wf'.result.iterations ≡ suc wf.result.iterations
          → wf'.result.iterations ≤ max_iterations
          → Gives Within (rest next wf'))
      → Gives Within (elim r [
        | going next wf' ↦ rest next wf'
        | left wf' ↦ some (answered true wf')
        | thrown e wf' ↦ some (escaped e wf')
      ])
  behind wf rest (going next wf') p l more = more next wf' p (omega (arith, p, l))
  behind wf rest (left wf') p l more = Gives-some Within _ (omega (arith, p, l))
  behind wf rest (thrown e wf') p l more = Gives-some Within _ (omega (arith, p, l))

  dsl_loop-Gives :
      (steps : Dict String DslStep) (fuel : ℕ) (cur : Option String) (wf : Workflow W)
      → max_iterations < fuel + wf.result.iterations
      → wf.result.iterations ≤ max_iterations
      → Gives Within (dsl_loop hooks max_iterations steps fuel cur wf)
  unfolding dsl_loop
  dsl_loop-Gives steps zero cur wf f w = absurd (omega arith)
  dsl_loop-Gives steps (suc fuel) cur wf f w = elim (Option-cases (nonempty cur)) [
    | inl done ↦ simp (done, dsl_loop) (Gives-some Within _ w)
    | inr (id, at) ↦ elim (Bool-cases (ltb wf.result.iterations max_iterations)) [
      | inr full ↦ simp (at, full, dsl_loop) (Gives-some Within _ w)
      | inl below ↦
          simp (at, below, dsl_loop)
            (behind wf (λ next wf'. dsl_loop hooks max_iterations steps fuel next wf')
              (dsl_round hooks max_iterations steps id wf) (dsl_round-Counts steps id wf)
              (ground (arith, below))
              (λ next wf' p l. dsl_loop-Gives steps fuel next wf' (omega (arith, p, f)) l))
    ]
  ]

  dsl_finish-Within : (out : Handled W) → Within out → Within (dsl_finish hooks max_iterations out)
  unfolding dsl_finish fail_workflow
  dsl_finish-Within (escaped e wf) w = w
  dsl_finish-Within (answered cont wf) w =
      elim (Bool-cases (leb max_iterations wf.result.iterations && is_active wf.result.status)) [
        | inl full ↦ simp (full, dsl_finish) w
        | inr fine ↦ simp (fine, dsl_finish) w
      ]

  -- A run of the executor ends, with a result or with the exception of a hook, and has taken at
  -- most max_iterations steps: fuel for one more round than that is enough.
  pub dsl_run_ends :
      (fuel : ℕ) (steps : List DslStep) (messages : List Message) (variables : Vars)
      (start_step_id : Option String) (env : W)
      → max_iterations < fuel
      → (out : Handled W) × (dsl_run hooks max_iterations fuel steps messages variables
            start_step_id env
          ≡ some out)
        × ((handled_state out).result.iterations ≤ max_iterations)
  unfolding dsl_run
  dsl_run_ends fuel steps messages variables start_step_id env f =
      elim (Option-cases (first_step hooks max_iterations steps start_step_id)) [
        | inl nowhere ↦ (
          answered true (
              fail_workflow "Aucune étape de départ trouvée"
                (begin hooks max_iterations messages variables env)),
          simp (nowhere, dsl_run),
          unfold fail_workflow in omega arith,
        )
        | inr (id, found) ↦
            let g =
              dsl_loop-Gives (steps_by_id steps []) fuel (some id)
                (begin hooks max_iterations messages variables env) (omega (arith, f))
                (omega arith) in
            (
              dsl_finish hooks max_iterations g.value,
              simp (found, g.gives, dsl_run),
              dsl_finish-Within g.value g.holds,
            )
      ]
