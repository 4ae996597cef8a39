-- ===== src/Fsm/Returns/Blocks.antt =====
-- Every handler of a compiled workflow answers.
use model_weaver.Base.{
  ℕ, zero, suc, ◌≤◌, ◌<◌, ◌+◌, String, Bool, true, false, ◌&&◌, Option, none, some, List, [], ◌∷◌,
  ◌≡◌, refl, inl, inr, arith, ◌==◌, text_eq, Bool-cases, Option-cases, ap, ◌∙◌,
}
use model_weaver.Base.Ends.{Gives, Gives-some, Gives-cases}
use model_weaver.Fsm.Value.{Value, nonempty}
use model_weaver.Fsm.Step.{StepKeys, Step, step, Body, Steps}
use model_weaver.Fsm.State.{State, Runtime, set_var}
use model_weaver.Fsm.Control.{eval_condition, default_to}
use model_weaver.Fsm.Graph.{Compiled, find_entry_point, keys_of}
use model_weaver.Fsm.Loops.{
  Code, normal, broken, continued, stop, at_limit, step_while, after_pass, for_loop, step_for,
  step_group, step_if,
}
use model_weaver.Fsm.Run.{handler_of, compile_step, compile_body, compile_steps}
use model_weaver.Fsm.Extends.Handlers.{AllOf, AllKeep}
use model_weaver.Fsm.Extends.Blocks.{handler_of-Keeps}
use model_weaver.Fsm.Returns.{
  Ready, Answers, Answers-if, Answers-some, simple_handler-Answers, has_start, step_starts,
  body_starts, whiles_start, keys_of-compile_body,
}
use model_weaver.Fsm.Returns.Bodies.{OutLater, run_body-Gives}

module _ {W : Type 0} (rt : Runtime W) where
  abbrev Answered : Option (Bool × State W) → Type 0
  Answered o = Gives (λ out. Unit) o

  after_pass-Gives :
      (n : ℕ) (s : StepKeys) (next : State W → Option (Bool × State W)) (out : Code × State W)
      → OutLater rt.max_iter n out
      → ((st : State W)
          → n ≤ st.result.iterations
          → st.result.iterations ≤ rt.max_iter
          → Answered (next st))
      → Answered (after_pass rt s next out)
  unfolding after_pass
  after_pass-Gives n s next (stop, st) l more = Gives-some _ _ tt
  after_pass-Gives n s next (broken, st) l more = Gives-some _ _ tt
  after_pass-Gives n s next (normal, st) l more = more st l.0 l.1
  after_pass-Gives n s next (continued, st) l more = more st l.0 l.1

  -- A pass and what follows it.
  pass-Gives :
      (n : ℕ) (s : StepKeys) (next : State W → Option (Bool × State W))
      (out : Option (Code × State W))
      → Gives (OutLater rt.max_iter n) out
      → ((st : State W)
          → n ≤ st.result.iterations
          → st.result.iterations ≤ rt.max_iter
          → Answered (next st))
      → Answered (elim out [ none ↦ none | some o ↦ after_pass rt s next o ])
  pass-Gives n s next out g more =
      Gives-cases (OutLater rt.max_iter n)
        (λ o. Answered (elim o [ none ↦ none | some o ↦ after_pass rt s next o ])) out g
        (λ o e l. after_pass-Gives n s next o l more)

  step_while-Gives :
      (fuel : ℕ) (s : StepKeys) (body : List (Compiled W)) (st : State W)
      → AllOf (Ready rt.max_iter) body
      → (id : String) → nonempty (find_entry_point (keys_of body)) ≡ some id
      → rt.max_iter < fuel + st.result.iterations
      → st.result.iterations ≤ rt.max_iter
      → Answered (step_while rt fuel s body st)
  unfolding step_while
  step_while-Gives zero s body st k id at f w = absurd (omega arith)
  step_while-Gives (suc fuel) s body st k id at f w =
      elim (Bool-cases (eval_condition rt.py s.condition st.result.variables)) [
        | inr over ↦ simp (over, step_while) (Gives-some _ _ tt)
        | inl holds ↦ elim (Bool-cases (at_limit rt st)) [
          | inl full ↦ simp (holds, full, step_while) (Gives-some _ _ tt)
          | inr below ↦
              simp (holds, below, step_while)
                (pass-Gives (suc st.result.iterations) s _ _
                  (run_body-Gives rt (suc fuel) body _ st k f w (inr (omega arith, (id, at))))
                  (λ st' l w'. step_while-Gives fuel s body st' k id at (omega (arith, l, f)) w'))
        ]
      ]

  for_loop-Gives :
      (fuel : ℕ) (s : StepKeys) (body : List (Compiled W)) (values : List Value) (st : State W)
      → AllOf (Ready rt.max_iter) body
      → rt.max_iter < fuel
      → st.result.iterations ≤ rt.max_iter
      → Answered (for_loop rt fuel s body values st)
  unfolding for_loop
  for_loop-Gives fuel s body [] st k f w = Gives-some _ _ tt
  for_loop-Gives fuel s body (v ∷ values) st k f w = elim (Bool-cases (at_limit rt st)) [
    | inl full ↦ simp (full, for_loop) (Gives-some _ _ tt)
    | inr below ↦
        simp (below, for_loop)
          (pass-Gives 0 s _ _
            (run_body-Gives rt fuel body 0 (set_var (default_to s.var "i") v st) k
              (unfold set_var in omega (arith, f)) (unfold set_var in w) (inl (omega arith)))
            (λ st' l w'. for_loop-Gives fuel s body values st' k f w'))
  ]

  step_group-Gives :
      (fuel : ℕ) (s : StepKeys) (body : List (Compiled W)) (st : State W)
      → AllOf (Ready rt.max_iter) body
      → rt.max_iter < fuel
      → st.result.iterations ≤ rt.max_iter
      → Answered (step_group rt fuel s body st)
  unfolding step_group
  step_group-Gives fuel s body st k f w =
      let g = run_body-Gives rt fuel body 0 st k (omega (arith, f)) w (inl (omega arith)) in
      rw g.gives (Gives-some _ _ tt)

  step_if-Gives :
      (fuel : ℕ) (s : StepKeys) (body : List (Compiled W)) (st : State W)
      → AllOf (Ready rt.max_iter) body
      → rt.max_iter < fuel
      → st.result.iterations ≤ rt.max_iter
      → Answered (step_if rt fuel s body st)
  unfolding step_if
  step_if-Gives fuel s body st k f w =
      elim (Bool-cases (eval_condition rt.py s.condition st.result.variables)) [
        | inl holds ↦ simp (holds, step_if) (step_group-Gives fuel s body st k f w)
        | inr fails ↦ simp (fails, step_if) (Gives-some _ _ tt)
      ]

  to_Answers :
      (h : State W → Option (Bool × State W))
      → ((st : State W) → st.result.iterations ≤ rt.max_iter → Answered (h st))
      → Answers rt.max_iter (some h)
  to_Answers h f = Answers-some rt.max_iter h (λ st w. let g = f st w in (g.value, g.gives))

  handler_of-Answers :
      (fuel : ℕ) (s : StepKeys) (body : List (Compiled W))
      → rt.max_iter < fuel
      → AllOf (Ready rt.max_iter) body
      → ((s.type == "while") ≡ true → has_start (keys_of body) ≡ true)
      → Answers rt.max_iter (handler_of rt fuel s body)
  unfolding handler_of step_for has_start
  handler_of-Answers fuel s body f k starts =
      Answers-if rt.max_iter (s.type == "while") _ _
        (λ loops. to_Answers _ (λ st w.
          elim (Option-cases (nonempty (find_entry_point (keys_of body)))) [
            | inl nowhere ↦ absurd (let q = starts loops in ground (arith, nowhere, q))
            | inr (id, at) ↦ step_while-Gives fuel s body st k id at (omega (arith, f)) w
          ]))
        (Answers-if rt.max_iter (s.type == "for") _ _
          (λ _. to_Answers _ (λ st w. for_loop-Gives fuel s body _ st k f w))
          (Answers-if rt.max_iter (s.type == "if") _ _
            (λ _. to_Answers _ (λ st w. step_if-Gives fuel s body st k f w))
            (Answers-if rt.max_iter (s.type == "group") _ _
              (λ _. to_Answers _ (λ st w. step_group-Gives fuel s body st k f w))
              (simple_handler-Answers rt rt.max_iter fuel s))))

AllReady-AllKeep :
    {W : Type 0} (limit : ℕ) (cs : List (Compiled W)) → AllOf (Ready limit) cs → AllKeep limit cs
AllReady-AllKeep limit [] k = tt
AllReady-AllKeep limit (c ∷ cs) k = (k.0.1, AllReady-AllKeep limit cs k.1)

both : (a b : Bool) → (a && b) ≡ true → (a ≡ true) × (b ≡ true)
both true b e = (refl, e)
both false b e = absurd cc

mutual
  unfolding compile_step compile_body compile_steps step_starts body_starts whiles_start

  compile_step-Ready :
      {W : Type 0} (rt : Runtime W) (fuel : ℕ) (s : Step)
      → rt.max_iter < fuel
      → step_starts s ≡ true
      → Ready rt.max_iter (compile_step rt fuel s)
  compile_step-Ready rt fuel (step s body) f e =
      let k = compile_body-Ready rt fuel body f (both _ (body_starts body) e).1 in
      (
        handler_of-Answers rt fuel s _ f k (λ loops.
            ap has_start (keys_of-compile_body rt fuel body)
            ∙ ground (arith, loops, (both _ (body_starts body) e).0)),
        handler_of-Keeps rt fuel s _ (AllReady-AllKeep rt.max_iter _ k),
      )

  compile_body-Ready :
      {W : Type 0} (rt : Runtime W) (fuel : ℕ) (b : Body)
      → rt.max_iter < fuel
      → body_starts b ≡ true
      → AllOf (Ready rt.max_iter) (compile_body rt fuel b)
  compile_body-Ready rt fuel Body.no_body f e = tt
  compile_body-Ready rt fuel (Body.wrapped steps) f e = compile_steps-Ready rt fuel steps f e
  compile_body-Ready rt fuel (Body.plain steps) f e = compile_steps-Ready rt fuel steps f e

  pub compile_steps-Ready :
      {W : Type 0} (rt : Runtime W) (fuel : ℕ) (steps : Steps)
      → rt.max_iter < fuel
      → whiles_start steps ≡ true
      → AllOf (Ready rt.max_iter) (compile_steps rt fuel steps)
  compile_steps-Ready rt fuel Steps.nil f e = tt
  compile_steps-Ready rt fuel (Steps.cons s steps) f e =
      let p = both (step_starts s) (whiles_start steps) e in
      (compile_step-Ready rt fuel s f p.0, compile_steps-Ready rt fuel steps f p.1)
