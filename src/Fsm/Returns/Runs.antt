-- ===== src/Fsm/Returns/Runs.antt =====
-- Runs with enough fuel answer.
use mathlib.Core.Option
use model_weaver.Base.{
  ℕ, zero, suc, ◌≤◌, ◌<◌, ◌+◌, String, Bool, true, false, Option, none, some, List, [], ◌≡◌, arith,
  text_eq, Bool-cases, Option-cases, inl, inr, ltb,
}
use model_weaver.Base.Ends.{Gives, Gives-some, Gives-cases}
use model_weaver.Base.Dict
use model_weaver.Base.Dict.{Dict, lookup-AllValues}
use model_weaver.Fsm.Value.{Vars, nonempty}
use model_weaver.Fsm.Step.{Steps}
use model_weaver.Fsm.State.{Message, Signal, State, Runtime}
use model_weaver.Fsm.Graph.{Compiled, by_id, find_entry_point, keys_of}
use model_weaver.Fsm.Loops.{count_step}
use model_weaver.Fsm.Run.{
  Round, finished, again, poll, proceed, after_step, take_step, main_round, main_loop, finish,
  run_from, start, run,
}
use model_weaver.Fsm.Extends.{Extends-refl}
use model_weaver.Fsm.Extends.Handlers.{AllOf, by_id-AllValues}
use model_weaver.Fsm.Extends.Runs.{after_step-Extends, round_state}
use model_weaver.Fsm.Returns.{Ready, whiles_start}
use model_weaver.Fsm.Returns.Blocks.{compile_steps-Ready}

abbrev Whatever : {A : Type 0} → A → Type 0
Whatever a = Unit

-- The run is over, or goes on within the limit with `n` iterations or more.
abbrev RoundLater : {W : Type 0} → (limit n : ℕ) → Round W → Type 0
RoundLater limit n (finished cur st) = Unit
RoundLater limit n (again cur st) = (n ≤ st.result.iterations) × (st.result.iterations ≤ limit)

module _ {W : Type 0} (rt : Runtime W) where
  RoundLater-intro :
      (n : ℕ) (r : Round W)
      → n ≤ (round_state r).result.iterations
      → (round_state r).result.iterations ≤ rt.max_iter
      → RoundLater rt.max_iter n r
  RoundLater-intro n (finished cur st) l w = tt
  RoundLater-intro n (again cur st) l w = (l, w)

  taken :
      (id : String) (c : Compiled W) (st : State W)
      → Ready rt.max_iter c
      → ltb st.result.iterations rt.max_iter ≡ true
      → (h : State W → Option (Bool × State W)) → c.handler ≡ some h
      → Gives
          (RoundLater rt.max_iter (suc st.result.iterations))
          (Option.map (after_step rt id) (h (count_step rt st)))
  taken id c st ready below h known =
      let one : (count_step rt st).result.iterations ≡ suc st.result.iterations =
        unfold count_step in omega arith in
      let within : (count_step rt st).result.iterations ≤ rt.max_iter =
        ground (arith, one, below) in
      let (out, answered) = ready.0.each h (count_step rt st) known within in
      let kept = ready.1.each h (count_step rt st) out known answered in
      let behind =
        after_step-Extends rt id out.1 out.0 out.1 (Extends-refl {limit = rt.max_iter} out.1) in
      rw answered (
        Gives-some _ _ (
          RoundLater-intro _ (after_step rt id out) (omega (arith, one, kept.count, behind.count))
            (behind.within (kept.within within))))

  take_step-Gives :
      (steps : Dict String (Compiled W)) (id : String) (st : State W)
      → Dict.AllValues (Ready rt.max_iter) steps
      → ltb st.result.iterations rt.max_iter ≡ true
      → Gives (RoundLater rt.max_iter (suc st.result.iterations)) (take_step rt steps id st)
  unfolding take_step
  take_step-Gives steps id st k below = elim (Option-cases (Dict.lookup steps id)) [
    | inl missing ↦ simp (missing, take_step) (Gives-some _ _ tt)
    | inr (c, found) ↦ elim (Option-cases c.handler) [
      | inl unknown ↦ simp (found, unknown, take_step) (Gives-some _ _ tt)
      | inr (h, known) ↦
          simp (found, known, take_step)
            (taken id c st (lookup-AllValues (Ready rt.max_iter) steps id k found) below h known)
    ]
  ]

  abbrev LoopDone : Option (Option String × State W) → Type 0
  LoopDone o = Gives {A = Option String × State W} Whatever o

  deaf_poll : (st : State W) → rt.has_signal_check ≡ false → poll rt st ≡ some (proceed st)
  unfolding poll
  deaf_poll st deaf = simp (deaf, poll)

  deaf_round :
      (steps : Dict String (Compiled W)) (id : String) (st : State W)
      → rt.has_signal_check ≡ false
      → main_round rt steps id st ≡ take_step rt steps id st
  unfolding main_round
  deaf_round steps id st deaf = simp (deaf_poll st deaf, main_round)

  main_loop-Gives :
      (steps : Dict String (Compiled W)) (fuel : ℕ) (cur : Option String) (st : State W)
      → rt.has_signal_check ≡ false
      → Dict.AllValues (Ready rt.max_iter) steps
      → rt.max_iter < fuel + st.result.iterations
      → st.result.iterations ≤ rt.max_iter
      → LoopDone (main_loop rt steps fuel cur st)
  unfolding main_loop
  main_loop-Gives steps zero cur st deaf k f w = absurd (omega arith)
  main_loop-Gives steps (suc fuel) cur st deaf k f w = elim (Option-cases (nonempty cur)) [
    | inl done ↦ simp (done, main_loop) (Gives-some _ _ tt)
    | inr (id, at) ↦ elim (Bool-cases (ltb st.result.iterations rt.max_iter)) [
      | inr full ↦ simp (at, full, main_loop) (Gives-some _ _ tt)
      | inl below ↦
          simp (at, below, main_loop)
            (Gives-cases (RoundLater rt.max_iter (suc st.result.iterations))
              (λ o. LoopDone (elim o [
                | none ↦ none
                | some (finished cur' st') ↦ some (cur', st')
                | some (again cur' st') ↦ main_loop rt steps fuel cur' st'
              ]))
              (main_round rt steps id st)
              (rw (deaf_round steps id st deaf) (take_step-Gives steps id st k below))
              (elim [
                | finished cur' st' ↦
                    λ e q. Gives-some (Whatever {A = Option String × State W}) (cur', st') tt
                | again cur' st' ↦
                    λ e q. main_loop-Gives steps fuel cur' st' deaf k (omega (arith, f, q.0)) q.1
              ]))
    ]
  ]

  finish-Gives :
      (o : Option (Option String × State W)) → Gives Whatever o → Gives Whatever (finish rt o)
  finish-Gives o g = rw g.gives (Gives-some _ _ tt)

  run_from-Gives :
      (fuel : ℕ) (steps : List (Compiled W)) (start_step_id : Option String) (st : State W)
      → rt.has_signal_check ≡ false
      → rt.max_iter < fuel
      → AllOf (Ready rt.max_iter) steps
      → st.result.iterations ≤ rt.max_iter
      → Gives Whatever (run_from rt fuel steps start_step_id st)
  unfolding run_from
  run_from-Gives fuel steps start_step_id st deaf f k w =
      elim (Option-cases (nonempty start_step_id)) [
        | inr (id, given) ↦ simp (given, run_from) (loop id)
        | inl absent ↦ elim (Option-cases (nonempty (find_entry_point (keys_of steps)))) [
          | inr (id, found) ↦ simp (absent, found, run_from) (loop id)
          | inl nowhere ↦ simp (absent, nowhere, run_from) (Gives-some _ _ tt)
        ]
      ]
    where
      loop :
          (id : String)
          → Gives Whatever (finish rt (main_loop rt (by_id steps []) fuel (some id) st))
      loop id = finish-Gives _ (
          main_loop-Gives (by_id steps []) fuel (some id) st deaf
            (by_id-AllValues (Ready rt.max_iter) steps [] k tt) (omega (arith, f)) w)

-- A run without signals, of a workflow in which the body of every while has a step to start at,
-- ends: fuel for one more round than max_iter is enough, for the main loop and for all loops
-- inside it.
pub run_returns :
    {W : Type 0} (rt : Runtime W) (fuel : ℕ) (steps : Steps) (messages : List Message)
    (variables : Vars) (start_step_id : Option String) (env : W) (signals : List (List Signal))
    → rt.has_signal_check ≡ false
    → rt.max_iter < fuel
    → whiles_start steps ≡ true
    → (st : State W) × (run rt fuel steps messages variables start_step_id env signals ≡ some st)
unfolding run
run_returns rt fuel steps messages variables start_step_id env signals deaf f starts =
    let g =
      run_from-Gives rt fuel _ start_step_id (start rt messages variables env signals) deaf f
        (compile_steps-Ready rt fuel steps f starts) (omega arith) in
    (g.value, g.gives)
