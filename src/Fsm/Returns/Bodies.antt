-- ===== src/Fsm/Returns/Bodies.antt =====
-- A pass through the body of a loop answers, and counts an iteration unless it stops.
use mathlib.Core.Option
use model_weaver.Base.{
  ℕ, zero, suc, ◌≤◌, ◌<◌, ◌+◌, String, Bool, false, Option, none, some, List, [], ◌∷◌, ◌≡◌, refl,
  ◌⊎◌, inl, inr, arith, text_eq, Bool-cases, Option-cases,
}
use model_weaver.Base.Ends.{Gives, Gives-some, Gives-cases}
use model_weaver.Base.Dict
use model_weaver.Base.Dict.{Dict, lookup-AllValues}
use model_weaver.Fsm.Value.{nonempty}
use model_weaver.Fsm.State.{State, Runtime}
use model_weaver.Fsm.Graph.{Compiled, by_id, find_entry_point, keys_of}
use model_weaver.Fsm.Loops.{
  Code, normal, broken, continued, stop, Turn, leave, go_on, at_limit, count_step, after_handler,
  body_turn, body_loop, run_body,
}
use model_weaver.Fsm.Extends.{Extends-refl}
use model_weaver.Fsm.Extends.Handlers.{AllOf, by_id-AllValues}
use model_weaver.Fsm.Extends.Blocks.{turn_state, count_step-Extends, after_handler-Extends}
use model_weaver.Fsm.Returns.{Ready}

-- The workflow is to stop, or goes on within the limit with `n` iterations or more.
abbrev pub Later : {W : Type 0} → (limit n : ℕ) → Code → State W → Type 0
Later limit n normal st = (n ≤ st.result.iterations) × (st.result.iterations ≤ limit)
Later limit n broken st = (n ≤ st.result.iterations) × (st.result.iterations ≤ limit)
Later limit n continued st = (n ≤ st.result.iterations) × (st.result.iterations ≤ limit)
Later limit n stop st = Unit

abbrev TurnLater : {W : Type 0} → (limit n : ℕ) → Turn W → Type 0
TurnLater limit n (leave code st) = Later limit n code st
TurnLater limit n (go_on next st) = Later limit n normal st

abbrev pub OutLater : {W : Type 0} → (limit n : ℕ) → Code × State W → Type 0
OutLater limit n out = Later limit n out.0 out.1

module _ {W : Type 0} (rt : Runtime W) where
  Later-intro :
      (n : ℕ) (code : Code) (st : State W)
      → n ≤ st.result.iterations
      → st.result.iterations ≤ rt.max_iter
      → Later rt.max_iter n code st
  Later-intro n normal st l w = (l, w)
  Later-intro n broken st l w = (l, w)
  Later-intro n continued st l w = (l, w)
  Later-intro n stop st l w = tt

  Later-weaken :
      (m n : ℕ) (code : Code) (st : State W)
      → m ≤ n
      → Later rt.max_iter n code st
      → Later rt.max_iter m code st
  Later-weaken m n normal st l p = (omega (arith, p.0), p.1)
  Later-weaken m n broken st l p = (omega (arith, p.0), p.1)
  Later-weaken m n continued st l p = (omega (arith, p.0), p.1)
  Later-weaken m n stop st l p = tt

  TurnLater-intro :
      (n : ℕ) (t : Turn W)
      → n ≤ (turn_state t).result.iterations
      → (turn_state t).result.iterations ≤ rt.max_iter
      → TurnLater rt.max_iter n t
  TurnLater-intro n (leave code st) l w = Later-intro n code st l w
  TurnLater-intro n (go_on next st) l w = (l, w)

  -- The round with the handler.
  handled :
      (id : String) (c : Compiled W) (st : State W)
      → Ready rt.max_iter c
      → at_limit rt st ≡ false
      → (h : State W → Option (Bool × State W)) → c.handler ≡ some h
      → Gives
          (TurnLater rt.max_iter (suc st.result.iterations))
          (Option.map (after_handler rt id) (h (count_step rt st)))
  handled id c st ready below h known =
      let counted = count_step-Extends rt st below in
      let one : (count_step rt st).result.iterations ≡ suc st.result.iterations =
        unfold count_step in omega arith in
      let within : (count_step rt st).result.iterations ≤ rt.max_iter =
        ground (arith, one, below) in
      let (out, answered) = ready.0.each h (count_step rt st) known within in
      let kept = ready.1.each h (count_step rt st) out known answered in
      let behind =
        after_handler-Extends rt id out.0 out.1 (Extends-refl {limit = rt.max_iter} out.1) in
      rw answered (
        Gives-some _ _ (
          TurnLater-intro _ (after_handler rt id out) (omega (arith, one, kept.count, behind.count))
            (behind.within (kept.within within))))

  body_turn-Gives :
      (sub : Dict String (Compiled W)) (id : String) (st : State W)
      → Dict.AllValues (Ready rt.max_iter) sub
      → Gives (TurnLater rt.max_iter (suc st.result.iterations)) (body_turn rt sub id st)
  unfolding body_turn
  body_turn-Gives sub id st k = elim (Bool-cases (at_limit rt st)) [
    | inl over ↦ simp (over, body_turn) (Gives-some _ _ tt)
    | inr below ↦ elim (Option-cases (Dict.lookup sub id)) [
      | inl missing ↦ simp (below, missing, body_turn) (Gives-some _ _ tt)
      | inr (c, found) ↦ elim (Option-cases c.handler) [
        | inl unknown ↦ simp (below, found, unknown, body_turn) (Gives-some _ _ tt)
        | inr (h, known) ↦
            simp (below, found, known, body_turn)
              (handled id c st (lookup-AllValues (Ready rt.max_iter) sub id k found) below h known)
      ]
    ]
  ]

  -- Where a pass stands when it has to reach `n` iterations: there already, or one before, with
  -- a step to take.
  abbrev Start : (n : ℕ) → Option String → State W → Type 0
  Start n cur st =
      (n ≤ st.result.iterations)
      ⊎ ((n ≤ suc st.result.iterations) × ((id : String) × (nonempty cur ≡ some id)))

  Start-done :
      (n : ℕ) (cur : Option String) (st : State W)
      → nonempty cur ≡ none
      → Start n cur st
      → n ≤ st.result.iterations
  Start-done n cur st done (inl l) = l
  Start-done n cur st done (inr (l, (id, at))) = absurd cc

  Start-next :
      (n : ℕ) (cur : Option String) (st : State W) → Start n cur st → n ≤ suc st.result.iterations
  Start-next n cur st (inl l) = omega (arith, l)
  Start-next n cur st (inr (l, at)) = l

  body_loop-Gives :
      (sub : Dict String (Compiled W)) (fuel : ℕ) (cur : Option String) (n : ℕ) (st : State W)
      → Dict.AllValues (Ready rt.max_iter) sub
      → rt.max_iter < fuel + st.result.iterations
      → st.result.iterations ≤ rt.max_iter
      → Start n cur st
      → Gives (OutLater rt.max_iter n) (body_loop rt sub fuel cur st)
  unfolding body_loop
  body_loop-Gives sub zero cur n st k f w s = absurd (omega arith)
  body_loop-Gives sub (suc fuel) cur n st k f w s = elim (Option-cases (nonempty cur)) [
    | inl done ↦ simp (done, body_loop) (Gives-some _ _ (Start-done n cur st done s, w))
    | inr (id, at) ↦
        simp (at, body_loop)
          (Gives-cases (TurnLater rt.max_iter (suc st.result.iterations))
            (λ o. Gives (OutLater rt.max_iter n) (elim o [
              | none ↦ none
              | some (leave code st') ↦ some (code, st')
              | some (go_on next st') ↦ body_loop rt sub fuel next st'
            ]))
            (body_turn rt sub id st) (body_turn-Gives sub id st k)
            (elim [
              | leave code st' ↦
                  λ e q. Gives-some _ _ (Later-weaken n _ code st' (Start-next n cur st s) q)
              | go_on next st' ↦ λ e q.
                  body_loop-Gives sub fuel next n st' k (omega (arith, f, q.0)) q.1
                    (inl (omega (arith, Start-next n cur st s, q.0)))
            ]))
  ]

  -- A pass through the body from a state within the limit.
  pub run_body-Gives :
      (fuel : ℕ) (body : List (Compiled W)) (n : ℕ) (st : State W)
      → AllOf (Ready rt.max_iter) body
      → rt.max_iter < fuel + st.result.iterations
      → st.result.iterations ≤ rt.max_iter
      → Start n (find_entry_point (keys_of body)) st
      → Gives (OutLater rt.max_iter n) (run_body rt fuel body st)
  unfolding run_body
  run_body-Gives fuel [] n st k f w s = Gives-some _ _ (Start-done n none st refl s, w)
  run_body-Gives fuel (c ∷ cs) n st k f w s =
      body_loop-Gives (by_id (c ∷ cs) []) fuel _ n st
        (by_id-AllValues (Ready rt.max_iter) (c ∷ cs) [] k tt) f w s
