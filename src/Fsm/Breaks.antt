-- ===== src/Fsm/Breaks.antt =====
-- Which loops `break` and `continue` reach.
use model_weaver.Base.{
  ℕ, zero, suc, String, Bool, Option, none, some, List, [], ◌∷◌, ◌≡◌, refl, text_eq, Bool-cases,
  Option-cases, inl, inr,
}
use model_weaver.Base.Ends.{Ends, Ends-none, Ends-some, Ends-map, Ends-cases}
use model_weaver.Base.Dict
use model_weaver.Base.Dict.{Dict}
use model_weaver.Fsm.Value.{Value, nonempty}
use model_weaver.Fsm.Step.{StepKeys}
use model_weaver.Fsm.State.{State, Runtime, publish}
use model_weaver.Fsm.Control.{eval_condition}
use model_weaver.Fsm.Graph.{Compiled}
use model_weaver.Fsm.Run.{handler_of}
use model_weaver.Fsm.Loops.{
  Code, broken, stop, Turn, leave, go_on, at_limit, is_running, count_step, publish_step,
  after_handler, body_turn, body_loop, run_body, step_while, after_pass, for_loop, step_for,
  after_block, step_group, step_if,
}

abbrev IsClear : {W : Type 0} → State W → Type 0
IsClear st = st.result.loop_ctl ≡ none

module _ {W : Type 0} (rt : Runtime W) where
  abbrev turn_state : Turn W → State W
  turn_state (leave code st) = st
  turn_state (go_on next st) = st

  abbrev TurnClear : Turn W → Type 0
  TurnClear t = IsClear (turn_state t)

  abbrev OutClear : Code × State W → Type 0
  OutClear out = IsClear out.1

  abbrev StepClear : Bool × State W → Type 0
  StepClear out = IsClear out.1

  -- Whatever the handler set, the round behind it has used up.
  after_handler-IsClear :
      (id : String) (cont : Bool) (st : State W) → TurnClear (after_handler rt id (cont, st))
  unfolding after_handler publish
  after_handler-IsClear id cont st = elim (Option-cases st.result.loop_ctl) [
    | inr (ctl, set) ↦ simp (set, after_handler) refl
    | inl unset ↦ elim (Bool-cases (is_running st.result.status)) [
      | inr over ↦ simp (unset, over, after_handler) refl
      | inl alive ↦ elim (Bool-cases cont) [
        | inr held ↦ simp (unset, alive, held, after_handler) refl
        | inl goes ↦ elim (Bool-cases rt.has_lifecycle) [
          | inl watched ↦ simp (unset, alive, goes, watched, after_handler, publish_step) refl
          | inr alone ↦ simp (unset, alive, goes, alone, after_handler, publish_step) refl
        ]
      ]
    ]
  ]

  body_turn-IsClear :
      (sub : Dict String (Compiled W)) (id : String) (st : State W)
      → IsClear st
      → Ends TurnClear (body_turn rt sub id st)
  unfolding body_turn
  body_turn-IsClear sub id st c = elim (Bool-cases (at_limit rt st)) [
    | inl over ↦ simp (over, body_turn) (Ends-some TurnClear _ c)
    | inr below ↦ elim (Option-cases (Dict.lookup sub id)) [
      | inl missing ↦ simp (below, missing, body_turn) (Ends-some TurnClear _ c)
      | inr (step, found) ↦ elim (Option-cases step.handler) [
        | inl unknown ↦ simp (below, found, unknown, body_turn) (Ends-some TurnClear _ c)
        | inr (h, known) ↦
            simp (below, found, known, body_turn)
              (Ends-map TurnClear (after_handler rt id) (h (count_step rt st))
                (record { at = λ out e. after_handler-IsClear id out.0 out.1 }))
      ]
    ]
  ]

  body_loop-IsClear :
      (sub : Dict String (Compiled W)) (fuel : ℕ) (cur : Option String) (st : State W)
      → IsClear st
      → Ends OutClear (body_loop rt sub fuel cur st)
  unfolding body_loop
  body_loop-IsClear sub zero cur st c = Ends-none OutClear
  body_loop-IsClear sub (suc fuel) cur st c = elim (Option-cases (nonempty cur)) [
    | inl done ↦ simp (done, body_loop) (Ends-some OutClear _ c)
    | inr (id, at) ↦
        simp (at, body_loop)
          (Ends-cases TurnClear
            (λ o. Ends OutClear (elim o [
              | none ↦ none
              | some (leave code st') ↦ some (code, st')
              | some (go_on next st') ↦ body_loop rt sub fuel next st'
            ]))
            (body_turn rt sub id st) (body_turn-IsClear sub id st c) (Ends-none OutClear)
            (elim [
              | leave code st' ↦ λ q. Ends-some OutClear _ q
              | go_on next st' ↦ λ q. body_loop-IsClear sub fuel next st' q
            ]))
  ]

  pub run_body-IsClear :
      (fuel : ℕ) (body : List (Compiled W)) (st : State W)
      → IsClear st
      → Ends OutClear (run_body rt fuel body st)
  unfolding run_body
  run_body-IsClear fuel [] st c = Ends-some OutClear _ c
  run_body-IsClear fuel (s ∷ body) st c = body_loop-IsClear _ fuel _ st c

  after_block-IsClear :
      (s : StepKeys) (out : Code × State W) → OutClear out → StepClear (after_block rt s out)
  unfolding after_block
  after_block-IsClear s (stop, st) c = c
  after_block-IsClear s (_, st) c = c

  after_pass-IsClear :
      (s : StepKeys) (next : State W → Option (Bool × State W)) (o : Option (Code × State W))
      → ((st : State W) → IsClear st → Ends StepClear (next st))
      → Ends OutClear o
      → Ends StepClear (elim o [ none ↦ none | some out ↦ after_pass rt s next out ])
  unfolding after_pass
  after_pass-IsClear s next none more h = Ends-none StepClear
  after_pass-IsClear s next (some (stop, st)) more h = Ends-some StepClear _ (h.at (stop, st) refl)
  after_pass-IsClear s next (some (broken, st)) more h =
      Ends-some StepClear _ (h.at (broken, st) refl)
  after_pass-IsClear s next (some (code, st)) more h = more st (h.at (code, st) refl)

  step_while-IsClear :
      (fuel : ℕ) (s : StepKeys) (body : List (Compiled W)) (st : State W)
      → IsClear st
      → Ends StepClear (step_while rt fuel s body st)
  unfolding step_while
  step_while-IsClear zero s body st c = Ends-none StepClear
  step_while-IsClear (suc fuel) s body st c =
      elim (Bool-cases (eval_condition rt.py s.condition st.result.variables)) [
        | inr over ↦ simp (over, step_while) (Ends-some StepClear _ c)
        | inl holds ↦ elim (Bool-cases (at_limit rt st)) [
          | inl full ↦ simp (holds, full, step_while) (Ends-some StepClear _ c)
          | inr below ↦
              simp (holds, below, step_while)
                (after_pass-IsClear s _ _ (λ st' q. step_while-IsClear fuel s body st' q)
                  (run_body-IsClear (suc fuel) body st c))
        ]
      ]

  for_loop-IsClear :
      (fuel : ℕ) (s : StepKeys) (body : List (Compiled W)) (values : List Value) (st : State W)
      → IsClear st
      → Ends StepClear (for_loop rt fuel s body values st)
  unfolding for_loop
  for_loop-IsClear fuel s body [] st c = Ends-some StepClear _ c
  for_loop-IsClear fuel s body (v ∷ values) st c = elim (Bool-cases (at_limit rt st)) [
    | inl full ↦ simp (full, for_loop) (Ends-some StepClear _ c)
    | inr below ↦
        simp (below, for_loop)
          (after_pass-IsClear s _ _ (λ st' q. for_loop-IsClear fuel s body values st' q)
            (run_body-IsClear fuel body _ c))
  ]

  step_group-IsClear :
      (fuel : ℕ) (s : StepKeys) (body : List (Compiled W)) (st : State W)
      → IsClear st
      → Ends StepClear (step_group rt fuel s body st)
  unfolding step_group
  step_group-IsClear fuel s body st c =
      Ends-map StepClear (after_block rt s) (run_body rt fuel body st) (record {
        at = λ out e. after_block-IsClear s out ((run_body-IsClear fuel body st c).at out e);
      })

  step_if-IsClear :
      (fuel : ℕ) (s : StepKeys) (body : List (Compiled W)) (st : State W)
      → IsClear st
      → Ends StepClear (step_if rt fuel s body st)
  unfolding step_if
  step_if-IsClear fuel s body st c =
      elim (Bool-cases (eval_condition rt.py s.condition st.result.variables)) [
        | inl holds ↦ simp (holds, step_if) (step_group-IsClear fuel s body st c)
        | inr fails ↦ simp (fails, step_if) (Ends-some StepClear _ c)
      ]

-- The types of the steps with a body.
pub data BlockType : Type 0 where
  while_block for_block if_block group_block : BlockType

abbrev pub type_name : BlockType → String
type_name while_block = "while"
type_name for_block = "for"
type_name if_block = "if"
type_name group_block = "group"

module _ {W : Type 0} (rt : Runtime W) where
  abbrev block :
      BlockType → (fuel : ℕ) → StepKeys → List (Compiled W) → State W → Option (Bool × State W)
  block while_block = step_while rt
  block for_block = step_for rt
  block if_block = step_if rt
  block group_block = step_group rt

  handler-block :
      (b : BlockType) (fuel : ℕ) (s : StepKeys) (body : List (Compiled W))
      → s.type ≡ type_name b
      → handler_of rt fuel s body ≡ some (block b fuel s body)
  unfolding handler_of
  handler-block while_block fuel s body e = simp e
  handler-block for_block fuel s body e = simp e
  handler-block if_block fuel s body e = simp e
  handler-block group_block fuel s body e = simp e

  block-IsClear :
      (b : BlockType) (fuel : ℕ) (s : StepKeys) (body : List (Compiled W)) (st : State W)
      → IsClear st
      → Ends (StepClear rt) (block b fuel s body st)
  unfolding step_for
  block-IsClear while_block fuel s body st c = step_while-IsClear rt fuel s body st c
  block-IsClear for_block fuel s body st c = for_loop-IsClear rt fuel s body _ st c
  block-IsClear if_block fuel s body st c = step_if-IsClear rt fuel s body st c
  block-IsClear group_block fuel s body st c = step_group-IsClear rt fuel s body st c

  -- A round that leaves the body does so to stop the workflow.
  abbrev OnlyStops : Turn W → Type 0
  OnlyStops (leave code st) = code ≡ stop
  OnlyStops (go_on next st) = Unit

  after_handler-OnlyStops :
      (id : String) (cont : Bool) (st : State W)
      → IsClear st
      → OnlyStops (after_handler rt id (cont, st))
  unfolding after_handler
  after_handler-OnlyStops id cont st c = elim (Bool-cases (is_running st.result.status)) [
    | inr over ↦ simp (c, over, after_handler) refl
    | inl alive ↦ elim (Bool-cases cont) [
      | inr held ↦ simp (c, alive, held, after_handler) refl
      | inl goes ↦ simp (c, alive, goes, after_handler) tt
    ]
  ]

  -- A while, for, if or group step inside the body of a loop never makes that loop break or
  -- continue, whatever its own body does: the round of such a step goes on to the next step, or
  -- leaves the enclosing body to stop the workflow.
  pub block_keeps_break :
      (b : BlockType) (fuel : ℕ) (s : StepKeys) (body : List (Compiled W))
      (sub : Dict String (Compiled W)) (id : String) (st st' : State W) (code : Code)
      → s.type ≡ type_name b
      → Dict.lookup sub id ≡ some (record { keys = s; handler = handler_of rt fuel s body })
      → IsClear st
      → body_turn rt sub id st ≡ some (leave code st')
      → code ≡ stop
  unfolding body_turn
  block_keeps_break b fuel s body sub id st st' code type found c = round.at (leave code st')
    where
      round : Ends OnlyStops (body_turn rt sub id st)
      round = elim (Bool-cases (at_limit rt st)) [
        | inl over ↦ simp (over, body_turn) (Ends-some OnlyStops _ refl)
        | inr below ↦
            simp (below, found, handler-block b fuel s body type, body_turn)
              (Ends-map OnlyStops (after_handler rt id) (block b fuel s body (count_step rt st))
                (record {
                  at = λ out e.
                      after_handler-OnlyStops id out.0 out.1
                        ((block-IsClear b fuel s body (count_step rt st) c).at out e);
                }))
      ]
