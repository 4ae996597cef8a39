-- ===== src/Fsm/Loops.antt =====
-- The handlers with a nested body: while, for, if and group, and one pass through a body.
use model_weaver.Base.{
  ℕ, zero, suc, ◌+◌, String, ◌+s◌, Bool, true, false, Option, none, some, List, [], ◌∷◌, map, leb,
  if◌then◌else◌, text_eq,
}
use model_weaver.Base.Dict
use model_weaver.Base.Dict.{Dict}
use model_weaver.Base.Int.{ℤ, pos, range}
use model_weaver.Fsm.Value.{Value, int, text, arr, Vars, Python, str, nonempty}
use mathlib.Core.Option
use model_weaver.Fsm.Value
use model_weaver.Fsm.Step.{StepKeys}
use model_weaver.Fsm.State.{
  Status, running, LoopCtl, break, continue, State, post_step, Runtime, on_result, fail, goto,
  set_var, publish,
}
use model_weaver.Fsm.Control.{eval_condition, default_to}
use model_weaver.Fsm.Graph.{Compiled, keys_of, find_entry_point, by_id}

-- What `_run_body` answers.
pub data Code : Type 0 where
  normal broken continued stop : Code

-- How one round of its loop ends.
pub data Turn (W : Type 0) : Type 0 where
  leave : Code → State W → Turn W
  go_on : (next : Option String) → State W → Turn W

abbrev pub is_running : Status → Bool
is_running running = true
is_running _ = false

module _ {W : Type 0} (rt : Runtime W) where
  unfoldable pub limit_message : String
  unfolding str
  limit_message = "Limite d'itérations atteinte (" +s str rt.py (int (pos rt.max_iter)) +s ")"

  abbrev pub at_limit : State W → Bool
  at_limit st = leb rt.max_iter st.result.iterations

  -- result.iterations += 1; result.next_step_id = None
  unfoldable pub count_step : State W → State W
  count_step st =
      on_result st
        (λ result. record result { iterations = result.iterations + 1; next_step_id = none })

  unfoldable pub publish_step : String → State W → State W
  unfolding publish
  publish_step id st =
      if rt.has_lifecycle
      then publish (post_step id st.result.status st.result.variables) st
      else st

  unfoldable pub clear_ctl : State W → State W
  clear_ctl st = on_result st (λ result. record result { loop_ctl = none })

  abbrev code_of : LoopCtl → Code
  code_of break = broken
  code_of continue = continued

  -- The lines behind the call of the handler.
  unfoldable pub after_handler : String → Bool × State W → Turn W
  unfolding publish_step clear_ctl
  after_handler id (cont, st) = elim st.result.loop_ctl [
    | some ctl ↦ leave (code_of ctl) (clear_ctl st)
    | none ↦
        if is_running st.result.status
        then (if cont
            then (let st' = publish_step id st in go_on st'.result.next_step_id st')
            else leave stop st)
        else leave stop st
  ]

  -- The round for the step `id`: nothing, if the fuel of a loop in its handler is used up.
  unfoldable pub body_turn : Dict String (Compiled W) → String → State W → Option (Turn W)
  unfolding fail count_step limit_message after_handler
  body_turn sub id st = elim (at_limit st) [
    | true ↦ some (leave stop (fail limit_message st))
    | false ↦ elim (Dict.lookup sub id) [
      | none ↦ some (leave stop (fail ("Étape '" +s id +s "' introuvable (corps de boucle)") st))
      | some c ↦ elim c.handler [
        | none ↦ some (leave stop (fail ("Type d'étape inconnu: " +s c.keys.type) (count_step st)))
        | some handler ↦ Option.map (after_handler id) (handler (count_step st))
      ]
    ]
  ]

  unfoldable pub body_loop :
      Dict String (Compiled W)
      → (fuel : ℕ) → (cur : Option String) → State W
      → Option (Code × State W)
  body_loop sub zero cur st = none
  body_loop sub (suc fuel) cur st = elim (nonempty cur) [
    | none ↦ some (normal, st)
    | some id ↦ elim (body_turn sub id st) [
      | none ↦ none
      | some (leave code st') ↦ some (code, st')
      | some (go_on next st') ↦ body_loop sub fuel next st'
    ]
  ]

  -- FSMInterpreter._run_body
  unfoldable pub run_body : (fuel : ℕ) → List (Compiled W) → State W → Option (Code × State W)
  unfolding body_loop by_id find_entry_point
  run_body fuel [] st = some (normal, st)
  run_body fuel (c ∷ cs) st =
      body_loop (by_id (c ∷ cs) []) fuel (find_entry_point (keys_of (c ∷ cs))) st

  -- What the loops do with the code of a pass through the body.
  unfoldable pub after_pass :
      StepKeys
      → (again : State W → Option (Bool × State W)) → Code × State W
      → Option (Bool × State W)
  unfolding goto
  after_pass step again (stop, st) = some (false, st)
  after_pass step again (broken, st) = some (true, goto step.next st)
  after_pass step again (_, st) = again st

  -- FSMInterpreter._step_while
  unfoldable pub step_while :
      (fuel : ℕ) → StepKeys → List (Compiled W) → State W → Option (Bool × State W)
  unfolding fail goto eval_condition limit_message after_pass
  step_while zero step body st = none
  step_while (suc fuel) step body st =
      elim (eval_condition rt.py step.condition st.result.variables) [
        | false ↦ some (true, goto step.next st)
        | true ↦ elim (at_limit st) [
          | true ↦ some (false, fail limit_message st)
          | false ↦ elim (run_body (suc fuel) body st) [
            | none ↦ none
            | some out ↦ after_pass step (step_while fuel step body) out
          ]
        ]
      ]

  -- The loop of `_step_for` over its values.
  unfoldable pub for_loop :
      (fuel : ℕ) → StepKeys → List (Compiled W) → List Value → State W → Option (Bool × State W)
  unfolding fail goto set_var limit_message after_pass
  for_loop fuel step body [] st = some (true, goto step.next st)
  for_loop fuel step body (v ∷ values) st = elim (at_limit st) [
    | true ↦ some (false, fail limit_message st)
    | false ↦ elim (run_body fuel body (set_var (default_to step.var "i") v st)) [
      | none ↦ none
      | some out ↦ after_pass step (for_loop fuel step body values) out
    ]
  ]

  abbrev list_values : Value → List Value
  list_values (arr vs) = Value.items vs
  list_values _ = []

  abbrev named_items : Vars → Option Value → List Value
  named_items variables none = []
  named_items variables (some (text s)) = elim (Dict.lookup variables (rt.py.strip_braces s)) [
    | none ↦ []
    | some v ↦ list_values v
  ]
  named_items variables (some v) = list_values v

  -- _num(step.get(key, d), d)
  abbrev num_or : Option Value → ℤ → ℤ
  num_or none d = d
  num_or (some v) d = elim (rt.py.int_of v) [ none ↦ d | some n ↦ n ]

  -- stride or 1
  abbrev nonzero : ℤ → ℤ
  nonzero (pos zero) = pos 1
  nonzero n = n

  unfoldable pub for_values : StepKeys → Vars → List Value
  unfolding range Value.items
  for_values step variables = elim step.items [
    | some v ↦ named_items variables (some v)
    | none ↦ map int (
        range (num_or step.start (pos 0)) (num_or step.end (pos 0))
          (nonzero (num_or step.stride (pos 1))))
  ]

  -- FSMInterpreter._step_for
  unfoldable pub step_for :
      (fuel : ℕ) → StepKeys → List (Compiled W) → State W → Option (Bool × State W)
  unfolding for_loop for_values
  step_for fuel step body st = for_loop fuel step body (for_values step st.result.variables) st

  unfoldable pub after_block : StepKeys → Code × State W → Bool × State W
  unfolding goto
  after_block step (stop, st) = (false, st)
  after_block step (_, st) = (true, goto step.next st)

  -- FSMInterpreter._step_group
  unfoldable pub step_group :
      (fuel : ℕ) → StepKeys → List (Compiled W) → State W → Option (Bool × State W)
  unfolding after_block
  step_group fuel step body st = Option.map (after_block step) (run_body fuel body st)

  -- FSMInterpreter._step_if
  unfoldable pub step_if :
      (fuel : ℕ) → StepKeys → List (Compiled W) → State W → Option (Bool × State W)
  unfolding step_group eval_condition goto
  step_if fuel step body st = elim (eval_condition rt.py step.condition st.result.variables) [
    | true ↦ step_group fuel step body st
    | false ↦ some (true, goto step.next st)
  ]
