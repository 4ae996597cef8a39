-- ===== src/Fsm/Extends/Runs.antt =====
-- The main loop of the interpreter: what a whole run keeps.
use model_weaver.Base.{
  ℕ, zero, suc, ◌≤◌, String, Bool, true, false, ◌&&◌, Option, none, some, List, [], ◌∷◌, ◌++◌, ◌≡◌,
  refl, arith, if◌then◌else◌, ltb, text_eq, Bool-cases, Option-cases, inl, inr,
}
use model_weaver.Base.Ends.{Ends, Ends-none, Ends-some, Ends-map, Ends-cases}
use model_weaver.Base.Dict
use model_weaver.Base.Dict.{Dict, lookup-AllValues}
use model_weaver.Fsm.Value.{Vars, nonempty}
use model_weaver.Fsm.Step.{Steps}
use model_weaver.Fsm.State.{Message, Signal, State, Runtime, check_signals}
use model_weaver.Fsm.Graph.{Compiled, by_id, keys_of, find_entry_point}
use model_weaver.Fsm.Loops.{at_limit, is_running, count_step}
use model_weaver.Fsm.Run.{
  Round, finished, again, Poll, proceed, retry, interrupted, wait_paused, poll, after_step,
  take_step, main_round, main_loop, check_limit, is_error, final_hooks, finish, run_from, run,
}
use model_weaver.Fsm.Extends.{
  Extends, Extends-refl, Extends-trans, Extends-fail, Extends-publish, Waits, Waits-refl,
  check_signals-Waits, Grows-split,
}
use model_weaver.Fsm.Extends.Handlers.{CompiledKeeps, AllKeep, by_id-AllValues}
use model_weaver.Fsm.Extends.Blocks.{count_step-Extends, publish_step-Extends, compile_steps-Keeps}

abbrev pub round_state : {W : Type 0} → Round W → State W
round_state (finished cur st) = st
round_state (again cur st) = st

abbrev poll_state : {W : Type 0} → Poll W → State W
poll_state (proceed st) = st
poll_state (retry st) = st
poll_state (interrupted st) = st

module _ {W : Type 0} (rt : Runtime W) where
  abbrev Ext : State W → State W → Type 0
  Ext = Extends rt.max_iter

  abbrev PollFrom : State W → Poll W → Type 0
  PollFrom a p = Waits rt.max_iter a (poll_state p)

  abbrev RoundFrom : State W → Round W → Type 0
  RoundFrom a r = Ext a (round_state r)

  pub wait_paused-Waits :
      (batches : List (List Signal)) (a st : State W)
      → Waits rt.max_iter a st
      → Ends (Waits rt.max_iter a) (wait_paused rt batches st)
  unfolding wait_paused
  wait_paused-Waits [] a st p =
      elim (Bool-cases (st.result.paused && is_running st.result.status)) [
        | inl waits ↦ simp (waits, wait_paused) (Ends-none (Waits rt.max_iter a))
        | inr goes ↦ simp (goes, wait_paused) (Ends-some (Waits rt.max_iter a) st p)
      ]
  wait_paused-Waits (batch ∷ later) a st p =
      elim (Bool-cases (st.result.paused && is_running st.result.status)) [
        | inl waits ↦
            simp (waits, wait_paused)
              (wait_paused-Waits later a _ (check_signals-Waits (batch ∷ later) st p))
        | inr goes ↦ simp (goes, wait_paused) (Ends-some (Waits rt.max_iter a) st p)
      ]

  poll-Waits : (st : State W) → Ends (PollFrom st) (poll rt st)
  unfolding poll
  poll-Waits st = elim (Bool-cases rt.has_signal_check) [
    | inr deaf ↦ simp (deaf, poll) (Ends-some (PollFrom st) (proceed st) (Waits-refl st))
    | inl listening ↦ elim (Bool-cases (check_signals st).result.paused) [
      | inr goes ↦
          simp (listening, goes, poll)
            (Ends-some (PollFrom st) (proceed (check_signals st))
              (check_signals-Waits st.signals st (Waits-refl st)))
      | inl waits ↦
          simp (listening, waits, poll)
            (Ends-cases (Waits rt.max_iter st)
              (λ o. Ends (PollFrom st) (elim o [
                | none ↦ none
                | some st'' ↦
                    some (if is_running st''.result.status then retry st'' else interrupted st'')
              ]))
              (wait_paused rt (check_signals st).signals (check_signals st))
              (wait_paused-Waits _ st _ (check_signals-Waits st.signals st (Waits-refl st)))
              (Ends-none (PollFrom st)) (λ st'' q. Ends-some (PollFrom st) _ (either st'' q)))
    ]
  ]
    where
      either :
          (b : State W)
          → Waits rt.max_iter st b
          → Waits rt.max_iter st
              (poll_state (if is_running b.result.status then retry b else interrupted b))
      either b q = elim (Bool-cases (is_running b.result.status)) [
        | inl alive ↦ simp alive q
        | inr over ↦ simp over q
      ]

  pub after_step-Extends :
      (id : String) (a : State W) (cont : Bool) (st : State W)
      → Ext a st
      → Ext a (round_state (after_step rt id (cont, st)))
  unfolding after_step
  after_step-Extends id a cont st p = elim (Bool-cases (is_running st.result.status && cont)) [
    | inl goes ↦ simp (goes, after_step) (publish_step-Extends rt id st p)
    | inr ends ↦ simp (ends, after_step) p
  ]

  take_step-Extends :
      (steps : Dict String (Compiled W)) (id : String) (a st : State W)
      → Dict.AllValues (CompiledKeeps rt.max_iter) steps
      → at_limit rt st ≡ false
      → Ext a st
      → Ends (RoundFrom a) (take_step rt steps id st)
  unfolding take_step
  take_step-Extends steps id a st k below p = elim (Option-cases (Dict.lookup steps id)) [
    | inl missing ↦ simp (missing, take_step) (Ends-some (RoundFrom a) _ (Extends-fail _ p))
    | inr (c, found) ↦ elim (Option-cases c.handler) [
      | inl unknown ↦
          simp (found, unknown, take_step)
            (Ends-some (RoundFrom a) _
              (Extends-fail _ (Extends-trans p (count_step-Extends rt st below))))
      | inr (h, known) ↦
          simp (found, known, take_step)
            (Ends-map (RoundFrom a) (after_step rt id) (h (count_step rt st)) (record {
              at = λ out e. after_step-Extends id a out.0 out.1 (
                  Extends-trans (Extends-trans p (count_step-Extends rt st below)) (
                    (lookup-AllValues (CompiledKeeps rt.max_iter) steps id k found).each h _ out
                      known e));
            }))
    ]
  ]

  still_below :
      (st st' : State W)
      → ltb st.result.iterations rt.max_iter ≡ true
      → st'.result.iterations ≡ st.result.iterations
      → at_limit rt st' ≡ false
  still_below st st' below same = ground arith

  main_round-Extends :
      (steps : Dict String (Compiled W)) (id : String) (st : State W)
      → Dict.AllValues (CompiledKeeps rt.max_iter) steps
      → ltb st.result.iterations rt.max_iter ≡ true
      → Ends (RoundFrom st) (main_round rt steps id st)
  unfolding main_round
  main_round-Extends steps id st k below =
      Ends-cases (PollFrom st)
        (λ o. Ends (RoundFrom st) (elim o [
          | none ↦ none
          | some (proceed st') ↦ take_step rt steps id st'
          | some (retry st') ↦ some (again (some id) st')
          | some (interrupted st') ↦ some (finished (some id) st')
        ]))
        (poll rt st) (poll-Waits st) (Ends-none (RoundFrom st))
        (elim [
          | proceed st' ↦ λ q.
              take_step-Extends steps id st st' k (still_below st st' below q.same_count) q.extends
          | retry st' ↦ λ q. Ends-some (RoundFrom st) _ q.extends
          | interrupted st' ↦ λ q. Ends-some (RoundFrom st) _ q.extends
        ])

  abbrev LoopFrom : State W → Option String × State W → Type 0
  LoopFrom a out = Ext a out.1

  main_loop-Extends :
      (steps : Dict String (Compiled W)) (fuel : ℕ) (cur : Option String) (a st : State W)
      → Dict.AllValues (CompiledKeeps rt.max_iter) steps
      → Ext a st
      → Ends (LoopFrom a) (main_loop rt steps fuel cur st)
  unfolding main_loop
  main_loop-Extends steps zero cur a st k p = Ends-none (LoopFrom a)
  main_loop-Extends steps (suc fuel) cur a st k p = elim (Option-cases (nonempty cur)) [
    | inl done ↦ simp (done, main_loop) (Ends-some (LoopFrom a) _ p)
    | inr (id, at) ↦ elim (Bool-cases (ltb st.result.iterations rt.max_iter)) [
      | inr full ↦ simp (at, full, main_loop) (Ends-some (LoopFrom a) _ p)
      | inl below ↦
          simp (at, below, main_loop)
            (Ends-cases (RoundFrom st)
              (λ o. Ends (LoopFrom a) (elim o [
                | none ↦ none
                | some (finished cur' st') ↦ some (cur', st')
                | some (again cur' st') ↦ main_loop rt steps fuel cur' st'
              ]))
              (main_round rt steps id st) (main_round-Extends steps id st k below)
              (Ends-none (LoopFrom a))
              (elim [
                | finished cur' st' ↦ λ q. Ends-some (LoopFrom a) _ (Extends-trans p q)
                | again cur' st' ↦
                    λ q. main_loop-Extends steps fuel cur' a st' k (Extends-trans p q)
              ]))
    ]
  ]

  check_limit-Extends : (a st : State W) → Ext a st → Ext a (check_limit rt st)
  unfolding check_limit
  check_limit-Extends a st p = elim (Bool-cases (at_limit rt st && is_running st.result.status)) [
    | inl reached ↦ simp (reached, check_limit) (Extends-fail _ p)
    | inr fine ↦ simp (fine, check_limit) p
  ]

  final_hooks-Extends :
      (cur : Option String) (a st : State W) → Ext a st → Ext a (final_hooks rt cur st)
  unfolding final_hooks
  final_hooks-Extends cur a st p = elim (Bool-cases rt.has_lifecycle) [
    | inr alone ↦ simp (alone, final_hooks) p
    | inl watched ↦ elim (Bool-cases (is_error rt st.result.status)) [
      | inl wrong ↦ simp (watched, wrong, final_hooks) (Extends-publish _ (Extends-publish _ p))
      | inr right ↦ simp (watched, right, final_hooks) (Extends-publish _ p)
    ]
  ]

  finish-Extends :
      (a : State W) (o : Option (Option String × State W))
      → Ends (LoopFrom a) o
      → Ends (Ext a) (finish rt o)
  finish-Extends a none h = Ends-none (Ext a)
  finish-Extends a (some (cur, st)) h =
      Ends-some (Ext a) _
        (final_hooks-Extends cur a _ (check_limit-Extends a st (h.at (cur, st) refl)))

  run_from-Extends :
      (fuel : ℕ) (steps : List (Compiled W)) (start_step_id : Option String) (st : State W)
      → AllKeep rt.max_iter steps
      → Ends (Ext st) (run_from rt fuel steps start_step_id st)
  unfolding run_from
  run_from-Extends fuel steps start_step_id st k = elim (Option-cases (nonempty start_step_id)) [
    | inr (id, given) ↦ simp (given, run_from) (loop id)
    | inl absent ↦ elim (Option-cases (nonempty (find_entry_point (keys_of steps)))) [
      | inr (id, found) ↦ simp (absent, found, run_from) (loop id)
      | inl nowhere ↦
          simp (absent, nowhere, run_from) (Ends-some (Ext st) _ (Extends-fail _ (Extends-refl st)))
    ]
  ]
    where
      loop :
          (id : String)
          → Ends (Ext st) (finish rt (main_loop rt (by_id steps []) fuel (some id) st))
      loop id = finish-Extends st _ (
          main_loop-Extends (by_id steps []) fuel (some id) st st
            (by_id-AllValues (CompiledKeeps rt.max_iter) steps [] k tt) (Extends-refl st))

-- However a run ends, it has taken at most max_iter steps, those in the bodies of loops included,
-- and its messages are those that it was given with others behind them.
pub run_bounds :
    {W : Type 0} (rt : Runtime W) (fuel : ℕ) (steps : Steps) (messages : List Message)
    (variables : Vars) (start_step_id : Option String) (env : W) (signals : List (List Signal))
    (st : State W)
    → run rt fuel steps messages variables start_step_id env signals ≡ some st
    → (st.result.iterations ≤ rt.max_iter)
      × ((rest : List Message) × (st.result.messages ≡ messages ++ rest))
unfolding run
run_bounds rt fuel steps messages variables start_step_id env signals st e =
    let p =
      (run_from-Extends rt fuel _ start_step_id _ (compile_steps-Keeps rt fuel steps)).at st e in
    (p.within (omega arith), Grows-split p.messages)
