-- ===== src/Fsm/Signals.antt =====
-- What a kill signal and a pause do to a run.
use model_weaver.Base.{
  ℕ, String, true, false, ◌&&◌, Option, none, some, List, [], ◌∷◌, ◌++◌, if◌then◌else◌, ap, ◌≡◌,
  refl, ◌⊎◌, text_eq, Bool-cases, inl, inr, ◌∙◌,
}
use model_weaver.Base.Ends.{Ends, Ends-none, Ends-some}
use model_weaver.Base.Dict
use model_weaver.Base.Dict.{Dict}
use model_weaver.Fsm.Step.{StepKeys}
use model_weaver.Fsm.State.{
  success, Signal, State, Runtime, abort, signal_check, check_signals, HookEvent,
}
use model_weaver.Fsm.Control.{step_end}
use model_weaver.Fsm.Graph.{Compiled}
use model_weaver.Fsm.Loops.{is_running, count_step}
use model_weaver.Fsm.Extends.{Waits-refl, Grows-split}
use model_weaver.Fsm.Extends.Runs.{wait_paused-Waits}
use model_weaver.Fsm.Run.{
  finished, Poll, poll, proceed, retry, interrupted, wait_paused, after_step, take_step, main_round,
  handler_of,
}

module _ {W : Type 0} (rt : Runtime W) where
  -- The state behind the handler of `AgentAbort`, if the next call of signal_check raises it.
  abbrev pub killed_at : State W → State W
  killed_at st = abort (signal_check st).1

  kill_aborts : (st : State W) → (signal_check st).0 ≡ true → check_signals st ≡ killed_at st
  unfolding check_signals
  kill_aborts st raises = simp (raises, check_signals) refl

  killed_at-paused :
      (st : State W) → (killed_at st).result.paused ≡ (signal_check st).1.result.paused
  unfolding abort
  killed_at-paused st = refl

  -- The lines of the round behind a call of _check_signals.
  abbrev behind : State W → Option (Poll W)
  behind st' =
      if st'.result.paused
      then elim (wait_paused rt st'.signals st') [
        | none ↦ none
        | some st'' ↦ some (if is_running st''.result.status then retry st'' else interrupted st'')
      ]
      else some (proceed st')

  behind-awake : (st' : State W) → st'.result.paused ≡ false → behind st' ≡ some (proceed st')
  behind-awake st' awake = simp awake

  kill_polls :
      (st : State W)
      → rt.has_signal_check ≡ true
      → (signal_check st).0 ≡ true
      → (signal_check st).1.result.paused ≡ false
      → poll rt st ≡ some (proceed (killed_at st))
  unfolding poll
  kill_polls st listening raises awake =
      simp (listening, poll) (ap behind (kill_aborts st raises))
      ∙ behind-awake (killed_at st) (killed_at-paused st ∙ awake)

  -- A call of signal_check that raises AgentAbort on a run that is not paused does not stop the
  -- round: the state is marked as aborted, and the step is taken all the same.
  kill_takes_step :
      (steps : Dict String (Compiled W)) (id : String) (st : State W)
      → rt.has_signal_check ≡ true
      → (signal_check st).0 ≡ true
      → (signal_check st).1.result.paused ≡ false
      → main_round rt steps id st ≡ take_step rt steps id (killed_at st)
  unfolding main_round
  kill_takes_step steps id st listening raises awake =
      simp (kill_polls st listening raises awake, main_round)

  -- A run that listens to signals and stands at an end step with the status SUCCESS, named or by
  -- default, ends as a success although its check of the signals reaches a kill, if it is not
  -- paused when the kill is reached.
  pub kill_lost_at_end :
      (steps : Dict String (Compiled W)) (id : String) (st : State W) (fuel : ℕ) (s : StepKeys)
      (body : List (Compiled W))
      → rt.has_signal_check ≡ true
      → (signal_check st).0 ≡ true
      → (signal_check st).1.result.paused ≡ false
      → Dict.lookup steps id ≡ some (record { keys = s; handler = handler_of rt fuel s body })
      → s.type ≡ "end"
      → (s.status ≡ none) ⊎ (s.status ≡ some "SUCCESS")
      → (st' : State W) × (main_round rt steps id st ≡ some (finished (some id) st'))
        × (st'.result.status ≡ success)
  kill_lost_at_end steps id st fuel s body listening raises awake found type named = (
    (step_end s killed).1,
    kill_takes_step steps id st listening raises awake ∙ taken named,
    ends named,
  )
    where
      killed : State W
      killed = count_step rt (killed_at st)

      ends :
          (s.status ≡ none) ⊎ (s.status ≡ some "SUCCESS")
          → (step_end s killed).1.result.status ≡ success
      ends (inl plain) = unfold step_end in simp plain
      ends (inr named) = unfold step_end in simp named

      taken :
          (s.status ≡ none) ⊎ (s.status ≡ some "SUCCESS")
          → take_step rt steps id (killed_at st) ≡ some (finished (some id) (step_end s killed).1)
      taken (inl plain) =
          unfold take_step handler_of step_end after_step in simp (found, type, plain, take_step)
      taken (inr named) =
          unfold take_step handler_of step_end after_step in simp (found, type, named, take_step)

  not_waiting :
      (batches : List (List Signal)) (st : State W)
      → Ends
          (λ st'. (st'.result.paused && is_running st'.result.status) ≡ false)
          (wait_paused rt batches st)
  unfolding wait_paused
  not_waiting [] st = elim (Bool-cases (st.result.paused && is_running st.result.status)) [
    | inl waits ↦ simp (waits, wait_paused) (Ends-none _)
    | inr goes ↦ rw (goes, wait_paused) (Ends-some _ st goes)
  ]
  not_waiting (batch ∷ later) st =
      elim (Bool-cases (st.result.paused && is_running st.result.status)) [
        | inl waits ↦ simp (waits, wait_paused) (not_waiting later _)
        | inr goes ↦ rw (goes, wait_paused) (Ends-some _ st goes)
      ]

  -- The wait of a pause ends only when the run is resumed or is no longer running, and takes no
  -- step meanwhile: the iterations and the messages stay as they are, and what is published
  -- comes behind the events of before.
  pub wait_paused_quiet :
      (batches : List (List Signal)) (st st' : State W)
      → wait_paused rt batches st ≡ some st'
      → ((st'.result.paused && is_running st'.result.status) ≡ false)
        × (st'.result.iterations ≡ st.result.iterations)
        × (st'.result.messages ≡ st.result.messages)
        × ((new : List HookEvent) × (st'.events ≡ st.events ++ new))
  wait_paused_quiet batches st st' e =
      let w = (wait_paused-Waits rt batches st st (Waits-refl st)).at st' e in
      (
        (not_waiting batches st).at st' e,
        w.same_count,
        w.same_messages,
        Grows-split w.extends.events,
      )
