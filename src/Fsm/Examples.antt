-- ===== src/Fsm/Examples.antt =====
-- The theorems on steering, signals and identity at concrete inputs.
use model_weaver.Base.{
  ℕ, String, true, false, ◌&&◌, Option, none, some, List, [], ◌∷◌, ◌++◌, ◌≡◌, refl, ◌⊎◌, inr,
  text_eq,
}
use model_weaver.Base.Dict
use model_weaver.Base.Dict.{Dict}
use model_weaver.Fsm.Value
use model_weaver.Fsm.Value.{text, Vars, nonempty}
use model_weaver.Fsm.Step.{Cond, StepKeys}
use model_weaver.Fsm.State.{
  running, success, failed, HookEvent, on_signal, Message, pause, resume, kill, other, Signal,
  State, new_result, check_signals, signal_check, apply_signals,
}
use model_weaver.Fsm.State
use model_weaver.Fsm.Control
use model_weaver.Fsm.Control.{select_branch}
use model_weaver.Fsm.Calls.{own_id, step_call, after_call, workspace}
use model_weaver.Fsm.Graph.{Compiled, find_entry_point, first_free, cond_refs, referenced}
use model_weaver.Fsm.Loops
use model_weaver.Fsm.Loops.{
  Turn, stop, leave, limit_message, is_running, body_turn, step_while, at_limit,
}
use model_weaver.Fsm.Run.{start, finished, wait_paused, main_round, handler_of}
use model_weaver.Fsm.Breaks.{group_block, block_keeps_break}
use model_weaver.Fsm.Endless.{while_empty_diverges}
use model_weaver.Fsm.Signals.{kill_lost_at_end, wait_paused_quiet}
use model_weaver.Fsm.Identity.{NamesAgent, step_call-NamesAgent}
use model_weaver.Fsm.Routing.{
  FirstMatch, NoneMatch, select_branch_lem, CallEnd, skill_reply, step_call-CallEnd,
}
use model_weaver.Fsm.Samples.{plain_python, quiet, bare}

abbrev is_go : Cond
is_go = record { variable = "x"; operator = none; value = some (text "go"); next = some "a" }

select_branch_lem_example :
    FirstMatch plain_python "go" (is_go ∷ []) (select_branch plain_python "go" (is_go ∷ []) none)
    ⊎ (NoneMatch plain_python "go" (is_go ∷ [])
        × (select_branch plain_python "go" (is_go ∷ []) none ≡ none))
select_branch_lem_example = select_branch_lem plain_python "go" (is_go ∷ []) none

abbrev two_steps : List StepKeys
two_steps = bare "b" "end" none ∷ bare "a" "sleep" (some "b") ∷ []

abbrev merge_step : StepKeys
merge_step = record (bare "m" "call" (some "z")) { fn = "git/merge@v1"; on_error = some "fix" }

-- The error handler of the other step is listed before it, and taken as the start.
handler_first_sample :
    find_entry_point (bare "fix" "end" none ∷ merge_step ∷ bare "z" "end" none ∷ []) ≡ some "fix"
unfolding find_entry_point first_free referenced cond_refs
handler_first_sample = refl

abbrev idle : List (List Signal) → State Unit
idle signals = start quiet [] (("agent_id", text "7") ∷ []) tt signals

step_call-CallEnd_example :
    CallEnd quiet merge_step
      (idle [])
      (skill_reply quiet merge_step (idle [])).0
      (step_call quiet merge_step (idle []))
step_call-CallEnd_example = step_call-CallEnd quiet merge_step (idle []) refl

own_id_given : Value.truthy (own_id quiet (idle [])) ≡ true
unfolding Value.truthy Value.get_or_empty Dict.lookup
own_id_given = refl

step_call-NamesAgent_example :
    (inputs : Vars) × (step_call quiet merge_step (idle [])
      ≡ after_call quiet merge_step
          (quiet.call_skill tt merge_step.fn inputs (workspace quiet (own_id quiet (idle []))))
          (idle []))
    × NamesAgent plain_python (own_id quiet (idle [])) inputs
step_call-NamesAgent_example = step_call-NamesAgent quiet merge_step (idle []) refl own_id_given

abbrev always : Cond
always = record {
  variable = "agent_id";
  operator = some "EQUALS";
  value = some (text "7");
  next = none;
}

abbrev spin : StepKeys
spin = record (bare "w" "while" none) { condition = some always }

spin_holds : Control.eval_condition plain_python (some always) (idle []).result.variables ≡ true
unfolding Control.eval_condition Value.str Dict.lookup
spin_holds = refl

while_empty_diverges_example : step_while quiet 1000 spin [] (idle []) ≡ none
while_empty_diverges_example = while_empty_diverges quiet 1000 spin (idle []) spin_holds refl

abbrev success_step : StepKeys
success_step = record (bare "z" "end" none) { status = some "SUCCESS" }

abbrev end_step : Dict String (Compiled Unit)
end_step = ("z", record { keys = success_step; handler = handler_of quiet 12 success_step [] }) ∷ []

end_found :
    Dict.lookup end_step "z"
    ≡ some (record { keys = success_step; handler = handler_of quiet 12 success_step [] })
unfolding Dict.lookup
end_found = refl

-- A pause, a resume and a kill that wait together: the kill is read while the run is not paused.
abbrev resumed_and_killed : State Unit
resumed_and_killed = idle ((pause ∷ resume ∷ kill ∷ []) ∷ [])

kill_reached :
    ((signal_check resumed_and_killed).0 ≡ true)
    × ((signal_check resumed_and_killed).1.result.paused ≡ false)
unfolding signal_check apply_signals
kill_reached = (refl, refl)

kill_lost_at_end_example :
    (st' : State Unit) × (main_round quiet end_step "z" resumed_and_killed
      ≡ some (finished (some "z") st'))
    × (st'.result.status ≡ success)
kill_lost_at_end_example =
    kill_lost_at_end quiet end_step "z" resumed_and_killed 12 success_step [] refl kill_reached.0
      kill_reached.1 end_found refl (inr refl)

abbrev paused : List (List Signal) → State Unit
paused signals = let st = idle signals in record st { result = record st.result { paused = true } }

abbrev until_resume : List (List Signal)
until_resume = (other "status" ∷ []) ∷ (resume ∷ []) ∷ []

abbrev heard : List HookEvent
heard =
    on_signal (other "status") (("agent_id", text "7") ∷ [])
    ∷ on_signal resume (("agent_id", text "7") ∷ [])
    ∷ []

abbrev awake : State Unit
awake = let st = idle [] in record st { events = heard }

woken : wait_paused quiet until_resume (paused until_resume) ≡ some awake
unfolding wait_paused State.signal_check State.apply_signals
woken = refl

wait_paused_quiet_example :
    ((false && is_running running) ≡ false)
    × (◌≡◌ {A = ℕ} 0 0)
    × (◌≡◌ {A = List Message} [] [])
    × ((new : List HookEvent) × (heard ≡ [] ++ new))
wait_paused_quiet_example = wait_paused_quiet quiet until_resume (paused until_resume) awake woken

-- A `group` step whose body is an `end`.
abbrev last_words : List (Compiled Unit)
last_words =
    record { keys = bare "k" "end" none; handler = handler_of quiet 12 (bare "k" "end" none) [] }
    ∷ []

abbrev group_keys : StepKeys
group_keys = bare "g" "group" none

abbrev around : Dict String (Compiled Unit)
around =
    ("g", record { keys = group_keys; handler = handler_of quiet 12 group_keys last_words }) ∷ []

abbrev group_turn : Option (Turn Unit)
group_turn = body_turn quiet around "g" (idle [])

abbrev group_over : State Unit
group_over =
    let st = idle [] in
    record st {
      result = record st.result { status = success; end_reason = some "SUCCESS"; iterations = 2 };
    }

group_stops : body_turn quiet around "g" (idle []) ≡ some (leave stop group_over)
unfolding body_turn Dict.lookup handler_of Loops.step_group Loops.run_body Control.step_end
    Dict.insert
group_stops = refl

group_found :
    Dict.lookup around "g"
    ≡ some (record { keys = group_keys; handler = handler_of quiet 12 group_keys last_words })
unfolding Dict.lookup
group_found = refl

block_keeps_break_example : ◌≡◌ {A = Loops.Code} stop stop
block_keeps_break_example =
    block_keeps_break quiet group_block 12 group_keys last_words around "g" (idle []) group_over
      stop refl group_found refl group_stops
