-- ===== src/Tasks/Samples.antt =====
-- The tasks and the calls at concrete tables.
use model_weaver.Base.{
  ◌+◌, ◌<◌, ◌≡◌, ◌↔◌, arith, leb, if◌then◌else◌, refl, true, false, Option, none, some, [], ◌∷◌,
  String, length, any, All, select, map,
}
use model_weaver.Base.Int.{pos}
use model_weaver.Base.Dict
use model_weaver.Fsm.Value.{text}
use model_weaver.Tasks.{
  TaskStatus, SharedTask, SharedTasks, create, claim, complete, release, is_pending, list_pending,
  count_pending,
}
use model_weaver.Tasks.Calls
use model_weaver.Tasks.Calls.{
  WakeupCall, WakeupCalls, ScheduledJob, ScheduledJobs, create_call, claim_call, reset_busy,
  update_sleep, get_call, is_due, list_due,
}
use model_weaver.Tasks.Messages.{AgentQueue, send_broadcast, poll_inbox, mark_read, count_unread}
use model_weaver.Tasks.Watchers.{
  Watchers, create_watcher, list_due_watchers, mark_checked, Connections, connect, disconnect,
}
use model_weaver.Tasks.Dispatch.{real_id, AgentRow, TaskDb, Provisioning, dispatch_pending_tasks}
use model_weaver.Tasks.Schedule.{tick_jobs, schedule_task}
use model_weaver.Tasks.Claims.{TaskStep, Reach, claim-once, reset_busy-all, waits, in_work}
use model_weaver.Tasks.Pending.{Waits, InOrder, list_pending_lem}
use model_weaver.Tasks.Dispatched.{calls_made, calls_made-dispatch_pending_tasks}
use model_weaver.Tasks.Scheduled.{tick_jobs-is_due}

abbrev no_tasks : SharedTasks
no_tasks = record { rows = []; next_id = 1 }

abbrev two_tasks : SharedTasks
unfolding create
two_tasks =
    create (create no_tasks 5 "read" none (some "critique") "general" (pos 1) none) 6 "write" none
      none "general" (pos 9) none

abbrev first_task : SharedTask
first_task = record {
  task_id = 1;
  title = "read";
  description = none;
  required_role = some "critique";
  context = "general";
  priority = pos 1;
  parent_task_id = none;
  status = TaskStatus.todo;
  assigned_to = none;
  created_at = 5;
  updated_at = 5;
}

abbrev no_calls : WakeupCalls
no_calls = record { rows = []; next_id = 1 }

abbrev two_calls : WakeupCalls
unfolding create_call
two_calls = create_call (create_call no_calls 5 3 "s" "plan" none none) 6 4 "t" "plan" none (some 9)

abbrev writer : AgentRow
writer = record {
  agent_id = 3;
  name = "anna";
  role_type = "writer";
  is_idle = true;
  contexts = "general" ∷ [];
}

abbrev office : TaskDb
office = record {
  agents = writer ∷ [];
  tasks = two_tasks;
  calls = no_calls;
  jobs = record { rows = []; next_id = 1 };
  sessions = [];
}

-- Agent 8 is created for whoever asks for the role of a critic.
abbrev provisioning : Provisioning
provisioning = record {
  request_agent = λ db role context. elim role [ none ↦ (none, db) | some r ↦ (some 8, db) ];
  new_session = λ db agent_id. "new";
}

abbrev broadcast : AgentQueue
unfolding send_broadcast
broadcast = send_broadcast (record { rows = []; next_id = 1 }) 5 3 "hello" none "broadcast"

abbrev hourly : Watchers
unfolding create_watcher
hourly = create_watcher (record { rows = []; next_id = 1 }) 3 "tasks" none 3600

abbrev none_joined : Connections
none_joined = record { rows = []; next_id = 1 }

abbrev planned : TaskDb
unfolding schedule_task
planned = schedule_task provisioning office 7 "plan" none none 60 (some 3) none

-- The task of the higher priority comes first, though it was created later.
list_pending_sample : map (λ t. t.task_id) (list_pending two_tasks none none 10) ≡ 2 ∷ 1 ∷ []
unfolding list_pending two_tasks
list_pending_sample = refl

-- One task goes to the writer, for the other a critic is asked for.
dispatch_sample : (dispatch_pending_tasks provisioning office 7).0 ≡ 2
unfolding dispatch_pending_tasks two_tasks
dispatch_sample = refl

tick_sample : (tick_jobs provisioning planned 7).0 ≡ 1
unfolding tick_jobs real_id planned
tick_sample = refl

-- A call that goes to sleep a second time keeps the step that it was to go on with the first time.
update_sleep_sample :
    (get_call
      (update_sleep (update_sleep two_calls 5 1 60 (some "first")) 70 1 60 (some "second"))
      1)
    ≡ some (record {
      task_id = 1;
      agent_id = 3;
      session_id = "s";
      skill = "plan";
      request_payload = some (("next_step_id", text "first") ∷ []);
      execute_after = 130;
      created_at = 5;
      status = Calls.todo;
      result_summary = none;
    })
unfolding get_call update_sleep two_calls Dict.lookup
update_sleep_sample = refl

-- A broadcast that one agent has read is read for every other agent.
broadcast_sample : (count_unread broadcast 4 ≡ 1) × (poll_inbox (mark_read broadcast 1) 4 10 ≡ [])
unfolding count_unread poll_inbox mark_read broadcast
broadcast_sample = (refl, refl)

-- A watcher with an interval of an hour is due again at the time at which it was checked.
watcher_sample : length (list_due_watchers (λ agent_id. true) (mark_checked hourly 7 1) 7) ≡ 1
unfolding list_due_watchers mark_checked hourly
watcher_sample = refl

-- A connection that is closed and opened again is the same row.
connect_sample :
    (connect
      (disconnect (connect none_joined 3 "todo" none none).1 3 "todo" none).1
      3
      "todo"
      none
      none).0
    ≡ 1
unfolding connect disconnect
connect_sample = refl

abbrev claimed_once : SharedTasks
claimed_once = (claim two_tasks 7 1 3).1

-- Agent 3 completes the task it claimed, and the other task is released.
abbrev moved_on : SharedTasks
moved_on = release (complete claimed_once 8 1) 9 2

moves : Reach 1 claimed_once moved_on
moves =
    Reach.next (Reach.next Reach.here (TaskStep.by_complete claimed_once 8 1))
      (TaskStep.by_release (complete claimed_once 8 1) 9 2 refl)

two_known : 1 < two_tasks.next_id
unfolding two_tasks create
two_known = omega arith

claim-once_example : claim moved_on 10 1 4 ≡ (false, moved_on)
claim-once_example = claim-once two_tasks moved_on 7 10 1 3 4 two_known moves

list_pending_lem_example :
    (length (list_pending two_tasks (some "writer") none 10) ≡ (
      if leb 10 (count_pending two_tasks (some "writer") none)
      then 10
      else count_pending two_tasks (some "writer") none))
    × All (Waits (some "writer") none) (list_pending two_tasks (some "writer") none 10)
    × InOrder (list_pending two_tasks (some "writer") none 10)
    × ((is_pending (some "writer") none first_task ≡ true) ↔ Waits (some "writer") none first_task)
list_pending_lem_example = list_pending_lem two_tasks (some "writer") none 10 first_task

reset_busy-all_example :
    (any in_work (reset_busy (claim_call two_calls 1).1).1.rows ≡ false)
    × (length (select waits (reset_busy (claim_call two_calls 1).1).1.rows)
        ≡ (reset_busy (claim_call two_calls 1).1).0
          + length (select waits (claim_call two_calls 1).1.rows))
    × (length (reset_busy (claim_call two_calls 1).1).1.rows
        ≡ length (claim_call two_calls 1).1.rows)
reset_busy-all_example = reset_busy-all (claim_call two_calls 1).1

request_agent-calls :
    (db : TaskDb) (role context : Option String)
    → (provisioning.request_agent db role context).1.calls ≡ db.calls
request_agent-calls db none context = refl
request_agent-calls db (some role) context = refl

calls_made-dispatch_pending_tasks_example :
    calls_made (dispatch_pending_tasks provisioning office 7).1
    ≡ (dispatch_pending_tasks provisioning office 7).0 + calls_made office
calls_made-dispatch_pending_tasks_example =
    calls_made-dispatch_pending_tasks provisioning request_agent-calls office 7

tick_jobs-is_due_example :
    (any (is_due 7) (tick_jobs provisioning planned 7).1.jobs.rows ≡ false)
    × ((tick_jobs provisioning planned 7).0 ≡ length (list_due planned.jobs 7))
    × (calls_made (tick_jobs provisioning planned 7).1
        ≡ (tick_jobs provisioning planned 7).0 + calls_made planned)
unfolding real_id planned
tick_jobs-is_due_example = tick_jobs-is_due provisioning planned 7 refl
