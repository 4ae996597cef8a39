-- ===== src/Tasks/Calls.antt =====
-- WakeupCallRepository and ScheduledJobRepository of modules/sql/agent_repository.py.
use model_weaver.Base.{
  ℕ, ◌+◌, String, Bool, true, false, ◌&&◌, Option, none, some, List, [], ◌∷◌, ◌++◌, select, any,
  update_where, delete_where, first_where, order_by, limit, leb, nat_beq, length, text_eq,
}
use model_weaver.Base.Dict
use model_weaver.Fsm.Value.{Value, null, text, Vars}

pub data CallStatus : Type 0 where
  todo busy completed failed : CallStatus

-- A row of wakeup_calls. Times are seconds, which the texts of the columns order in the same way.
pub record WakeupCall : Type 0 where
  pub task_id : ℕ
  pub agent_id : ℕ
  pub session_id : String
  pub skill : String
  pub request_payload : Option Vars
  pub execute_after : ℕ
  pub created_at : ℕ
  pub status : CallStatus
  pub result_summary : Option String

pub record WakeupCalls : Type 0 where
  pub rows : List WakeupCall
  pub next_id : ℕ

abbrev pub is_todo : CallStatus → Bool
is_todo todo = true
is_todo _ = false

abbrev pub is_busy : CallStatus → Bool
is_busy busy = true
is_busy _ = false

abbrev pub is_ripe : (now : ℕ) → WakeupCall → Bool
is_ripe now c = is_todo c.status && leb c.execute_after now

-- WakeupCallRepository.list_pending
unfoldable pub list_ripe : WakeupCalls → (now count : ℕ) → List WakeupCall
unfolding order_by
list_ripe db now count =
    limit count
      (order_by (λ s r. leb s.execute_after r.execute_after) (select (is_ripe now) db.rows))

abbrev pub set_calls : WakeupCalls → List WakeupCall → WakeupCalls
set_calls db rows = record db { rows = rows }

abbrev pub is_call : ℕ → WakeupCall → Bool
is_call task_id c = nat_beq c.task_id task_id

abbrev pub takeable : ℕ → WakeupCall → Bool
takeable task_id c = is_call task_id c && is_todo c.status

-- WakeupCallRepository.claim: whether a row was changed
unfoldable pub claim_call : WakeupCalls → (task_id : ℕ) → Bool × WakeupCalls
claim_call db task_id = (
  any (takeable task_id) db.rows,
  set_calls db (update_where (takeable task_id) (λ c. record c { status = busy }) db.rows),
)

-- WakeupCallRepository.complete
unfoldable pub complete_call : WakeupCalls → (task_id : ℕ) → Option String → WakeupCalls
complete_call db task_id result_summary = set_calls db (
    update_where (is_call task_id)
      (λ c. record c { status = completed; result_summary = result_summary }) db.rows)

-- WakeupCallRepository.fail
unfoldable pub fail_call : WakeupCalls → (task_id : ℕ) → Option String → WakeupCalls
fail_call db task_id reason = set_calls db (
    update_where (is_call task_id) (λ c. record c { status = failed; result_summary = reason })
      db.rows)

-- json_insert(ifnull(payload, '{}'), '$.' || key, value): a key that is there stays as it is.
unfoldable pub json_insert : Option Vars → String → Value → Vars
json_insert none key v = (key, v) ∷ []
json_insert (some payload) key v = elim (Dict.lookup payload key) [
  | some old ↦ payload
  | none ↦ payload ++ (key, v) ∷ []
]

abbrev pub text_or_null : Option String → Value
text_or_null none = null
text_or_null (some s) = text s

-- WakeupCallRepository.update_sleep
unfoldable pub update_sleep :
    WakeupCalls → (now task_id seconds : ℕ) → (next_step_id : Option String) → WakeupCalls
unfolding json_insert
update_sleep db now task_id seconds next_step_id = set_calls db (
    update_where (is_call task_id)
      (λ c. record c {
        status = todo;
        execute_after = now + seconds;
        request_payload =
            some (json_insert c.request_payload "next_step_id" (text_or_null next_step_id));
      })
      db.rows)

-- WakeupCallRepository.create
unfoldable pub create_call :
    WakeupCalls
    → (now agent_id : ℕ) (session_id skill : String) (payload : Option Vars)
      (execute_after : Option ℕ)
    → WakeupCalls
create_call db now agent_id session_id skill payload execute_after = record db {
  next_id = db.next_id + 1;
  rows =
      db.rows
      ++ record {
        task_id = db.next_id;
        agent_id = agent_id;
        session_id = session_id;
        skill = skill;
        request_payload = payload;
        execute_after = elim execute_after [ none ↦ now | some t ↦ t ];
        created_at = now;
        status = todo;
        result_summary = none;
      }
        ∷ [];
}

-- WakeupCallRepository.reset_busy: the count of the rows that were changed
unfoldable pub reset_busy : WakeupCalls → ℕ × WakeupCalls
reset_busy db = (
  length (select (λ c. is_busy c.status) db.rows),
  set_calls db (update_where (λ c. is_busy c.status) (λ c. record c { status = todo }) db.rows),
)

-- WakeupCallRepository.list_by_agent
unfoldable pub calls_of_agent : WakeupCalls → (agent_id count : ℕ) → List WakeupCall
unfolding order_by
calls_of_agent db agent_id count = limit count (
    order_by (λ s r. leb r.created_at s.created_at)
      (select (λ c. nat_beq c.agent_id agent_id) db.rows))

-- WakeupCallRepository.get
unfoldable pub get_call : WakeupCalls → (task_id : ℕ) → Option WakeupCall
get_call db task_id = first_where (is_call task_id) db.rows

-- A row of scheduled_jobs.
pub record ScheduledJob : Type 0 where
  pub job_id : ℕ
  pub agent_id : Option ℕ
  pub role_type : Option String
  pub skill : String
  pub request_payload : Option Vars
  pub interval_seconds : ℕ
  pub next_run_at : ℕ
  pub enabled : Bool

pub record ScheduledJobs : Type 0 where
  pub rows : List ScheduledJob
  pub next_id : ℕ

abbrev pub is_due : (now : ℕ) → ScheduledJob → Bool
is_due now j = j.enabled && leb j.next_run_at now

-- ScheduledJobRepository.list_due
unfoldable pub list_due : ScheduledJobs → (now : ℕ) → List ScheduledJob
unfolding order_by
list_due db now = order_by (λ s r. leb s.next_run_at r.next_run_at) (select (is_due now) db.rows)

abbrev pub is_job : ℕ → ScheduledJob → Bool
is_job job_id j = nat_beq j.job_id job_id

-- ScheduledJobRepository.save
unfoldable pub save_job : ScheduledJobs → ScheduledJob → ScheduledJobs
save_job db job = record db {
  next_id = db.next_id + 1;
  rows = db.rows ++ record job { job_id = db.next_id } ∷ [];
}

-- ScheduledJobRepository.update_next_run
unfoldable pub update_next_run : ScheduledJobs → (job_id next_run_at : ℕ) → ScheduledJobs
update_next_run db job_id next_run_at = record db {
  rows = update_where (is_job job_id) (λ j. record j { next_run_at = next_run_at }) db.rows;
}

-- UPDATE scheduled_jobs SET enabled = 0 WHERE job_id = ?
unfoldable pub disable_job : ScheduledJobs → (job_id : ℕ) → ScheduledJobs
disable_job db job_id = record db {
  rows = update_where (is_job job_id) (λ j. record j { enabled = false }) db.rows;
}

-- ScheduledJobRepository.delete: whether a row was deleted
unfoldable pub delete_job : ScheduledJobs → (job_id : ℕ) → Bool × ScheduledJobs
delete_job db job_id =
    (any (is_job job_id) db.rows, record db { rows = delete_where (is_job job_id) db.rows })

-- ScheduledJobRepository.get
unfoldable pub get_job : ScheduledJobs → (job_id : ℕ) → Option ScheduledJob
get_job db job_id = first_where (is_job job_id) db.rows
