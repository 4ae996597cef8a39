-- ===== src/Tasks.antt =====
-- The shared tasks and the calls that wake agents: SharedTaskRepository of
-- modules/sql/orchestration_repository.py, and WakeupCallRepository and ScheduledJobRepository of
-- modules/sql/agent_repository.py.
pub mod Calls
pub mod Messages
pub mod Watchers
pub mod Dispatch
pub mod Schedule
pub mod Claims
pub mod Pending
pub mod Dispatched
pub mod Scheduled
pub mod Watch
mod Samples
use model_weaver.Base.{
  ℕ, suc, ◌+◌, String, Bool, true, false, ◌&&◌, ◌||◌, Option, none, some, List, [], ◌∷◌, ◌++◌,
  select, any, update_where, first_where, order_by, limit, leb, ltb, nat_beq, ◌==◌, text_eq,
  if◌then◌else◌, length,
}
use model_weaver.Base.Int.{ℤ, leb_int, eq_int}
use model_weaver.Fsm.Value.{nonempty}

pub data TaskStatus : Type 0 where
  todo in_progress done failed cancelled : TaskStatus

pub record SharedTask : Type 0 where
  pub task_id : ℕ
  pub title : String
  pub description : Option String
  pub required_role : Option String
  pub context : String
  pub priority : ℤ
  pub parent_task_id : Option ℕ
  pub status : TaskStatus
  pub assigned_to : Option ℕ
  pub created_at : ℕ
  pub updated_at : ℕ

-- The rows of shared_tasks, and the next value of AUTOINCREMENT.
pub record SharedTasks : Type 0 where
  pub rows : List SharedTask
  pub next_id : ℕ

abbrev pub is_todo : TaskStatus → Bool
is_todo todo = true
is_todo _ = false

-- st.priority DESC, st.created_at ASC
abbrev pub task_order : SharedTask → SharedTask → Bool
task_order s r =
    if eq_int s.priority r.priority
    then leb s.created_at r.created_at
    else leb_int r.priority s.priority

-- (required_role IS NULL OR required_role = ?), if a role is asked for
abbrev pub role_fits : (role : Option String) → SharedTask → Bool
role_fits role t = elim (nonempty role) [
  | none ↦ true
  | some r ↦ elim t.required_role [ none ↦ true | some q ↦ q == r ]
]

abbrev pub context_fits : (context : Option String) → SharedTask → Bool
context_fits context t = elim (nonempty context) [ none ↦ true | some c ↦ t.context == c ]

abbrev pub is_pending : (role context : Option String) → SharedTask → Bool
is_pending role context t = is_todo t.status && role_fits role t && context_fits context t

-- SharedTaskRepository.create, at the time `now`
unfoldable pub create :
    SharedTasks
    → (now : ℕ) (title : String) (description required_role : Option String) (context : String)
      (priority : ℤ) (parent_task_id : Option ℕ)
    → SharedTasks
create db now title description required_role context priority parent_task_id = record db {
  next_id = db.next_id + 1;
  rows =
      db.rows
      ++ record {
        task_id = db.next_id;
        title = title;
        description = description;
        required_role = required_role;
        context = context;
        priority = priority;
        parent_task_id = parent_task_id;
        status = todo;
        assigned_to = none;
        created_at = now;
        updated_at = now;
      }
        ∷ [];
}

-- SharedTaskRepository.list_pending
unfoldable pub list_pending :
    SharedTasks → (role context : Option String) (count : ℕ) → List SharedTask
unfolding order_by
list_pending db role context count =
    limit count (order_by task_order (select (is_pending role context) db.rows))

-- SharedTaskRepository.count_pending
unfoldable pub count_pending : SharedTasks → (role context : Option String) → ℕ
count_pending db role context = length (select (is_pending role context) db.rows)

abbrev pub set_rows : SharedTasks → List SharedTask → SharedTasks
set_rows db rows = record db { rows = rows }

abbrev pub is_task : ℕ → SharedTask → Bool
is_task task_id t = nat_beq t.task_id task_id

abbrev pub claimable : ℕ → SharedTask → Bool
claimable task_id t = is_task task_id t && is_todo t.status

-- SharedTaskRepository.claim: whether a row was changed
unfoldable pub claim : SharedTasks → (now task_id agent_id : ℕ) → Bool × SharedTasks
claim db now task_id agent_id = (
  any (claimable task_id) db.rows,
  set_rows db (
      update_where (claimable task_id)
        (λ t. record t { status = in_progress; assigned_to = some agent_id; updated_at = now })
        db.rows),
)

-- SharedTaskRepository.complete
unfoldable pub complete : SharedTasks → (now task_id : ℕ) → SharedTasks
complete db now task_id =
    set_rows db
      (update_where (is_task task_id) (λ t. record t { status = done; updated_at = now }) db.rows)

-- SharedTaskRepository.fail
unfoldable pub fail_task : SharedTasks → (now task_id : ℕ) → SharedTasks
fail_task db now task_id =
    set_rows db
      (update_where (is_task task_id) (λ t. record t { status = failed; updated_at = now }) db.rows)

-- SharedTaskRepository.release
unfoldable pub release : SharedTasks → (now task_id : ℕ) → SharedTasks
release db now task_id = set_rows db (
    update_where (is_task task_id)
      (λ t. record t { status = todo; assigned_to = none; updated_at = now }) db.rows)

-- SharedTaskRepository.get, without the agent's name
unfoldable pub get_task : SharedTasks → (task_id : ℕ) → Option SharedTask
get_task db task_id = first_where (is_task task_id) db.rows

abbrev is_critique_of : ℕ → SharedTask → Bool
is_critique_of task_id child = elim child.parent_task_id [
  | none ↦ false
  | some parent ↦
      nat_beq parent task_id
      && elim child.required_role [ none ↦ false | some role ↦ role == "critique" ]
]

abbrev is_done : TaskStatus → Bool
is_done done = true
is_done _ = false

-- SharedTaskRepository.list_done_without_review
unfoldable pub list_done_without_review : SharedTasks → (count : ℕ) → List SharedTask
unfolding order_by
list_done_without_review db count = limit count (
    order_by (λ s r. leb s.updated_at r.updated_at)
      (select
        (λ t. is_done t.status && (if any (is_critique_of t.task_id) db.rows then false else true))
        db.rows))

-- SharedTaskRepository.list_by_agent
unfoldable pub list_by_agent : SharedTasks → (agent_id count : ℕ) → List SharedTask
unfolding order_by
list_by_agent db agent_id count = limit count (
    order_by (λ s r. leb r.updated_at s.updated_at)
      (select (λ t. elim t.assigned_to [ none ↦ false | some a ↦ nat_beq a agent_id ]) db.rows))
