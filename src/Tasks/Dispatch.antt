-- ===== src/Tasks/Dispatch.antt =====
-- AgentFrameWork/dispatcher.py: pending tasks are given to idle agents.
use model_weaver.Base.{
  ℕ, zero, suc, ◌+◌, select, leb, order_by, text_leb, ◌++◌, String, Bool, true, ◌&&◌, ◌||◌, Option,
  none, some, List, [], ◌∷◌, ◌++◌, leb, order_by, contains, first_where, update_where, nat_beq,
  ◌==◌, text_eq, if◌then◌else◌,
}
use model_weaver.Base.Int.{pos}
use model_weaver.Fsm.Value.{int, text, Vars, nonempty}
use model_weaver.Tasks.{
  SharedTask, SharedTasks, in_progress, todo, list_pending, claim, is_task, set_rows,
}
use model_weaver.Tasks.Calls.{WakeupCalls, ScheduledJobs, create_call, text_or_null}

-- A row of agents, and the contexts of its configuration.
pub record AgentRow : Type 0 where
  pub agent_id : ℕ
  pub name : String
  pub role_type : String
  pub is_idle : Bool
  pub contexts : List String

-- An active session of an agent.
pub record SessionRow : Type 0 where
  pub session_id : String
  pub agent_id : ℕ
  pub is_active : Bool
  pub updated_at : ℕ

pub record TaskDb : Type 0 where
  pub agents : List AgentRow
  pub tasks : SharedTasks
  pub calls : WakeupCalls
  pub jobs : ScheduledJobs
  pub sessions : List SessionRow

-- ProvisioningService.request_agent, which may create an agent, and the ids of new sessions.
pub record Provisioning : Type 0 where
  pub request_agent : TaskDb → (role context : Option String) → Option ℕ × TaskDb
  pub new_session : TaskDb → (agent_id : ℕ) → String

-- `if agent_id`: an id that is there and not 0.
unfoldable pub real_id : Option ℕ → Option ℕ
real_id none = none
real_id (some zero) = none
real_id (some (suc n)) = some (suc n)

-- AgentRepository.list_all(status="IDLE"), in the order of the names
unfoldable pub idle_agents : TaskDb → List AgentRow
unfolding order_by
idle_agents db =
    order_by (λ a b. text_leb a.name b.name) (select (λ (a : AgentRow). a.is_idle) db.agents)

-- SessionRepository.list_all(agent_id=agent_id, status="ACTIVE"), the latest first
unfoldable pub active_sessions : TaskDb → (agent_id : ℕ) → List SessionRow
unfolding order_by
active_sessions db agent_id =
    order_by (λ s r. leb r.updated_at s.updated_at)
      (select (λ (s : SessionRow). nat_beq s.agent_id agent_id && s.is_active) db.sessions)

-- sessions[0], if there is one
unfoldable pub active_session : TaskDb → (agent_id : ℕ) → Option SessionRow
unfolding active_sessions
active_session db agent_id = first_where (λ s. true) (active_sessions db agent_id)

module _ (p : Provisioning) where
  -- The two tests of the loop of `_find_compatible_agent`.
  abbrev pub fits : (role_type context : Option String) → AgentRow → Bool
  fits role_type context a =
      elim (nonempty role_type) [ none ↦ true | some role ↦ a.role_type == role ]
      && elim (nonempty context) [
        | none ↦ true
        | some c ↦ contains a.contexts c || contains a.contexts "general"
      ]

  -- Dispatcher._find_compatible_agent
  unfoldable pub find_compatible_agent :
      TaskDb → (role_type context : Option String) → Option AgentRow
  unfolding idle_agents
  find_compatible_agent db role_type context = first_where (fits role_type context) (idle_agents db)

  -- Dispatcher._get_or_create_session
  unfoldable pub get_or_create_session : TaskDb → (now agent_id : ℕ) → String × TaskDb
  unfolding active_session
  get_or_create_session db now agent_id = elim (active_session db agent_id) [
    | some s ↦ (s.session_id, db)
    | none ↦
        let id = p.new_session db agent_id in
        (
          id,
          record db {
            sessions =
                db.sessions
                ++ record {
                  session_id = id;
                  agent_id = agent_id;
                  is_active = true;
                  updated_at = now;
                }
                  ∷ [];
          },
        )
  ]

  -- The payload of the call for a task.
  abbrev task_payload : SharedTask → Vars
  task_payload t =
      ("task_id", int (pos t.task_id))
      ∷ ("title", text t.title)
      ∷ ("description", text_or_null t.description)
      ∷ ("context", text t.context)
      ∷ []

  -- Dispatcher._create_wakeup_call
  unfoldable pub create_wakeup_call : TaskDb → (now agent_id : ℕ) → SharedTask → TaskDb
  unfolding get_or_create_session create_call
  create_wakeup_call db now agent_id task =
      let (session_id, db') = get_or_create_session db now agent_id in
      record db' {
        calls =
            create_call db'.calls now agent_id session_id "shared_task" (some (task_payload task))
              none;
      }

  abbrev set_tasks : TaskDb → SharedTasks → TaskDb
  set_tasks db tasks = record db { tasks = tasks }

  -- UPDATE shared_tasks SET … WHERE task_id = ?
  abbrev pub mark_task : (SharedTask → SharedTask) → ℕ → TaskDb → TaskDb
  mark_task f task_id db =
      set_tasks db (set_rows db.tasks (update_where (is_task task_id) f db.tasks.rows))

  -- The branch of a task for which no agent is idle.
  unfoldable pub provision : TaskDb → (now : ℕ) → SharedTask → ℕ × TaskDb
  unfolding create_wakeup_call real_id
  provision db now task =
      let (found, db') =
        p.request_agent (mark_task (λ t. record t { status = in_progress }) task.task_id db)
          task.required_role (some task.context) in
      elim (real_id found) [
        | some agent_id ↦ (
          1,
          create_wakeup_call
              (mark_task (λ t. record t { assigned_to = some agent_id }) task.task_id db') now
              agent_id task,
        )
        | none ↦ (0, mark_task (λ t. record t { status = todo }) task.task_id db')
      ]

  -- The branch of a task for which an agent is idle.
  unfoldable pub assign_task : TaskDb → (now : ℕ) → AgentRow → SharedTask → ℕ × TaskDb
  unfolding claim create_wakeup_call
  assign_task db now agent task =
      let (claimed, tasks) = claim db.tasks now task.task_id agent.agent_id in
      if claimed
      then (1, create_wakeup_call (set_tasks db tasks) now agent.agent_id task)
      else (0, set_tasks db tasks)

  unfoldable pub dispatch_task : TaskDb → (now : ℕ) → SharedTask → ℕ × TaskDb
  unfolding find_compatible_agent provision assign_task
  dispatch_task db now task =
      elim (find_compatible_agent db task.required_role (some task.context)) [
        | some agent ↦ assign_task db now agent task
        | none ↦ provision db now task
      ]

  -- The loop over the tasks.
  unfoldable pub dispatch_tasks : TaskDb → (now : ℕ) → List SharedTask → ℕ × TaskDb
  unfolding dispatch_task
  dispatch_tasks db now [] = (0, db)
  dispatch_tasks db now (task ∷ tasks) =
      let (n, db') = dispatch_task db now task in
      let (m, db'') = dispatch_tasks db' now tasks in (n + m, db'')

  -- Dispatcher.dispatch_pending_tasks
  unfoldable pub dispatch_pending_tasks : TaskDb → (now : ℕ) → ℕ × TaskDb
  unfolding dispatch_tasks list_pending
  dispatch_pending_tasks db now = dispatch_tasks db now (list_pending db.tasks none none 10)
