-- ===== src/Tasks/Dispatched.antt =====
-- What a round of the Dispatcher of AgentFrameWork/dispatcher.py gives out.
use model_weaver.Base.{
  ℕ, ◌+◌, ◌≡◌, refl, ap, ◌∙◌, Option, none, some, List, [], ◌∷◌, String, length, length-append, inl,
  inr, Bool-cases, Option-cases, arith, any,
}
use model_weaver.Tasks.{SharedTask, claim, claimable, list_pending, in_progress}
use model_weaver.Tasks.Calls.{WakeupCalls, create_call}
use model_weaver.Tasks.Dispatch.{
  real_id, AgentRow, TaskDb, Provisioning, find_compatible_agent, get_or_create_session,
  active_session, create_wakeup_call, provision, assign_task, dispatch_task, dispatch_tasks,
  dispatch_pending_tasks, mark_task,
}

-- How many calls there are, of every status.
abbrev pub calls_made : TaskDb → ℕ
calls_made db = length db.calls.rows

module _ (p : Provisioning) where
  pub get_or_create_session-calls :
      (db : TaskDb) (now agent_id : ℕ)
      → (get_or_create_session p db now agent_id).1.calls ≡ db.calls
  unfolding get_or_create_session
  get_or_create_session-calls db now agent_id = elim (Option-cases (active_session db agent_id)) [
    | inl e ↦ simp (e, get_or_create_session) refl
    | inr (s, e) ↦ simp (e, get_or_create_session) refl
  ]

  calls_made-create_wakeup_call :
      (db : TaskDb) (now agent_id : ℕ) (task : SharedTask)
      → calls_made (create_wakeup_call p db now agent_id task) ≡ 1 + calls_made db
  unfolding create_wakeup_call create_call
  calls_made-create_wakeup_call db now agent_id task =
      length-append (get_or_create_session p db now agent_id).1.calls.rows _
      ∙ ap (λ (c : WakeupCalls). length c.rows + 1) (get_or_create_session-calls db now agent_id)
      ∙ omega arith

  -- A task that an idle agent gets: a call is made if the claim changed a row.
  calls_made-assign_task :
      (db : TaskDb) (now : ℕ) (agent : AgentRow) (task : SharedTask)
      → calls_made (assign_task p db now agent task).1
        ≡ (assign_task p db now agent task).0 + calls_made db
  unfolding assign_task claim
  calls_made-assign_task db now agent task =
      elim (Bool-cases (any (claimable task.task_id) db.tasks.rows)) [
        | inl e ↦ simp e (calls_made-create_wakeup_call _ now agent.agent_id task)
        | inr e ↦ simp e (omega arith)
      ]

  module _
      (keeps : (db : TaskDb) (role context : Option String)
        → (p.request_agent db role context).1.calls ≡ db.calls) where
    -- A task for which an agent is asked for.
    calls_made-provision :
        (db : TaskDb) (now : ℕ) (task : SharedTask)
        → calls_made (provision p db now task).1 ≡ (provision p db now task).0 + calls_made db
    unfolding provision
    calls_made-provision db now task =
        let asked =
          p.request_agent (mark_task p (λ t. record t { status = in_progress }) task.task_id db)
            task.required_role (some task.context) in
        let kept =
          ap (λ (c : WakeupCalls). length c.rows)
            (keeps (mark_task p (λ t. record t { status = in_progress }) task.task_id db)
              task.required_role (some task.context)) in
        elim (Option-cases (real_id asked.0)) [
          | inl e ↦ simp (e, provision) (omega (arith, kept))
          | inr (agent_id, e) ↦
              simp (e, provision)
                (calls_made-create_wakeup_call _ now agent_id task ∙ ap (λ n. 1 + n) kept)
        ]

    calls_made-dispatch_task :
        (db : TaskDb) (now : ℕ) (task : SharedTask)
        → calls_made (dispatch_task p db now task).1
          ≡ (dispatch_task p db now task).0 + calls_made db
    unfolding dispatch_task
    calls_made-dispatch_task db now task =
        elim (Option-cases (find_compatible_agent p db task.required_role (some task.context))) [
          | inl e ↦ simp (e, dispatch_task) (calls_made-provision db now task)
          | inr (agent, e) ↦ simp (e, dispatch_task) (calls_made-assign_task db now agent task)
        ]

    calls_made-dispatch_tasks :
        (tasks : List SharedTask) (db : TaskDb) (now : ℕ)
        → calls_made (dispatch_tasks p db now tasks).1
          ≡ (dispatch_tasks p db now tasks).0 + calls_made db
    unfolding dispatch_tasks
    calls_made-dispatch_tasks [] db now = omega arith
    calls_made-dispatch_tasks (task ∷ tasks) db now =
        let first = calls_made-dispatch_task db now task in
        let rest = calls_made-dispatch_tasks tasks (dispatch_task p db now task).1 now in
        omega (arith, first, rest)

    -- If the provisioning makes no calls itself, a round of the dispatcher makes exactly as many calls
    -- as it answers that it has assigned tasks.
    pub calls_made-dispatch_pending_tasks :
        (db : TaskDb) (now : ℕ)
        → calls_made (dispatch_pending_tasks p db now).1
          ≡ (dispatch_pending_tasks p db now).0 + calls_made db
    unfolding dispatch_pending_tasks
    calls_made-dispatch_pending_tasks db now =
        calls_made-dispatch_tasks (list_pending db.tasks none none 10) db now
