-- ===== src/Tasks/Schedule.antt =====
-- AgentFrameWork/scheduler.py: jobs that are due wake an agent.
use model_weaver.Base.{
  ℕ, suc, ◌+◌, String, Bool, true, false, Option, none, some, List, [], ◌∷◌, ltb, if◌then◌else◌,
  text_eq,
}
use model_weaver.Fsm.Value.{Vars, nonempty}
use model_weaver.Tasks.Calls.{
  ScheduledJob, ScheduledJobs, list_due, save_job, update_next_run, disable_job, create_call,
}
use model_weaver.Tasks.Dispatch.{
  real_id, TaskDb, Provisioning, find_compatible_agent, get_or_create_session,
}

-- 3. Calcul du prochain run
unfoldable pub plan_next : ScheduledJobs → (now : ℕ) → ScheduledJob → ScheduledJobs
unfolding update_next_run disable_job
plan_next jobs now job =
    if ltb 0 job.interval_seconds
    then update_next_run jobs job.job_id (now + job.interval_seconds)
    else disable_job jobs job.job_id

module _ (p : Provisioning) where
  abbrev set_jobs : TaskDb → ScheduledJobs → TaskDb
  set_jobs db jobs = record db { jobs = jobs }

  -- An agent of the role, or a new one.
  unfoldable pub agent_for_role : TaskDb → (role_type : String) → Option ℕ × TaskDb
  unfolding find_compatible_agent
  agent_for_role db role_type = elim (find_compatible_agent p db (some role_type) none) [
    | some agent ↦ (some agent.agent_id, db)
    | none ↦ p.request_agent db (some role_type) none
  ]

  -- 1. Résolution de l'agent
  unfoldable pub target_agent : TaskDb → ScheduledJob → Option ℕ × TaskDb
  unfolding agent_for_role
  target_agent db job = elim (real_id job.agent_id) [
    | some agent_id ↦ (some agent_id, db)
    | none ↦ elim (nonempty job.role_type) [
      | some role_type ↦ agent_for_role db role_type
      | none ↦ (none, db)
    ]
  ]

  -- The call for the agent, and the next run.
  unfoldable pub wake : TaskDb → (now agent_id : ℕ) → ScheduledJob → TaskDb
  unfolding get_or_create_session create_call plan_next
  wake db now agent_id job =
      let (session_id, db') = get_or_create_session p db now agent_id in
      record db' {
        calls =
            create_call db'.calls now agent_id session_id job.skill job.request_payload (some now);
        jobs = plan_next db'.jobs now job;
      }

  -- Scheduler._trigger_job
  unfoldable pub trigger_job : TaskDb → (now : ℕ) → ScheduledJob → Bool × TaskDb
  unfolding target_agent wake
  trigger_job db now job =
      let (found, db') = target_agent db job in
      elim (real_id found) [
        | none ↦ (false, db')
        | some agent_id ↦ (true, wake db' now agent_id job)
      ]

  -- The loop of `tick`.
  unfoldable pub trigger_jobs : TaskDb → (now : ℕ) → List ScheduledJob → ℕ × TaskDb
  unfolding trigger_job
  trigger_jobs db now [] = (0, db)
  trigger_jobs db now (job ∷ jobs) =
      let (triggered, db') = trigger_job db now job in
      let (n, db'') = trigger_jobs db' now jobs in ((if triggered then suc n else n), db'')

  -- Scheduler.tick
  unfoldable pub tick_jobs : TaskDb → (now : ℕ) → ℕ × TaskDb
  unfolding trigger_jobs list_due
  tick_jobs db now = trigger_jobs db now (list_due db.jobs now)

  -- Scheduler.schedule_task
  unfoldable pub schedule_task :
      TaskDb
      → (now : ℕ) (skill : String) (payload : Option Vars) (run_at : Option ℕ) (interval : ℕ)
        (agent_id : Option ℕ) (role_type : Option String)
      → TaskDb
  unfolding save_job
  schedule_task db now skill payload run_at interval agent_id role_type = set_jobs db (
      save_job db.jobs (record {
        job_id = 0;
        agent_id = agent_id;
        role_type = role_type;
        skill = skill;
        request_payload = payload;
        interval_seconds = interval;
        next_run_at = elim run_at [ none ↦ now | some t ↦ t ];
        enabled = true;
      }))
