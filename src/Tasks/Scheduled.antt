-- ===== src/Tasks/Scheduled.antt =====
-- What a tick of the Scheduler of AgentFrameWork/scheduler.py does with the jobs that are due.
use model_weaver.Base.{
  ℕ, zero, suc, Option-cases, tests, ◌+◌, ◌≡◌, refl, sym, ap, ◌∙◌, Bool, true, false, not, ◌&&◌,
  Option, none, some, List, [], ◌∷◌, length, length-append, inl, inr, Bool-cases, arith, any, All,
  select, nat_beq_iff, leb, ltb, any-update_where-outside, any-order_by, All-order_by,
  any-cons-false,
}
use mathlib.Core.Bool.{true≢false}
use model_weaver.Tasks.Calls.{
  ScheduledJob, ScheduledJobs, WakeupCalls, create_call, is_due, is_job, list_due, update_next_run,
  disable_job,
}
use model_weaver.Tasks.Dispatch.{
  real_id, TaskDb, Provisioning, active_session, get_or_create_session,
}
use model_weaver.Tasks.Dispatched.{calls_made, get_or_create_session-calls}
use model_weaver.Tasks.Schedule.{
  plan_next, target_agent, wake, trigger_job, trigger_jobs, tick_jobs,
}

-- The job names the agent it is for.
abbrev pub is_named : ScheduledJob → Bool
is_named job = elim (real_id job.agent_id) [ none ↦ false | some agent_id ↦ true ]

-- A job that is due and that the list does not hold.
abbrev missed : (now : ℕ) → List ScheduledJob → ScheduledJob → Bool
missed now jobs r = is_due now r && not (any (λ j. is_job j.job_id r) jobs)

leb-later : (now n : ℕ) → ltb 0 n ≡ true → leb (now + n) now ≡ false
leb-later now n h = grind (tests, h)

missed-plan_next :
    (now : ℕ) (job : ScheduledJob) (rest : List ScheduledJob) (jobs : ScheduledJobs)
    → any (missed now (job ∷ rest)) jobs.rows ≡ false
    → any (missed now rest) (plan_next jobs now job).rows ≡ false
unfolding plan_next update_next_run disable_job
missed-plan_next now job rest jobs h = elim (Bool-cases (ltb 0 job.interval_seconds)) [
  | inl again ↦ simp again (
      any-update_where-outside _ _ (is_job job.job_id) _ jobs.rows
        (λ r hit. simp (leb-later now job.interval_seconds again) (ground arith))
        (λ r miss e. sym (simp miss refl) ∙ e) h)
  | inr once ↦ simp once (
      any-update_where-outside _ _ (is_job job.job_id) _ jobs.rows (λ r hit. refl)
        (λ r miss e. sym (simp miss refl) ∙ e) h)
]

-- Every row that is due is in a list that holds what a query for the rows due chooses.
missed-list :
    (now : ℕ) (jobs rows : List ScheduledJob)
    → ((q : ScheduledJob → Bool) → any q (select (is_due now) rows) ≡ true → any q jobs ≡ true)
    → any (missed now jobs) rows ≡ false
missed-list now jobs [] h = refl
missed-list now jobs (r ∷ rows) h = elim (Bool-cases (is_due now r)) [
  | inl due ↦
      let held =
        h (λ j. is_job j.job_id r) (simp (due, (nat_beq_iff r.job_id r.job_id).1 refl) refl) in
      simp (due, held) (missed-list now jobs rows (λ q e. h q (simp due (ground (arith, e)))))
  | inr other ↦ simp other (missed-list now jobs rows (λ q e. h q (simp other e)))
]

nothing_missed :
    (now : ℕ) (rows : List ScheduledJob)
    → any (missed now []) rows ≡ false
    → any (is_due now) rows ≡ false
nothing_missed now [] h = refl
nothing_missed now (r ∷ rows) h =
    let here = any-cons-false (missed now []) r rows h in
    let rest = nothing_missed now rows here.1 in ground (arith, rest, here.0)

missed-list_due :
    (now : ℕ) (jobs : ScheduledJobs) → any (missed now (list_due jobs now)) jobs.rows ≡ false
unfolding list_due
missed-list_due now jobs =
    missed-list now _ jobs.rows (λ q h. any-order_by q _ (select (is_due now) jobs.rows) ∙ h)

-- Every job that a tick takes names its agent if every due job does.
All-is_named :
    (now : ℕ) (rows : List ScheduledJob)
    → any (λ j. is_due now j && not (is_named j)) rows ≡ false
    → All (λ j. is_named j ≡ true) (select (is_due now) rows)
All-is_named now [] h = tt
All-is_named now (j ∷ rows) h =
    let here = any-cons-false (λ j. is_due now j && not (is_named j)) j rows h in
    elim (Bool-cases (is_due now j)) [
      | inl due ↦ elim (Bool-cases (is_named j)) [
        | inl named ↦ simp due (named, All-is_named now rows here.1)
        | inr nameless ↦ absurd (true≢false (sym (simp (due, nameless) refl) ∙ here.0))
      ]
      | inr other ↦ simp other (All-is_named now rows here.1)
    ]

real_id-real_id : (id : Option ℕ) → real_id (real_id id) ≡ real_id id
unfolding real_id
real_id-real_id none = refl
real_id-real_id (some zero) = refl
real_id-real_id (some (suc n)) = refl

is_named-some :
    (job : ScheduledJob)
    → is_named job ≡ true
    → (n : ℕ) × (real_id job.agent_id ≡ some n) × (real_id (some n) ≡ some n)
is_named-some job named = elim (Option-cases (real_id job.agent_id)) [
  | inl e ↦
      absurd (true≢false (sym named ∙ ap (λ o. elim o [ none ↦ false | some agent_id ↦ true ]) e))
  | inr (n, e) ↦ (n, e, ap real_id (sym e) ∙ real_id-real_id job.agent_id ∙ e)
]

module _ (p : Provisioning) where
  get_or_create_session-jobs :
      (db : TaskDb) (now agent_id : ℕ) → (get_or_create_session p db now agent_id).1.jobs ≡ db.jobs
  unfolding get_or_create_session
  get_or_create_session-jobs db now agent_id = elim (Option-cases (active_session db agent_id)) [
    | inl e ↦ simp (e, get_or_create_session) refl
    | inr (s, e) ↦ simp (e, get_or_create_session) refl
  ]

  calls_made-wake :
      (db : TaskDb) (now agent_id : ℕ) (job : ScheduledJob)
      → calls_made (wake p db now agent_id job) ≡ 1 + calls_made db
  unfolding wake create_call
  calls_made-wake db now agent_id job =
      length-append (get_or_create_session p db now agent_id).1.calls.rows _
      ∙ ap (λ (c : WakeupCalls). length c.rows + 1) (get_or_create_session-calls p db now agent_id)
      ∙ omega arith

  jobs-wake :
      (db : TaskDb) (now agent_id : ℕ) (job : ScheduledJob)
      → (wake p db now agent_id job).jobs ≡ plan_next db.jobs now job
  unfolding wake
  jobs-wake db now agent_id job =
      ap (λ jobs. plan_next jobs now job) (get_or_create_session-jobs db now agent_id)

  target_agent-named :
      (db : TaskDb) (job : ScheduledJob) (n : ℕ)
      → real_id job.agent_id ≡ some n
      → target_agent p db job ≡ (some n, db)
  unfolding target_agent
  target_agent-named db job n e = simp (e, target_agent) refl

  trigger_job-target :
      (db : TaskDb) (now : ℕ) (job : ScheduledJob) (n : ℕ)
      → target_agent p db job ≡ (some n, db)
      → real_id (some n) ≡ some n
      → trigger_job p db now job ≡ (true, wake p db now n job)
  unfolding trigger_job
  trigger_job-target db now job n e again = simp (e, again, trigger_job) refl

  -- A job that names its agent wakes it: its next run is planned and one call is made.
  trigger_job-is_named :
      (db : TaskDb) (now : ℕ) (job : ScheduledJob)
      → is_named job ≡ true
      → ((trigger_job p db now job).0 ≡ true)
        × ((trigger_job p db now job).1.jobs ≡ plan_next db.jobs now job)
        × (calls_made (trigger_job p db now job).1 ≡ 1 + calls_made db)
  trigger_job-is_named db now job named =
      let (n, e, again) = is_named-some job named in
      rw (trigger_job-target db now job n (target_agent-named db job n e) again)
        (refl, jobs-wake db now n job, calls_made-wake db now n job)

  -- A list of jobs that name their agents and that holds every job due wakes them all.
  trigger_jobs-is_due :
      (jobs : List ScheduledJob) (db : TaskDb) (now : ℕ)
      → All (λ j. is_named j ≡ true) jobs
      → any (missed now jobs) db.jobs.rows ≡ false
      → (any (is_due now) (trigger_jobs p db now jobs).1.jobs.rows ≡ false)
        × ((trigger_jobs p db now jobs).0 ≡ length jobs)
        × (calls_made (trigger_jobs p db now jobs).1 ≡ length jobs + calls_made db)
  unfolding trigger_jobs
  trigger_jobs-is_due [] db now named h = (nothing_missed now db.jobs.rows h, refl, omega arith)
  trigger_jobs-is_due (job ∷ jobs) db now named h =
      let (woken, planned, called) = trigger_job-is_named db now job named.0 in
      let (none_due, count, calls) =
        trigger_jobs-is_due jobs (trigger_job p db now job).1 now named.1 (
          ap (λ (js : ScheduledJobs). any (missed now jobs) js.rows) planned
          ∙ missed-plan_next now job jobs db.jobs h) in
      (none_due, simp woken (omega (arith, count)), omega (arith, calls, called))

  -- If every job that is due names its agent, a tick of the scheduler wakes an agent for each of
  -- them: it answers their number, has made as many calls, and no job is due after it at that time.
  pub tick_jobs-is_due :
      (db : TaskDb) (now : ℕ)
      → any (λ j. is_due now j && not (is_named j)) db.jobs.rows ≡ false
      → (any (is_due now) (tick_jobs p db now).1.jobs.rows ≡ false)
        × ((tick_jobs p db now).0 ≡ length (list_due db.jobs now))
        × (calls_made (tick_jobs p db now).1 ≡ (tick_jobs p db now).0 + calls_made db)
  unfolding tick_jobs list_due
  tick_jobs-is_due db now named =
      let (none_due, count, calls) =
        trigger_jobs-is_due (list_due db.jobs now) db now
          (All-order_by (λ j. is_named j ≡ true) _ _ (All-is_named now db.jobs.rows named))
          (missed-list_due now db.jobs) in
      (none_due, count, omega (arith, count, calls))
