-- ===== src/Tasks/Claims.antt =====
-- Who holds a task: the claims of SharedTaskRepository and of WakeupCallRepository, between other
-- operations on their tables.
use model_weaver.Base.{
  arith, ℕ, ◌+◌, ◌<◌, ◌≡◌, refl, ◌∙◌, Bool, false, Option, none, some, List, [], ◌∷◌, String,
  select, any, length, update_where, any-update_where, any-update_where-outside, any-append,
  length-update_where, update_where-none, nat_beq,
}
use model_weaver.Base.Int.{ℤ}
use model_weaver.Tasks.{
  SharedTask, SharedTasks, TaskStatus, in_progress, done, failed, is_task, claimable, create, claim,
  complete, fail_task, release,
}
use model_weaver.Tasks.Calls.{
  WakeupCall, WakeupCalls, takeable, claim_call, is_todo, todo, is_busy, reset_busy,
}

abbrev taken_by : (now agent_id : ℕ) → SharedTask → SharedTask
taken_by now agent_id t = record t {
  status = in_progress;
  assigned_to = some agent_id;
  updated_at = now;
}

-- No row is claimable after a claim.
claim-none :
    (db : SharedTasks) (now task_id agent_id : ℕ)
    → any (claimable task_id) (claim db now task_id agent_id).1.rows ≡ false
unfolding claim
claim-none db now task_id agent_id =
    any-update_where (claimable task_id) (taken_by now agent_id) db.rows (λ t h. ground arith)

-- One operation on the table that is no release of the task `task_id`.
pub data TaskStep (task_id : ℕ) : SharedTasks → SharedTasks → Type 0 where
  by_create :
      (db : SharedTasks) (now : ℕ) (title : String) (description required_role : Option String)
      (context : String) (priority : ℤ) (parent_task_id : Option ℕ)
      → TaskStep task_id db
          (create db now title description required_role context priority parent_task_id)
  by_claim :
      (db : SharedTasks) (now other agent_id : ℕ)
      → TaskStep task_id db (claim db now other agent_id).1
  by_complete : (db : SharedTasks) (now other : ℕ) → TaskStep task_id db (complete db now other)
  by_fail : (db : SharedTasks) (now other : ℕ) → TaskStep task_id db (fail_task db now other)
  by_release :
      (db : SharedTasks) (now other : ℕ)
      → nat_beq other task_id ≡ false
      → TaskStep task_id db (release db now other)

-- Any number of them.
pub data Reach (task_id : ℕ) (db : SharedTasks) : SharedTasks → Type 0 where
  here : Reach task_id db db
  next :
      {db' db'' : SharedTasks}
      → Reach task_id db db'
      → TaskStep task_id db' db''
      → Reach task_id db db''

-- The task is not to do, and its id will not be given again.
record IsTaken (task_id : ℕ) (db : SharedTasks) : Type 0 where
  none_free : any (claimable task_id) db.rows ≡ false
  known : task_id < db.next_id

TaskStep-IsTaken :
    {task_id : ℕ} {db db' : SharedTasks}
    → TaskStep task_id db db'
    → IsTaken task_id db
    → IsTaken task_id db'
unfolding create claim complete fail_task release
TaskStep-IsTaken {task_id}
      (by_create db now title description required_role context priority parent) k =
    record {
      none_free =
          any-append (claimable task_id) db.rows _ ∙ simp (k.none_free) (ground (arith, k.known));
      known = omega (arith, k.known);
    }
TaskStep-IsTaken {task_id} (by_claim db now other agent_id) k = record {
  none_free =
      any-update_where-outside (claimable task_id) (claimable task_id) (claimable other)
        (taken_by now agent_id) db.rows (λ r h. ground arith) (λ r h free. free) k.none_free;
  known = k.known;
}
TaskStep-IsTaken {task_id} (by_complete db now other) k = record {
  none_free =
      any-update_where-outside (claimable task_id) (claimable task_id) (is_task other)
        (λ t. record t { status = done; updated_at = now }) db.rows (λ r h. ground arith)
        (λ r h free. free) k.none_free;
  known = k.known;
}
TaskStep-IsTaken {task_id} (by_fail db now other) k = record {
  none_free =
      any-update_where-outside (claimable task_id) (claimable task_id) (is_task other)
        (λ t. record t { status = failed; updated_at = now }) db.rows (λ r h. ground arith)
        (λ r h free. free) k.none_free;
  known = k.known;
}
TaskStep-IsTaken {task_id} (by_release db now other differs) k = record {
  none_free =
      any-update_where-outside (claimable task_id) (claimable task_id) (is_task other)
        (λ t. record t { status = TaskStatus.todo; assigned_to = none; updated_at = now }) db.rows
        (λ r h. ground (arith, differs)) (λ r h free. free) k.none_free;
  known = k.known;
}

Reach-IsTaken :
    {task_id : ℕ} {db db' : SharedTasks}
    → IsTaken task_id db
    → Reach task_id db db'
    → IsTaken task_id db'
Reach-IsTaken k here = k
Reach-IsTaken k (next steps step) = TaskStep-IsTaken step (Reach-IsTaken k steps)

-- After a claim of a task whose id was given already, successful or not, and after any number of
-- tasks created, claimed, completed, failed, or released but for this one, another claim of the
-- task answers false and changes no row.
pub claim-once :
    (db db' : SharedTasks) (now later task_id agent_id other : ℕ)
    → task_id < db.next_id
    → Reach task_id (claim db now task_id agent_id).1 db'
    → claim db' later task_id other ≡ (false, db')
unfolding claim
claim-once db db' now later task_id agent_id other known steps =
    let taken =
      Reach-IsTaken (record { none_free = claim-none db now task_id agent_id; known = known })
        steps in
    rw
      (
        taken.none_free,
        update_where-none (claimable task_id) (taken_by later other) db'.rows taken.none_free,
      )
      refl

-- No call is claimable after a claim of it.
claim_call-none :
    (db : WakeupCalls) (task_id : ℕ) → any (takeable task_id) (claim_call db task_id).1.rows ≡ false
unfolding claim_call
claim_call-none db task_id = any-update_where (takeable task_id) _ db.rows (λ c h. ground arith)

-- A claim of a call after a claim of the same call answers false and changes no row.
pub claim_call-once :
    (db : WakeupCalls) (task_id : ℕ)
    → claim_call (claim_call db task_id).1 task_id ≡ (false, (claim_call db task_id).1)
unfolding claim_call
claim_call-once db task_id =
    rw
      (
        claim_call-none db task_id,
        update_where-none (takeable task_id) _ (claim_call db task_id).1.rows
            (claim_call-none db task_id),
      )
      refl

abbrev pub waits : WakeupCall → Bool
waits c = is_todo c.status

abbrev pub in_work : WakeupCall → Bool
in_work c = is_busy c.status

abbrev put_back : WakeupCall → WakeupCall
put_back c = record c { status = todo }

-- The count of the rows to do grows by the rows an update makes so.
length-select-update_where :
    (rows : List WakeupCall)
    → length (select waits (update_where in_work put_back rows))
      ≡ length (select in_work rows) + length (select waits rows)
length-select-update_where [] = refl
length-select-update_where (c ∷ rows) = ground (arith, length-select-update_where rows)

-- After reset_busy no call is being worked on, as many more as it answers wait to be done, and no
-- call was added or lost.
pub reset_busy-all :
    (db : WakeupCalls)
    → (any in_work (reset_busy db).1.rows ≡ false)
      × (length (select waits (reset_busy db).1.rows)
          ≡ (reset_busy db).0 + length (select waits db.rows))
      × (length (reset_busy db).1.rows ≡ length db.rows)
unfolding reset_busy
reset_busy-all db = (
  any-update_where in_work put_back db.rows (λ c h. refl),
  length-select-update_where db.rows,
  length-update_where in_work put_back db.rows,
)
