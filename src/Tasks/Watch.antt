-- ===== src/Tasks/Watch.antt =====
-- WatcherService of AgentFrameWork/watcher_service.py: watchers whose condition holds wake their
-- agents.
use model_weaver.Base.{
  ℕ, ◌+◌, ◌≡◌, ◌∙◌, ap, String, Bool, false, ◌&&◌, Option, none, some, List, [], ◌∷◌, any, select,
  length, length-append, first_where, ltb, nat_beq, ◌==◌, text_eq, if◌then◌else◌, arith, Bool-cases,
  inl, inr,
}
use model_weaver.Base.Int.{pos}
use model_weaver.Fsm.Value.{int, text}
use model_weaver.Tasks.{count_pending}
use model_weaver.Tasks.Calls.{WakeupCalls, create_call}
use model_weaver.Tasks.Messages.{AgentQueue, QueuedMessage, is_unread, count_unread}
use model_weaver.Tasks.Watchers.{Watcher, Watchers, list_due_watchers, mark_checked}
use model_weaver.Tasks.Dispatch.{AgentRow, TaskDb, Provisioning, get_or_create_session}
use model_weaver.Tasks.Dispatched.{calls_made, get_or_create_session-calls}

pub record WatchDb : Type 0 where
  pub office : TaskDb
  pub queue : AgentQueue
  pub watchers : Watchers

abbrev pub agent_is : ℕ → AgentRow → Bool
agent_is agent_id a = nat_beq a.agent_id agent_id

-- a.role_type of the watcher's agent
abbrev pub role_of : WatchDb → (agent_id : ℕ) → Option String
role_of db agent_id = elim (first_where (agent_is agent_id) db.office.agents) [
  | none ↦ none
  | some a ↦ some a.role_type
]

abbrev pub asks_succession : QueuedMessage → Bool
asks_succession m =
    elim m.topic [ none ↦ false | some t ↦ t == "succession_request" ] && is_unread m.status

-- WatcherService._check_condition
unfoldable pub check_condition : WatchDb → Watcher → Bool
unfolding count_pending count_unread
check_condition db w =
    if w.watch_type == "tasks"
    then ltb 0 (count_pending db.office.tasks (role_of db w.agent_id) none)
    else if w.watch_type == "queue"
    then ltb 0 (count_unread db.queue w.agent_id)
    else if w.watch_type == "successor_requests"
    then ltb 0 (length (select asks_succession db.queue.rows))
    else false

module _ (p : Provisioning) where
  -- WatcherService._trigger_agent
  unfoldable pub trigger_agent : TaskDb → (now : ℕ) → Watcher → TaskDb
  unfolding get_or_create_session create_call
  trigger_agent db now w =
      let (session_id, db') = get_or_create_session p db now w.agent_id in
      record db' {
        calls =
            create_call db'.calls now w.agent_id session_id "watcher_event"
              (some
                (("watch_type", text w.watch_type) ∷ ("watcher_id", int (pos w.watcher_id)) ∷ []))
              none;
      }

  -- One watcher of the loop of `tick`.
  unfoldable pub watch_one : WatchDb → (now : ℕ) → Watcher → ℕ × WatchDb
  unfolding check_condition trigger_agent mark_checked
  watch_one db now w =
      let watchers = mark_checked db.watchers now w.watcher_id in
      if check_condition db w
      then (1, record db { office = trigger_agent db.office now w; watchers = watchers })
      else (0, record db { watchers = watchers })

  unfoldable pub watch_all : WatchDb → (now : ℕ) → List Watcher → ℕ × WatchDb
  unfolding watch_one
  watch_all db now [] = (0, db)
  watch_all db now (w ∷ ws) =
      let (n, db') = watch_one db now w in let (m, db'') = watch_all db' now ws in (n + m, db'')

  -- WatcherService.tick
  unfoldable pub watch_tick : WatchDb → (now : ℕ) → ℕ × WatchDb
  unfolding watch_all list_due_watchers
  watch_tick db now = watch_all db now (
      list_due_watchers (λ id. any (λ (a : AgentRow). agent_is id a && a.is_idle) db.office.agents)
        db.watchers now)

  calls_made-trigger_agent :
      (db : TaskDb) (now : ℕ) (w : Watcher)
      → calls_made (trigger_agent db now w) ≡ 1 + calls_made db
  unfolding trigger_agent create_call
  calls_made-trigger_agent db now w =
      length-append (get_or_create_session p db now w.agent_id).1.calls.rows _
      ∙ ap (λ (c : WakeupCalls). length c.rows + 1)
          (get_or_create_session-calls p db now w.agent_id)
      ∙ omega arith

  calls_made-watch_one :
      (db : WatchDb) (now : ℕ) (w : Watcher)
      → calls_made (watch_one db now w).1.office ≡ (watch_one db now w).0 + calls_made db.office
  unfolding watch_one
  calls_made-watch_one db now w = elim (Bool-cases (check_condition db w)) [
    | inl holds ↦ simp (holds, watch_one) (calls_made-trigger_agent db.office now w)
    | inr fails ↦ simp (fails, watch_one) (omega arith)
  ]

  calls_made-watch_all :
      (ws : List Watcher) (db : WatchDb) (now : ℕ)
      → calls_made (watch_all db now ws).1.office ≡ (watch_all db now ws).0 + calls_made db.office
  unfolding watch_all
  calls_made-watch_all [] db now = omega arith
  calls_made-watch_all (w ∷ ws) db now =
      let rest = calls_made-watch_all ws (watch_one db now w).1 now in
      let first = calls_made-watch_one db now w in omega (arith, first, rest)

  -- A tick of the watchers makes as many calls as it answers that it has woken agents.
  pub calls_made-watch_tick :
      (db : WatchDb) (now : ℕ)
      → calls_made (watch_tick db now).1.office ≡ (watch_tick db now).0 + calls_made db.office
  unfolding watch_tick
  calls_made-watch_tick db now = calls_made-watch_all _ db now
