-- ===== src/Tasks/Watchers.antt =====
-- WatcherRepository and ConnectionRepository of modules/sql/orchestration_repository.py.
use model_weaver.Base.{
  ℕ, ◌+◌, String, Bool, true, false, ◌&&◌, Option, none, some, List, [], ◌∷◌, ◌++◌, any, select,
  update_where, delete_where, first_where, order_by, leb, nat_beq, text_leb, ◌==◌, if◌then◌else◌,
}
use model_weaver.Fsm.Value.{Vars}

-- A row of watchers.
pub record Watcher : Type 0 where
  pub watcher_id : ℕ
  pub agent_id : ℕ
  pub watch_type : String
  pub filter_criteria : Option Vars
  pub interval_seconds : ℕ
  pub last_checked_at : Option ℕ
  pub enabled : Bool

pub record Watchers : Type 0 where
  pub rows : List Watcher
  pub next_id : ℕ

-- json.dumps(d) if d else None, with what json.loads makes of it again
abbrev pub null_if_empty : Option Vars → Option Vars
null_if_empty none = none
null_if_empty (some []) = none
null_if_empty (some (kv ∷ d)) = some (kv ∷ d)

-- WatcherRepository.create
unfoldable pub create_watcher :
    Watchers
    → (agent_id : ℕ) (watch_type : String) (filter_criteria : Option Vars) (interval_seconds : ℕ)
    → Watchers
create_watcher db agent_id watch_type filter_criteria interval_seconds = record db {
  next_id = db.next_id + 1;
  rows =
      db.rows
      ++ record {
        watcher_id = db.next_id;
        agent_id = agent_id;
        watch_type = watch_type;
        filter_criteria = null_if_empty filter_criteria;
        interval_seconds = interval_seconds;
        last_checked_at = none;
        enabled = true;
      }
        ∷ [];
}

-- ORDER BY w.last_checked_at ASC NULLS FIRST
abbrev pub checked_order : Watcher → Watcher → Bool
checked_order s r = elim s.last_checked_at [
  | none ↦ true
  | some a ↦ elim r.last_checked_at [ none ↦ false | some b ↦ leb a b ]
]

abbrev pub watcher_due : (now : ℕ) → Watcher → Bool
watcher_due now w = w.enabled && elim w.last_checked_at [ none ↦ true | some t ↦ leb t now ]

-- WatcherRepository.list_due; `is_idle` says whether the watcher's agent is there and idle.
unfoldable pub list_due_watchers : (is_idle : ℕ → Bool) → Watchers → (now : ℕ) → List Watcher
unfolding order_by
list_due_watchers is_idle db now =
    order_by checked_order (select (λ w. watcher_due now w && is_idle w.agent_id) db.rows)

abbrev pub is_watcher : ℕ → Watcher → Bool
is_watcher watcher_id w = nat_beq w.watcher_id watcher_id

-- WatcherRepository.mark_checked
unfoldable pub mark_checked : Watchers → (now watcher_id : ℕ) → Watchers
mark_checked db now watcher_id = record db {
  rows =
      update_where (is_watcher watcher_id) (λ w. record w { last_checked_at = some now }) db.rows;
}

-- WatcherRepository.update_interval
unfoldable pub update_interval : Watchers → (watcher_id interval_seconds : ℕ) → Watchers
update_interval db watcher_id interval_seconds = record db {
  rows =
      update_where (is_watcher watcher_id) (λ w. record w { interval_seconds = interval_seconds })
        db.rows;
}

-- WatcherRepository.delete: whether a row was deleted
unfoldable pub delete_watcher : Watchers → (watcher_id : ℕ) → Bool × Watchers
delete_watcher db watcher_id = (
  any (is_watcher watcher_id) db.rows,
  record db { rows = delete_where (is_watcher watcher_id) db.rows },
)

-- WatcherRepository.list_by_agent
unfoldable pub watchers_of_agent : Watchers → (agent_id : ℕ) → List Watcher
unfolding order_by
watchers_of_agent db agent_id =
    order_by (λ s r. text_leb s.watch_type r.watch_type)
      (select (λ w. nat_beq w.agent_id agent_id) db.rows)

-- A row of agent_connections.
pub record Connection : Type 0 where
  pub conn_id : ℕ
  pub agent_id : ℕ
  pub channel : String
  pub target_id : Option ℕ
  pub config : Option Vars
  pub enabled : Bool

pub record Connections : Type 0 where
  pub rows : List Connection
  pub next_id : ℕ

-- target_id = ?, or target_id IS NULL if there is none
abbrev pub same_target : Option ℕ → Option ℕ → Bool
same_target none none = true
same_target none (some b) = false
same_target (some a) none = false
same_target (some a) (some b) = nat_beq b a

abbrev pub joins : (agent_id : ℕ) (channel : String) (target_id : Option ℕ) → Connection → Bool
joins agent_id channel target_id c =
    nat_beq c.agent_id agent_id && c.channel == channel && same_target target_id c.target_id

-- ConnectionRepository.get
unfoldable pub get_connection :
    Connections → (agent_id : ℕ) (channel : String) (target_id : Option ℕ) → Option Connection
get_connection db agent_id channel target_id =
    first_where (joins agent_id channel target_id) db.rows

abbrev pub is_connection : ℕ → Connection → Bool
is_connection conn_id c = nat_beq c.conn_id conn_id

-- ConnectionRepository.connect: the id of the connection
unfoldable pub connect :
    Connections
    → (agent_id : ℕ) (channel : String) (target_id : Option ℕ) (config : Option Vars)
    → ℕ × Connections
unfolding get_connection
connect db agent_id channel target_id config = elim (get_connection db agent_id channel target_id) [
  | some c ↦ (
    c.conn_id,
    record db {
      rows =
          update_where (is_connection c.conn_id)
            (λ d. record d { enabled = true; config = null_if_empty config }) db.rows;
    },
  )
  | none ↦ (
    db.next_id,
    record db {
      next_id = db.next_id + 1;
      rows =
          db.rows
          ++ record {
            conn_id = db.next_id;
            agent_id = agent_id;
            channel = channel;
            target_id = target_id;
            config = null_if_empty config;
            enabled = true;
          }
            ∷ [];
    },
  )
]

-- ConnectionRepository.disconnect: whether a row was changed
unfoldable pub disconnect :
    Connections → (agent_id : ℕ) (channel : String) (target_id : Option ℕ) → Bool × Connections
disconnect db agent_id channel target_id = (
  any (joins agent_id channel target_id) db.rows,
  record db {
    rows =
        update_where (joins agent_id channel target_id) (λ c. record c { enabled = false }) db.rows;
  },
)

-- ConnectionRepository.delete: whether a row was deleted
unfoldable pub delete_connection : Connections → (conn_id : ℕ) → Bool × Connections
delete_connection db conn_id = (
  any (is_connection conn_id) db.rows,
  record db { rows = delete_where (is_connection conn_id) db.rows },
)

-- ConnectionRepository.list_by_agent
unfoldable pub connections_of_agent :
    Connections → (agent_id : ℕ) (enabled_only : Bool) → List Connection
unfolding order_by
connections_of_agent db agent_id enabled_only =
    order_by (λ s r. text_leb s.channel r.channel)
      (select (λ c. nat_beq c.agent_id agent_id && (if enabled_only then c.enabled else true))
        db.rows)

-- ConnectionRepository.list_by_channel
unfoldable pub connections_of_channel :
    Connections → (channel : String) (enabled_only : Bool) → List Connection
connections_of_channel db channel enabled_only =
    select (λ c. c.channel == channel && (if enabled_only then c.enabled else true)) db.rows
