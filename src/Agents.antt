-- ===== src/Agents.antt =====
-- The agents of services/agent_manager/service.py: the tables of the database of agents and the
-- life of an agent, from hydrate to dehydrate.
pub mod Signals
pub mod Supervisor
pub mod Names
pub mod Fresh
pub mod Chats
pub mod Channel
pub mod Consumed
pub mod Supervised
pub mod Preempted
pub mod Admitted
pub mod Sessions
mod Samples
use model_weaver.Base.{
  ℕ, ◌+◌, String, Bool, true, false, ◌&&◌, Option, none, some, List, [], ◌∷◌, ◌++◌, any,
  update_where, delete_where, first_where, nat_beq, if◌then◌else◌,
}
use model_weaver.Base.Int.{ℤ, pos}
use model_weaver.Fsm.Value.{Value, obj, end, Vars}

pub data AgentStatus : Type 0 where
  init idle running stopped terminated : AgentStatus

pub data Occupation : Type 0 where
  continue noncontinue disparate : Occupation

-- The keys of resources_json that the manager reads.
pub record Resources : Type 0 where
  pub llm : Option Bool
  pub priority : Option ℤ
  pub preemptible : Option Bool
  -- ram, cpu, llm_pref and what else the JSON names
  pub others : Vars

-- A row of agents; the columns with JSON hold what json.loads makes of them.
pub record Agent : Type 0 where
  pub agent_id : ℕ
  pub name : String
  pub role_type : String
  pub occupation : Occupation
  pub status : AgentStatus
  pub resources : Resources
  pub variables : Vars
  pub state : Option Value
  pub successor_id : Option ℕ

-- A row of agent_runtime, without the name of the thread.
pub record AgentRuntime : Type 0 where
  pub agent_id : ℕ
  pub pid : ℕ
  pub heartbeat_at : ℕ
  pub current_step : String

-- A row of agent_metrics.
pub record Metrics : Type 0 where
  pub agent_id : ℕ
  pub total_tasks : ℕ
  pub total_tokens : ℕ
  pub failed_tasks : ℕ

pub data SignalType : Type 0 where
  pause resume status health kill configure : SignalType

pub data SignalStatus : Type 0 where
  pending acked completed : SignalStatus

-- The keys of a signal's payload that the code reads or writes.
pub record Payload : Type 0 where
  pub variables : Option Vars
  pub state : Option Value
  pub result : Option Vars

-- A row of agent_signals.
pub record SignalRow : Type 0 where
  pub signal_id : ℕ
  pub agent_id : ℕ
  pub type : SignalType
  pub payload : Payload
  pub status : SignalStatus

-- The tables, and the next ids of the two that count them.
pub record AgentsDb : Type 0 where
  pub agents : List Agent
  pub next_agent : ℕ
  pub runtimes : List AgentRuntime
  pub metrics : List Metrics
  pub signals : List SignalRow
  pub next_signal : ℕ

abbrev pub is_agent : ℕ → Agent → Bool
is_agent agent_id a = nat_beq a.agent_id agent_id

abbrev pub runtime_of : ℕ → AgentRuntime → Bool
runtime_of agent_id r = nat_beq r.agent_id agent_id

abbrev pub metrics_of : ℕ → Metrics → Bool
metrics_of agent_id m = nat_beq m.agent_id agent_id

-- UPDATE agents SET … WHERE agent_id = ?
abbrev pub update_agent : (Agent → Agent) → ℕ → AgentsDb → AgentsDb
update_agent f agent_id db = record db { agents = update_where (is_agent agent_id) f db.agents }

-- DELETE FROM agent_runtime WHERE agent_id = ?
abbrev pub drop_runtime : ℕ → AgentsDb → AgentsDb
drop_runtime agent_id db = record db { runtimes = delete_where (runtime_of agent_id) db.runtimes }

abbrev pub set_status : AgentStatus → Agent → Agent
set_status s a = record a { status = s }

-- Agent.hydrate in the process `pid`, or nothing if it raises
unfoldable pub hydrate : AgentsDb → (now pid agent_id : ℕ) → Option AgentsDb
hydrate db now pid agent_id = elim (first_where (is_agent agent_id) db.agents) [
  | none ↦ none
  | some a ↦
      let db' = drop_runtime agent_id (update_agent (set_status idle) agent_id db) in
      some (record db' {
        runtimes =
            db'.runtimes
            ++ record {
              agent_id = agent_id;
              pid = pid;
              heartbeat_at = now;
              current_step = "hydrated";
            }
              ∷ [];
      })
]

-- Agent.dehydrate
unfoldable pub dehydrate : AgentsDb → (agent_id : ℕ) → AgentsDb
dehydrate db agent_id = drop_runtime agent_id (update_agent (set_status init) agent_id db)

-- Agent._update_heartbeat
unfoldable pub update_heartbeat : AgentsDb → (now agent_id : ℕ) (step : String) → AgentsDb
update_heartbeat db now agent_id step = record db {
  runtimes =
      update_where (runtime_of agent_id) (λ r. record r { heartbeat_at = now; current_step = step })
        db.runtimes;
}

-- Agent._mark_running
unfoldable pub mark_running : AgentsDb → (now agent_id : ℕ) → AgentsDb
unfolding update_heartbeat
mark_running db now agent_id =
    update_heartbeat (update_agent (set_status running) agent_id db) now agent_id "running"

-- Agent._mark_idle
unfoldable pub mark_idle : AgentsDb → (now agent_id : ℕ) → AgentsDb
unfolding update_heartbeat
mark_idle db now agent_id =
    update_heartbeat (update_agent (set_status idle) agent_id db) now agent_id "idle"

-- INSERT INTO agent_metrics … ON CONFLICT(agent_id) DO UPDATE
unfoldable pub record_metrics : AgentsDb → (agent_id tokens failures : ℕ) → AgentsDb
record_metrics db agent_id tokens failures = record db {
  metrics =
      if any (metrics_of agent_id) db.metrics
      then update_where (metrics_of agent_id)
          (λ m. record m {
            total_tasks = m.total_tasks + 1;
            total_tokens = m.total_tokens + tokens;
            failed_tasks = m.failed_tasks + failures;
          })
          db.metrics
      else db.metrics
        ++ record {
          agent_id = agent_id;
          total_tasks = 1;
          total_tokens = tokens;
          failed_tasks = failures;
        }
          ∷ [];
}

-- Agent._record_failure, of an agent that is in the table
unfoldable pub record_failure : AgentsDb → (agent_id : ℕ) → AgentsDb
unfolding record_metrics
record_failure db agent_id = record_metrics db agent_id 0 1

-- Agent.get_status: the status, and the heartbeat if the agent is hydrated
unfoldable pub get_status : AgentsDb → (agent_id : ℕ) → Option AgentStatus × Option AgentRuntime
get_status db agent_id = (
  elim (first_where (is_agent agent_id) db.agents) [ none ↦ none | some a ↦ some a.status ],
  first_where (runtime_of agent_id) db.runtimes,
)

-- DELETE FROM agents WHERE agent_id = ?, with what hangs on the agent; nothing if it raises since
-- another agent has it as its successor.
unfoldable pub delete_agent : AgentsDb → (agent_id : ℕ) → Option AgentsDb
delete_agent db agent_id =
    if any
      (λ (a : Agent). elim a.successor_id [
        | none ↦ false
        | some s ↦ nat_beq s agent_id && (if nat_beq a.agent_id agent_id then false else true)
      ])
      db.agents
    then none
    else some (record db {
      agents = delete_where (is_agent agent_id) db.agents;
      runtimes = delete_where (runtime_of agent_id) db.runtimes;
      metrics = delete_where (metrics_of agent_id) db.metrics;
      signals = delete_where (λ (s : SignalRow). nat_beq s.agent_id agent_id) db.signals;
    })

-- json.loads(state_json or "{}")
abbrev pub or_empty : Option Value → Option Value
or_empty none = some (obj end)
or_empty (some v) = some v

pub data HandoffReply : Type 0 where
  handed_over : HandoffReply
  source_or_target_missing : HandoffReply

-- AgentManager.handoff, without the counts of what was carried
unfoldable pub handoff :
    AgentsDb → (from_id to_id : ℕ) (carry_variables carry_state : Bool) → HandoffReply × AgentsDb
handoff db from_id to_id carry_variables carry_state =
    elim (first_where (is_agent from_id) db.agents) [
      | none ↦ (source_or_target_missing, db)
      | some frm ↦ elim (first_where (is_agent to_id) db.agents) [
        | none ↦ (source_or_target_missing, db)
        | some to ↦ (
          handed_over,
          drop_runtime from_id (
              update_agent (λ a. record a { successor_id = some to_id; status = init }) from_id
                (update_agent
                  (λ a. record a {
                    variables = if carry_variables then frm.variables else [];
                    state = if carry_state then or_empty frm.state else some (obj end);
                  })
                  to_id db)),
        )
      ]
    ]
