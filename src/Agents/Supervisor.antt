-- ===== src/Agents/Supervisor.antt =====
-- The supervisor AgentManager of services/agent_manager/service.py: list_active, check_heartbeats,
-- kill, tick and admit.
use model_weaver.Base.{
  ℕ, text_leb, ◌+◌, Bool, true, false, not, ◌&&◌, Option, none, some, List, [], ◌∷◌, ◌++◌, any, map,
  select, first_where, order_by, length, leb, ltb, nat_beq, if◌then◌else◌,
}
use model_weaver.Base.Int.{ℤ, pos, negsuc, leb_int, eq_int}
use model_weaver.Fsm.Value.{Vars}
use model_weaver.Agents.{
  AgentStatus, idle, running, stopped, Agent, AgentRuntime, AgentsDb, Payload, is_agent, runtime_of,
  update_agent, drop_runtime, set_status,
}
use model_weaver.Agents.Signals.{send_signal}

-- What the manager uses of its process and of the operating system: its own pid, whether os.kill
-- succeeds, and whether the process is there after SIGTERM.
pub record Host : Type 0 where
  pub own_pid : ℕ
  pub sigterm : ℕ → Bool
  pub sigkill : ℕ → Bool
  pub pid_exists : ℕ → Bool

-- A call of os.kill.
pub data OsCall : Type 0 where
  term : (pid : ℕ) → OsCall
  force : (pid : ℕ) → OsCall

abbrev pub name_order : Agent → Agent → Bool
name_order a b = text_leb a.name b.name

-- AgentManager.list_active, without the columns of the runtime
unfoldable pub list_active : AgentsDb → List Agent
unfolding order_by
list_active db =
    order_by name_order (select (λ a. any (runtime_of a.agent_id) db.runtimes) db.agents)

-- status IN ('RUNNING', 'IDLE')
abbrev pub is_alive : AgentStatus → Bool
is_alive running = true
is_alive idle = true
is_alive _ = false

-- heartbeat_at < datetime('now', '-30 seconds')
abbrev pub is_late : (now max_age : ℕ) → AgentRuntime → Bool
is_late now max_age r = ltb (r.heartbeat_at + max_age) now

abbrev pub is_zombie : (now max_age : ℕ) → List AgentRuntime → Agent → Bool
is_zombie now max_age runtimes a =
    is_alive a.status && any (λ r. runtime_of a.agent_id r && is_late now max_age r) runtimes

-- AgentManager.check_heartbeats
unfoldable pub check_heartbeats : AgentsDb → (now max_age : ℕ) → List ℕ
check_heartbeats db now max_age =
    map (λ a. a.agent_id) (select (is_zombie now max_age db.runtimes) db.agents)

pub data KillReply : Type 0 where
  not_hydrated : KillReply
  killed : (level : ℤ) (pid : ℕ) → KillReply

pub record TickReply : Type 0 where
  pub active_agents : ℕ
  pub zombies_found : ℕ

abbrev pub no_payload : Payload
no_payload = record { variables = none; state = none; result = none }

-- The two statements behind `# Nettoyage BDD`.
abbrev pub clean_up : ℕ → AgentsDb → AgentsDb
clean_up agent_id db = drop_runtime agent_id (update_agent (set_status stopped) agent_id db)

-- The resources with their defaults.
pub record Demand : Type 0 where
  pub llm : Bool
  pub priority : ℤ
  pub preemptible : Bool
  pub others : Vars

abbrev pub default {ℓ} : {A : Type ℓ} → A → Option A → A
default d none = d
default d (some a) = a

-- AgentManager._agent_resources, nothing for an agent that is not there
unfoldable pub agent_resources : AgentsDb → (agent_id : ℕ) → Option Demand
agent_resources db agent_id = elim (first_where (is_agent agent_id) db.agents) [
  | none ↦ none
  | some a ↦ some (record {
    llm = default false a.resources.llm;
    priority = default (pos 5) a.resources.priority;
    preemptible = default true a.resources.preemptible;
    others = a.resources.others;
  })
]

pub data Preempted : Type 0 where
  ranked : (priority : ℤ) (agent_id : ℕ) → Preempted

abbrev pub ranked_id : Preempted → ℕ
ranked_id (ranked p id) = id

-- candidates.sort()
abbrev pub rank_order : Preempted → Preempted → Bool
rank_order (ranked p a) (ranked q b) = if eq_int p q then leb a b else leb_int p q

-- `res.get("preemptible") and res.get("priority", 5) < my_priority`
unfoldable pub outranked : AgentsDb → (my_priority : ℤ) → (agent_id : ℕ) → Bool
unfolding agent_resources
outranked db my_priority agent_id = elim (agent_resources db agent_id) [
  | none ↦ false
  | some d ↦ d.preemptible && not (leb_int my_priority d.priority)
]

unfoldable pub priority_of : AgentsDb → (agent_id : ℕ) → ℤ
unfolding agent_resources
priority_of db agent_id = elim (agent_resources db agent_id) [ none ↦ pos 5 | some d ↦ d.priority ]

-- The agents that may be preempted, the lowest priority first.
unfoldable pub candidates : AgentsDb → (my_priority : ℤ) → List Preempted
unfolding outranked list_active order_by priority_of
candidates db my_priority = order_by rank_order (
    map (λ (a : Agent). ranked (priority_of db a.agent_id) a.agent_id)
      (select (λ (a : Agent). outranked db my_priority a.agent_id) (list_active db)))

pub record Admission : Type 0 where
  pub admitted : Bool
  pub preempted : List ℕ

module _ (host : Host) where
  -- The level that SIGTERM and SIGKILL reach, and the calls.
  unfoldable pub stop_process : (pid : ℕ) → ℤ × List OsCall
  stop_process pid =
      let level : ℤ = if host.sigterm pid then pos 1 else pos 0 in
      if host.pid_exists pid
      then ((if host.sigkill pid then pos 2 else level), term pid ∷ force pid ∷ [])
      else (level, term pid ∷ [])

  -- AgentManager.kill
  unfoldable pub kill_agent : AgentsDb → (agent_id : ℕ) → KillReply × List OsCall × AgentsDb
  unfolding stop_process
  kill_agent db agent_id = elim (first_where (runtime_of agent_id) db.runtimes) [
    | none ↦ (not_hydrated, [], db)
    | some rt ↦
        if nat_beq rt.pid host.own_pid
        then (
          killed (negsuc 0) rt.pid,
          [],
          clean_up agent_id (send_signal db agent_id "kill" no_payload).1,
        )
        else (killed (stop_process rt.pid).0 rt.pid, (stop_process rt.pid).1, clean_up agent_id db)
  ]

  -- The loop of `tick` over the zombies.
  unfoldable pub kill_all : AgentsDb → List ℕ → List OsCall × AgentsDb
  unfolding kill_agent
  kill_all db [] = ([], db)
  kill_all db (id ∷ ids) =
      let (reply, calls, db') = kill_agent db id in
      let (later, db'') = kill_all db' ids in (calls ++ later, db'')

  -- AgentManager.tick, without the replies of the kills
  unfoldable pub tick : AgentsDb → (now : ℕ) → TickReply × List OsCall × AgentsDb
  unfolding kill_all check_heartbeats list_active
  tick db now =
      let zombies = check_heartbeats db now 30 in
      let (calls, db') = kill_all db zombies in
      (
        record { active_agents = length (list_active db'); zombies_found = length zombies },
        calls,
        db',
      )

-- RessourceManager.evaluate is given as `possible`. It reads the memory and the processor of the
-- machine, which change between two calls: its first argument counts the calls of one admission.
module _ (host : Host) (possible : ℕ → AgentsDb → Option Demand → Bool) where
  -- AgentManager.evaluate, the call with the number `call`
  abbrev pub evaluate : (call : ℕ) → AgentsDb → (agent_id : ℕ) → Bool
  unfolding agent_resources
  evaluate call db agent_id = possible call db (agent_resources db agent_id)

  -- The loop of `admit` over the candidates, and what stands behind it.
  unfoldable pub preempt :
      (call : ℕ) → AgentsDb → (agent_id : ℕ) → List Preempted → Admission × List OsCall × AgentsDb
  unfolding kill_agent evaluate
  preempt call db agent_id [] =
      (record { admitted = evaluate call db agent_id; preempted = [] }, [], db)
  preempt call db agent_id (c ∷ cs) =
      let (reply, calls, db') = kill_agent host db (ranked_id c) in
      let (admission, later, db'') = preempt (call + 1) db' agent_id cs in
      if evaluate call db' agent_id
      then (record { admitted = true; preempted = ranked_id c ∷ [] }, calls, db')
      else (
        record { admitted = admission.admitted; preempted = ranked_id c ∷ admission.preempted },
        calls ++ later,
        db'',
      )

  -- AgentManager.admit
  unfoldable pub admit : AgentsDb → (agent_id : ℕ) → Admission × List OsCall × AgentsDb
  unfolding preempt candidates priority_of
  admit db agent_id =
      if evaluate 0 db agent_id
      then (record { admitted = true; preempted = [] }, [], db)
      else preempt 1 db agent_id (candidates db (priority_of db agent_id))
