-- ===== src/Agents/Names.antt =====
-- The names that AgentManager._make_agent_name of services/agent_manager/service.py gives to agents,
-- and spawn_agent.
use model_weaver.Base.{
  ℕ, zero, suc, ◌+◌, String, ◌+s◌, Bool, true, false, Option, none, some, List, [], ◌∷◌, ◌++◌, any,
  select, length, ◌==◌, if◌then◌else◌, text_eq,
}
use model_weaver.Fsm.Value.{Vars, nonempty}
use model_weaver.Agents.{
  init, Occupation, continue, noncontinue, disparate, Resources, Agent, AgentsDb, hydrate,
  dehydrate, delete_agent, drop_runtime,
}

-- SELECT 1 FROM agents WHERE name = ?
abbrev pub is_taken : List Agent → String → Bool
is_taken agents name = any (λ (a : Agent). a.name == name) agents

-- `str` is Python's str of a number.
module _ (str : ℕ → String) where
  abbrev pub numbered : (base : String) → ℕ → String
  numbered base n = (base +s "_") +s str n

  -- The loops of `_make_agent_name`, or nothing if the fuel runs out.
  unfoldable pub free_name : (fuel : ℕ) → List Agent → (base : String) (n : ℕ) → Option String
  free_name zero agents base n = none
  free_name (suc fuel) agents base n =
      let rest = free_name fuel agents base (n + 1) in
      if is_taken agents (numbered base n) then rest else some (numbered base n)

  -- SELECT COUNT(*) + 1 FROM agents WHERE role_type = ?
  abbrev pub role_count : List Agent → (role : String) → ℕ
  role_count agents role = length (select (λ (a : Agent). a.role_type == role) agents) + 1

  -- AgentManager._make_agent_name
  unfoldable pub make_agent_name :
      (fuel : ℕ) → List Agent → (role proposed_name : String) → Option String
  unfolding free_name
  make_agent_name fuel agents role proposed_name = elim (nonempty (some proposed_name)) [
    | some name ↦
        let numbered_name = free_name fuel agents name 1 in
        if is_taken agents name then numbered_name else some name
    | none ↦ free_name fuel agents role (role_count agents role)
  ]

-- occupation in ("continue", "noncontinue", "disparate")
unfoldable pub occupation_of : String → Option Occupation
occupation_of s =
    if s == "continue"
    then some continue
    else if s == "noncontinue"
    then some noncontinue
    else if s == "disparate"
    then some disparate
    else none

pub data SpawnReply : Type 0 where
  bad_occupation no_role storage_failed run_failed : SpawnReply
  spawned : (agent_id : ℕ) (sleeping : Bool) → SpawnReply

-- AgentStorage.ensure, which may raise, and Agent.execute with its request, and whether it raises.
pub record Running : Type 0 where
  pub storage_ready : AgentsDb → (agent_id : ℕ) → Bool
  pub execute : AgentsDb → (agent_id : ℕ) → Bool × AgentsDb

-- INSERT INTO agents
unfoldable pub insert_agent :
    AgentsDb → (name role : String) → Occupation → Resources → Vars → AgentsDb
insert_agent db name role occupation resources variables = record db {
  next_agent = db.next_agent + 1;
  agents =
      db.agents
      ++ record {
        agent_id = db.next_agent;
        name = name;
        role_type = role;
        occupation = occupation;
        status = init;
        resources = resources;
        variables = variables;
        state = none;
        successor_id = none;
      }
        ∷ [];
}

module _ (run : Running) (str : ℕ → String) where
  -- The run of a new agent, or nothing if the clean-up raises.
  unfoldable pub run_spawned :
      AgentsDb → (now pid agent_id : ℕ) (keep_sleeping : Bool) → Option (SpawnReply × AgentsDb)
  run_spawned db now pid agent_id keep_sleeping = elim (hydrate db now pid agent_id) [
    | none ↦ elim (delete_agent db agent_id) [ none ↦ none | some db' ↦ some (run_failed, db') ]
    | some db' ↦
        let (raised, db'') = run.execute db' agent_id in
        if raised
        then (elim (delete_agent db'' agent_id) [ none ↦ none | some db3 ↦ some (run_failed, db3) ])
        else if keep_sleeping
        then some (spawned agent_id true, dehydrate db'' agent_id)
        else (elim (delete_agent (drop_runtime agent_id db'') agent_id) [
          | none ↦ none
          | some db3 ↦ some (spawned agent_id false, db3)
        ])
  ]

  -- AgentManager.spawn_agent, without the configuration; nothing if it raises.
  unfoldable pub spawn_agent :
      AgentsDb
      → (fuel now pid : ℕ) (name role occupation : String) → Resources
      → (keep_sleeping : Bool) → Option (SpawnReply × AgentsDb)
  unfolding run_spawned insert_agent make_agent_name
  spawn_agent db fuel now pid name role occupation resources keep_sleeping =
      elim (occupation_of occupation) [
        | none ↦ some (bad_occupation, db)
        | some kind ↦ elim (nonempty (some role)) [
          | none ↦ some (no_role, db)
          | some role' ↦ elim (make_agent_name str fuel db.agents role' name) [
            | none ↦ none
            | some free ↦
                let db' = insert_agent db free role' kind resources [] in
                if run.storage_ready db' db.next_agent
                then run_spawned db' now pid db.next_agent keep_sleeping
                else some (storage_failed, db')
          ]
        ]
      ]
