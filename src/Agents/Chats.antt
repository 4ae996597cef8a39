-- ===== src/Agents/Chats.antt =====
-- The chat sessions of services/agent_manager/service.py: agents of the role `chat`, whose variables
-- hold the session.
use model_weaver.Base.{
  ℕ, String, Bool, true, false, Option, none, some, List, [], ◌∷◌, map, select, first_where,
  order_by, ◌==◌, if◌then◌else◌, text_eq,
}
use model_weaver.Base.Dict
use model_weaver.Fsm.Value.{Value, bool, text, arr, nil, Vars, truthy}
use model_weaver.Agents.{
  noncontinue, Resources, Agent, AgentsDb, update_agent, drop_runtime, delete_agent,
}
use model_weaver.Agents.Supervisor.{name_order}
use model_weaver.Agents.Names.{make_agent_name, insert_agent}

abbrev pub is_named : String → Agent → Bool
is_named name a = a.name == name

-- AgentManager.get_by_name
unfoldable pub get_by_name : AgentsDb → (name : String) → Option Agent
get_by_name db name = first_where (is_named name) db.agents

-- What get_chat_session answers.
pub record ChatSession : Type 0 where
  pub agent_id : ℕ
  pub name : String
  pub provider_ref : Value
  pub model_ref : Value
  pub system_prompt : Value
  pub allow_read_others : Value
  pub messages : Value

-- v.get(key, default)
unfoldable pub get_or : Value → Vars → String → Value
get_or default v key = elim (Dict.lookup v key) [ none ↦ default | some x ↦ x ]

unfoldable pub session_of : Agent → ChatSession
unfolding get_or
session_of a = record {
  agent_id = a.agent_id;
  name = a.name;
  provider_ref = get_or (text "") a.variables "provider_ref";
  model_ref = get_or (text "") a.variables "model_ref";
  system_prompt = get_or (text "") a.variables "system_prompt";
  allow_read_others = get_or (bool false) a.variables "allow_read_others";
  messages = get_or (arr nil) a.variables "messages";
}

-- AgentManager.get_chat_session
unfoldable pub get_chat_session : AgentsDb → (name : String) → Option ChatSession
unfolding get_by_name session_of
get_chat_session db name = elim (get_by_name db name) [ none ↦ none | some a ↦ some (session_of a) ]

-- AgentManager.list_chat_sessions, with the whole session for each
unfoldable pub list_chat_sessions : AgentsDb → List ChatSession
unfolding order_by session_of
list_chat_sessions db =
    map session_of (order_by name_order (select (λ (a : Agent). a.role_type == "chat") db.agents))

-- The arguments of create_chat_session.
pub record ChatSettings : Type 0 where
  pub system_prompt : String
  pub provider_ref : String
  pub model_ref : String
  pub allow_read_others : Bool

abbrev pub chat_variables : ChatSettings → Vars
chat_variables s =
    ("messages", arr nil)
    ∷ ("system_prompt", text s.system_prompt)
    ∷ ("provider_ref", text s.provider_ref)
    ∷ ("model_ref", text s.model_ref)
    ∷ ("allow_read_others", bool s.allow_read_others)
    ∷ []

-- res.setdefault("llm", True), of the resources that were given
abbrev pub chat_resources : Option Resources → Resources
chat_resources none = record { llm = some true; priority = none; preemptible = none; others = [] }
chat_resources (some r) = record r { llm = some (elim r.llm [ none ↦ true | some b ↦ b ]) }

-- AgentManager.create_chat_session, the directory of the agent left out: the id and the name
unfoldable pub create_chat_session :
    (str : ℕ → String) (fuel : ℕ)
    → AgentsDb
    → (name : String) → ChatSettings
    → Option Resources
    → Option ((ℕ × String) × AgentsDb)
unfolding make_agent_name insert_agent
create_chat_session str fuel db name settings resources =
    elim (make_agent_name str fuel db.agents "chat" name) [
      | none ↦ none
      | some free ↦ some (
        (db.next_agent, free),
        insert_agent db free "chat" noncontinue (chat_resources resources)
            (chat_variables settings),
      )
    ]

-- The arguments of update_chat_session.
pub record ChatUpdate : Type 0 where
  pub system_prompt : Option String
  pub provider_ref : Option String
  pub model_ref : Option String
  pub allow_read_others : Option Bool

-- if x is not None: v[key] = x
unfoldable pub set_if {ℓ} : {A : Type ℓ} → (A → Value) → String → Option A → Vars → Vars
set_if make key none v = v
set_if make key (some x) v = Dict.insert v key (make x)

unfoldable pub updated : ChatUpdate → Vars → Vars
unfolding set_if
updated u v = set_if bool "allow_read_others" u.allow_read_others (
    set_if text "model_ref" u.model_ref
      (set_if text "provider_ref" u.provider_ref (set_if text "system_prompt" u.system_prompt v)))

-- AgentManager.update_chat_session: the agent's id, or nothing if there is no such session
unfoldable pub update_chat_session : AgentsDb → (name : String) → ChatUpdate → Option ℕ × AgentsDb
unfolding get_by_name updated
update_chat_session db name u = elim (get_by_name db name) [
  | none ↦ (none, db)
  | some row ↦ (
    some row.agent_id,
    update_agent (λ a. record a { variables = updated u row.variables }) row.agent_id db,
  )
]

pub data DeleteReply : Type 0 where
  no_session : DeleteReply
  deleted : (agent_id : ℕ) → DeleteReply

-- AgentManager.delete_chat_session; nothing if it raises
unfoldable pub delete_chat_session : AgentsDb → (name : String) → Option (DeleteReply × AgentsDb)
unfolding get_by_name delete_agent
delete_chat_session db name = elim (get_by_name db name) [
  | none ↦ some (no_session, db)
  | some row ↦ elim (delete_agent (drop_runtime row.agent_id db) row.agent_id) [
    | none ↦ none
    | some db' ↦ some (deleted row.agent_id, db')
  ]
]

pub data ReadReply : Type 0 where
  no_reader not_allowed no_source : ReadReply
  history : Value → ReadReply

-- AgentManager.chat_read
unfoldable pub chat_read : AgentsDb → (name other : String) → ReadReply
unfolding get_by_name get_or truthy
chat_read db name other = elim (get_by_name db name) [
  | none ↦ no_reader
  | some row ↦
      if truthy (get_or (bool false) row.variables "allow_read_others")
      then (elim (get_by_name db other) [
        | none ↦ no_source
        | some source ↦ history (get_or (arr nil) source.variables "messages")
      ])
      else not_allowed
]
