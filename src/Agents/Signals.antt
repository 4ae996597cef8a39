-- ===== src/Agents/Signals.antt =====
-- The channel of signals of services/agent_manager/service.py: send_signal, pending_signals,
-- ack_signal and complete_signal of AgentManager, and the consumer that Agent._make_signal_check
-- gives to the interpreter.
use model_weaver.Base.{
  ℕ, ◌+◌, String, Bool, true, false, ◌&&◌, Option, none, some, List, [], ◌∷◌, ◌++◌, any, select,
  update_where, order_by, leb, nat_beq, ◌==◌, if◌then◌else◌, text_eq,
}
use model_weaver.Base.Dict
use model_weaver.Fsm.Value.{Value, text, Vars, Fields, obj, end, field}
use model_weaver.Fsm.State.{Signal, State, on_signal, on_result, publish}
use model_weaver.Agents.{
  AgentsDb, SignalType, pause, resume, status, health, kill, configure, SignalStatus, pending,
  acked, completed, Payload, SignalRow, is_agent, update_agent,
}

-- VALID_SIGNALS
unfoldable pub signal_type : String → Option SignalType
signal_type t =
    if t == "pause"
    then some pause
    else if t == "resume"
    then some resume
    else if t == "status"
    then some status
    else if t == "health"
    then some health
    else if t == "kill"
    then some kill
    else if t == "configure"
    then some configure
    else none

pub data SendReply : Type 0 where
  sent : (signal_id : ℕ) → SendReply
  invalid_type unknown_agent : SendReply

-- INSERT INTO agent_signals
unfoldable pub insert_signal : AgentsDb → (agent_id : ℕ) → SignalType → Payload → AgentsDb
insert_signal db agent_id t payload = record db {
  signals =
      db.signals
      ++ record {
        signal_id = db.next_signal;
        agent_id = agent_id;
        type = t;
        payload = payload;
        status = pending;
      }
        ∷ [];
  next_signal = db.next_signal + 1;
}

-- AgentManager.send_signal
unfoldable pub send_signal :
    AgentsDb → (agent_id : ℕ) (type : String) → Payload → SendReply × AgentsDb
unfolding insert_signal
send_signal db agent_id type payload = elim (signal_type type) [
  | none ↦ (invalid_type, db)
  | some t ↦
      if any (is_agent agent_id) db.agents
      then (sent db.next_signal, insert_signal db agent_id t payload)
      else (unknown_agent, db)
]

abbrev pub is_pending : SignalStatus → Bool
is_pending pending = true
is_pending _ = false

abbrev pub waits_for : ℕ → SignalRow → Bool
waits_for agent_id s = nat_beq s.agent_id agent_id && is_pending s.status

-- ORDER BY signal_id
abbrev pub signal_order : SignalRow → SignalRow → Bool
signal_order s r = leb s.signal_id r.signal_id

-- AgentManager.pending_signals, of every type
unfoldable pub pending_signals : AgentsDb → (agent_id : ℕ) → List SignalRow
unfolding order_by
pending_signals db agent_id = order_by signal_order (select (waits_for agent_id) db.signals)

abbrev pub is_signal : ℕ → SignalRow → Bool
is_signal signal_id s = nat_beq s.signal_id signal_id

abbrev pub update_signal : (SignalRow → SignalRow) → ℕ → AgentsDb → AgentsDb
update_signal f signal_id db = record db {
  signals = update_where (is_signal signal_id) f db.signals;
}

-- AgentManager.ack_signal
unfoldable pub ack_signal : AgentsDb → (signal_id : ℕ) → AgentsDb
ack_signal db signal_id = update_signal (λ s. record s { status = acked }) signal_id db

-- AgentManager.complete_signal, with a result
unfoldable pub complete_signal : AgentsDb → (signal_id : ℕ) (result : Vars) → AgentsDb
complete_signal db signal_id result =
    update_signal
      (λ s. record s { status = completed; payload = record s.payload { result = some result } })
      signal_id db

-- ack_signal, then complete_signal
unfoldable pub finish : AgentsDb → SignalRow → (result : Vars) → AgentsDb
unfolding ack_signal complete_signal
finish db sig result = complete_signal (ack_signal db sig.signal_id) sig.signal_id result

-- payload.get("variables", {})
abbrev pub new_variables : Payload → Vars
new_variables p = elim p.variables [ none ↦ [] | some vs ↦ vs ]

-- What the interpreter makes of a signal.
unfoldable pub meaning : SignalType → Payload → Signal
meaning kill p = Signal.kill
meaning pause p = Signal.pause
meaning resume p = Signal.resume
meaning configure p = Signal.configure (new_variables p)
meaning status p = Signal.other "status"
meaning health p = Signal.other "health"

-- if "state" in payload
abbrev pub configure_state : AgentsDb → (agent_id : ℕ) → Option Value → AgentsDb
configure_state db agent_id none = db
configure_state db agent_id (some v) = update_agent (λ a. record a { state = some v }) agent_id db

-- What completes a signal of the kinds that only answer.
abbrev answered : String → Vars
answered type = ("action", text type) ∷ ("heartbeat", text "ok") ∷ []

abbrev to_fields : Vars → Fields
to_fields [] = end
to_fields ((k, v) ∷ vars) = field k v (to_fields vars)

-- The second argument of complete_signal.
abbrev pub completion : SignalType → Payload → Vars
completion kill p = ("action", text "kill") ∷ []
completion pause p = ("action", text "pause") ∷ []
completion resume p = ("action", text "resume") ∷ []
completion configure p =
    ("action", text "configure") ∷ ("applied", obj (to_fields (new_variables p))) ∷ []
completion status p = answered "status"
completion health p = answered "health"

-- What a signal does to the row of the agent.
abbrev pub configured : AgentsDb → (agent_id : ℕ) → SignalType → Payload → AgentsDb
configured db agent_id configure p = configure_state db agent_id p.state
configured db agent_id _ p = db

module _ {W : Type 0} where
  -- What a signal does to the result, and whether it is a kill.
  abbrev pub effect : SignalType → Payload → State W → Bool × State W
  effect kill p st = (true, st)
  effect pause p st = (false, on_result st (λ r. record r { paused = true }))
  effect resume p st = (false, on_result st (λ r. record r { paused = false }))
  effect configure p st = (
    false,
    on_result st (λ r. record r { variables = Dict.update r.variables (new_variables p) }),
  )
  effect status p st = (false, st)
  effect health p st = (false, st)

  -- The hook on_signal, then the effect.
  unfoldable pub apply_signal : SignalRow → State W → Bool × State W
  unfolding meaning publish
  apply_signal s st =
      effect s.type s.payload
        (publish (on_signal (meaning s.type s.payload) st.result.variables) st)

  -- The loop of `_check` over the signals that it found pending.
  unfoldable pub consume_all :
      AgentsDb → (agent_id : ℕ) → List SignalRow → State W → (Bool × State W) × AgentsDb
  unfolding apply_signal finish completion
  consume_all db agent_id [] st = ((false, st), db)
  consume_all db agent_id (s ∷ rest) st =
      let (killed, st') = apply_signal s st in
      let db' = finish (configured db agent_id s.type s.payload) s (completion s.type s.payload) in
      let later = consume_all db' agent_id rest st' in if killed then ((true, st'), db') else later

  -- Agent._make_signal_check: whether it raises AgentAbort, and what it leaves
  unfoldable pub consume_pending : AgentsDb → (agent_id : ℕ) → State W → (Bool × State W) × AgentsDb
  unfolding consume_all pending_signals
  consume_pending db agent_id st = consume_all db agent_id (pending_signals db agent_id) st
