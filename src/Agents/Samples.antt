-- ===== src/Agents/Samples.antt =====
-- The agents at concrete tables.
use Prim.Native.String.{count, [] as empty, ◌∷◌ as ◌∷s◌}
use model_weaver.Base.{
  ℕ, zero, suc, ◌≡◌, refl, sym, ap, ◌∙◌, String, Bool, true, false, Option, none, some, [], ◌∷◌,
  ◌++◌, any, All, length, nat_beq, if◌then◌else◌, text_eq, arith,
}
use model_weaver.Base.Dict
use model_weaver.Base.Ends.{Gives}
use model_weaver.Base.Int.{pos}
use model_weaver.Fsm.Value.{arr, nil}
use model_weaver.Fsm.State.{State, apply_signals, new_result}
use model_weaver.Agents.{
  running, noncontinue, Agent, AgentRuntime, AgentsDb, pending, kill, pause, runtime_of,
}
use model_weaver.Agents.Signals.{signal_type, send_signal, meaning, consume_pending}
use model_weaver.Agents.Supervisor.{
  Host, Demand, check_heartbeats, no_payload, kill_agent, tick, admit,
}
use model_weaver.Agents.Names.{is_taken, make_agent_name}
use model_weaver.Agents.Chats.{
  ChatUpdate, session_of, get_chat_session, update_chat_session, chat_read, history, not_allowed,
  chat_variables,
}
use model_weaver.Agents.Channel.{IsIssued, queue, queue-send_signal}
use model_weaver.Agents.Consumed.{behind_kill, consume_pending-queue}
use model_weaver.Agents.Supervised.{Spares, tick-check_heartbeats}
use model_weaver.Agents.Preempted.{kill_agent-aborts}
use model_weaver.Agents.Admitted.{IsOutranked, IsFair, admit-IsFair}
use model_weaver.Agents.Fresh.{make_agent_name-Gives}
use model_weaver.Agents.Sessions.{changed, get-update_chat_session}

abbrev chat_agent : (id : ℕ) (name : String) (allowed : Bool) → Agent
chat_agent id name allowed = record {
  agent_id = id;
  name = name;
  role_type = "chat";
  occupation = noncontinue;
  status = running;
  resources = record { llm = some true; priority = some (pos id); preemptible = none; others = [] };
  variables = chat_variables (record {
    system_prompt = "be brief";
    provider_ref = "p";
    model_ref = "m";
    allow_read_others = allowed;
  });
  state = none;
  successor_id = none;
}

abbrev started : (id pid heartbeat_at : ℕ) → AgentRuntime
started id pid heartbeat_at = record {
  agent_id = id;
  pid = pid;
  heartbeat_at = heartbeat_at;
  current_step = "running";
}

-- Agent 1 runs in the manager's process, agent 2 in another one; 2 is late at the time 100.
abbrev two_agents : AgentsDb
two_agents = record {
  agents = chat_agent 1 "chat_1" true ∷ chat_agent 2 "chat_2" false ∷ [];
  next_agent = 3;
  runtimes = started 1 40 90 ∷ started 2 41 50 ∷ [];
  metrics = [];
  signals =
      record { signal_id = 1; agent_id = 1; type = pause; payload = no_payload; status = pending }
      ∷ [];
  next_signal = 2;
}

abbrev host : Host
host = record {
  own_pid = 40;
  sigterm = λ pid. true;
  sigkill = λ pid. true;
  pid_exists = λ pid. false;
}

tick_sample : (tick host two_agents 100).0.active_agents ≡ 1
unfolding tick
tick_sample = refl

-- The session whose own flag allows it reads the other one, whose flag does not.
chat_read_sample :
    (chat_read two_agents "chat_1" "chat_2" ≡ history (arr nil))
    × (chat_read two_agents "chat_2" "chat_1" ≡ not_allowed)
unfolding chat_read Dict.lookup
chat_read_sample = (refl, refl)

two_agents-IsIssued : IsIssued 0 two_agents.next_signal two_agents.signals
two_agents-IsIssued = (omega arith, omega arith)

queue-send_signal_example :
    (queue (send_signal two_agents 1 "kill" no_payload).1 1
      ≡ queue two_agents 1 ++ (if nat_beq 1 1 then meaning kill no_payload ∷ [] else []))
    × IsIssued 0
        (send_signal two_agents 1 "kill" no_payload).1.next_signal
        (send_signal two_agents 1 "kill" no_payload).1.signals
unfolding signal_type
queue-send_signal_example =
    queue-send_signal two_agents 1 1 "kill" no_payload kill two_agents-IsIssued refl refl

abbrev talking : State Unit
talking = record { result = new_result; env = tt; signals = []; events = []; sunk = [] }

consume_pending-queue_example :
    ((consume_pending two_agents 1 talking).0 ≡ apply_signals (queue two_agents 1) talking)
    × (queue (consume_pending two_agents 1 talking).1 1 ≡ behind_kill (queue two_agents 1))
    × IsIssued 0
        (consume_pending two_agents 1 talking).1.next_signal
        (consume_pending two_agents 1 talking).1.signals
consume_pending-queue_example = consume_pending-queue two_agents 1 talking two_agents-IsIssued

tick-check_heartbeats_example :
    (check_heartbeats (tick host two_agents 100).2 100 30 ≡ [])
    × ((tick host two_agents 100).0.zombies_found ≡ length (check_heartbeats two_agents 100 30))
    × All (Spares host.own_pid) (tick host two_agents 100).1
tick-check_heartbeats_example = tick-check_heartbeats host two_agents 100

-- Only one agent can run at a time.
abbrev one_at_a_time : (call : ℕ) → AgentsDb → Option Demand → Bool
one_at_a_time call db demand = elim db.runtimes [ [] ↦ true | ◌∷◌ r rs ↦ false ]

admit-IsFair_example :
    IsFair host one_at_a_time
      (IsOutranked two_agents 2)
      two_agents
      2
      1
      (admit host one_at_a_time two_agents 2)
admit-IsFair_example = admit-IsFair host one_at_a_time two_agents 2 1

kill_agent-aborts_example :
    (any (runtime_of 1) (kill_agent host two_agents 1).2.runtimes ≡ false)
    × ((consume_pending (kill_agent host two_agents 1).2 1 talking).0.0 ≡ true)
kill_agent-aborts_example =
    kill_agent-aborts host two_agents 1 (started 1 40 90) talking two_agents-IsIssued refl refl refl

-- Numbers in strokes.
abbrev strokes : ℕ → String
strokes zero = empty
strokes (suc n) = "|" ∷s strokes n

count-strokes : (n : ℕ) → count (strokes n) ≡ n
count-strokes zero = λ i. Prim.Native.String.count.nil i
count-strokes (suc n) =
    (λ i. Prim.Native.String.count.cons "|" (strokes n) i) ∙ ap suc (count-strokes n)

strokes-apart : (m n : ℕ) → strokes m ≡ strokes n → m ≡ n
strokes-apart m n e = sym (count-strokes m) ∙ ap count e ∙ count-strokes n

make_agent_name-Gives_example :
    Gives
      (λ name. is_taken two_agents.agents name ≡ false)
      (make_agent_name strokes 3 two_agents.agents "chat" "chat_1")
make_agent_name-Gives_example =
    make_agent_name-Gives strokes strokes-apart two_agents.agents "chat" "chat_1" 3 (omega arith)

abbrev louder : ChatUpdate
louder = record {
  system_prompt = some "shout";
  provider_ref = none;
  model_ref = none;
  allow_read_others = some false;
}

get-update_chat_session_example :
    get_chat_session (update_chat_session two_agents "chat_1" louder).1 "chat_1"
    ≡ some (changed louder (session_of (chat_agent 1 "chat_1" true)))
unfolding get_chat_session
get-update_chat_session_example =
    get-update_chat_session two_agents "chat_1" louder (session_of (chat_agent 1 "chat_1" true))
      refl
