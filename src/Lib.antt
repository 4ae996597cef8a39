-- ===== src/Lib.antt =====
-- ModelWeaver: the engine that runs agents' workflows and the rate limits of its API.
--
-- The parts and how they interact
--
-- An agent (services/agent_manager/service.py) runs a workflow, a graph of steps written as JSON,
-- through the interpreter of AgentFrameWork/fsm_interpreter.py. The interpreter takes one step
-- after another: it asks the LLM bridge, calls skills, hands over to other agents, branches,
-- loops over nested bodies, and looks between steps (and between the pieces of a streamed answer)
-- at the signals that the agent manager has put into the database. The API guards every request
-- by the limiter of services/ratelimit.py. The older executor of
-- AgentFrameWork/dsl_executor.py runs workflows of the same kind with injected functions. The LLM
-- of an agent is chosen by modules/llm_manager/organisateur.py and replaced, when it does not
-- answer, by modules/llm_manager/resilient.py; AgentFrameWork/router.py says which operations an
-- agent exposes. The pieces of a streamed answer are kept for readers by
-- AgentFrameWork/stream_bus.py, and services/tarif.py gives each model its limits. The keys of the
-- providers are kept by modules/key_manager/key_manager.py. The agents themselves, their signals and
-- their chats are rows of the database of services/agent_manager/service.py, which also supervises
-- them. Work reaches an agent as a wake-up call: the dispatcher makes one for each shared task that
-- it hands out, the scheduler for each job that is due, the watchers for what they watch.
--
-- Which file models what
--
-- Base: names passed on from the library, and what the parts share: Base/Tests (the Boolean
--   tests on numbers and texts), Base/Lists, Base/Dict (a Python dict as an association list in
--   the order of insertion), Base/Table and Base/Order (the rows of a table and what statements
--   of SQL do with them), Base/Int (Python's integers), and Base/Ends (a property of
--   whatever an optional result
--   holds).
-- RateLimit: services/ratelimit.py, the class RateLimiter: `check`, `record` (record_event),
--   `_cleanup` (cleanup). RateLimit/Routes: the function check_rate_limit. RateLimit/Window,
--   RateLimit/Bounds, RateLimit/Cleanup and RateLimit/Admits prove; RateLimit/Samples holds the
--   examples.
-- Fsm: AgentFrameWork/fsm_interpreter.py. Fsm/Value: the values of variables and `_resolve`.
--   Fsm/Step: the keys of a step and its nested body. Fsm/State: FSMResult, the hooks that are
--   published, and `_check_signals` with the closure that Agent._make_signal_check returns.
--   Fsm/Control, Fsm/Calls, Fsm/Llm, Fsm/Agents: the handlers `_step_*` without a body.
--   Fsm/Graph: `_find_entry_point`. Fsm/Loops: `_run_body` and the handlers with a body.
--   Fsm/Run: the table of the handlers and `run`. The other modules of Fsm prove, and
--   Fsm/Samples and Fsm/Examples hold the examples.
-- Dsl: AgentFrameWork/dsl_executor.py. Dsl/Steps: the handlers `_dsl_*`. Dsl/Run: the table of the
--   handlers and `run` (dsl_run). Dsl/Pipeline: the two steps of
--   AgentFrameWork/pipeline_executor.py on messages. Dsl/Counts, Dsl/Bounds, Dsl/Saves and
--   Dsl/Pipeline prove, Dsl/Samples holds the examples.
-- Tasks: SharedTaskRepository of modules/sql/orchestration_repository.py. Tasks/Calls:
--   WakeupCallRepository and ScheduledJobRepository of modules/sql/agent_repository.py.
--   Tasks/Messages and Tasks/Watchers: the queue of messages, the chatroom, the watchers and the
--   connections of modules/sql/orchestration_repository.py.
--   Tasks/Dispatch: AgentFrameWork/dispatcher.py. Tasks/Schedule: AgentFrameWork/scheduler.py.
--   Tasks/Watch: AgentFrameWork/watcher_service.py. Tasks/Claims, Tasks/Pending,
--   Tasks/Dispatched and Tasks/Scheduled prove, Tasks/Samples holds the examples.
-- Agents: the tables of services/agent_manager/service.py and the life of an agent from hydrate to
--   dehydrate. Agents/Signals: send_signal, pending_signals, ack_signal, complete_signal and
--   `_check` (consume_pending). Agents/Supervisor: check_heartbeats, kill (kill_agent), tick and
--   admit. Agents/Names: _make_agent_name and spawn_agent. Agents/Chats: the chat sessions.
--   Agents/Channel and Agents/Consumed prove about the signals, Agents/Supervised,
--   Agents/Preempted and Agents/Admitted about the supervisor, Agents/Fresh about names,
--   Agents/Sessions about chats; Agents/Samples holds the examples.
-- Keys: the tables and the cache of modules/key_manager/key_manager.py, with KeyRepository of
--   modules/sql/db.py. Keys/Manager: set_key, get_key and get_key_by_ref. Keys/Reads proves,
--   Keys/Samples holds the examples.
-- Allocation: modules/llm_manager/organisateur.py, Organisateur.allocate; Allocation/Served proves.
-- Retry: modules/llm_manager/resilient.py, resilient_chat; Retry/Bounds proves.
-- Router: AgentFrameWork/router.py, routes_for and resolve (resolve_op), for the skills of an
--   agent's role; Router/Resolved proves.
-- Stream: AgentFrameWork/stream_bus.py, the class StreamBus; Stream/Reads proves.
-- Tarif: services/tarif.py, the tier and the limits of a model; Tarif/Priority proves.
--
-- How the code is modelled
--
-- A table of the database is the list of its rows in the order of insertion; a column with JSON
-- holds what it stands for. Times of the database are seconds.
-- What a call changes is passed along: the limiter's buckets, or the record State, which holds
-- the FSMResult, the world outside (a type parameter W, changed only by the calls of the record
-- Runtime), the signals that later checks will find, the published hooks and the chunks given to
-- the stream. An exception of the source is a constructor of the answer. Times of the limiter are
-- nanoseconds, as the clock that time.monotonic reads counts them, and its windows are seconds.
-- The record Python holds what the interpreter takes from Python itself: repr, the comparison of
-- values, lower, float, int, json.dumps and the regular expression of `_strip_code_fences`;
-- nothing is assumed of them.
-- RessourceManager.evaluate is a parameter of admit: it is given the tables, the resources of the
-- agent and the number of the call, since it reads the load of the machine anew at each call.
--
-- Bounds and fuel
--
-- `run` and the loops with a body take fuel, one unit for each round of a loop; a run without
-- enough of it answers nothing. Each round counts an iteration, so fuel above the limit of
-- iterations is meant to be enough, unless the body of a `while` has no step to start at.
-- The list of signals gives for each later check what is pending then; a pause that no later
-- check ends answers nothing as well. `_make_agent_name` takes fuel, one unit for each name it
-- tries.
--
-- What is not modelled
--
-- The configuration, the thread and the directory of an agent; the running of a request by
-- Agent.execute; the daemon, the API's routes, the other repositories of the database, the bridges
-- to LLM providers, the installer, the catalogues and the interfaces; locks, since each
-- method of the limiter runs as a
-- whole under its own; the texts of the log.
mod Base
pub mod RateLimit
pub mod Fsm
pub mod Dsl
pub mod Allocation
pub mod Router
pub mod Retry
pub mod Stream
pub mod Tarif
pub mod Agents
pub mod Keys
pub mod Tasks
