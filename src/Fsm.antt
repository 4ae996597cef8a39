-- ===== src/Fsm.antt =====
-- AgentFrameWork/fsm_interpreter.py
pub mod Value
pub mod Step
pub mod State
pub mod Control
pub mod Graph
pub mod Loops
pub mod Run
pub mod Extends
pub mod Breaks
pub mod Returns
pub mod Endless
pub mod Signals
pub mod Identity
pub mod Routing
pub mod Samples
mod Examples
pub mod Calls
pub mod Llm
pub mod Agents
