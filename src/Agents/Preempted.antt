-- ===== src/Agents/Preempted.antt =====
-- A killed agent aborts.
use model_weaver.Base.{
  ℕ, ◌≡◌, refl, ap, ◌∙◌, Bool, true, false, some, List, [], ◌∷◌, ◌++◌, any, any-delete_where,
  first_where, nat_beq, nat_beq_iff, if◌then◌else◌,
}
use model_weaver.Fsm.State.{Signal, State, apply_signals}
use model_weaver.Agents.{AgentRuntime, AgentsDb, kill, is_agent, runtime_of}
use model_weaver.Agents.Signals.{
  signal_type, send_signal, pending_signals, meaning, consume_pending,
}
use model_weaver.Agents.Supervisor.{Host, no_payload, clean_up, kill_agent}
use model_weaver.Agents.Channel.{IsIssued, queue, queue-send_signal}
use model_weaver.Agents.Consumed.{consume_pending-queue}

kill_type : signal_type "kill" ≡ some kill
unfolding signal_type
kill_type = refl

at_end :
    (signals : List Signal) (id : ℕ)
    → signals ++ (if nat_beq id id then meaning kill no_payload ∷ [] else [])
      ≡ signals ++ Signal.kill ∷ []
unfolding meaning
at_end signals id = simp ((nat_beq_iff id id).1 refl) refl

module _ {W : Type 0} where
  -- Signals that end in a kill raise AgentAbort.
  apply_signals-kill :
      (signals : List Signal) (st : State W)
      → (apply_signals (signals ++ Signal.kill ∷ []) st).0 ≡ true
  unfolding apply_signals
  apply_signals-kill [] st = refl
  apply_signals-kill (Signal.kill ∷ signals) st = refl
  apply_signals-kill (Signal.pause ∷ signals) st = apply_signals-kill signals _
  apply_signals-kill (Signal.resume ∷ signals) st = apply_signals-kill signals _
  apply_signals-kill (Signal.configure vs ∷ signals) st = apply_signals-kill signals _
  apply_signals-kill (Signal.other t ∷ signals) st = apply_signals-kill signals _

  consume_pending-killed :
      (db : AgentsDb) (agent_id : ℕ) (st : State W)
      → IsIssued 0 db.next_signal db.signals
      → any (is_agent agent_id) db.agents ≡ true
      → (consume_pending
          (clean_up agent_id (send_signal db agent_id "kill" no_payload).1)
          agent_id
          st).0.0
        ≡ true
  unfolding queue pending_signals
  consume_pending-killed db agent_id st issued known =
      let (queued, issued') =
        queue-send_signal db agent_id agent_id "kill" no_payload kill issued kill_type known in
      let db' = clean_up agent_id (send_signal db agent_id "kill" no_payload).1 in
      ap (λ (r : Bool × State W). r.0) (consume_pending-queue db' agent_id st issued').0
      ∙ ap (λ signals. (apply_signals signals st).0) (queued ∙ at_end (queue db agent_id) agent_id)
      ∙ apply_signals-kill (queue db agent_id) st

  -- An agent of the table that is hydrated in the supervisor's own process and is killed is not
  -- hydrated any more, and if the ids of the signals grow, it aborts the next time it looks at its
  -- signals.
  pub kill_agent-aborts :
      (host : Host) (db : AgentsDb) (agent_id : ℕ) (rt : AgentRuntime) (st : State W)
      → IsIssued 0 db.next_signal db.signals
      → any (is_agent agent_id) db.agents ≡ true
      → first_where (runtime_of agent_id) db.runtimes ≡ some rt
      → nat_beq rt.pid host.own_pid ≡ true
      → (any (runtime_of agent_id) (kill_agent host db agent_id).2.runtimes ≡ false)
        × ((consume_pending (kill_agent host db agent_id).2 agent_id st).0.0 ≡ true)
  unfolding kill_agent
  kill_agent-aborts host db agent_id rt st issued known hydrated own =
      simp (hydrated, own, kill_agent)
        (
          any-delete_where (runtime_of agent_id)
              (send_signal db agent_id "kill" no_payload).1.runtimes,
          consume_pending-killed db agent_id st issued known,
        )
