-- ===== src/Agents/Supervised.antt =====
-- What a kill, a round of the supervisor and an admission leave behind.
use model_weaver.Base.{
  ℕ, ◌≡◌, refl, sym, ap, ◌∙◌, String, Bool, true, false, not, ◌&&◌, none, some, List, [], ◌∷◌, any,
  map, select, All, All-append, any-update_where-outside, any-delete_where-outside,
  any-false-weaken, first_where-none, select-none, length, first_where, update_where, delete_where,
  nat_beq, nat_beq_iff, Bool-cases, Option-cases, inl, inr, arith,
}
use model_weaver.Agents.{
  Agent, AgentRuntime, AgentsDb, Payload, is_agent, runtime_of, set_status, stopped,
}
use model_weaver.Agents.Signals.{send_signal, insert_signal, signal_type}
use model_weaver.Agents.Supervisor.{
  Host, OsCall, term, force, is_late, is_zombie, check_heartbeats, stop_process, no_payload,
  clean_up, kill_agent, kill_all, tick,
}

abbrev pub pid_of : OsCall → ℕ
pid_of (term pid) = pid
pid_of (force pid) = pid

-- A call that does not reach the process `own`.
abbrev pub Spares : (own : ℕ) → OsCall → Type 0
Spares own c = nat_beq (pid_of c) own ≡ false

send_signal-tables :
    (db : AgentsDb) (agent_id : ℕ) (type : String) (payload : Payload)
    → ((send_signal db agent_id type payload).1.agents ≡ db.agents)
      × ((send_signal db agent_id type payload).1.runtimes ≡ db.runtimes)
unfolding send_signal insert_signal
send_signal-tables db agent_id type payload = elim (Option-cases (signal_type type)) [
  | inl e ↦ simp (e, send_signal) (refl, refl)
  | inr (t, e) ↦ elim (Bool-cases (any (is_agent agent_id) db.agents)) [
    | inl known ↦ simp (e, known, send_signal) (refl, refl)
    | inr unknown ↦ simp (e, unknown, send_signal) (refl, refl)
  ]
]

-- A zombie whose id is not in the list.
abbrev pub missed : (now : ℕ) → List ℕ → List AgentRuntime → Agent → Bool
missed now ids runtimes a =
    is_zombie now 30 runtimes a && not (any (λ id. nat_beq a.agent_id id) ids)

missed-cleaned :
    (now id : ℕ) (ids : List ℕ) (runtimes : List AgentRuntime) (a : Agent)
    → is_agent id a ≡ false
    → missed now (id ∷ ids) runtimes a ≡ false
    → missed now ids (delete_where (runtime_of id) runtimes) a ≡ false
missed-cleaned now id ids runtimes a other e =
    let late = λ (r : AgentRuntime). runtime_of a.agent_id r && is_late now 30 r in
    elim (Bool-cases (any late runtimes)) [
      | inl found ↦ elim (Bool-cases (any late (delete_where (runtime_of id) runtimes))) [
        | inl still ↦ simp still (sym (simp (found, other) refl) ∙ e)
        | inr gone ↦ simp gone (ground arith)
      ]
      | inr gone ↦ simp (any-delete_where-outside late (runtime_of id) runtimes gone) (ground arith)
    ]

missed-not_hydrated :
    (now id : ℕ) (ids : List ℕ) (runtimes : List AgentRuntime)
    → any (runtime_of id) runtimes ≡ false
    → (a : Agent) → missed now (id ∷ ids) runtimes a ≡ false
    → missed now ids runtimes a ≡ false
missed-not_hydrated now id ids runtimes e a h = elim (Bool-cases (is_agent id a)) [
  | inl it ↦
      let same = (nat_beq_iff a.agent_id id).0 it in
      let late =
        any-false-weaken (runtime_of id) (λ r. runtime_of a.agent_id r && is_late now 30 r) runtimes
          (λ r k. ground (arith, k, same)) e in
      simp late (ground arith)
  | inr other ↦ sym (simp other refl) ∙ h
]

-- The ids of the zombies hold every zombie.
missed-zombies :
    (now : ℕ) (runtimes : List AgentRuntime) (ids : List ℕ) (rows : List Agent)
    → ((q : ℕ → Bool)
        → any q (map (λ (a : Agent). a.agent_id) (select (is_zombie now 30 runtimes) rows)) ≡ true
        → any q ids ≡ true)
    → any (missed now ids runtimes) rows ≡ false
missed-zombies now runtimes ids [] h = refl
missed-zombies now runtimes ids (a ∷ rows) h = elim (Bool-cases (is_zombie now 30 runtimes a)) [
  | inl late ↦
      let held =
        h (λ id. nat_beq a.agent_id id)
          (simp (late, (nat_beq_iff a.agent_id a.agent_id).1 refl) refl) in
      simp (late, held)
        (missed-zombies now runtimes ids rows (λ q e. h q (simp late (ground (arith, e)))))
  | inr fine ↦ simp fine (missed-zombies now runtimes ids rows (λ q e. h q (simp fine e)))
]

module _ (host : Host) where
  stop_process-Spares :
      (pid : ℕ)
      → nat_beq pid host.own_pid ≡ false
      → All (Spares host.own_pid) (stop_process host pid).1
  unfolding stop_process
  stop_process-Spares pid h = elim (Bool-cases (host.pid_exists pid)) [
    | inl e ↦ simp (e, stop_process) (h, (h, tt))
    | inr e ↦ simp (e, stop_process) (h, tt)
  ]

  pub kill_agent-Spares :
      (db : AgentsDb) (agent_id : ℕ) → All (Spares host.own_pid) (kill_agent host db agent_id).1
  unfolding kill_agent
  kill_agent-Spares db agent_id =
      elim (Option-cases (first_where (runtime_of agent_id) db.runtimes)) [
        | inl e ↦ simp (e, kill_agent) tt
        | inr (rt, e) ↦ elim (Bool-cases (nat_beq rt.pid host.own_pid)) [
          | inl own ↦ simp (e, own, kill_agent) tt
          | inr other ↦ simp (e, other, kill_agent) (stop_process-Spares rt.pid other)
        ]
      ]

  kill_all-Spares :
      (ids : List ℕ) (db : AgentsDb) → All (Spares host.own_pid) (kill_all host db ids).0
  unfolding kill_all
  kill_all-Spares [] db = tt
  kill_all-Spares (id ∷ ids) db =
      All-append (Spares host.own_pid) _ _ (kill_agent-Spares db id)
        (kill_all-Spares ids (kill_agent host db id).2)

  -- A kill of an agent that is hydrated stops it and drops its runtime, and any kill leaves no
  -- runtime of the agent.
  pub kill_agent-tables :
      (db : AgentsDb) (agent_id : ℕ) (rt : AgentRuntime)
      → first_where (runtime_of agent_id) db.runtimes ≡ some rt
      → ((kill_agent host db agent_id).2.agents ≡ (clean_up agent_id db).agents)
        × ((kill_agent host db agent_id).2.runtimes ≡ (clean_up agent_id db).runtimes)
  unfolding kill_agent
  kill_agent-tables db agent_id rt e =
      let kept = send_signal-tables db agent_id "kill" no_payload in
      elim (Bool-cases (nat_beq rt.pid host.own_pid)) [
        | inl own ↦
            simp (e, own, kill_agent)
              (
                ap (update_where (is_agent agent_id) (set_status stopped)) kept.0,
                ap (delete_where (runtime_of agent_id)) kept.1,
              )
        | inr other ↦ simp (e, other, kill_agent) (refl, refl)
      ]

  pub kill_agent-not_hydrated :
      (db : AgentsDb) (agent_id : ℕ)
      → first_where (runtime_of agent_id) db.runtimes ≡ none
      → (kill_agent host db agent_id).2 ≡ db
  unfolding kill_agent
  kill_agent-not_hydrated db agent_id e = simp (e, kill_agent) refl

  kill_agent-missed :
      (db : AgentsDb) (now id : ℕ) (ids : List ℕ)
      → any (missed now (id ∷ ids) db.runtimes) db.agents ≡ false
      → any (missed now ids (kill_agent host db id).2.runtimes) (kill_agent host db id).2.agents
        ≡ false
  kill_agent-missed db now id ids e =
      elim (Option-cases (first_where (runtime_of id) db.runtimes)) [
        | inl none_there ↦ rw (kill_agent-not_hydrated db id none_there) (
            any-false-weaken (missed now (id ∷ ids) db.runtimes) (missed now ids db.runtimes)
              db.agents
              (missed-not_hydrated now id ids db.runtimes
                (first_where-none (runtime_of id) db.runtimes none_there))
              e)
        | inr (rt, hydrated) ↦
            let tables = kill_agent-tables db id rt hydrated in
            rw (tables.0, tables.1)
              (any-update_where-outside (missed now (id ∷ ids) db.runtimes) _ (is_agent id)
                (set_status stopped) db.agents (λ a hit. refl)
                (missed-cleaned now id ids db.runtimes) e)
      ]

  kill_all-missed :
      (ids : List ℕ) (db : AgentsDb) (now : ℕ)
      → any (missed now ids db.runtimes) db.agents ≡ false
      → any (missed now [] (kill_all host db ids).1.runtimes) (kill_all host db ids).1.agents
        ≡ false
  unfolding kill_all
  kill_all-missed [] db now e = e
  kill_all-missed (id ∷ ids) db now e =
      kill_all-missed ids (kill_agent host db id).2 now (kill_agent-missed db now id ids e)

  -- After a round of the supervisor check_heartbeats finds no agent at the same time; the round
  -- answers how many it found before, and sends no signal of the operating system to its own
  -- process.
  pub tick-check_heartbeats :
      (db : AgentsDb) (now : ℕ)
      → (check_heartbeats (tick host db now).2 now 30 ≡ [])
        × ((tick host db now).0.zombies_found ≡ length (check_heartbeats db now 30))
        × All (Spares host.own_pid) (tick host db now).1
  unfolding tick check_heartbeats
  tick-check_heartbeats db now =
      let zombies = check_heartbeats db now 30 in
      let db' = (kill_all host db zombies).1 in
      let none_missed =
        kill_all-missed zombies db now
          (missed-zombies now db.runtimes zombies db.agents (λ q h. h)) in
      let none_left =
        any-false-weaken (missed now [] db'.runtimes) (is_zombie now 30 db'.runtimes) db'.agents
          (λ a e. ground (arith, e)) none_missed in
      (
        ap (map (λ (a : Agent). a.agent_id))
            (select-none (is_zombie now 30 db'.runtimes) db'.agents none_left),
        refl,
        kill_all-Spares zombies db,
      )
