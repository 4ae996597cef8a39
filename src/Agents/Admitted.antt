-- ===== src/Agents/Admitted.antt =====
-- Whom AgentManager.admit stops, and whom it leaves alone.
use model_weaver.Base.{
  ℕ, ◌+◌, ◌≡◌, refl, sym, ◌∙◌, ◌⊎◌, inl, inr, Bool, true, false, Option, none, some, List, [], ◌∷◌,
  All, All-weaken, All-append, All-map, All-order_by, All-select-holds, select, first_where,
  first_where-outside, first_where-deleted, first_where-delete_where, contains, nat_eq, nat_beq,
  Bool-cases, Option-cases, arith, nat_beq_iff, not, ◌&&◌,
}
use mathlib.Core.Bool.{true≢false}
use model_weaver.Base.Int.{ℤ, pos, leb_int}
use model_weaver.Agents.{Agent, AgentsDb, stopped, is_agent, runtime_of, set_status}
use model_weaver.Agents.Supervisor.{
  Host, Demand, kill_agent, list_active, Preempted, ranked, ranked_id, agent_resources, default,
  Admission, OsCall, outranked, priority_of, rank_order, candidates, evaluate, preempt, admit,
}
use model_weaver.Agents.Supervised.{
  Spares, kill_agent-Spares, kill_agent-tables, kill_agent-not_hydrated,
}

-- The priority of an agent: the declared one, or 5.
pub data HasPriority (db : AgentsDb) (id : ℕ) (p : ℤ) : Type 0 where
  declared :
      (a : Agent)
      → first_where (is_agent id) db.agents ≡ some a
      → a.resources.priority ≡ some p
      → HasPriority db id p
  undeclared :
      (a : Agent)
      → first_where (is_agent id) db.agents ≡ some a
      → a.resources.priority ≡ none
      → p ≡ pos 5
      → HasPriority db id p
  unknown : first_where (is_agent id) db.agents ≡ none → p ≡ pos 5 → HasPriority db id p

-- The agent `victim` may be preempted for `agent_id`: it does not refuse it, and its priority is
-- strictly lower.
pub record IsOutranked (db : AgentsDb) (agent_id victim : ℕ) : Type 0 where
  pub row : Agent
  pub there : first_where (is_agent victim) db.agents ≡ some row
  pub preemptible : (row.resources.preemptible ≡ none) ⊎ (row.resources.preemptible ≡ some true)
  pub low : ℤ
  pub high : ℤ
  pub has_low : HasPriority db victim low
  pub has_high : HasPriority db agent_id high
  pub lower : leb_int high low ≡ false

-- What became of an agent: it is in the list of the preempted ones and not hydrated any more, or it
-- is not in the list, and its row and its runtime are what they were.
pub data Fate (db db' : AgentsDb) (ids : List ℕ) (id : ℕ) : Type 0 where
  ended :
      contains ids id ≡ true → first_where (runtime_of id) db'.runtimes ≡ none → Fate db db' ids id
  untouched :
      contains ids id ≡ false
      → first_where (is_agent id) db'.agents ≡ first_where (is_agent id) db.agents
      → first_where (runtime_of id) db'.runtimes ≡ first_where (runtime_of id) db.runtimes
      → Fate db db' ids id

priority_of-HasPriority : (db : AgentsDb) (id : ℕ) → HasPriority db id (priority_of db id)
unfolding priority_of agent_resources
priority_of-HasPriority db id = elim (Option-cases (first_where (is_agent id) db.agents)) [
  | inl missing ↦ HasPriority.unknown missing (simp (missing, agent_resources, priority_of))
  | inr (a, found) ↦ elim (Option-cases a.resources.priority) [
    | inl unset ↦
        HasPriority.undeclared a found unset (simp (found, unset, agent_resources, priority_of))
    | inr (p, set) ↦
        HasPriority.declared a found (set ∙ simp (found, set, agent_resources, priority_of))
  ]
]

outranked-known :
    (db : AgentsDb) (my_priority : ℤ) (victim : ℕ) (a : Agent)
    → first_where (is_agent victim) db.agents ≡ some a
    → outranked db my_priority victim
      ≡ default true a.resources.preemptible && not (leb_int my_priority (priority_of db victim))
unfolding outranked priority_of agent_resources
outranked-known db my_priority victim a found =
    simp (found, agent_resources, outranked, priority_of)

outranked-unknown :
    (db : AgentsDb) (my_priority : ℤ) (victim : ℕ)
    → first_where (is_agent victim) db.agents ≡ none
    → outranked db my_priority victim ≡ false
unfolding outranked agent_resources
outranked-unknown db my_priority victim missing = simp (missing, agent_resources, outranked)

allowed_and_lower :
    (given : Option Bool) (le : Bool)
    → default true given && not le ≡ true
    → ((given ≡ none) ⊎ (given ≡ some true)) × (le ≡ false)
allowed_and_lower none le h = (inl refl, ground arith)
allowed_and_lower (some true) le h = (inr refl, ground arith)
allowed_and_lower (some false) le h = ground arith

outranked-IsOutranked :
    (db : AgentsDb) (agent_id victim : ℕ)
    → outranked db (priority_of db agent_id) victim ≡ true
    → IsOutranked db agent_id victim
outranked-IsOutranked db agent_id victim h =
    elim (Option-cases (first_where (is_agent victim) db.agents)) [
      | inl missing ↦
          absurd
            (true≢false (sym h ∙ outranked-unknown db (priority_of db agent_id) victim missing))
      | inr (a, found) ↦
          let known =
            allowed_and_lower a.resources.preemptible _
              (sym (outranked-known db (priority_of db agent_id) victim a found) ∙ h) in
          record {
            row = a;
            there = found;
            preemptible = known.0;
            low = priority_of db victim;
            high = priority_of db agent_id;
            has_low = priority_of-HasPriority db victim;
            has_high = priority_of-HasPriority db agent_id;
            lower = known.1;
          }
    ]

-- Every candidate is outranked.
candidates-IsOutranked :
    (db : AgentsDb) (agent_id : ℕ)
    → All (λ c. IsOutranked db agent_id (ranked_id c)) (candidates db (priority_of db agent_id))
unfolding candidates
candidates-IsOutranked db agent_id =
    let my_priority = priority_of db agent_id in
    All-order_by (λ c. IsOutranked db agent_id (ranked_id c)) rank_order _
      (All-map (λ c. IsOutranked db agent_id (ranked_id c))
        (λ (a : Agent). ranked (priority_of db a.agent_id) a.agent_id)
        (select (λ (a : Agent). outranked db my_priority a.agent_id) (list_active db))
        (All-weaken (select (λ (a : Agent). outranked db my_priority a.agent_id) (list_active db))
          (λ a h. outranked-IsOutranked db agent_id a.agent_id h)
          (All-select-holds (λ (a : Agent). outranked db my_priority a.agent_id) (list_active db))))

module _ (host : Host) where
  kill_agent-ends :
      (db : AgentsDb) (id : ℕ)
      → first_where (runtime_of id) (kill_agent host db id).2.runtimes ≡ none
  kill_agent-ends db id = elim (Option-cases (first_where (runtime_of id) db.runtimes)) [
    | inl missing ↦ rw (kill_agent-not_hydrated host db id missing) missing
    | inr (rt, found) ↦
        rw (kill_agent-tables host db id rt found).1
          (first_where-delete_where (runtime_of id) db.runtimes)
  ]

  kill_agent-others :
      (db : AgentsDb) (id other : ℕ)
      → nat_beq id other ≡ false
      → (first_where (is_agent other) (kill_agent host db id).2.agents
          ≡ first_where (is_agent other) db.agents)
        × (first_where (runtime_of other) (kill_agent host db id).2.runtimes
            ≡ first_where (runtime_of other) db.runtimes)
  kill_agent-others db id other differs =
      elim (Option-cases (first_where (runtime_of id) db.runtimes)) [
        | inl missing ↦ rw (kill_agent-not_hydrated host db id missing) (refl, refl)
        | inr (rt, found) ↦
            let tables = kill_agent-tables host db id rt found in
            rw (tables.0, tables.1)
              (
                first_where-outside (is_agent other) (is_agent id) (set_status stopped) db.agents
                    (λ a h. ground (arith, differs)) (λ a h. ground (arith, differs)),
                first_where-deleted (runtime_of other) (runtime_of id) db.runtimes
                    (λ r h. ground (arith, differs)),
              )
      ]

  kill_agent-Fate :
      (db : AgentsDb) (killed id : ℕ) → Fate db (kill_agent host db killed).2 (killed ∷ []) id
  kill_agent-Fate db killed id = elim (Bool-cases (nat_beq killed id)) [
    | inl same ↦
        Fate.ended (simp same)
          (rw (sym ((nat_beq_iff killed id).0 same)) (kill_agent-ends db killed))
    | inr differs ↦
        let kept = kill_agent-others db killed id differs in
        Fate.untouched (simp differs) kept.0 kept.1
  ]

  -- A kill, and what happens behind it.
  kill_agent-then :
      (db db'' : AgentsDb) (killed id : ℕ) (ids : List ℕ)
      → Fate (kill_agent host db killed).2 db'' ids id
      → Fate db db'' (killed ∷ ids) id
  kill_agent-then db db'' killed id ids later = elim (Bool-cases (nat_beq killed id)) [
    | inl same ↦ elim later [
      | Fate.ended listed gone ↦ Fate.ended (simp same) gone
      | Fate.untouched unlisted agents runtimes ↦
          Fate.ended (simp same)
            (runtimes ∙ rw (sym ((nat_beq_iff killed id).0 same)) (kill_agent-ends db killed))
    ]
    | inr differs ↦
        let kept = kill_agent-others db killed id differs in
        elim later [
          | Fate.ended listed gone ↦ Fate.ended (simp (differs, listed)) gone
          | Fate.untouched unlisted agents runtimes ↦
              Fate.untouched (simp (differs, unlisted)) (agents ∙ kept.0) (runtimes ∙ kept.1)
        ]
  ]

  module _ (possible : ℕ → AgentsDb → Option Demand → Bool) where
    -- What holds of the answer of an admission: the last evaluation, and the fate of an agent.
    pub record IsFair (P : ℕ → Type 0) (db : AgentsDb) (agent_id id : ℕ)
        (end : Admission × List OsCall × AgentsDb) : Type 0 where
      pub chosen : All P end.0.preempted
      pub fate : Fate db end.2 end.0.preempted id
      pub last : ℕ
      pub honest : end.0.admitted ≡ evaluate host possible last end.2 agent_id
      pub spared : All (Spares host.own_pid) end.1

    preempt-IsFair :
        (P : ℕ → Type 0) (cs : List Preempted) (call : ℕ) (db : AgentsDb) (agent_id id : ℕ)
        → All (λ c. P (ranked_id c)) cs
        → IsFair P db agent_id id (preempt host possible call db agent_id cs)
    unfolding preempt
    preempt-IsFair P [] call db agent_id id h = record {
      chosen = tt;
      fate = Fate.untouched refl refl refl;
      last = call;
      honest = refl;
      spared = tt;
    }
    preempt-IsFair P (c ∷ cs) call db agent_id id h =
        let db' = (kill_agent host db (ranked_id c)).2 in
        let spared = kill_agent-Spares host db (ranked_id c) in
        let rest = preempt-IsFair P cs (call + 1) db' agent_id id h.1 in
        elim (Bool-cases (evaluate host possible call db' agent_id)) [
          | inl enough ↦ simp enough (record {
            chosen = (h.0, tt);
            fate = kill_agent-Fate db (ranked_id c) id;
            last = call;
            honest = sym enough;
            spared = spared;
          })
          | inr more ↦ simp more (record {
            chosen = (h.0, rest.chosen);
            fate = kill_agent-then db _ (ranked_id c) id _ rest.fate;
            last = rest.last;
            honest = rest.honest;
            spared = All-append (Spares host.own_pid) _ _ spared rest.spared;
          })
        ]

    -- An admission stops exactly the agents that it reports, and each of them may be preempted and
    -- has a strictly lower priority than the agent it is for; every agent that it does not report
    -- keeps its row and its runtime, and one that it reports is not hydrated any more. It answers
    -- what an evaluation of the tables that it leaves says, and sends no signal of the operating
    -- system to its own process.
    pub admit-IsFair :
        (db : AgentsDb) (agent_id id : ℕ)
        → IsFair (IsOutranked db agent_id) db agent_id id (admit host possible db agent_id)
    unfolding admit
    admit-IsFair db agent_id id = elim (Bool-cases (evaluate host possible 0 db agent_id)) [
      | inl free ↦ simp free (record {
        chosen = tt;
        fate = Fate.untouched refl refl refl;
        last = 0;
        honest = sym free;
        spared = tt;
      })
      | inr taken ↦ simp taken (
          preempt-IsFair (IsOutranked db agent_id) (candidates db (priority_of db agent_id)) 1 db
            agent_id id (candidates-IsOutranked db agent_id))
    ]
