-- ===== src/Agents/Consumed.antt =====
-- The consumer that Agent._make_signal_check gives to the interpreter takes the signals out of the
-- front of the agent's queue.
use model_weaver.Base.{
  ℕ, ◌+◌, ◌≡◌, refl, sym, ap, ◌∙◌, subst, true, false, some, List, [], ◌∷◌, map, Option-cases,
  update_where-update_where, select, update_where, delete_where, nat_beq_iff, Bool-cases, inl, inr,
  if◌then◌else◌, arith,
}
use model_weaver.Fsm.Value.{Vars}
use model_weaver.Fsm.State.{Signal, State, apply_signals, on_signal, publish}
use model_weaver.Agents.{
  AgentsDb, SignalType, pause, resume, status, health, kill, configure, acked, completed, Payload,
  SignalRow,
}
use model_weaver.Agents.Signals.{
  waits_for, pending_signals, is_signal, ack_signal, complete_signal, finish, meaning, configured,
  effect, apply_signal, completion, consume_all, consume_pending,
}
use model_weaver.Agents.Channel.{
  IsIssued, IsIssued-select, IsIssued-update_where, behind, pending_signals-IsIssued, queue,
  queue-select, meaning_of,
}

-- What a queue holds behind its first kill.
abbrev pub behind_kill : List Signal → List Signal
behind_kill [] = []
behind_kill (Signal.kill ∷ rest) = rest
behind_kill (s ∷ rest) = behind_kill rest

-- The tables once a signal is acknowledged and completed.
abbrev taken : AgentsDb → (agent_id : ℕ) → SignalRow → AgentsDb
taken db agent_id s =
    finish (configured db agent_id s.type s.payload) s (completion s.type s.payload)

module _ {W : Type 0} where
  -- An effect is a step of the interpreter's own loop.
  apply_signals-effect :
      (t : SignalType) (p : Payload) (rest : List Signal) (st : State W)
      → let h = effect t p (publish (on_signal (meaning t p) st.result.variables) st) in
        apply_signals (meaning t p ∷ rest) st
        ≡ (if h.0 then (true, h.1) else apply_signals rest h.1)
  unfolding apply_signals meaning
  apply_signals-effect kill p rest st = refl
  apply_signals-effect pause p rest st = refl
  apply_signals-effect resume p rest st = refl
  apply_signals-effect configure p rest st = refl
  apply_signals-effect status p rest st = refl
  apply_signals-effect health p rest st = refl

  behind_kill-effect :
      (t : SignalType) (p : Payload) (rest : List Signal) (st : State W)
      → behind_kill (meaning t p ∷ rest) ≡ (if (effect t p st).0 then rest else behind_kill rest)
  unfolding meaning
  behind_kill-effect kill p rest st = refl
  behind_kill-effect pause p rest st = refl
  behind_kill-effect resume p rest st = refl
  behind_kill-effect configure p rest st = refl
  behind_kill-effect status p rest st = refl
  behind_kill-effect health p rest st = refl

  apply_signals-apply_signal :
      (s : SignalRow) (rest : List Signal) (st : State W)
      → apply_signals (meaning_of s ∷ rest) st ≡ (
          if (apply_signal s st).0
          then (true, (apply_signal s st).1)
          else apply_signals rest (apply_signal s st).1)
  unfolding apply_signal
  apply_signals-apply_signal s rest st = apply_signals-effect s.type s.payload rest st

  behind_kill-apply_signal :
      (s : SignalRow) (rest : List Signal) (st : State W)
      → behind_kill (meaning_of s ∷ rest)
        ≡ (if (apply_signal s st).0 then rest else behind_kill rest)
  unfolding apply_signal
  behind_kill-apply_signal s rest st = behind_kill-effect s.type s.payload rest _

  consume_all-apply_signals :
      (sigs : List SignalRow) (db : AgentsDb) (agent_id : ℕ) (st : State W)
      → (consume_all db agent_id sigs st).0 ≡ apply_signals (map meaning_of sigs) st
  unfolding consume_all apply_signals
  consume_all-apply_signals [] db agent_id st = refl
  consume_all-apply_signals (s ∷ rest) db agent_id st =
      let here = apply_signals-apply_signal s (map meaning_of rest) st in
      elim (Bool-cases (apply_signal s st).0) [
        | inl killed ↦ rw killed (sym (here ∙ rw killed refl))
        | inr alive ↦ rw alive (
            consume_all-apply_signals rest (taken db agent_id s) agent_id (apply_signal s st).1
            ∙ sym (here ∙ rw alive refl))
      ]

-- Rows that are no longer pending leave every query for pending rows.
select-done :
    (agent_id id : ℕ) (f : SignalRow → SignalRow) (rows : List SignalRow)
    → ((s : SignalRow) → waits_for agent_id (f s) ≡ false)
    → select (waits_for agent_id) (update_where (is_signal id) f rows)
      ≡ delete_where (is_signal id) (select (waits_for agent_id) rows)
select-done agent_id id f [] h = refl
select-done agent_id id f (s ∷ rows) h =
    let rest = select-done agent_id id f rows h in
    elim (Bool-cases (is_signal id s)) [
      | inl hit ↦ elim (Bool-cases (waits_for agent_id s)) [
        | inl waits ↦ simp (hit, waits, h s) rest
        | inr done ↦ simp (hit, done, h s) rest
      ]
      | inr miss ↦ elim (Bool-cases (waits_for agent_id s)) [
        | inl waits ↦ simp (miss, waits) (ap (λ ss. s ∷ ss) rest)
        | inr done ↦ simp (miss, done) rest
      ]
    ]

configured-signals :
    (db : AgentsDb) (agent_id : ℕ) (t : SignalType) (p : Payload)
    → ((configured db agent_id t p).signals ≡ db.signals)
      × ((configured db agent_id t p).next_signal ≡ db.next_signal)
configured-signals db agent_id kill p = (refl, refl)
configured-signals db agent_id pause p = (refl, refl)
configured-signals db agent_id resume p = (refl, refl)
configured-signals db agent_id configure p = elim (Option-cases p.state) [
  | inl e ↦ simp e (refl, refl)
  | inr (v, e) ↦ simp e (refl, refl)
]
configured-signals db agent_id status p = (refl, refl)
configured-signals db agent_id health p = (refl, refl)

abbrev closed : Vars → SignalRow → SignalRow
closed result s = record s {
  status = completed;
  payload = record s.payload { result = some result };
}

taken-signals :
    (db : AgentsDb) (agent_id : ℕ) (s : SignalRow)
    → ((taken db agent_id s).signals
        ≡ update_where (is_signal s.signal_id) (closed (completion s.type s.payload)) db.signals)
      × ((taken db agent_id s).next_signal ≡ db.next_signal)
unfolding finish ack_signal complete_signal
taken-signals db agent_id s =
    let same = configured-signals db agent_id s.type s.payload in
    (
      update_where-update_where (is_signal s.signal_id) (λ r. record r { status = acked })
            (closed (completion s.type s.payload)) _ (λ r h. h)
          ∙ ap (update_where (is_signal s.signal_id) (closed (completion s.type s.payload))) same.0,
      same.1,
    )

-- Taking a signal out of the tables takes it out of every query for pending rows.
select-taken :
    (db : AgentsDb) (agent_id other : ℕ) (s : SignalRow)
    → select (waits_for other) (taken db agent_id s).signals
      ≡ delete_where (is_signal s.signal_id) (select (waits_for other) db.signals)
select-taken db agent_id other s =
    ap (select (waits_for other)) (taken-signals db agent_id s).0
    ∙ select-done other s.signal_id (closed (completion s.type s.payload)) db.signals
        (λ r. ground arith)

IsIssued-taken :
    (db : AgentsDb) (agent_id : ℕ) (s : SignalRow)
    → IsIssued 0 db.next_signal db.signals
    → IsIssued 0 (taken db agent_id s).next_signal (taken db agent_id s).signals
IsIssued-taken db agent_id s h =
    let same = taken-signals db agent_id s in
    rw (same.0, same.1)
      (IsIssued-update_where (is_signal s.signal_id) (closed (completion s.type s.payload)) 0
        db.next_signal db.signals (λ r. refl) h)

delete_where-front :
    (low next : ℕ) (s : SignalRow) (rest : List SignalRow)
    → IsIssued low next (s ∷ rest)
    → delete_where (is_signal s.signal_id) (s ∷ rest) ≡ rest
delete_where-front low next s rest h =
    simp ((nat_beq_iff s.signal_id s.signal_id).1 refl)
      ((behind (s.signal_id + 1) next s.signal_id rest h.1 (omega arith)).1)

module _ {W : Type 0} where
  -- After the loop over the pending signals those behind the first kill are pending.
  consume_all-behind_kill :
      (sigs : List SignalRow) (db : AgentsDb) (agent_id low : ℕ) (st : State W)
      → IsIssued low db.next_signal sigs
      → IsIssued 0 db.next_signal db.signals
      → select (waits_for agent_id) db.signals ≡ sigs
      → (map meaning_of (select (waits_for agent_id) (consume_all db agent_id sigs st).1.signals)
          ≡ behind_kill (map meaning_of sigs))
        × IsIssued 0
            (consume_all db agent_id sigs st).1.next_signal
            (consume_all db agent_id sigs st).1.signals
  unfolding consume_all
  consume_all-behind_kill [] db agent_id low st h issued e = (ap (map meaning_of) e, issued)
  consume_all-behind_kill (s ∷ rest) db agent_id low st h issued e =
      let db' = taken db agent_id s in
      let left =
        select-taken db agent_id agent_id s
        ∙ ap (delete_where (is_signal s.signal_id)) e
        ∙ delete_where-front low db.next_signal s rest h in
      let issued' = IsIssued-taken db agent_id s issued in
      let skipped = behind_kill-apply_signal s (map meaning_of rest) st in
      elim (Bool-cases (apply_signal s st).0) [
        | inl killed ↦
            rw killed (ap (map meaning_of) left ∙ sym (skipped ∙ rw killed refl), issued')
        | inr alive ↦
            let (found, kept) =
              consume_all-behind_kill rest db' agent_id (s.signal_id + 1) (apply_signal s st).1
                (subst (λ n. IsIssued (s.signal_id + 1) n rest)
                  (sym (taken-signals db agent_id s).1) h.1)
                issued' left in
            rw alive (found ∙ sym (skipped ∙ rw alive refl), kept)
      ]

  -- If the ids of the signals grow, the consumer of an agent's signals is the interpreter's own
  -- loop over the agent's queue: it has the same effect on the result and raises in the same
  -- cases, what is queued after it is what was behind the first kill, and the ids still grow.
  pub consume_pending-queue :
      (db : AgentsDb) (agent_id : ℕ) (st : State W)
      → IsIssued 0 db.next_signal db.signals
      → ((consume_pending db agent_id st).0 ≡ apply_signals (queue db agent_id) st)
        × (queue (consume_pending db agent_id st).1 agent_id ≡ behind_kill (queue db agent_id))
        × IsIssued 0
            (consume_pending db agent_id st).1.next_signal
            (consume_pending db agent_id st).1.signals
  unfolding consume_pending queue
  consume_pending-queue db agent_id st issued =
      let sigs = pending_signals db agent_id in
      let found = pending_signals-IsIssued db agent_id issued in
      let (left, kept) =
        consume_all-behind_kill sigs db agent_id 0 st
          (subst (IsIssued 0 db.next_signal) (sym found)
            (IsIssued-select (waits_for agent_id) 0 db.next_signal db.signals issued))
          issued (sym found) in
      (
        consume_all-apply_signals sigs db agent_id st,
        queue-select (consume_all db agent_id sigs st).1 agent_id kept ∙ left,
        kept,
      )
