-- ===== src/Agents/Channel.antt =====
-- The signals of an agent are a queue: what send_signal puts in at its end is what `_check` takes
-- out at its front.
use model_weaver.Base.{
  ℕ, ◌+◌, ◌≤◌, ◌<◌, ◌≡◌, refl, sym, ap, ◌∙◌, subst, String, Bool, true, false, some, List, [], ◌∷◌,
  ◌++◌, any, map, select, select-append, update_where, delete_where, All, IsOrdered,
  order_by-IsOrdered, leb, nat_beq, Bool-cases, inl, inr, if◌then◌else◌, arith, tests,
}
use mathlib.Core.List.{map-append}
use model_weaver.Fsm.State.{Signal}
use model_weaver.Agents.{AgentsDb, SignalType, pending, Payload, SignalRow, is_agent}
use model_weaver.Agents.Signals.{
  sent, insert_signal, signal_type, send_signal, waits_for, signal_order, pending_signals,
  is_signal, meaning,
}

-- The ids of the rows grow from `low` on and lie below `next`.
abbrev pub IsIssued : (low next : ℕ) → List SignalRow → Type 0
IsIssued low next [] = low ≤ next
IsIssued low next (s ∷ rows) = (low ≤ s.signal_id) × IsIssued (s.signal_id + 1) next rows

pub IsIssued-later :
    (low lower next : ℕ) (rows : List SignalRow)
    → lower ≤ low
    → IsIssued low next rows
    → IsIssued lower next rows
IsIssued-later low lower next [] le h = omega (arith, le, h)
IsIssued-later low lower next (s ∷ rows) le h = (omega (arith, le, h.0), h.1)

pub IsIssued-select :
    (q : SignalRow → Bool) (low next : ℕ) (rows : List SignalRow)
    → IsIssued low next rows
    → IsIssued low next (select q rows)
IsIssued-select q low next [] h = h
IsIssued-select q low next (s ∷ rows) h =
    let rest = IsIssued-select q (s.signal_id + 1) next rows h.1 in
    elim (Bool-cases (q s)) [
      | inl chosen ↦ simp chosen (h.0, rest)
      | inr other ↦
          simp other
            (IsIssued-later (s.signal_id + 1) low next (select q rows) (omega (arith, h.0)) rest)
    ]

IsIssued-send :
    (low next : ℕ) (s : SignalRow) (rows : List SignalRow)
    → IsIssued low next rows
    → s.signal_id ≡ next
    → IsIssued low (next + 1) (rows ++ s ∷ [])
IsIssued-send low next s [] h e = (omega (arith, h, e), omega (arith, e))
IsIssued-send low next s (r ∷ rows) h e = (h.0, IsIssued-send (r.signal_id + 1) next s rows h.1 e)

pub IsIssued-update_where :
    (p : SignalRow → Bool) (f : SignalRow → SignalRow) (low next : ℕ) (rows : List SignalRow)
    → ((s : SignalRow) → (f s).signal_id ≡ s.signal_id)
    → IsIssued low next rows
    → IsIssued low next (update_where p f rows)
IsIssued-update_where p f low next [] k h = h
IsIssued-update_where p f low next (s ∷ rows) k h =
    let rest = IsIssued-update_where p f (s.signal_id + 1) next rows k h.1 in
    elim (Bool-cases (p s)) [
      | inl hit ↦ simp hit (
        omega (arith, h.0, k s),
        subst (λ n. IsIssued (n + 1) next (update_where p f rows)) (sym (k s)) rest,
      )
      | inr miss ↦ simp miss (h.0, rest)
    ]

gt→nat_beq : (a b : ℕ) → b < a → nat_beq a b ≡ false
gt→nat_beq a b h = ground arith

pub behind :
    (low next id : ℕ) (rows : List SignalRow)
    → IsIssued low next rows
    → id < low
    → All (λ s. leb id s.signal_id ≡ true) rows × (delete_where (is_signal id) rows ≡ rows)
behind low next id [] h lt = (tt, refl)
behind low next id (s ∷ rows) h lt =
    let rest = behind (s.signal_id + 1) next id rows h.1 (omega (arith, h.0, lt)) in
    (
      (grind (tests, h.0, lt), rest.0),
      simp (gt→nat_beq s.signal_id id (omega (arith, h.0, lt))) (ap (λ rs. s ∷ rs) rest.1),
    )

IsOrdered-IsIssued :
    (low next : ℕ) (rows : List SignalRow) → IsIssued low next rows → IsOrdered signal_order rows
IsOrdered-IsIssued low next [] h = tt
IsOrdered-IsIssued low next (s ∷ rows) h = (
  (behind (s.signal_id + 1) next s.signal_id rows h.1 (omega arith)).0,
  IsOrdered-IsIssued (s.signal_id + 1) next rows h.1,
)

-- The pending signals are in the order of the table.
pub pending_signals-IsIssued :
    (db : AgentsDb) (agent_id : ℕ)
    → IsIssued 0 db.next_signal db.signals
    → pending_signals db agent_id ≡ select (waits_for agent_id) db.signals
unfolding pending_signals
pending_signals-IsIssued db agent_id h = order_by-IsOrdered signal_order _ (
    IsOrdered-IsIssued 0 db.next_signal _
      (IsIssued-select (waits_for agent_id) 0 db.next_signal db.signals h))

abbrev pub meaning_of : SignalRow → Signal
meaning_of s = meaning s.type s.payload

-- The signals of an agent, in the order in which the interpreter reads them.
unfoldable pub queue : AgentsDb → (agent_id : ℕ) → List Signal
unfolding pending_signals
queue db agent_id = map meaning_of (pending_signals db agent_id)

send_signal-known :
    (db : AgentsDb) (agent_id : ℕ) (type : String) (payload : Payload) (t : SignalType)
    → signal_type type ≡ some t
    → any (is_agent agent_id) db.agents ≡ true
    → send_signal db agent_id type payload
      ≡ (sent db.next_signal, insert_signal db agent_id t payload)
unfolding send_signal
send_signal-known db agent_id type payload t e known = simp (e, known, send_signal) refl

waiting :
    (other : ℕ) (s : SignalRow)
    → s.status ≡ pending
    → map meaning_of (select (waits_for other) (s ∷ []))
      ≡ (if nat_beq s.agent_id other then meaning_of s ∷ [] else [])
waiting other s e = elim (Bool-cases (nat_beq s.agent_id other)) [
  | inl mine ↦ simp (mine, e) refl
  | inr theirs ↦ simp theirs refl
]

pub queue-select :
    (db : AgentsDb) (agent_id : ℕ)
    → IsIssued 0 db.next_signal db.signals
    → queue db agent_id ≡ map meaning_of (select (waits_for agent_id) db.signals)
unfolding queue
queue-select db agent_id h = ap (map meaning_of) (pending_signals-IsIssued db agent_id h)

queue-insert_signal :
    (db : AgentsDb) (agent_id other : ℕ) (payload : Payload) (t : SignalType)
    → IsIssued 0 db.next_signal db.signals
    → queue (insert_signal db agent_id t payload) other
      ≡ queue db other ++ (if nat_beq agent_id other then meaning t payload ∷ [] else [])
unfolding insert_signal
queue-insert_signal db agent_id other payload t h =
    let db' = insert_signal db agent_id t payload in
    let q = waits_for other in
    let new : SignalRow = record {
      signal_id = db.next_signal;
      agent_id = agent_id;
      type = t;
      payload = payload;
      status = pending;
    } in
    queue-select db' other (IsIssued-send 0 db.next_signal new db.signals h refl)
    ∙ ap (map meaning_of) (select-append q db.signals (new ∷ []))
    ∙ map-append meaning_of (select q db.signals) (select q (new ∷ []))
    ∙ ap (λ ss. ss ++ map meaning_of (select q (new ∷ []))) (sym (queue-select db other h))
    ∙ ap (λ ss. queue db other ++ ss) (waiting other new refl)

-- If the ids of the signals grow, a signal of a known type to an agent that exists goes to the end
-- of the agent's queue, the queues of the other agents stay as they are, and the ids still grow.
pub queue-send_signal :
    (db : AgentsDb) (agent_id other : ℕ) (type : String) (payload : Payload) (t : SignalType)
    → IsIssued 0 db.next_signal db.signals
    → signal_type type ≡ some t
    → any (is_agent agent_id) db.agents ≡ true
    → (queue (send_signal db agent_id type payload).1 other
        ≡ queue db other ++ (if nat_beq agent_id other then meaning t payload ∷ [] else []))
      × IsIssued 0
          (send_signal db agent_id type payload).1.next_signal
          (send_signal db agent_id type payload).1.signals
unfolding insert_signal
queue-send_signal db agent_id other type payload t h e known =
    rw (send_signal-known db agent_id type payload t e known) (
      queue-insert_signal db agent_id other payload t h,
      IsIssued-send 0 db.next_signal _ db.signals h refl,
    )
