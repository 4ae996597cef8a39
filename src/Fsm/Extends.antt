-- ===== src/Fsm/Extends.antt =====
-- What no part of a run undoes: the count of iterations, the messages and the published events
-- only grow, and the count stays within the limit.
pub mod Leaves
pub mod Calling
pub mod Handlers
pub mod Blocks
pub mod Runs
use model_weaver.Base.{
  ℕ, ◌+◌, ◌≤◌, ◌≡◌, refl, sym, ◌∙◌, ap, String, Bool, true, false, Option, none, some, List, [],
  ◌∷◌, ◌++◌, arith, append-nil, append_assoc, text_eq, Bool-cases, inl, inr, if◌then◌else◌,
}
use model_weaver.Base.Dict
use model_weaver.Fsm.Value.{Value, Vars}
use model_weaver.Fsm.State.{
  FsmResult, Signal, kill, pause, resume, configure, other, HookEvent, State, fail, goto, set_var,
  say, set_env, sink, set_content, publish, apply_signals, abort, take_pending, signal_check,
  check_signals,
}

-- The second list begins with the first.
pub data Grows {ℓ} {A : Type ℓ} (xs : List A) : List A → Type ℓ where
  same : Grows xs xs
  more : {ys : List A} (y : A) → Grows xs ys → Grows xs (ys ++ y ∷ [])

pub Grows-trans {ℓ} : {A : Type ℓ} {xs ys zs : List A} → Grows xs ys → Grows ys zs → Grows xs zs
Grows-trans g same = g
Grows-trans g (more y h) = more y (Grows-trans g h)

-- A list that grew is the old one with something behind it.
pub Grows-split {ℓ} :
    {A : Type ℓ} {xs ys : List A} → Grows xs ys → (rest : List A) × (ys ≡ xs ++ rest)
Grows-split {xs} same = ([], sym (append-nil xs))
Grows-split {xs} (more y g) =
    let (rest, e) = Grows-split g in
    (rest ++ y ∷ [], ap (λ zs. zs ++ y ∷ []) e ∙ append_assoc xs rest (y ∷ []))

-- `b` may come behind `a` in a run whose limit is `limit`.
pub record Extends {W : Type 0} (limit : ℕ) (a b : State W) : Type 0 where
  pub count : a.result.iterations ≤ b.result.iterations
  pub within : a.result.iterations ≤ limit → b.result.iterations ≤ limit
  pub messages : Grows a.result.messages b.result.messages
  pub events : Grows a.events b.events

module _ {W : Type 0} {limit : ℕ} where
  pub Extends-refl : (a : State W) → Extends limit a a
  Extends-refl a = record { count = omega arith; within = λ h. h; messages = same; events = same }

  pub Extends-trans : {a b c : State W} → Extends limit a b → Extends limit b c → Extends limit a c
  Extends-trans p q = record {
    count = omega (arith, p.count, q.count);
    within = λ h. q.within (p.within h);
    messages = Grows-trans p.messages q.messages;
    events = Grows-trans p.events q.events;
  }

  -- A change that leaves the four alone.
  pub Extends-keep :
      {a b : State W} (c : State W)
      → c.result.iterations ≡ b.result.iterations
      → c.result.messages ≡ b.result.messages
      → c.events ≡ b.events
      → Extends limit a b
      → Extends limit a c
  Extends-keep {a} {b} c i m e p = record {
    count = omega (arith, p.count);
    within = λ h. omega (arith, p.within h);
    messages = rw m p.messages;
    events = rw e p.events;
  }

  pub Extends-goto :
      {a b : State W} (n : Option String) → Extends limit a b → Extends limit a (goto n b)
  unfolding goto
  Extends-goto {a} {b} n = Extends-keep _ refl refl refl

  pub Extends-fail : {a b : State W} (m : String) → Extends limit a b → Extends limit a (fail m b)
  unfolding fail
  Extends-fail m = Extends-keep _ refl refl refl

  pub Extends-set_var :
      {a b : State W} (n : String) (v : Value) → Extends limit a b → Extends limit a (set_var n v b)
  unfolding set_var
  Extends-set_var n v = Extends-keep _ refl refl refl

  pub Extends-abort : {a b : State W} → Extends limit a b → Extends limit a (abort b)
  unfolding abort
  Extends-abort = Extends-keep _ refl refl refl

  pub Extends-sink : {a b : State W} (d : String) → Extends limit a b → Extends limit a (sink d b)
  unfolding sink
  Extends-sink d = Extends-keep _ refl refl refl

  pub Extends-content :
      {a b : State W} (c : String) (n : ℕ) → Extends limit a b → Extends limit a (set_content c n b)
  unfolding set_content
  Extends-content c n = Extends-keep _ refl refl refl

  pub Extends-env : {a b : State W} (w : W) → Extends limit a b → Extends limit a (set_env w b)
  Extends-env w = Extends-keep _ refl refl refl

  pub Extends-say :
      {a b : State W} (role content : String)
      → Extends limit a b
      → Extends limit a (say role content b)
  unfolding say
  Extends-say role content p = record {
    count = p.count;
    within = p.within;
    messages = more _ p.messages;
    events = p.events;
  }

  pub Extends-publish :
      {a b : State W} (e : HookEvent) → Extends limit a b → Extends limit a (publish e b)
  unfolding publish
  Extends-publish e p = record {
    count = p.count;
    within = p.within;
    messages = p.messages;
    events = more e p.events;
  }

pub ruleset extends_rules = (
  Extends-refl, Extends-goto, Extends-fail, Extends-set_var, Extends-abort, Extends-env,
  Extends-say, Extends-sink, Extends-content,
)

-- A state that a wait for signals may leave: no step was taken.
pub record Waits {W : Type 0} (limit : ℕ) (a b : State W) : Type 0 where
  pub extends : Extends limit a b
  pub same_count : b.result.iterations ≡ a.result.iterations
  pub same_messages : b.result.messages ≡ a.result.messages

pub Waits-refl : {W : Type 0} {limit : ℕ} (a : State W) → Waits limit a a
Waits-refl a = record { extends = Extends-refl a; same_count = refl; same_messages = refl }

module _ {W : Type 0} {limit : ℕ} where
  Waits-keep :
      {a b : State W} (c : State W)
      → c.result.iterations ≡ b.result.iterations
      → c.result.messages ≡ b.result.messages
      → c.events ≡ b.events
      → Waits limit a b
      → Waits limit a c
  Waits-keep c i m e p = record {
    extends = Extends-keep c i m e p.extends;
    same_count = i ∙ p.same_count;
    same_messages = m ∙ p.same_messages;
  }

  Waits-publish : {a b : State W} (e : HookEvent) → Waits limit a b → Waits limit a (publish e b)
  unfolding publish
  Waits-publish e p = record {
    extends = unfold publish in Extends-publish e p.extends;
    same_count = p.same_count;
    same_messages = p.same_messages;
  }

  apply_signals-Waits :
      {a : State W} (batch : List Signal) (b : State W)
      → Waits limit a b
      → Waits limit a (apply_signals batch b).1
  unfolding apply_signals
  apply_signals-Waits [] b p = p
  apply_signals-Waits (kill ∷ rest) b p = Waits-publish _ p
  apply_signals-Waits (pause ∷ rest) b p =
      apply_signals-Waits rest _ (Waits-keep _ refl refl refl (Waits-publish _ p))
  apply_signals-Waits (resume ∷ rest) b p =
      apply_signals-Waits rest _ (Waits-keep _ refl refl refl (Waits-publish _ p))
  apply_signals-Waits (configure new ∷ rest) b p =
      apply_signals-Waits rest _ (Waits-keep _ refl refl refl (Waits-publish _ p))
  apply_signals-Waits (other type ∷ rest) b p = apply_signals-Waits rest _ (Waits-publish _ p)

  take_pending-Waits :
      {a : State W} (batches : List (List Signal)) (b : State W)
      → Waits limit a b
      → Waits limit a (take_pending batches b).1
  unfolding take_pending
  take_pending-Waits [] b p = p
  take_pending-Waits (batch ∷ later) b p =
      apply_signals-Waits batch _ (Waits-keep _ refl refl refl p)

  pub signal_check-Extends :
      {a : State W} (b : State W) → Extends limit a b → Extends limit a (signal_check b).1
  unfolding signal_check
  signal_check-Extends b p = Extends-trans p (take_pending-Waits b.signals b (Waits-refl b)).extends

  -- A check of the signals takes no step, and what it leaves pending is of no account.
  pub check_signals-Waits :
      {a : State W} (batches : List (List Signal)) (b : State W)
      → Waits limit a b
      → Waits limit a (check_signals (record b { signals = batches }))
  unfolding check_signals signal_check
  check_signals-Waits {a} batches b p =
      elim (Bool-cases (take_pending batches (record b { signals = batches })).0) [
        | inl killed ↦ rw killed (unfold abort in Waits-keep _ refl refl refl q)
        | inr alive ↦ rw alive q
      ]
    where
      q : Waits limit a (take_pending batches (record b { signals = batches })).1
      q = take_pending-Waits batches _ (Waits-keep _ refl refl refl p)
