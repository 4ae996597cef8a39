-- ===== src/Tasks/Pending.antt =====
-- What SharedTaskRepository.list_pending answers: which tasks, how many and in what order.
use model_weaver.Base.{
  arith, ℕ, zero, suc, ◌≤◌, ◌≡◌, refl, ap, sym, ◌∙◌, ◌↔◌, ◌⊎◌, inl, inr, true, false, Option, none,
  some, List, [], ◌∷◌, String, ◌==◌, text_eq, select, All, All-weaken, All-limit, All-order_by,
  All-select-holds, limit, length, leb, leb→le, IsOrdered, order_by-sorts, length-order_by,
  order_by, if◌then◌else◌, Bool-cases, Option-cases, eq_refl,
}
use model_weaver.Base.Int.{ℤ, pos, negsuc, leb_int, eq_int}
use model_weaver.Fsm.Value.{nonempty}
use model_weaver.Tasks.{
  TaskStatus, SharedTask, SharedTasks, is_todo, task_order, role_fits, context_fits, is_pending,
  list_pending, count_pending,
}

-- A key that is not asked for: missing or empty.
abbrev Unasked : Option String → Type 0
Unasked asked = (asked ≡ none) ⊎ (asked ≡ some "")

-- The role of a task fits the role that is asked for.
pub data FitsRole (role : Option String) (t : SharedTask) : Type 0 where
  any_role : Unasked role → FitsRole role t
  open_task : t.required_role ≡ none → FitsRole role t
  same_role : (r : String) → role ≡ some r → t.required_role ≡ some r → FitsRole role t

pub data FitsContext (context : Option String) (t : SharedTask) : Type 0 where
  any_context : Unasked context → FitsContext context t
  same_context : context ≡ some t.context → FitsContext context t

-- A task to do that fits the role and the context.
pub record Waits (role context : Option String) (t : SharedTask) : Type 0 where
  pub to_do : t.status ≡ TaskStatus.todo
  pub fits_role : FitsRole role t
  pub fits_context : FitsContext context t

-- `s` may stand before `t`: its priority is higher, or it is the same and `s` is no younger.
pub data Ahead (s t : SharedTask) : Type 0 where
  higher : leb_int s.priority t.priority ≡ false → Ahead s t
  older : s.priority ≡ t.priority → s.created_at ≤ t.created_at → Ahead s t

abbrev pub InOrder : List SharedTask → Type 0
InOrder [] = Unit
InOrder (t ∷ ts) = All (Ahead t) ts × InOrder ts

order_total :
    (p q : ℤ) (a b : ℕ)
    → (if eq_int p q then leb a b else leb_int q p) ≡ false
    → (if eq_int q p then leb b a else leb_int p q) ≡ true
order_total (pos m) (pos n) a b h = ground arith
order_total (pos m) (negsuc n) a b h = ground arith
order_total (negsuc m) (pos n) a b h = ground arith
order_total (negsuc m) (negsuc n) a b h = ground arith

order_trans :
    (p q r : ℤ) (a b c : ℕ)
    → (if eq_int p q then leb a b else leb_int q p) ≡ true
    → (if eq_int q r then leb b c else leb_int r q) ≡ true
    → (if eq_int p r then leb a c else leb_int r p) ≡ true
order_trans (pos l) (pos m) (pos n) a b c h k = ground arith
order_trans (pos l) (pos m) (negsuc n) a b c h k = ground arith
order_trans (pos l) (negsuc m) (pos n) a b c h k = ground arith
order_trans (pos l) (negsuc m) (negsuc n) a b c h k = ground arith
order_trans (negsuc l) (pos m) (pos n) a b c h k = ground arith
order_trans (negsuc l) (pos m) (negsuc n) a b c h k = ground arith
order_trans (negsuc l) (negsuc m) (pos n) a b c h k = ground arith
order_trans (negsuc l) (negsuc m) (negsuc n) a b c h k = ground arith

-- Two priorities that are no greater than each other.
same_priority : (p q : ℤ) → leb_int p q ≡ true → leb_int q p ≡ true → p ≡ q
same_priority (pos m) (pos n) h k = ap pos (ground arith)
same_priority (pos m) (negsuc n) h k = ground arith
same_priority (negsuc m) (pos n) h k = ground arith
same_priority (negsuc m) (negsuc n) h k = ap negsuc (ground arith)

task_order-Ahead : (s t : SharedTask) → task_order s t ≡ true → Ahead s t
task_order-Ahead s t h = elim (Bool-cases (leb_int s.priority t.priority)) [
  | inr lower ↦ Ahead.higher lower
  | inl le ↦ elim (Bool-cases (leb_int t.priority s.priority)) [
    | inl ge ↦
        Ahead.older (same_priority s.priority t.priority le ge)
          (leb→le s.created_at t.created_at (sym (simp (le, ge)) ∙ h))
    | inr lower ↦ ground arith
  ]
]

IsOrdered-InOrder : (ts : List SharedTask) → IsOrdered task_order ts → InOrder ts
IsOrdered-InOrder [] h = tt
IsOrdered-InOrder (t ∷ ts) h =
    (All-weaken ts (λ s first. task_order-Ahead t s first) h.0, IsOrdered-InOrder ts h.1)

limit-InOrder : (n : ℕ) (ts : List SharedTask) → InOrder ts → InOrder (limit n ts)
limit-InOrder zero ts h = tt
limit-InOrder (suc n) [] h = tt
limit-InOrder (suc n) (t ∷ ts) h = (All-limit (Ahead t) n ts h.0, limit-InOrder n ts h.1)

length-limit :
    (n : ℕ) (ts : List SharedTask)
    → length (limit n ts) ≡ (if leb n (length ts) then n else length ts)
length-limit zero ts = ground arith
length-limit (suc n) [] = ground arith
length-limit (suc n) (t ∷ ts) = ground (arith, length-limit n ts)

asked-cases :
    (asked : Option String)
    → (Unasked asked × (nonempty asked ≡ none))
      ⊎ ((r : String) × (asked ≡ some r) × (nonempty asked ≡ some r))
asked-cases none = inl (inl refl, refl)
asked-cases (some r) = elim (Bool-cases (r == "")) [
  | inl empty ↦ inl (inr (ap some ((text_eq.beq_iff r "").0 empty)), simp empty)
  | inr given ↦ inr (r, refl, simp given)
]

is_todo-todo : (s : TaskStatus) → is_todo s ≡ true → s ≡ TaskStatus.todo
is_todo-todo TaskStatus.todo h = refl
is_todo-todo TaskStatus.in_progress h = ground arith
is_todo-todo TaskStatus.done h = ground arith
is_todo-todo TaskStatus.failed h = ground arith
is_todo-todo TaskStatus.cancelled h = ground arith

nonempty-Unasked : (asked : Option String) → Unasked asked → nonempty asked ≡ none
nonempty-Unasked asked (inl e) = ap nonempty e
nonempty-Unasked asked (inr e) = ap nonempty e ∙ refl

nonempty-empty : (r : String) → (r == "") ≡ true → nonempty (some r) ≡ none
nonempty-empty r empty = simp (empty, nonempty)

role_fits-named :
    (role : Option String) (t : SharedTask) (r q : String)
    → nonempty role ≡ some r
    → t.required_role ≡ some q
    → role_fits role t ≡ q == r
role_fits-named role t r q asked required = simp (asked, required, role_fits)

role_fits-FitsRole :
    (role : Option String) (t : SharedTask) → (role_fits role t ≡ true) ↔ FitsRole role t
role_fits-FitsRole role t = (fits, holds)
  where
    fits : role_fits role t ≡ true → FitsRole role t
    fits h = elim (asked-cases role) [
      | inl (unasked, e) ↦ FitsRole.any_role unasked
      | inr (r, asked, e) ↦ elim (Option-cases t.required_role) [
        | inl free ↦ FitsRole.open_task free
        | inr (q, required) ↦ FitsRole.same_role r asked (
            required
            ∙ ap some ((text_eq.beq_iff q r).0 (sym (role_fits-named role t r q e required) ∙ h)))
      ]
    ]

    holds : FitsRole role t → role_fits role t ≡ true
    holds (FitsRole.any_role unasked) = simp (nonempty-Unasked role unasked, role_fits)
    holds (FitsRole.open_task free) = elim (Option-cases (nonempty role)) [
      | inl e ↦ simp (e, role_fits)
      | inr (r, e) ↦ simp (e, free, role_fits)
    ]
    holds (FitsRole.same_role r asked required) = elim (Bool-cases (r == "")) [
      | inl empty ↦ simp (ap nonempty asked ∙ nonempty-empty r empty, role_fits)
      | inr given ↦
          role_fits-named role t r r (ap nonempty asked ∙ simp (given, nonempty)) required
          ∙ eq_refl r
    ]

context_fits-named :
    (context : Option String) (t : SharedTask) (c : String)
    → nonempty context ≡ some c
    → context_fits context t ≡ t.context == c
context_fits-named context t c asked = simp (asked, context_fits)

context_fits-FitsContext :
    (context : Option String) (t : SharedTask)
    → (context_fits context t ≡ true) ↔ FitsContext context t
context_fits-FitsContext context t = (fits, holds)
  where
    fits : context_fits context t ≡ true → FitsContext context t
    fits h = elim (asked-cases context) [
      | inl (unasked, e) ↦ FitsContext.any_context unasked
      | inr (c, asked, e) ↦ FitsContext.same_context (
          asked
          ∙ ap some
              (sym ((text_eq.beq_iff t.context c).0 (sym (context_fits-named context t c e) ∙ h))))
    ]

    holds : FitsContext context t → context_fits context t ≡ true
    holds (FitsContext.any_context unasked) = simp (nonempty-Unasked context unasked, context_fits)
    holds (FitsContext.same_context asked) = elim (Bool-cases (t.context == "")) [
      | inl empty ↦ simp (asked, empty, context_fits)
      | inr given ↦
          context_fits-named context t t.context (ap nonempty asked ∙ simp (given, nonempty))
          ∙ eq_refl t.context
    ]

is_pending-Waits :
    (role context : Option String) (t : SharedTask)
    → (is_pending role context t ≡ true) ↔ Waits role context t
is_pending-Waits role context t = (
  (λ h. record {
    to_do = is_todo-todo t.status (ground arith);
    fits_role = (role_fits-FitsRole role t).0 (ground arith);
    fits_context = (context_fits-FitsContext context t).0 (ground arith);
  }),
  (λ w. simp (
    w.to_do,
    (role_fits-FitsRole role t).1 w.fits_role,
    (context_fits-FitsContext context t).1 w.fits_context,
  )),
)

-- list_pending answers as many tasks as count_pending counts, at most `count` of them, each of
-- them to do and fit for the role and the context that are asked for, an empty one being none, the
-- higher priority first and the older first among equals. A task is counted exactly if it is to do
-- and fit.
pub list_pending_lem :
    (db : SharedTasks) (role context : Option String) (count : ℕ) (t : SharedTask)
    → let answer = list_pending db role context count in
      let pending = count_pending db role context in
      (length answer ≡ (if leb count pending then count else pending))
      × All (Waits role context) answer
      × InOrder answer
      × ((is_pending role context t ≡ true) ↔ Waits role context t)
unfolding list_pending count_pending
list_pending_lem db role context count t =
    let waiting = select (is_pending role context) db.rows in
    let ordered = order_by task_order waiting in
    (
      length-limit count ordered
          ∙ ap (λ n. if leb count n then count else n) (length-order_by task_order waiting),
      All-limit (Waits role context) count ordered (
          All-order_by (Waits role context) task_order waiting (
            All-weaken waiting (λ s h. (is_pending-Waits role context s).0 h)
              (All-select-holds (is_pending role context) db.rows))),
      limit-InOrder count ordered (
          IsOrdered-InOrder ordered (
            order_by-sorts task_order
              (λ s r h. order_total s.priority r.priority s.created_at r.created_at h)
              (λ s r q h k.
                order_trans s.priority r.priority q.priority s.created_at r.created_at q.created_at
                  h k)
              waiting)),
      is_pending-Waits role context t,
    )
