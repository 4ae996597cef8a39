-- ===== src/Base/Table.antt =====
-- The tables of a database as the lists of their rows, in the order of insertion, and what the
-- statements of SQL do with them.
use Prim.Native.Nat.{ℕ, zero, suc, ◌≤◌}
use mathlib.Core.Path.{◌≡◌, refl, sym, ap, ◌∙◌}
use mathlib.Core.Logic.{inl, inr}
use mathlib.Core.Bool.{Bool, true, false, true≢false, ◌||◌}
use mathlib.Core.List.{List, [], ◌∷◌, ◌++◌}
use native.Mathlib.Omega.{arith}
use model_weaver.Base.Tests.{if◌then◌else◌, Bool-cases}
use mathlib.Core.Option.{none, some, some-ne-none, some-injective}
use model_weaver.Base.Lists.{first_where, length, select, any, All}

module _ {ℓ} {A : Type ℓ} where
  -- UPDATE … SET f WHERE p
  abbrev pub update_where : (A → Bool) → (A → A) → List A → List A
  update_where p f [] = []
  update_where p f (r ∷ rows) = (if p r then f r else r) ∷ update_where p f rows

  -- DELETE … WHERE p
  abbrev pub delete_where : (A → Bool) → List A → List A
  delete_where p [] = []
  delete_where p (r ∷ rows) = if p r then delete_where p rows else r ∷ delete_where p rows

  -- … LIMIT n
  abbrev pub limit : ℕ → List A → List A
  limit zero rows = []
  limit (suc n) [] = []
  limit (suc n) (r ∷ rows) = r ∷ limit n rows

  pub any-cons-false :
      (q : A → Bool) (r : A) (rows : List A)
      → any q (r ∷ rows) ≡ false
      → (q r ≡ false) × (any q rows ≡ false)
  any-cons-false q r rows e = elim (Bool-cases (q r)) [
    | inl hit ↦ absurd (true≢false (sym (simp hit refl) ∙ e))
    | inr miss ↦ (miss, sym (simp miss refl) ∙ e)
  ]

  -- After an update whose rows leave the condition, no row satisfies the condition.
  pub any-update_where :
      (p : A → Bool) (f : A → A) (rows : List A)
      → ((r : A) → p r ≡ true → p (f r) ≡ false)
      → any p (update_where p f rows) ≡ false
  any-update_where p f [] h = refl
  any-update_where p f (r ∷ rows) h = elim (Bool-cases (p r)) [
    | inl hit ↦ simp (hit, h r hit) (any-update_where p f rows h)
    | inr miss ↦ simp (miss) (any-update_where p f rows h)
  ]

  -- The same of rows outside the update, if what they satisfy after it they satisfied before it.
  pub any-update_where-outside :
      (q q' p : A → Bool) (f : A → A) (rows : List A)
      → ((r : A) → p r ≡ true → q' (f r) ≡ false)
      → ((r : A) → p r ≡ false → q r ≡ false → q' r ≡ false)
      → any q rows ≡ false
      → any q' (update_where p f rows) ≡ false
  any-update_where-outside q q' p f [] h k e = refl
  any-update_where-outside q q' p f (r ∷ rows) h k e =
      let here = any-cons-false q r rows e in
      let rest = any-update_where-outside q q' p f rows h k here.1 in
      elim (Bool-cases (p r)) [
        | inl hit ↦ simp (hit, h r hit) rest
        | inr miss ↦ simp (miss, k r miss here.0) rest
      ]

  -- Rows that a query chooses are the same where an update leaves the query's rows alone.
  pub select-update_where :
      (q p : A → Bool) (f : A → A) (rows : List A)
      → ((r : A) → p r ≡ true → q r ≡ false)
      → ((r : A) → p r ≡ true → q (f r) ≡ false)
      → select q (update_where p f rows) ≡ select q rows
  select-update_where q p f [] h k = refl
  select-update_where q p f (r ∷ rows) h k = elim (Bool-cases (p r)) [
    | inl hit ↦ simp (hit, h r hit, k r hit) (select-update_where q p f rows h k)
    | inr miss ↦ elim (Bool-cases (q r)) [
      | inl chosen ↦ simp (miss, chosen) (ap (λ rs. r ∷ rs) (select-update_where q p f rows h k))
      | inr other ↦ simp (miss, other) (select-update_where q p f rows h k)
    ]
  ]

  -- Two updates of the rows of a condition are one.
  pub update_where-update_where :
      (p : A → Bool) (f g : A → A) (rows : List A)
      → ((r : A) → p r ≡ true → p (f r) ≡ true)
      → update_where p g (update_where p f rows) ≡ update_where p (λ r. g (f r)) rows
  update_where-update_where p f g [] h = refl
  update_where-update_where p f g (r ∷ rows) h =
      let rest = update_where-update_where p f g rows h in
      elim (Bool-cases (p r)) [
        | inl hit ↦ simp (hit, h r hit) (ap (λ rs. g (f r) ∷ rs) rest)
        | inr miss ↦ simp miss (ap (λ rs. r ∷ rs) rest)
      ]

  -- No row of a query is left once they are deleted.
  pub any-delete_where : (p : A → Bool) (rows : List A) → any p (delete_where p rows) ≡ false
  any-delete_where p [] = refl
  any-delete_where p (r ∷ rows) = elim (Bool-cases (p r)) [
    | inl hit ↦ simp hit (any-delete_where p rows)
    | inr miss ↦ simp miss (any-delete_where p rows)
  ]

  -- What no row satisfies, none of those that stay does.
  pub any-delete_where-outside :
      (q p : A → Bool) (rows : List A) → any q rows ≡ false → any q (delete_where p rows) ≡ false
  any-delete_where-outside q p [] e = refl
  any-delete_where-outside q p (r ∷ rows) e =
      let here = any-cons-false q r rows e in
      let rest = any-delete_where-outside q p rows here.1 in
      elim (Bool-cases (p r)) [ inl hit ↦ simp hit rest | inr miss ↦ simp (miss, here.0) rest ]

  pub any-false-weaken :
      (q q' : A → Bool) (rows : List A)
      → ((r : A) → q r ≡ false → q' r ≡ false)
      → any q rows ≡ false
      → any q' rows ≡ false
  any-false-weaken q q' [] h e = refl
  any-false-weaken q q' (r ∷ rows) h e =
      let here = any-cons-false q r rows e in
      simp (h r here.0) (any-false-weaken q q' rows h here.1)

  pub select-none : (q : A → Bool) (rows : List A) → any q rows ≡ false → select q rows ≡ []
  select-none q [] e = refl
  select-none q (r ∷ rows) e =
      let here = any-cons-false q r rows e in simp (here.0) (select-none q rows here.1)

  pub first_where-none :
      (q : A → Bool) (rows : List A) → first_where q rows ≡ none → any q rows ≡ false
  first_where-none q [] e = refl
  first_where-none q (r ∷ rows) e = elim (Bool-cases (q r)) [
    | inl hit ↦ absurd (some-ne-none r (sym (simp hit refl) ∙ e))
    | inr miss ↦ simp miss (first_where-none q rows (sym (simp miss refl) ∙ e))
  ]

  -- The first row that satisfies a condition, after an update of those that do.
  pub first_where-update_where :
      (p : A → Bool) (f : A → A) (rows : List A) (k : A)
      → ((r : A) → p r ≡ true → p (f r) ≡ true)
      → first_where p rows ≡ some k
      → first_where p (update_where p f rows) ≡ some (f k)
  first_where-update_where p f [] k h e = absurd (some-ne-none k (sym e))
  first_where-update_where p f (r ∷ rows) k h e = elim (Bool-cases (p r)) [
    | inl hit ↦
        simp (hit, h r hit) (ap (λ x. some (f x)) (some-injective r k (sym (simp hit refl) ∙ e)))
    | inr miss ↦ simp miss (first_where-update_where p f rows k h (sym (simp miss refl) ∙ e))
  ]

  -- A query outside an update finds the same row.
  pub first_where-outside :
      (q p : A → Bool) (f : A → A) (rows : List A)
      → ((r : A) → p r ≡ true → q r ≡ false)
      → ((r : A) → p r ≡ true → q (f r) ≡ false)
      → first_where q (update_where p f rows) ≡ first_where q rows
  first_where-outside q p f [] h k = refl
  first_where-outside q p f (r ∷ rows) h k = elim (Bool-cases (p r)) [
    | inl hit ↦ simp (hit, h r hit, k r hit) (first_where-outside q p f rows h k)
    | inr miss ↦ elim (Bool-cases (q r)) [
      | inl yes_ ↦ simp (miss, yes_)
      | inr no_ ↦ simp (miss, no_) (first_where-outside q p f rows h k)
    ]
  ]

  pub first_where-deleted :
      (q p : A → Bool) (rows : List A)
      → ((r : A) → p r ≡ true → q r ≡ false)
      → first_where q (delete_where p rows) ≡ first_where q rows
  first_where-deleted q p [] h = refl
  first_where-deleted q p (r ∷ rows) h = elim (Bool-cases (p r)) [
    | inl hit ↦ simp (hit, h r hit) (first_where-deleted q p rows h)
    | inr miss ↦ elim (Bool-cases (q r)) [
      | inl yes_ ↦ simp (miss, yes_)
      | inr no_ ↦ simp (miss, no_) (first_where-deleted q p rows h)
    ]
  ]

  -- Nothing that was deleted is found.
  pub first_where-delete_where :
      (p : A → Bool) (rows : List A) → first_where p (delete_where p rows) ≡ none
  first_where-delete_where p [] = refl
  first_where-delete_where p (r ∷ rows) = elim (Bool-cases (p r)) [
    | inl hit ↦ simp hit (first_where-delete_where p rows)
    | inr miss ↦ simp miss (first_where-delete_where p rows)
  ]

  pub any-append :
      (q : A → Bool) (rows more : List A) → any q (rows ++ more) ≡ any q rows || any q more
  any-append q [] more = refl
  any-append q (r ∷ rows) more = ground (arith, any-append q rows more)

  pub first_where-append :
      (p : A → Bool) (rows more : List A) (k : A)
      → first_where p rows ≡ some k
      → first_where p (rows ++ more) ≡ some k
  first_where-append p [] more k e = absurd (some-ne-none k (sym e))
  first_where-append p (r ∷ rows) more k e = elim (Bool-cases (p r)) [
    | inl hit ↦ simp hit (sym (simp hit refl) ∙ e)
    | inr miss ↦ simp miss (first_where-append p rows more k (sym (simp miss refl) ∙ e))
  ]

  pub All-update_where {κ} :
      (P : A → Type κ) (p : A → Bool) (f : A → A) (rows : List A)
      → ((r : A) → p r ≡ true → P r → P (f r))
      → All P rows
      → All P (update_where p f rows)
  All-update_where P p f [] h k = tt
  All-update_where P p f (r ∷ rows) h k = elim (Bool-cases (p r)) [
    | inl hit ↦ simp hit (h r hit k.0, All-update_where P p f rows h k.1)
    | inr miss ↦ simp miss (k.0, All-update_where P p f rows h k.1)
  ]

  pub length-update_where :
      (p : A → Bool) (f : A → A) (rows : List A) → length (update_where p f rows) ≡ length rows
  length-update_where p f [] = refl
  length-update_where p f (r ∷ rows) = omega (arith, length-update_where p f rows)

  pub length-limit-le : (n : ℕ) (rows : List A) → length (limit n rows) ≤ n
  length-limit-le zero rows = omega arith
  length-limit-le (suc n) [] = omega arith
  length-limit-le (suc n) (r ∷ rows) = omega (arith, length-limit-le n rows)

  pub All-limit {κ} : (P : A → Type κ) (n : ℕ) (rows : List A) → All P rows → All P (limit n rows)
  All-limit P zero rows h = tt
  All-limit P (suc n) [] h = h
  All-limit P (suc n) (r ∷ rows) h = (h.0, All-limit P n rows h.1)

  -- What a query chooses satisfies its condition.
  pub All-select-holds : (q : A → Bool) (rows : List A) → All (λ r. q r ≡ true) (select q rows)
  All-select-holds q [] = tt
  All-select-holds q (r ∷ rows) = elim (Bool-cases (q r)) [
    | inl chosen ↦ simp chosen (refl, All-select-holds q rows)
    | inr other ↦ simp other (All-select-holds q rows)
  ]

  -- An update whose condition no row satisfies changes nothing.
  pub update_where-none :
      (p : A → Bool) (f : A → A) (rows : List A) → any p rows ≡ false → update_where p f rows ≡ rows
  update_where-none p f [] h = refl
  update_where-none p f (r ∷ rows) h =
      let here = any-cons-false p r rows h in
      simp (here.0) (ap (λ rs. r ∷ rs) (update_where-none p f rows here.1))

  pub any-false-All :
      (p : A → Bool) (rows : List A) → any p rows ≡ false → All (λ r. p r ≡ false) rows
  any-false-All p [] h = tt
  any-false-All p (r ∷ rows) h =
      let here = any-cons-false p r rows h in (here.0, any-false-All p rows here.1)
