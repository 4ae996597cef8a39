-- ===== src/Base/Order.antt =====
-- ORDER BY, as the sort of a list of rows that keeps the order of equal ones.
use mathlib.Core.Path.{◌≡◌, refl, sym, ap, ◌∙◌}
use mathlib.Core.Logic.{inl, inr}
use mathlib.Core.Bool.{Bool, true, false, ◌||◌}
use mathlib.Core.List.{List, [], ◌∷◌, ◌++◌, append_assoc, append-nil}
use Prim.Native.Nat.{◌+◌}
use native.Mathlib.Omega.{arith}
use model_weaver.Base.Tests.{if◌then◌else◌, Bool-cases}
use model_weaver.Base.Lists.{length, any, All, All-weaken, All-append}

module _ {ℓ} {A : Type ℓ} where
  insert_before : (A → A → Bool) → A → List A → List A
  insert_before before r [] = r ∷ []
  insert_before before r (s ∷ rows) =
      if before s r then s ∷ insert_before before r rows else r ∷ s ∷ rows

  sort_into : (A → A → Bool) → List A → List A → List A
  unfolding insert_before
  sort_into before [] done = done
  sort_into before (r ∷ rows) done = sort_into before rows (insert_before before r done)

  -- … ORDER BY: `before s r` is false if the row `s` has to stand behind `r`. Rows that are equal
  -- in the order keep the order of insertion if `before` says true of them.
  unfoldable pub order_by : (A → A → Bool) → List A → List A
  unfolding sort_into
  order_by before rows = sort_into before rows []

  insert_before-All {κ} :
      (P : A → Type κ) (before : A → A → Bool) (r : A) (rows : List A)
      → P r
      → All P rows
      → All P (insert_before before r rows)
  unfolding insert_before
  insert_before-All P before r [] p h = (p, tt)
  insert_before-All P before r (s ∷ rows) p h = elim (Bool-cases (before s r)) [
    | inl first ↦ simp first (h.0, insert_before-All P before r rows p h.1)
    | inr later ↦ simp later (p, h)
  ]

  sort_into-All {κ} :
      (P : A → Type κ) (before : A → A → Bool) (rows done : List A)
      → All P rows
      → All P done
      → All P (sort_into before rows done)
  unfolding sort_into
  sort_into-All P before [] done h k = k
  sort_into-All P before (r ∷ rows) done h k =
      sort_into-All P before rows (insert_before before r done) h.1
        (insert_before-All P before r done h.0 k)

  pub All-order_by {κ} :
      (P : A → Type κ) (before : A → A → Bool) (rows : List A)
      → All P rows
      → All P (order_by before rows)
  unfolding order_by
  All-order_by P before rows h = sort_into-All P before rows [] h tt

  insert_before-any :
      (q : A → Bool) (before : A → A → Bool) (r : A) (rows : List A)
      → any q (insert_before before r rows) ≡ q r || any q rows
  unfolding insert_before
  insert_before-any q before r [] = refl
  insert_before-any q before r (s ∷ rows) = ground (arith, insert_before-any q before r rows)

  sort_into-any :
      (q : A → Bool) (before : A → A → Bool) (rows done : List A)
      → any q (sort_into before rows done) ≡ any q rows || any q done
  unfolding sort_into
  sort_into-any q before [] done = refl
  sort_into-any q before (r ∷ rows) done =
      let rest = sort_into-any q before rows (insert_before before r done) in
      let here = insert_before-any q before r done in ground (arith, rest, here)

  -- Sorting rows keeps which of them there are.
  pub any-order_by :
      (q : A → Bool) (before : A → A → Bool) (rows : List A)
      → any q (order_by before rows) ≡ any q rows
  unfolding order_by
  any-order_by q before rows = let sorted = sort_into-any q before rows [] in ground (arith, sorted)

  insert_before-last :
      (before : A → A → Bool) (r : A) (rows : List A)
      → All (λ s. before s r ≡ true) rows
      → insert_before before r rows ≡ rows ++ r ∷ []
  unfolding insert_before
  insert_before-last before r [] h = refl
  insert_before-last before r (s ∷ rows) h =
      simp (h.0) (ap (λ rs. s ∷ rs) (insert_before-last before r rows h.1))

  -- Each row stands behind those before it.
  abbrev pub IsOrdered : (A → A → Bool) → List A → Type 0
  IsOrdered before [] = Unit
  IsOrdered before (r ∷ rows) = All (λ s. before r s ≡ true) rows × IsOrdered before rows

  sort_into-IsOrdered :
      (before : A → A → Bool) (rows done : List A)
      → IsOrdered before rows
      → All (λ s. All (λ r. before s r ≡ true) rows) done
      → sort_into before rows done ≡ done ++ rows
  unfolding sort_into
  sort_into-IsOrdered before [] done h k = sym (append-nil done)
  sort_into-IsOrdered before (r ∷ rows) done h k =
      rw (insert_before-last before r done (All-weaken done (λ s p. p.0) k)) (
        sort_into-IsOrdered before rows (done ++ r ∷ []) h.1 (
          All-append (λ s. All (λ t. before s t ≡ true) rows) done (r ∷ [])
            (All-weaken done (λ s p. p.1) k) (h.0, tt))
        ∙ append_assoc done (r ∷ []) rows)

  -- Rows that are in order stay as they are.
  pub order_by-IsOrdered :
      (before : A → A → Bool) (rows : List A) → IsOrdered before rows → order_by before rows ≡ rows
  unfolding order_by
  order_by-IsOrdered before rows h = sort_into-IsOrdered before rows [] h tt

  insert_before-IsOrdered :
      (before : A → A → Bool) (total : (s r : A) → before s r ≡ false → before r s ≡ true)
      (trans : (s r q : A) → before s r ≡ true → before r q ≡ true → before s q ≡ true) (r : A)
      (rows : List A)
      → IsOrdered before rows
      → IsOrdered before (insert_before before r rows)
  unfolding insert_before
  insert_before-IsOrdered before total trans r [] h = (tt, tt)
  insert_before-IsOrdered before total trans r (s ∷ rows) h = elim (Bool-cases (before s r)) [
    | inl first ↦ simp first (
      insert_before-All (λ q. before s q ≡ true) before r rows first h.0,
      insert_before-IsOrdered before total trans r rows h.1,
    )
    | inr later ↦
        simp later (
          (total s r later, All-weaken rows (λ q ahead. trans r s q (total s r later) ahead) h.0),
          h,
        )
  ]

  sort_into-sorts :
      (before : A → A → Bool) (total : (s r : A) → before s r ≡ false → before r s ≡ true)
      (trans : (s r q : A) → before s r ≡ true → before r q ≡ true → before s q ≡ true)
      (rows done : List A)
      → IsOrdered before done
      → IsOrdered before (sort_into before rows done)
  unfolding sort_into
  sort_into-sorts before total trans [] done h = h
  sort_into-sorts before total trans (r ∷ rows) done h =
      sort_into-sorts before total trans rows (insert_before before r done)
        (insert_before-IsOrdered before total trans r done h)

  -- An order that is total and transitive orders the rows.
  pub order_by-sorts :
      (before : A → A → Bool) (total : (s r : A) → before s r ≡ false → before r s ≡ true)
      (trans : (s r q : A) → before s r ≡ true → before r q ≡ true → before s q ≡ true)
      (rows : List A)
      → IsOrdered before (order_by before rows)
  unfolding order_by
  order_by-sorts before total trans rows = sort_into-sorts before total trans rows [] tt

  insert_before-length :
      (before : A → A → Bool) (r : A) (rows : List A)
      → length (insert_before before r rows) ≡ 1 + length rows
  unfolding insert_before
  insert_before-length before r [] = omega arith
  insert_before-length before r (s ∷ rows) =
      let rest = insert_before-length before r rows in ground (arith, rest)

  sort_into-length :
      (before : A → A → Bool) (rows done : List A)
      → length (sort_into before rows done) ≡ length rows + length done
  unfolding sort_into
  sort_into-length before [] done = omega arith
  sort_into-length before (r ∷ rows) done = omega (
    arith,
    sort_into-length before rows (insert_before before r done),
    insert_before-length before r done,
  )

  pub length-order_by :
      (before : A → A → Bool) (rows : List A) → length (order_by before rows) ≡ length rows
  unfolding order_by
  length-order_by before rows = omega (arith, sort_into-length before rows [])
