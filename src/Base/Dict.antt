-- ===== src/Base/Dict.antt =====
-- Python's `dict` as an association list in the order of insertion.
use mathlib.Core.Path.{subst, ◌≡◌, refl}
use mathlib.Core.Bool.{Bool, true, false, ◌||◌}
use mathlib.Core.List.{List, [], ◌∷◌}
use mathlib.Core.Option.{Option, none, some}
use native.Mathlib.Omega.{arith}
use mathlib.Core.Logic.{inl, inr}
use model_weaver.Base.Lists.{select}
use model_weaver.Base.Tests.{Bool-cases, if◌then◌else◌, Eq}

abbrev pub Dict {ℓ κ} : Type ℓ → Type κ → Type (ℓ ⊔ κ)
Dict K V = List (K × V)

beq_refl {ℓ} : {K : Type ℓ} ⦃e : Eq K⦄ (k : K) → e.beq k k ≡ true
beq_refl ⦃e⦄ k = (e.beq_iff k k).1 refl

module _ {ℓ κ} {K : Type ℓ} {V : Type κ} ⦃e : Eq K⦄ where
  -- d.get(k)
  unfoldable pub lookup : Dict K V → K → Option V
  lookup [] k = none
  lookup ((j, v) ∷ d) k = if e.beq j k then some v else lookup d k

  -- k in d
  unfoldable pub has : Dict K V → K → Bool
  has [] k = false
  has ((j, v) ∷ d) k = e.beq j k || has d k

  -- d[k] = v: the place of an old key is kept, a new key goes last
  unfoldable pub insert : Dict K V → K → V → Dict K V
  insert [] k v = (k, v) ∷ []
  insert ((j, w) ∷ d) k v = if e.beq j k then (k, v) ∷ d else (j, w) ∷ insert d k v

  -- d.pop(k, None), del d[k]
  unfoldable pub remove : Dict K V → K → Dict K V
  remove [] k = []
  remove ((j, v) ∷ d) k = let rest = remove d k in if e.beq j k then rest else (j, v) ∷ rest

  -- d.update(new)
  unfoldable pub update : Dict K V → Dict K V → Dict K V
  update d [] = d
  update d ((k, v) ∷ new) = update (insert d k v) new

  pub lookup-insert_self : (d : Dict K V) (k : K) (v : V) → lookup (insert d k v) k ≡ some v
  unfolding lookup insert
  lookup-insert_self [] k v = ground (arith, beq_refl k)
  lookup-insert_self ((j, w) ∷ d) k v = ground (arith, beq_refl k, lookup-insert_self d k v)

  pub lookup-insert :
      (d : Dict K V) (k j : K) (v : V)
      → lookup (insert d k v) j ≡ (if e.beq k j then some v else lookup d j)
  unfolding lookup insert
  lookup-insert [] k j v = refl
  lookup-insert ((i, w) ∷ d) k j v =
      ground (arith, e.beq_iff i k, e.beq_iff i j, e.beq_iff k j, lookup-insert d k j v)

  pub lookup-remove :
      (d : Dict K V) (k j : K) → lookup (remove d k) j ≡ (if e.beq k j then none else lookup d j)
  unfolding lookup remove
  lookup-remove [] k j = ground arith
  lookup-remove ((i, w) ∷ d) k j =
      ground (arith, e.beq_iff i k, e.beq_iff i j, e.beq_iff k j, lookup-remove d k j)

-- A predicate on every entry.
abbrev pub AllValues {ℓ κ μ} : {K : Type ℓ} {V : Type κ} → (V → Type μ) → Dict K V → Type μ
AllValues P [] = Unit
AllValues P ((k, v) ∷ d) = P v × AllValues P d

module _ {ℓ κ μ} {K : Type ℓ} {V : Type κ} ⦃e : Eq K⦄ (P : V → Type μ) where
  pub lookup-AllValues : (d : Dict K V) (k : K) {v : V} → AllValues P d → lookup d k ≡ some v → P v
  unfolding lookup
  lookup-AllValues [] k h q = cc
  lookup-AllValues ((j, w) ∷ d) k {v} h q = elim (Bool-cases (e.beq j k)) [
    | inl same ↦ let p : w ≡ v = ground arith in subst P p h.0
    | inr other ↦ lookup-AllValues d k h.1 (rw other at q)
  ]

  pub insert-AllValues :
      (d : Dict K V) (k : K) (v : V) → AllValues P d → P v → AllValues P (insert d k v)
  unfolding insert
  insert-AllValues [] k v h p = (p, tt)
  insert-AllValues ((j, w) ∷ d) k v h p = elim (Bool-cases (e.beq j k)) [
    | inl same ↦ rw same (p, h.1)
    | inr other ↦ rw other (h.0, insert-AllValues d k v h.1 p)
  ]

pub select-AllValues {ℓ κ μ} :
    {K : Type ℓ} {V : Type κ} (P : V → Type μ) (p : K × V → Bool) (d : Dict K V)
    → AllValues P d
    → AllValues P (select p d)
select-AllValues P p [] h = tt
select-AllValues P p ((k, v) ∷ d) h = elim (Bool-cases (p (k, v))) [
  | inl kept ↦ rw kept (h.0, select-AllValues P p d h.1)
  | inr gone ↦ rw gone (select-AllValues P p d h.1)
]

-- What a test on the values leaves of a lookup.
abbrev pub keep_if {κ} : {V : Type κ} → (V → Bool) → Option V → Option V
keep_if p none = none
keep_if p (some v) = if p v then some v else none

module _ {ℓ κ} {K : Type ℓ} {V : Type κ} ⦃e : Eq K⦄ where
  -- No key stands twice, as in every dict.
  abbrev pub UniqueKeys : Dict K V → Type 0
  UniqueKeys [] = Unit
  UniqueKeys ((k, v) ∷ d) = (has d k ≡ false) × UniqueKeys d

  has-insert : (d : Dict K V) (k j : K) (v : V) → has (insert d k v) j ≡ (e.beq k j || has d j)
  unfolding has insert
  has-insert [] k j v = ground arith
  has-insert ((i, w) ∷ d) k j v =
      ground (arith, e.beq_iff i k, e.beq_iff i j, e.beq_iff k j, has-insert d k j v)

  pub insert-UniqueKeys : (d : Dict K V) (k : K) (v : V) → UniqueKeys d → UniqueKeys (insert d k v)
  unfolding insert
  insert-UniqueKeys [] k v u = (unfold has in refl, tt)
  insert-UniqueKeys ((j, w) ∷ d) k v u = elim (Bool-cases (e.beq j k)) [
    | inl same ↦ let p : j ≡ k = (e.beq_iff j k).0 same in rw same (rw p at u)
    | inr other ↦ rw other (
      ground (arith, has-insert d k j v, e.beq_iff j k, e.beq_iff k j),
      insert-UniqueKeys d k v u.1,
    )
  ]

  abbrev pub value_test : (V → Bool) → K × V → Bool
  value_test p entry = p entry.1

  lookup-absent :
      (p : V → Bool) (d : Dict K V) (k : K)
      → has d k ≡ false
      → lookup (select (value_test p) d) k ≡ none
  unfolding lookup has
  lookup-absent p [] k h = refl
  lookup-absent p ((j, v) ∷ d) k h = ground (arith, lookup-absent p d k)

  pub lookup-select :
      (p : V → Bool) (d : Dict K V) (k : K)
      → UniqueKeys d
      → lookup (select (value_test p) d) k ≡ keep_if p (lookup d k)
  unfolding lookup
  lookup-select p [] k u = refl
  lookup-select p ((j, v) ∷ d) k u =
      ground (arith, e.beq_iff j k, lookup-absent p d j, lookup-absent p d k, lookup-select p d k)
