-- ===== src/Base/Ends.antt =====
-- What holds of the value of a computation that may answer nothing.
use mathlib.Core.Path.{◌≡◌, refl, subst, sym}
use mathlib.Core.Option
use mathlib.Core.Option.{Option, none, some}

pub record Ends {ℓ κ} {A : Type ℓ} (P : A → Type κ) (o : Option A) : Type (ℓ ⊔ κ) where
  pub at : (a : A) → o ≡ some a → P a

module _ {ℓ κ} {A : Type ℓ} (P : A → Type κ) where
  pub Ends-none : Ends P none
  Ends-none = record { at = λ a e. cc }

  pub Ends-some : (a : A) → P a → Ends P (some a)
  Ends-some a p = record { at = λ b e. let q : a ≡ b = cc in subst P q p }

  pub Ends-weaken {μ} :
      (Q : A → Type μ) (o : Option A) → ((a : A) → P a → Q a) → Ends P o → Ends Q o
  Ends-weaken Q o f h = record { at = λ a e. f a (h.at a e) }

pub Ends-map {ℓ κ μ} :
    {A : Type ℓ} {B : Type κ} (P : B → Type μ) (f : A → B) (o : Option A)
    → Ends (λ a. P (f a)) o
    → Ends P (Option.map f o)
Ends-map P f none h = Ends-none P
Ends-map P f (some a) h = Ends-some P (f a) (h.at a refl)

-- To split on the computation and use what holds of its value.
pub Ends-cases {ℓ κ μ} :
    {A : Type ℓ} (P : A → Type κ) (Q : Option A → Type μ) (o : Option A)
    → Ends P o
    → Q none
    → ((a : A) → P a → Q (some a))
    → Q o
Ends-cases P Q none h qn qs = qn
Ends-cases P Q (some a) h qn qs = qs a (h.at a refl)

-- The computation answers something, and what it answers satisfies the property.
pub record Gives {ℓ κ} {A : Type ℓ} (P : A → Type κ) (o : Option A) : Type (ℓ ⊔ κ) where
  pub value : A
  pub gives : o ≡ some value
  pub holds : P value

module _ {ℓ κ} {A : Type ℓ} (P : A → Type κ) where
  pub Gives-some : (a : A) → P a → Gives P (some a)
  Gives-some a p = record { value = a; gives = refl; holds = p }

  pub Gives-weaken {μ} :
      (Q : A → Type μ) (o : Option A) → ((a : A) → P a → Q a) → Gives P o → Gives Q o
  Gives-weaken Q o f g = record { value = g.value; gives = g.gives; holds = f g.value g.holds }

-- To split on a computation that answers.
pub Gives-cases {ℓ κ μ} :
    {A : Type ℓ} (P : A → Type κ) (Q : Option A → Type μ) (o : Option A)
    → Gives P o
    → ((a : A) → o ≡ some a → P a → Q (some a))
    → Q o
Gives-cases P Q o g f = subst Q (sym g.gives) (f g.value g.gives g.holds)
