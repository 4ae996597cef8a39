-- ===== src/Agents/Fresh.antt =====
-- A new agent's name is free.
use Prim.Native.String.{[] as empty, ◌∷◌ as ◌∷s◌}
use Prim.Native.String.append.{nil, cons}
use model_weaver.Base.{
  ℕ, zero, suc, ◌+◌, ◌≤◌, ◌<◌, ◌≡◌, refl, sym, ap, ◌∙◌, String, ◌+s◌, subst, Bool, true, false,
  ◌||◌, some, List, [], ◌∷◌, delete_where, length, ◌==◌, Bool-cases, Option-cases, inl, inr, arith,
  eq_iff,
}
use model_weaver.Base.Ends.{Gives, Gives-some}
use model_weaver.Fsm.Value.{nonempty}
use model_weaver.Agents.{Agent}
use model_weaver.Agents.Names.{is_taken, numbered, free_name, role_count, make_agent_name}

rest_of : String → String
rest_of empty = empty
rest_of (c ∷s s) = s

append-cancel : (s t u : String) → s +s t ≡ s +s u → t ≡ u
unfolding rest_of
append-cancel empty t u e = sym (λ i. nil t i) ∙ e ∙ (λ i. nil u i)
append-cancel (c ∷s s) t u e =
    append-cancel s t u (ap rest_of (sym (λ i. cons c s t i) ∙ e ∙ (λ i. cons c s u i)))

abbrev named : String → Agent → Bool
named name a = a.name == name

-- Without the agents of one name another name is taken as before, and the table is shorter.
is_taken-delete_where :
    (name other : String) (agents : List Agent)
    → (name == other) ≡ false
    → is_taken (delete_where (named name) agents) other ≡ is_taken agents other
is_taken-delete_where name other [] h = refl
is_taken-delete_where name other (a ∷ agents) h =
    let rest = is_taken-delete_where name other agents h in
    elim (Bool-cases (named name a)) [
      | inl hit ↦
          simp (hit, subst (λ s. (s == other) ≡ false) (sym ((eq_iff a.name name).0 hit)) h) rest
      | inr miss ↦ simp miss (ap (λ b. (a.name == other) || b) rest)
    ]

length-delete_where-le :
    (name : String) (agents : List Agent)
    → length (delete_where (named name) agents) ≤ length agents
length-delete_where-le name [] = omega arith
length-delete_where-le name (a ∷ agents) = ground (arith, length-delete_where-le name agents)

length-delete_where-lt :
    (name : String) (agents : List Agent)
    → is_taken agents name ≡ true
    → length (delete_where (named name) agents) < length agents
length-delete_where-lt name [] h = ground (arith, h)
length-delete_where-lt name (a ∷ agents) h =
    let shorter = length-delete_where-le name agents in
    elim (Bool-cases (named name a)) [
      | inl hit ↦ simp hit (omega (arith, shorter))
      | inr miss ↦
          simp miss (omega (arith, length-delete_where-lt name agents (sym (simp miss refl) ∙ h)))
    ]

module _ (str : ℕ → String) (distinct : (m n : ℕ) → str m ≡ str n → m ≡ n) where
  numbered-apart :
      (base : String) (m n : ℕ) → m < n → (numbered str base m == numbered str base n) ≡ false
  numbered-apart base m n lt = elim (Bool-cases (numbered str base m == numbered str base n)) [
    | inl same ↦
        let e = distinct m n (append-cancel (base +s "_") (str m) (str n) ((eq_iff _ _).0 same)) in
        absurd (omega (arith, e, lt))
    | inr apart ↦ apart
  ]

  -- A search in a table, of whose names from `n` on only those of a shorter one are taken.
  free_name-left :
      (fuel n : ℕ) (base : String) (agents left : List Agent)
      → ((m : ℕ)
          → n ≤ m
          → is_taken left (numbered str base m) ≡ is_taken agents (numbered str base m))
      → length left < fuel
      → Gives (λ name. is_taken agents name ≡ false) (free_name str fuel agents base n)
  unfolding free_name
  free_name-left zero n base agents left h lt = absurd (omega (arith, lt))
  free_name-left (suc fuel) n base agents left h lt =
      let name = numbered str base n in
      let rest = free_name-left fuel (n + 1) base agents (delete_where (named name) left) (λ m le.
        is_taken-delete_where name (numbered str base m) left
          (numbered-apart base n m (omega (arith, le)))
        ∙ h m (omega (arith, le))) in
      elim (Bool-cases (is_taken agents name)) [
        | inl taken ↦
            simp taken (
              rest
                (omega (arith, lt, length-delete_where-lt name left (h n (omega arith) ∙ taken))))
        | inr free ↦ simp free (Gives-some (λ s. is_taken agents s ≡ false) name free)
      ]

  free_name-Gives :
      (fuel n : ℕ) (base : String) (agents : List Agent)
      → length agents < fuel
      → Gives (λ name. is_taken agents name ≡ false) (free_name str fuel agents base n)
  free_name-Gives fuel n base agents lt = free_name-left fuel n base agents agents (λ m le. refl) lt

  -- If `str` gives different numbers different texts, fuel for one round more than there are
  -- agents gives a new agent a name, and no agent has it.
  pub make_agent_name-Gives :
      (agents : List Agent) (role proposed_name : String) (fuel : ℕ)
      → length agents < fuel
      → Gives
          (λ name. is_taken agents name ≡ false)
          (make_agent_name str fuel agents role proposed_name)
  unfolding make_agent_name
  make_agent_name-Gives agents role proposed_name fuel lt =
      elim (Option-cases (nonempty (some proposed_name))) [
        | inl e ↦
            simp (e, make_agent_name)
              (free_name-Gives fuel (role_count str agents role) role agents lt)
        | inr (name, e) ↦ elim (Bool-cases (is_taken agents name)) [
          | inl taken ↦ simp (e, taken, make_agent_name) (free_name-Gives fuel 1 name agents lt)
          | inr free ↦
              simp (e, free, make_agent_name)
                (Gives-some (λ s. is_taken agents s ≡ false) name free)
        ]
      ]
