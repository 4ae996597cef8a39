-- ===== src/Dsl/Saves.antt =====
-- What a `save_state` step saves.
use model_weaver.Base.{
  String, Bool, true, false, Option, none, some, List, [], ◌∷◌, ◌≡◌, refl, text_eq, contains,
  Option-cases, inl, inr, if◌then◌else◌, ◌||◌, arith, eq_iff,
}
use model_weaver.Base.Dict
use model_weaver.Base.Dict.{lookup-insert}
use model_weaver.Fsm.Value.{Vars}
use model_weaver.Dsl.Steps.{select_vars, saved_state}

abbrev or_else {ℓ} : {A : Type ℓ} → Option A → Option A → Option A
or_else none o = o
or_else (some a) o = some a

lookup-select_vars :
    (names : List String) (variables state : Vars) (k : String)
    → Dict.lookup (select_vars names variables state) k ≡ (
        if contains names k
        then or_else (Dict.lookup variables k) (Dict.lookup state k)
        else Dict.lookup state k)
unfolding select_vars
lookup-select_vars [] variables state k = refl
lookup-select_vars (name ∷ names) variables state k =
    elim (Option-cases (Dict.lookup variables name)) [
      | inl missing ↦
          ground (arith, missing, lookup-select_vars names variables state k, eq_iff name k)
      | inr (v, found) ↦ ground (
        arith,
        found,
        lookup-select_vars names variables (Dict.insert state name v) k,
        lookup-insert state name k v,
        eq_iff name k,
      )
    ]

abbrev is_empty : List String → Bool
is_empty [] = true
is_empty _ = false

-- The state that a save_state step saves has each variable that the step names, with its value,
-- and no other; a step that names none saves them all.
pub lookup-saved_state :
    (names : List String) (variables : Vars) (k : String)
    → Dict.lookup (saved_state names variables) k
      ≡ (if is_empty names || contains names k then Dict.lookup variables k else none)
unfolding saved_state Dict.lookup
lookup-saved_state [] variables k = refl
lookup-saved_state (name ∷ names) variables k =
    ground (arith, lookup-select_vars (name ∷ names) variables [] k)
