-- ===== src/Fsm/Graph.antt =====
-- The graph of a list of steps: where it starts, and the steps by id.
use model_weaver.Base.{
  String, Bool, Option, none, some, List, [], ◌∷◌, ◌++◌, if◌then◌else◌, contains, text_eq,
}
use model_weaver.Base.Dict
use model_weaver.Base.Dict.{Dict}
use model_weaver.Fsm.Value.{nonempty}
use model_weaver.Fsm.Step.{Cond, StepKeys}
use model_weaver.Fsm.State.{State}

abbrev pub ref_list : Option String → List String
ref_list r = elim (nonempty r) [ none ↦ [] | some id ↦ id ∷ [] ]

unfoldable pub cond_refs : List Cond → List String
cond_refs [] = []
cond_refs (c ∷ conds) = ref_list c.next ++ cond_refs conds

-- The ids that one step refers to by `next`, by its conditions and by `default`; `on_error` is
-- not looked at.
unfoldable pub step_refs : StepKeys → List String
unfolding cond_refs
step_refs s = ref_list s.next ++ cond_refs s.conditions ++ ref_list s.default

unfoldable pub referenced : List StepKeys → List String
unfolding step_refs
referenced [] = []
referenced (s ∷ steps) = step_refs s ++ referenced steps

unfoldable pub first_free : (referenced : List String) → List StepKeys → Option String
first_free refs [] = none
first_free refs (s ∷ steps) = if contains refs s.id then first_free refs steps else some s.id

abbrev pub first_id : List StepKeys → Option String
first_id [] = none
first_id (s ∷ steps) = some s.id

-- FSMInterpreter._find_entry_point
unfoldable pub find_entry_point : List StepKeys → Option String
unfolding first_free referenced
find_entry_point steps = elim (first_free (referenced steps) steps) [
  | some id ↦ some id
  | none ↦ first_id steps
]

-- A step with its handler, `getattr(self, f"_step_{type}", None)`; a handler answers nothing when
-- a loop in it has used up its fuel.
pub record Compiled (W : Type 0) : Type 0 where
  pub keys : StepKeys
  pub handler : Option (State W → Option (Bool × State W))

abbrev pub keys_of : {W : Type 0} → List (Compiled W) → List StepKeys
keys_of [] = []
keys_of (c ∷ cs) = c.keys ∷ keys_of cs

-- {s["id"]: s for s in steps}: of two steps with one id, the later.
unfoldable pub by_id :
    {W : Type 0} → List (Compiled W) → Dict String (Compiled W) → Dict String (Compiled W)
by_id [] d = d
by_id (c ∷ cs) d = by_id cs (Dict.insert d c.keys.id c)
