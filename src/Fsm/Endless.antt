-- ===== src/Fsm/Endless.antt =====
-- A `while` step whose body has no steps.
use model_weaver.Base.{ℕ, zero, suc, true, false, none, [], ◌≡◌, refl}
use model_weaver.Fsm.Step.{StepKeys}
use model_weaver.Fsm.State.{State, Runtime}
use model_weaver.Fsm.Control.{eval_condition}
use model_weaver.Fsm.Loops.{at_limit, run_body, step_while}

-- A while step with an empty body whose condition holds never ends while the run is below its
-- limit: a pass through the empty body counts no iteration, so no number of rounds is enough.
pub while_empty_diverges :
    {W : Type 0} (rt : Runtime W) (fuel : ℕ) (s : StepKeys) (st : State W)
    → eval_condition rt.py s.condition st.result.variables ≡ true
    → at_limit rt st ≡ false
    → step_while rt fuel s [] st ≡ none
unfolding step_while run_body
while_empty_diverges rt zero s st holds below = refl
while_empty_diverges rt (suc fuel) s st holds below =
    simp (holds, below, step_while) (while_empty_diverges rt fuel s st holds below)
