-- ===== src/Router/Samples.antt =====
-- A paused agent that is resumed.
use model_weaver.Base.{true, [], ◌∷◌, ◌≡◌, refl, text_eq}
use model_weaver.Router.{RouteSpec, lifecycle_op, routes_for, granted, resolve_op}
use model_weaver.Router.Resolved.{lists, resolve_op-lists}

abbrev resume_op : RouteSpec
resume_op = lifecycle_op "resume" "POST" "Reprend un agent en pause"

resume_is_granted : resolve_op ("git" ∷ []) ("chat" ∷ []) "PAUSED" "resume" ≡ granted resume_op
unfolding resolve_op
resume_is_granted = refl

resolve_op-lists_example : lists (routes_for ("chat" ∷ []) "PAUSED") "resume" ≡ true
resolve_op-lists_example =
    resolve_op-lists ("git" ∷ []) ("chat" ∷ []) "PAUSED" "resume" resume_op resume_is_granted
