-- ===== src/Router.antt =====
-- AgentFrameWork/router.py: which operations an agent exposes.
pub mod Resolved
mod Samples
use model_weaver.Base.{
  String, ◌+s◌, Bool, true, false, ◌||◌, Option, none, some, List, [], ◌∷◌, ◌++◌, contains, ◌==◌,
  if◌then◌else◌, text_eq,
}

pub data RouteKind : Type 0 where
  capability lifecycle : RouteKind

pub record RouteSpec : Type 0 where
  pub op : String
  pub method : String
  pub kind : RouteKind
  pub summary : String
  pub requires_stream : Bool
  pub skill : Option String

abbrev pub chat_op : RouteSpec
chat_op = record {
  op = "chat";
  method = "POST";
  kind = capability;
  summary = "Tour de chat multi-turn (historique persisté dans variables_json.messages)";
  requires_stream = true;
  skill = some "chat";
}

abbrev pub lifecycle_op : (op method summary : String) → RouteSpec
lifecycle_op op method summary = record {
  op = op;
  method = method;
  kind = lifecycle;
  summary = summary;
  requires_stream = false;
  skill = none;
}

-- An operation of the life cycle, and the states that allow it; nothing, if all do.
pub record Gated : Type 0 where
  pub spec : RouteSpec
  pub gate : Option (List String)

-- _LIFECYCLE_OPS with _LIFECYCLE_STATE_GATE
abbrev pub lifecycle_ops : List Gated
lifecycle_ops =
    record { spec = lifecycle_op "status" "GET" "État courant de l'agent"; gate = none }
    ∷ record {
      spec = lifecycle_op "configure" "POST" "Reconfigure (temperature/max_tokens)";
      gate = none;
    }
    ∷ record {
      spec = lifecycle_op "pause" "POST" "Met l'agent en pause";
      gate = some ("RUNNING" ∷ []);
    }
    ∷ record {
      spec = lifecycle_op "resume" "POST" "Reprend un agent en pause";
      gate = some ("PAUSED" ∷ []);
    }
    ∷ record {
      spec = lifecycle_op "kill" "POST" "Interrompt l'agent (signal kill)";
      gate = some ("RUNNING" ∷ "PAUSED" ∷ []);
    }
    ∷ []

-- gate is None or state in gate
abbrev pub is_open : (state : String) → Gated → Bool
is_open state g = elim g.gate [ none ↦ true | some states ↦ contains states state ]

unfoldable pub route_of_skill : String → RouteSpec
route_of_skill s = if s == "chat" then chat_op else record {
  op = s;
  method = "POST";
  kind = capability;
  summary = "Exécution capacité '" +s s +s "' (contexte du rôle)";
  requires_stream = true;
  skill = some s;
}

unfoldable pub capability_ops_for : (skills : List String) → List RouteSpec
unfolding route_of_skill
capability_ops_for [] = []
capability_ops_for (s ∷ skills) = route_of_skill s ∷ capability_ops_for skills

unfoldable pub open_ops : (state : String) → List Gated → List RouteSpec
open_ops state [] = []
open_ops state (g ∷ ops) =
    let rest = open_ops state ops in if is_open state g then g.spec ∷ rest else rest

-- routes_for, for a role with these skills
unfoldable pub routes_for : (skills : List String) (state : String) → List RouteSpec
unfolding capability_ops_for open_ops
routes_for skills state = capability_ops_for skills ++ open_ops state lifecycle_ops

unfoldable pub find_op : String → List RouteSpec → Option RouteSpec
find_op op [] = none
find_op op (r ∷ routes) = if r.op == op then some r else find_op op routes

unfoldable pub find_gated : String → List Gated → Option Gated
find_gated op [] = none
find_gated op (g ∷ ops) = if g.spec.op == op then some g else find_gated op ops

pub data Refusal : Type 0 where
  unknown not_capable wrong_state : Refusal

pub data Resolution : Type 0 where
  granted : RouteSpec → Resolution
  denied : Refusal → Resolution

-- resolve, for an agent whose role has these skills
unfoldable pub resolve_op : (valid_skills skills : List String) (state op : String) → Resolution
unfolding find_gated find_op capability_ops_for
resolve_op valid_skills skills state op = elim (find_gated op lifecycle_ops) [
  | some g ↦ if is_open state g then granted g.spec else denied wrong_state
  | none ↦ elim (find_op op (capability_ops_for skills)) [
    | some r ↦ granted r
    | none ↦ if contains valid_skills op || op == "chat" then denied not_capable else denied unknown
  ]
]
