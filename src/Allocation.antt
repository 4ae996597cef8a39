-- ===== src/Allocation.antt =====
-- modules/llm_manager/organisateur.py: which provider and model an agent is given.
pub mod Served
mod Samples
use model_weaver.Base.{
  String, Bool, true, false, Option, none, some, List, [], ◌∷◌, ◌++◌, contains, ◌==◌, if◌then◌else◌,
  text_eq,
}
use model_weaver.Fsm.Value.{nonempty}
use model_weaver.Fsm.Control.{has_text}

-- A model of the catalogue.
pub record Model : Type 0 where
  pub ref : String
  pub target_use : String

-- A model that a local engine serves, with the first of its `ref` and `name` that is not empty.
pub record LocalModel : Type 0 where
  pub named : Option String

pub record Recommendation : Type 0 where
  pub provider : String
  pub model : String
  pub reason : String

-- What the managers answer while `allocate` runs. A manager that raises answers nothing.
pub record Managers : Type 0 where
  pub onboarded : List String
  pub engines : List String
  pub list_models : String → Option (List Model)
  pub local_models : String → Option (List LocalModel)
  pub recommendations : (use_case level : String) → Option (List Recommendation)
  -- s.lower()
  pub lower : String → String
  -- s < t
  pub before : String → String → Bool

-- resources["llm_pref"]
pub record Preference : Type 0 where
  pub provider : Option String
  pub model : Option String
  pub use_case : String
  pub level : Option String

pub record Allocation : Type 0 where
  pub allocated : Bool
  pub provider_ref : Option String
  pub model_ref : Option String
  pub source : Option String
  pub reason : String

module _ (m : Managers) where
  abbrev pub all_available : List String
  all_available = m.onboarded ++ m.engines

  -- Organisateur._provider_available
  unfoldable pub provider_available : String → Bool
  provider_available provider = contains all_available provider

  -- The first model whose use contains the use case.
  unfoldable pub first_match : (use_case : String) → List Model → Option String
  unfolding has_text
  first_match use_case [] = none
  first_match use_case (model ∷ models) =
      if has_text (m.lower use_case) (m.lower model.target_use)
      then some model.ref
      else first_match use_case models

  abbrev first_local : Option (List LocalModel) → Option String
  first_local none = none
  first_local (some []) = none
  first_local (some (model ∷ models)) = model.named

  -- Organisateur._pick_model, by what the catalogue lists
  unfoldable pub pick_among : (provider use_case : String) → Option (List Model) → Option String
  unfolding first_match
  pick_among provider use_case none = none
  pick_among provider use_case (some []) =
      if contains m.engines provider then first_local (m.local_models provider) else none
  pick_among provider use_case (some (model ∷ models)) =
      if use_case == "" then some model.ref else (elim (first_match use_case (model ∷ models)) [
        | none ↦ some model.ref
        | some ref ↦ some ref
      ])

  unfoldable pub pick_model : (provider use_case : String) → Option String
  unfolding pick_among
  pick_model provider use_case = pick_among provider use_case (m.list_models provider)

  -- The first recommendation of an available provider.
  unfoldable pub first_recommended : List Recommendation → Option Recommendation
  first_recommended [] = none
  first_recommended (r ∷ recs) =
      if contains all_available r.provider then some r else first_recommended recs

  -- sorted(avail)[0]
  unfoldable pub least : String → List String → String
  least p [] = p
  least p (q ∷ ps) = least (if m.before q p then q else p) ps

  -- {"provider_ref": p, "model_ref": m, "reason": "fallback-available"}, if there is a model
  abbrev pub with_model : (provider reason : String) → Option String → Option Recommendation
  with_model provider reason none = none
  with_model provider reason (some model) =
      some (record { provider = provider; model = model; reason = reason })

  abbrev pub recommend_any : (use_case : String) → List String → Option Recommendation
  recommend_any use_case [] = none
  recommend_any use_case (p ∷ ps) =
      with_model (least p ps) "fallback-available" (nonempty (pick_model (least p ps) use_case))

  abbrev listed : Option (List Recommendation) → List Recommendation
  listed none = []
  listed (some recs) = recs

  abbrev level_or_free : Option String → String
  level_or_free none = "free"
  level_or_free (some level) = if level == "" then "free" else level

  -- Organisateur._recommend
  unfoldable pub recommend : (use_case : String) (level : Option String) → Option Recommendation
  unfolding first_recommended least pick_model
  recommend use_case level =
      elim (first_recommended (listed (m.recommendations use_case (level_or_free level)))) [
        | some r ↦ some r
        | none ↦ recommend_any use_case all_available
      ]

  abbrev pub refused : (reason : String) → (provider model source : Option String) → Allocation
  refused reason provider model source = record {
    allocated = false;
    provider_ref = provider;
    model_ref = model;
    source = source;
    reason = reason;
  }

  abbrev pub assigned : (source reason provider model : String) → Allocation
  assigned source reason provider model = record {
    allocated = true;
    provider_ref = some provider;
    model_ref = some model;
    source = some source;
    reason = reason;
  }

  -- The case of a preferred provider without a model.
  unfoldable pub allocate_preferred : (provider use_case : String) → Allocation
  unfolding provider_available pick_model
  allocate_preferred provider use_case =
      if provider_available provider
      then (elim (nonempty (pick_model provider use_case)) [
        | some model ↦ assigned "provider_preferred" "" provider model
        | none ↦ refused "no_model_for_provider" (some provider) none (some "provider_preferred")
      ])
      else refused "preferred_provider_unavailable" (some provider) none (some "provider_preferred")

  -- The last resort: the first provider.
  unfoldable pub allocate_first : (use_case : String) → List String → Allocation
  unfolding pick_model
  allocate_first use_case [] = refused "no_llm_available" none none none
  allocate_first use_case (p ∷ ps) = elim (nonempty (pick_model p use_case)) [
    | some model ↦ assigned "fallback" "no_recommendation_match" p model
    | none ↦ refused "no_llm_available" none none none
  ]

  -- Organisateur.allocate
  unfoldable pub allocate : (needs_llm : Bool) → Preference → Allocation
  unfolding allocate_preferred allocate_first recommend provider_available
  allocate false pref = refused "agent_needs_no_llm" none none none
  allocate true pref = elim (nonempty pref.provider) [
    | some provider ↦ elim (nonempty pref.model) [
      | some model ↦
          if provider_available provider
          then assigned "explicit" "" provider model
          else refused "preferred_provider_unavailable" (some provider) (some model)
              (some "explicit")
      | none ↦ allocate_preferred provider pref.use_case
    ]
    | none ↦ elim (recommend pref.use_case pref.level) [
      | some r ↦ assigned "recommended" r.reason r.provider r.model
      | none ↦ allocate_first pref.use_case all_available
    ]
  ]
