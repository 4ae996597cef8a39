-- ===== src/Tarif.antt =====
-- services/tarif.py: the tier and the limits of a model.
pub mod Priority
mod Samples
use model_weaver.Base.{
  String, Bool, true, false, Option, none, some, List, [], ◌∷◌, text_eq, if◌then◌else◌,
}
use model_weaver.Base.Dict
use model_weaver.Base.Dict.{Dict}
use model_weaver.Fsm.Value.{bool, Vars, nonempty}

-- The entry of a model: its tier, and its other keys.
pub record ModelConf : Type 0 where
  pub tier : Option String
  pub others : Vars

pub record ProviderConf : Type 0 where
  pub unlimited : Bool
  pub tier : Option String
  pub overrides : Vars
  pub models : Dict String ModelConf

-- What tarif.json holds.
pub record Tarif : Type 0 where
  pub tiers : Dict String Vars
  pub providers : Dict String ProviderConf

abbrev pub conf_or_empty : Option ModelConf → ModelConf
conf_or_empty none = record { tier = none; others = [] }
conf_or_empty (some conf) = conf

-- prov.get("models", {}).get(model_ref, {})
unfoldable pub model_conf : ProviderConf → String → ModelConf
model_conf prov model_ref = conf_or_empty (Dict.lookup prov.models model_ref)

abbrev pub or_tier : Option String → Option String → Option String
or_tier none tier = tier
or_tier (some t) tier = some t

-- model_conf.get("tier") or prov.get("tier")
unfoldable pub tier_of : ProviderConf → String → Option String
unfolding model_conf
tier_of prov model_ref = or_tier (nonempty (model_conf prov model_ref).tier) prov.tier

abbrev pub limits_or_empty : Option Vars → Vars
limits_or_empty none = []
limits_or_empty (some limits) = limits

module _ (tarif : Tarif) where
  -- TarifManager.effective_tier
  unfoldable pub effective_tier : (provider_ref model_ref : String) → Option String
  unfolding tier_of
  effective_tier provider_ref model_ref = elim (Dict.lookup tarif.providers provider_ref) [
    | none ↦ none
    | some prov ↦ if prov.unlimited then none else tier_of prov model_ref
  ]

  -- TarifManager.effective_limits
  unfoldable pub effective_limits : (provider_ref model_ref : String) → Vars
  unfolding tier_of model_conf
  effective_limits provider_ref model_ref = elim (Dict.lookup tarif.providers provider_ref) [
    | none ↦ []
    | some prov ↦
        if prov.unlimited
        then ("unlimited", bool true) ∷ []
        else (elim (nonempty (tier_of prov model_ref)) [
          | none ↦ []
          | some tier_name ↦
              Dict.update
                (Dict.update (limits_or_empty (Dict.lookup tarif.tiers tier_name)) prov.overrides)
                (model_conf prov model_ref).others
        ])
  ]

  -- TarifManager.is_unlimited
  unfoldable pub is_unlimited : (provider_ref : String) → Bool
  is_unlimited provider_ref = elim (Dict.lookup tarif.providers provider_ref) [
    | none ↦ false
    | some prov ↦ prov.unlimited
  ]
