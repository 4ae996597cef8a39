-- ===== src/Tarif/Priority.antt =====
-- Which of the limits counts.
use model_weaver.Base.{
  String, false, Option, none, some, [], ◌∷◌, ◌≡◌, refl, text_eq, arith, eq_iff,
}
use model_weaver.Base.Dict
use model_weaver.Base.Dict.{Dict, UniqueKeys, lookup-insert}
use model_weaver.Fsm.Value.{Vars, nonempty}
use model_weaver.Tarif.{Tarif, ProviderConf, model_conf, tier_of, limits_or_empty, effective_limits}

abbrev pub or_else {ℓ} : {A : Type ℓ} → Option A → Option A → Option A
or_else none o = o
or_else (some a) o = some a

absent-lookup : (d : Vars) (k : String) → Dict.has d k ≡ false → Dict.lookup d k ≡ none
unfolding Dict.has Dict.lookup
absent-lookup [] k h = refl
absent-lookup ((j, v) ∷ d) k h = ground (arith, h, absent-lookup d k)

-- A dict with unique keys, in an update, goes before the dict that it updates.
lookup-update :
    (d new : Vars) (k : String)
    → UniqueKeys new
    → Dict.lookup (Dict.update d new) k ≡ or_else (Dict.lookup new k) (Dict.lookup d k)
unfolding Dict.update Dict.lookup
lookup-update d [] k u = refl
lookup-update d ((j, v) ∷ new) k u = ground (
  arith,
  lookup-update (Dict.insert d j v) new k u.1,
  lookup-insert d j k v,
  absent-lookup new j u.0,
  eq_iff j k,
)

-- The limits of a model of a provider that is not unlimited and has a tier are those of the
-- model's own entry, then the overrides of the provider, then those of the tier.
pub lookup-effective_limits :
    (tarif : Tarif) (provider_ref model_ref tier_name k : String) (prov : ProviderConf)
    → Dict.lookup tarif.providers provider_ref ≡ some prov
    → prov.unlimited ≡ false
    → nonempty (tier_of prov model_ref) ≡ some tier_name
    → UniqueKeys prov.overrides
    → UniqueKeys (model_conf prov model_ref).others
    → Dict.lookup (effective_limits tarif provider_ref model_ref) k
      ≡ or_else (Dict.lookup (model_conf prov model_ref).others k) (
          or_else
            (Dict.lookup prov.overrides k)
            (Dict.lookup (limits_or_empty (Dict.lookup tarif.tiers tier_name)) k))
unfolding effective_limits
lookup-effective_limits tarif provider_ref model_ref tier_name k prov found limited tiered uo um =
    simp (
      found,
      limited,
      tiered,
      effective_limits,
      lookup-update
          (Dict.update (limits_or_empty (Dict.lookup tarif.tiers tier_name)) prov.overrides)
          (model_conf prov model_ref).others k um,
      lookup-update (limits_or_empty (Dict.lookup tarif.tiers tier_name)) prov.overrides k uo,
    )
