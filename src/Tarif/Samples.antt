-- ===== src/Tarif/Samples.antt =====
-- A model whose own limit goes before its provider's and its tier's.
use model_weaver.Base.{false, none, some, [], ◌∷◌, ◌≡◌, refl, text_eq}
use model_weaver.Base.Dict
use model_weaver.Base.Dict.{UniqueKeys}
use model_weaver.Base.Int.{pos}
use model_weaver.Fsm.Value.{int, nonempty}
use model_weaver.Tarif.{
  ProviderConf, ModelConf, Tarif, model_conf, tier_of, limits_or_empty, effective_limits,
}
use model_weaver.Tarif.Priority.{or_else, lookup-effective_limits}

abbrev big_model : ModelConf
big_model = record { tier = none; others = ("req_per_min", int (pos 5)) ∷ [] }

abbrev groq : ProviderConf
groq = record {
  unlimited = false;
  tier = some "free";
  overrides = ("req_per_day", int (pos 100)) ∷ [];
  models = ("big", big_model) ∷ [];
}

abbrev small_tarif : Tarif
small_tarif = record {
  tiers = ("free", ("req_per_min", int (pos 30)) ∷ []) ∷ [];
  providers = ("groq", groq) ∷ [];
}

groq_found : Dict.lookup small_tarif.providers "groq" ≡ some groq
unfolding Dict.lookup
groq_found = refl

groq_tier : nonempty (tier_of groq "big") ≡ some "free"
unfolding tier_of Dict.lookup
groq_tier = refl

groq-UniqueKeys : UniqueKeys groq.overrides × UniqueKeys (model_conf groq "big").others
unfolding model_conf Dict.has Dict.lookup
groq-UniqueKeys = ((refl, tt), (refl, tt))

lookup-effective_limits_example :
    Dict.lookup (effective_limits small_tarif "groq" "big") "req_per_min"
    ≡ or_else (Dict.lookup (model_conf groq "big").others "req_per_min") (
        or_else
          (Dict.lookup groq.overrides "req_per_min")
          (Dict.lookup (limits_or_empty (Dict.lookup small_tarif.tiers "free")) "req_per_min"))
lookup-effective_limits_example =
    lookup-effective_limits small_tarif "groq" "big" "free" "req_per_min" groq groq_found refl
      groq_tier groq-UniqueKeys.0 groq-UniqueKeys.1
