-- ===== src/Allocation/Samples.antt =====
-- The allocation of a recommended model.
use model_weaver.Base.{String, true, false, none, some, [], ◌∷◌, ◌≡◌, refl, contains, text_eq}
use model_weaver.Allocation
use model_weaver.Allocation.{Managers, Preference, all_available, allocate}
use model_weaver.Allocation.Served.{allocate-available}

abbrev managers : Managers
managers = record {
  onboarded = "groq" ∷ [];
  engines = "ollama" ∷ [];
  list_models = λ p. some (record { ref = "llama"; target_use = "chat" } ∷ []);
  local_models = λ p. none;
  recommendations = λ u l. some (
      record { provider = "openai"; model = "gpt"; reason = "best" }
      ∷ record { provider = "ollama"; model = "qwen"; reason = "local" }
      ∷ []);
  lower = λ s. s;
  before = λ s t. false;
}

abbrev open_choice : Preference
open_choice = record { provider = none; model = none; use_case = "chat"; level = none }

recommended_is_allocated : (allocate managers true open_choice).allocated ≡ true
unfolding allocate Allocation.recommend
recommended_is_allocated = refl

allocate-available_example :
    (p : String) × (model : String) × ((allocate managers true open_choice).provider_ref ≡ some p)
    × ((allocate managers true open_choice).model_ref ≡ some model)
    × (contains {A = String} (all_available managers) p ≡ true)
allocate-available_example = allocate-available managers true open_choice recommended_is_allocated
