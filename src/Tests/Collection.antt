-- ===== src/Tests/Collection.antt =====
-- A collection of providers in use.
use kern_proxy.Base.{◌≡◌, refl, Option, some, List, [], ◌∷◌, String}
use kern_proxy.Base.Int.{pos}
use kern_proxy.Messages.{Modality, Model}
use kern_proxy.Registry.{
  Provider, create_models, get_providers, get_provider, get_models, get_model, Call, calls,
}
use kern_proxy.Registry.Order.{find, all_some, spec_calls, calls-refine}
use kern_proxy.Registry.Total.{listed, IsFirst, get_models-total, get_model-IsFirst}

abbrev model : String → Model
model id = record {
  id = id;
  api = "openai-completions";
  provider = "openai";
  input = Modality.text ∷ [];
  context_window = pos 128000;
  max_tokens = pos 4096;
}

abbrev provider : String → String → Provider
provider id name = record { id = id; models = model name ∷ [] }

-- One provider is registered twice, one is deleted again.
abbrev setup : List Call
setup =
    Call.set (provider "openai" "gpt-4")
    ∷ Call.set (provider "groq" "llama")
    ∷ Call.set (provider "openai" "gpt-5")
    ∷ Call.set (provider "nvidia" "nemo")
    ∷ Call.delete "groq"
    ∷ []

calls-refine_example :
    (get_providers (calls create_models setup) ≡ all_some (spec_calls [] setup))
    × (get_provider (calls create_models setup) "openai" ≡ find "openai" (spec_calls [] setup))
calls-refine_example = calls-refine setup "openai"

registered : spec_calls [] setup ≡ provider "openai" "gpt-5" ∷ provider "nvidia" "nemo" ∷ []
registered = refl

get_models-total_example :
    get_models (calls create_models setup) "nvidia" ≡ some (listed (spec_calls [] setup) "nvidia")
get_models-total_example = get_models-total setup "nvidia"

get_model-IsFirst_example :
    (o : Option Model) × (get_model (calls create_models setup) "" "nemo" ≡ some o)
    × IsFirst "nemo" (listed (spec_calls [] setup) "") o
get_model-IsFirst_example = get_model-IsFirst setup "" "nemo"
