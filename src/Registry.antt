-- ===== src/Registry.antt =====
-- ai/provider.go: the collection of providers behind `CreateModels`. Each method holds the lock while
-- it touches the two fields, so it is one step on them. A provider is what the collection reads of
-- it: its id and the models it lists. `Stream`, `Refresh` and the credentials are left out.
pub mod Order
pub mod Total
use kern_proxy.Base.{
  Bool, true, false, not, Option, none, some, List, [], ◌∷◌, ◌++◌, String, ◌=ₛ◌, if◌then◌else◌,
}
use kern_proxy.Messages.{Model}

pub record Provider : Type 0 where
  pub id : String
  pub models : List Model

-- `modelsImpl`. A map gives `none` for a key that it has not.
pub record Registry : Type 0 where
  pub providers : String → Option Provider
  pub order : List String

-- `CreateModels`
abbrev pub create_models : Registry
create_models = record { providers = λ id. none; order = [] }

abbrev pub exists : Option Provider → Bool
exists none = false
exists (some p) = true

-- `SetProvider`
unfoldable pub set_provider : Provider → Registry → Registry
set_provider p m = record {
  providers = λ id. if p.id =ₛ id then some p else m.providers id;
  order = if exists (m.providers p.id) then m.order else m.order ++ p.id ∷ [];
}

-- The loop of `DeleteProvider`: it cuts out the first id that is equal.
unfoldable pub cut_out : String → List String → List String
cut_out id [] = []
cut_out id (existing ∷ rest) =
    let others = cut_out id rest in if existing =ₛ id then rest else existing ∷ others

-- `DeleteProvider`
unfoldable pub delete_provider : String → Registry → Registry
unfolding cut_out
delete_provider id m =
    if exists (m.providers id)
    then record {
      providers = λ k. if id =ₛ k then none else m.providers k;
      order = cut_out id m.order;
    }
    else m

-- `GetProviders`. A missing key gives a nil provider.
unfoldable pub at_keys : (String → Option Provider) → List String → List (Option Provider)
at_keys providers [] = []
at_keys providers (id ∷ ids) = providers id ∷ at_keys providers ids

unfoldable pub get_providers : Registry → List (Option Provider)
unfolding at_keys
get_providers m = at_keys m.providers m.order

-- `GetProvider`
abbrev pub get_provider : Registry → String → Option Provider
get_provider m id = m.providers id

-- The loop of `GetModels` over all providers; `none` is the panic of a call on a nil provider.
unfoldable pub all_models : List (Option Provider) → Option (List Model)
all_models [] = some []
all_models (none ∷ entries) = none
all_models (some p ∷ entries) = elim (all_models entries) [
  | none ↦ none
  | some ms ↦ some (p.models ++ ms)
]

-- `GetModels`
unfoldable pub get_models : Registry → String → Option (List Model)
unfolding get_providers all_models
get_models m provider =
    if not (provider =ₛ "")
    then elim (get_provider m provider) [ none ↦ some [] | some p ↦ some p.models ]
    else all_models (get_providers m)

-- The loop of `GetModel`.
unfoldable pub find_model : String → List Model → Option Model
find_model id [] = none
find_model id (model ∷ rest) =
    let later = find_model id rest in if model.id =ₛ id then some model else later

-- `GetModel`; the outer `none` is the panic.
unfoldable pub get_model : Registry → String → String → Option (Option Model)
get_model m provider id = elim (get_models m provider) [
  | none ↦ none
  | some ms ↦ some (find_model id ms)
]

-- The calls that change the collection.
pub data Call : Type 0 where
  set : Provider → Call
  delete : String → Call
  clear : Call

-- `ClearProviders` is the third.
unfoldable pub call : Registry → Call → Registry
unfolding set_provider delete_provider
call m (Call.set p) = set_provider p m
call m (Call.delete id) = delete_provider id m
call m Call.clear = create_models

unfoldable pub calls : Registry → List Call → Registry
unfolding call
calls m [] = m
calls m (c ∷ cs) = calls (call m c) cs
