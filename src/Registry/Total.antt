-- ===== src/Registry/Total.antt =====
-- What a lookup of a model gives.
use kern_proxy.Base.{
  ◌≡◌, ◌≢◌, refl, ap, Option, none, some, List, [], ◌∷◌, ◌++◌, String, ◌=ₛ◌, eq_iff, All,
  if◌then◌else◌, Bool-cases, inl, inr,
}
use kern_proxy.Messages.{Model}
use kern_proxy.Registry.{
  Provider, Registry, create_models, all_models, get_models, find_model, get_model, Call, calls,
}
use kern_proxy.Registry.Order.{find, all_some, spec_calls, calls-refine}

-- All models of a list of providers, one after the other.
abbrev pub models_of : List Provider → List Model
models_of [] = []
models_of (p ∷ ps) = p.models ++ models_of ps

abbrev pub models_found : Option Provider → List Model
models_found none = []
models_found (some p) = p.models

all_models-all_some : (ps : List Provider) → all_models (all_some ps) ≡ some (models_of ps)
unfolding all_models
all_models-all_some [] = refl
all_models-all_some (p ∷ ps) = rw (all_models-all_some ps) refl

listed-found :
    (o : Option Provider)
    → (elim o [ none ↦ some [] | some p ↦ some p.models ]) ≡ some (models_found o)
listed-found none = refl
listed-found (some p) = refl

-- The models that `GetModels` lists.
abbrev pub listed : List Provider → String → List Model
listed ps provider = if provider =ₛ "" then models_of ps else models_found (find provider ps)

-- After any calls `GetModels` returns, and no method is called on a nil provider: the models of the
-- provider with the id, or none if there is no such provider; and for the empty id those of all
-- providers, in the order of `calls-refine`.
pub get_models-total :
    (cs : List Call) (provider : String)
    → get_models (calls create_models cs) provider ≡ some (listed (spec_calls [] cs) provider)
unfolding get_models
get_models-total cs provider =
    let r = calls-refine cs provider in
    elim (Bool-cases (provider =ₛ "")) [
      | inl every ↦ rw (every, r.0, all_models-all_some) refl
      | inr one ↦ rw (one, r.1) (listed-found (find provider (spec_calls [] cs)))
    ]

-- The first model with the id, if there is one.
abbrev pub IsFirst : String → List Model → Option Model → Type 0
IsFirst id ms none = All (λ m. m.id ≢ id) ms
IsFirst id ms (some m) =
    (before : List Model) × (after : List Model) × (ms ≡ before ++ m ∷ after)
    × (m.id ≡ id)
    × All (λ x. x.id ≢ id) before

IsFirst-cons :
    (id : String) (m : Model) (ms : List Model) (o : Option Model)
    → m.id ≢ id
    → IsFirst id ms o
    → IsFirst id (m ∷ ms) o
IsFirst-cons id m ms none h k = (h, k)
IsFirst-cons id m ms (some x) h (before, after, split, is, clear) =
    (m ∷ before, after, ap (◌∷◌ m) split, is, (h, clear))

find_model-IsFirst : (id : String) (ms : List Model) → IsFirst id ms (find_model id ms)
unfolding find_model
find_model-IsFirst id [] = tt
find_model-IsFirst id (m ∷ ms) = elim (Bool-cases (m.id =ₛ id)) [
  | inl same ↦ rw same ([], ms, refl, (eq_iff m.id id).0 same, tt)
  | inr other ↦ rw other (
      IsFirst-cons id m ms _ (λ e. let same = (eq_iff m.id id).1 e in cc)
        (find_model-IsFirst id ms))
]

get_model-of :
    (m : Registry) (provider id : String) (ms : List Model)
    → get_models m provider ≡ some ms
    → get_model m provider id ≡ some (find_model id ms)
unfolding get_model
get_model-of m provider id ms h =
    ap (λ o. elim o [ none ↦ none | some xs ↦ some (find_model id xs) ]) h

-- After any calls `GetModel` returns, and gives the first model with the id of those that `GetModels`
-- lists, or nil if none of them has the id.
pub get_model-IsFirst :
    (cs : List Call) (provider id : String)
    → (o : Option Model) × (get_model (calls create_models cs) provider id ≡ some o)
      × IsFirst id (listed (spec_calls [] cs) provider) o
get_model-IsFirst cs provider id = (
  find_model id (listed (spec_calls [] cs) provider),
  get_model-of _ provider id _ (get_models-total cs provider),
  find_model-IsFirst id (listed (spec_calls [] cs) provider),
)
