-- ===== src/Headers.antt =====
-- ai/headers.go: the headers of a request, and how ai/apis/internal/httpretry/httpretry.go sends them. A map is the function that looks a key up in it, so that it does not
-- tell a nil map from an empty one; a map that is gone through is a list of its entries.
use kern_proxy.Base.{
  ◌≡◌, ◌∙◌, ◌⊎◌, inl, inr, eq_refl, refl, Bool, true, false, Option, none, some, List, [], ◌∷◌,
  String, ◌=ₛ◌, if◌then◌else◌,
}
use kern_proxy.Anthropic.Run.{ProviderHeaders}

abbrev pub Headers : Type 0
Headers = String → Option String

abbrev pub put : String → Option String → Headers → Headers
put k v h = λ x. if x =ₛ k then v else h x

-- The loop over the overrides: nil deletes.
unfoldable pub overlay : List (String × Option String) → Headers → Headers
overlay [] h = h
overlay ((k, v) ∷ rest) h = overlay rest (put k v h)

-- `model.Headers`, which has no nil.
abbrev pub stated : List (String × String) → List (String × Option String)
stated [] = []
stated ((k, v) ∷ rest) = (k, some v) ∷ stated rest

abbrev pub entries : ProviderHeaders → List (String × Option String)
entries none = []
entries (some os) = os

-- `MergeProviderHeaders`
unfoldable pub merge_provider_headers : Headers → ProviderHeaders → Headers
merge_provider_headers defaults overrides = overlay (entries overrides) defaults

abbrev pub or_first : Option (Option String) → Option String → Option (Option String)
or_first none v = some v
or_first (some w) v = some w

-- What a list of entries says of a key.
unfoldable pub lookup : String → List (String × Option String) → Option (Option String)
lookup x [] = none
lookup x ((k, v) ∷ rest) = let later = lookup x rest in if x =ₛ k then or_first later v else later

abbrev pub said : Option (Option String) → Option String → Option String
said none other = other
said (some v) other = v

said-or_first :
    (later : Option (Option String)) (v other : Option String) (t : Bool)
    → said later (if t then v else other) ≡ said (if t then or_first later v else later) other
said-or_first none v other true = refl
said-or_first none v other false = refl
said-or_first (some w) v other true = refl
said-or_first (some w) v other false = refl

pub overlay-lookup :
    (x : String) (os : List (String × Option String)) (h : Headers)
    → overlay os h x ≡ said (lookup x os) (h x)
unfolding overlay lookup
overlay-lookup x [] h = refl
overlay-lookup x ((k, v) ∷ rest) h =
    overlay-lookup x rest (put k v h) ∙ said-or_first (lookup x rest) v (h x) (x =ₛ k)

-- The loop of `Do` in ai/apis/internal/httpretry/httpretry.go over the headers of a request, in the order in which Go goes
-- through the map. `canonical` is `http.CanonicalHeaderKey`, under which `Header.Set` writes.
unfoldable pub set_all : (String → String) → List (String × String) → Headers → Headers
set_all canonical [] h = h
set_all canonical ((k, v) ∷ rest) h = set_all canonical rest (put (canonical k) (some v) h)

abbrev pub Has : String → String → List (String × String) → Type 0
Has k v [] = ⊥
Has k v ((j, w) ∷ rest) = ((k ≡ j) × (v ≡ w)) ⊎ Has k v rest

-- No entry has the canonical key `x`.
abbrev pub IsFree : (String → String) → String → List (String × String) → Type 0
IsFree canonical x [] = Unit
IsFree canonical x ((k, v) ∷ rest) = ((x =ₛ canonical k) ≡ false) × IsFree canonical x rest

-- No two entries have keys that differ in the case of letters alone.
abbrev pub NoClash : (String → String) → List (String × String) → Type 0
NoClash canonical [] = Unit
NoClash canonical ((k, v) ∷ rest) = IsFree canonical (canonical k) rest × NoClash canonical rest

set_all-of_IsFree :
    (canonical : String → String) (os : List (String × String)) (h : Headers) (x : String)
    → IsFree canonical x os
    → set_all canonical os h x ≡ h x
unfolding set_all
set_all-of_IsFree canonical [] h x f = refl
set_all-of_IsFree canonical ((k, v) ∷ rest) h x f =
    set_all-of_IsFree canonical rest (put (canonical k) (some v) h) x f.1 ∙ rw f.0 refl

-- Without a clash each entry is sent.
pub set_all-Has :
    (canonical : String → String) (os : List (String × String)) (h : Headers) (k v : String)
    → NoClash canonical os
    → Has k v os
    → set_all canonical os h (canonical k) ≡ some v
unfolding set_all
set_all-Has canonical [] h k v n e = absurd e
set_all-Has canonical ((j, w) ∷ rest) h k v n (inl (a, b)) =
    rw (a, b)
      (set_all-of_IsFree canonical rest (put (canonical j) (some w) h) (canonical j) n.0
        ∙ rw (eq_refl (canonical j)) refl)
set_all-Has canonical ((j, w) ∷ rest) h k v n (inr later) =
    set_all-Has canonical rest (put (canonical j) (some w) h) k v n.1 later
