-- ===== src/OpenAi/Sent/Authorized.antt =====
-- A request that passes the check of its authorization is sent with one.
use kern_proxy.Base.{
  ◌≡◌, ◌⊎◌, ◌∙◌, refl, ap, eq_refl, Bool, true, false, ◌&&◌, ◌||◌, Option, none, some, List, [],
  ◌∷◌, String, ◌=ₛ◌, ◌+ₛ◌, if◌then◌else◌, arith, Bool-cases, inl, inr,
}
use kern_proxy.Headers.{
  Headers, overlay, entries, merge_provider_headers, stated, lookup, or_first, said, overlay-lookup,
  set_all, Has, NoClash, set_all-Has,
}
use kern_proxy.Anthropic.Run.{Request, ProviderHeaders, has_text, find_header, has_header}
use kern_proxy.OpenAi.Compat.{Compat}
use kern_proxy.OpenAi.Request.{Input}
use kern_proxy.OpenAi.Run.{assert_request_auth}
use kern_proxy.OpenAi.Sent.{signed, with_session, build_headers}

-- No key stands twice among the entries of a Go map.
abbrev pub IsMap : List (String × Option String) → Type 0
IsMap [] = Unit
IsMap ((k, v) ∷ rest) = (lookup k rest ≡ none) × IsMap rest

-- An entry of the name, in some case of letters, with a text that is not blank.
abbrev Carries : Request → String → Headers → Type 0
Carries r name h =
    (k : String) × (v : String) × ((r.to_lower k =ₛ r.to_lower name) ≡ true)
    × (h k ≡ some v)
    × ((r.trim_space v =ₛ "") ≡ false)

abbrev Found : Request → String → List (String × Option String) → Type 0
Found r lower os =
    (k : String) × (v : String) × ((r.to_lower k =ₛ lower) ≡ true)
    × (lookup k os ≡ some (some v))
    × ((r.trim_space v =ₛ "") ≡ false)

head-Found :
    (r : Request) (lower k : String) (v : Option String) (rest : List (String × Option String))
    → lookup k rest ≡ none
    → (r.to_lower k =ₛ lower && has_text r v) ≡ true
    → Found r lower ((k, v) ∷ rest)
unfolding lookup
head-Found r lower k none rest e h = absurd (ground arith)
head-Found r lower k (some w) rest e h =
    (k, w, ground arith, (rw (eq_refl k, e) refl), ground arith)

found-later :
    (later : Option (Option String)) (v : Option String) (w : String) (t : Bool)
    → later ≡ some (some w)
    → (if t then or_first later v else later) ≡ some (some w)
found-later none v w t h = absurd (ground arith)
found-later (some u) v w true h = h
found-later (some u) v w false h = h

later_of : (a b : Bool) → a ≡ false → (a || b) ≡ true → b ≡ true
later_of a b e h = ground arith

find_header-Found :
    (r : Request) (lower : String) (os : List (String × Option String))
    → IsMap os
    → find_header r lower os ≡ true
    → Found r lower os
unfolding find_header lookup
find_header-Found r lower [] m h = absurd (ground arith)
find_header-Found r lower ((k, v) ∷ rest) m h =
    elim (Bool-cases (r.to_lower k =ₛ lower && has_text r v)) [
      | inl e ↦ head-Found r lower k v rest m.0 e
      | inr e ↦
          let (x, w, a, b, c) =
            find_header-Found r lower rest m.1
              (later_of (r.to_lower k =ₛ lower && has_text r v) (find_header r lower rest) e h) in
          (x, w, a, found-later (lookup x rest) v w (x =ₛ k) b, c)
    ]

has_header-Carries :
    (r : Request) (name : String) (hs : ProviderHeaders) (defaults : Headers)
    → IsMap (entries hs)
    → has_header r hs name ≡ true
    → Carries r name (merge_provider_headers defaults hs)
unfolding merge_provider_headers has_header
has_header-Carries r name none defaults m h = absurd (ground arith)
has_header-Carries r name (some os) defaults m h =
    let (k, v, a, b, c) = find_header-Found r (r.to_lower name) os m h in
    (k, v, a, overlay-lookup k os defaults ∙ ap (λ o. said o (defaults k)) b, c)

other_header :
    (r : Request) (provider : String)
    → (r.api_key =ₛ "") ≡ true
    → assert_request_auth r provider ≡ none
    → has_header r r.headers "authorization" ≡ false
    → has_header r r.headers "cf-aig-authorization" ≡ true
unfolding assert_request_auth
other_header r provider e h a = ground arith

signed-said :
    (t : Bool) (id key : String) (own : List (String × Option String))
    → (key =ₛ "") ≡ false
    → with_session t id (overlay own (signed key)) "authorization"
      ≡ said (lookup "authorization" own) (some ("Bearer " +ₛ key))
signed-said true id key own e = overlay-lookup "authorization" own (signed key) ∙ rw e refl
signed-said false id key own e = overlay-lookup "authorization" own (signed key) ∙ rw e refl

-- A header of the name, in some case of letters, is sent, with a text that is not blank.
abbrev pub Sends : Request → (String → String) → String → Headers → Type 0
Sends r canonical name sent =
    (k : String) × (v : String) × ((r.to_lower k =ₛ r.to_lower name) ≡ true)
    × (sent (canonical k) ≡ some v)
    × ((r.trim_space v =ₛ "") ≡ false)

Carries-Sends :
    (r : Request) (canonical : String → String) (name : String) (h : Headers)
    (os : List (String × String))
    → ((k v : String) → h k ≡ some v → Has k v os)
    → NoClash canonical os
    → Carries r name h
    → Sends r canonical name (set_all canonical os (λ k. none))
Carries-Sends r canonical name h os all n (k, v, a, b, c) =
    (k, v, a, set_all-Has canonical os (λ x. none) k v n (all k v b), c)

expected-sent :
    (canonical : String → String) (h : Headers) (k : String) (e : Option String)
    (os : List (String × String))
    → ((k v : String) → h k ≡ some v → Has k v os)
    → NoClash canonical os
    → h k ≡ e
    → (e ≡ none) ⊎ (set_all canonical os (λ k. none) (canonical k) ≡ e)
expected-sent canonical h k none os all n is = inl refl
expected-sent canonical h k (some v) os all n is =
    inr (set_all-Has canonical os (λ x. none) k v n (all k v is))

-- What the caller says of `authorization`, else the model, else `Bearer ` and the key.
abbrev pub expected : Request → List (String × String) → Option String
expected r model_headers =
    said (lookup "authorization" (entries r.headers))
      (said (lookup "authorization" (stated model_headers)) (some ("Bearer " +ₛ r.api_key)))

-- Say the caller's headers, a Go map, pass the check of a request's authorization, and no two entries of
-- the map that `buildHeaders` returns have keys with the same canonical form. Then, in whatever order they
-- are set, the request is sent with a header named `authorization` or `cf-aig-authorization`, in some case
-- of letters, whose text is not blank; or it has a key, and `authorization` is sent as what the caller says
-- of it, else what the model says, else `Bearer ` and the key, unless this is that it be left out.
pub build_headers-IsAuthorized :
    (r : Request) (i : Input) (c : Compat) (model_headers : List (String × String))
    (provider : String) (canonical : String → String) (os : List (String × String))
    → IsMap (entries r.headers)
    → assert_request_auth r provider ≡ none
    → ((k v : String) → build_headers r i c model_headers k ≡ some v → Has k v os)
    → NoClash canonical os
    → let sent = set_all canonical os (λ k. none) in
      Sends r canonical "authorization" sent
      ⊎ Sends r canonical "cf-aig-authorization" sent
      ⊎ (((r.api_key =ₛ "") ≡ false)
          × ((expected r model_headers ≡ none)
              ⊎ (sent (canonical "authorization") ≡ expected r model_headers)))
unfolding build_headers merge_provider_headers
build_headers-IsAuthorized r i c model_headers provider canonical os m h all n =
    let built = build_headers r i c model_headers in
    elim (Bool-cases (r.api_key =ₛ "")) [
      | inr e ↦
          let is : built "authorization" ≡ expected r model_headers =
            overlay-lookup "authorization" (entries r.headers) _
            ∙ ap (said (lookup "authorization" (entries r.headers)))
                (signed-said _ i.session_id r.api_key (stated model_headers) e) in
          inr (inr (e, expected-sent canonical built "authorization" _ os all n is))
      | inl e ↦ elim (Bool-cases (has_header r r.headers "authorization")) [
        | inl a ↦ inl (
            Carries-Sends r canonical "authorization" built os all n
              (has_header-Carries r "authorization" r.headers _ m a))
        | inr a ↦ inr (
            inl (
              Carries-Sends r canonical "cf-aig-authorization" built os all n (
                has_header-Carries r "cf-aig-authorization" r.headers _ m
                  (other_header r provider e h a))))
      ]
    ]
