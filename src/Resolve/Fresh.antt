-- ===== src/Resolve/Fresh.antt =====
-- The credential that a request is sent with.
use kern_proxy.Base.{◌≡◌, refl, true, false, Option, none, some, String, ◌⊎◌, inl, inr, Bool-cases}
use kern_proxy.Resolve.Types.{
  OauthAuth, OauthCredential, ModelAuth, ApiKeyAuth, AuthResult, Credential, World, Overrides,
  Result,
}
use kern_proxy.Resolve.{
  has_expired, refresh_locked, refreshed, derive, derived, after_modify, resolve_stored_oauth,
  resolve_stored, resolve_provider_auth, override_key,
}

-- The stored token where it has not expired, the one under the lock where that has not, or else the one
-- that a refresh of the latter gave.
abbrev pub IsCurrent : OauthAuth → World → OauthCredential → OauthCredential → Type 0
IsCurrent h w stored c =
    ((c ≡ stored) × (has_expired w.now stored ≡ false))
    ⊎ (w.current ≡ some (Credential.oauth c)) × (has_expired w.now_locked c ≡ false)
    ⊎ (old : OauthCredential) × (w.current ≡ some (Credential.oauth old))
      × (has_expired w.now_locked old ≡ true)
      × (h.refresh old ≡ inr c)

-- A result that has headers has them from such a token.
abbrev pub Uses : OauthAuth → World → OauthCredential → Result (Option AuthResult) → Type 0
Uses h w stored (Result.ok (some r)) =
    (c : OauthCredential) × IsCurrent h w stored c × (h.to_auth c ≡ inr r.auth)
Uses h w stored _ = Unit

derived-Uses :
    (h : OauthAuth) (id : String) (w : World) (stored c : OauthCredential) (r : String ⊎ ModelAuth)
    → IsCurrent h w stored c
    → h.to_auth c ≡ r
    → Uses h w stored (derived id r)
derived-Uses h id w stored c (inl e) i k = tt
derived-Uses h id w stored c (inr a) i k = (c, i, k)

derive-Uses :
    (h : OauthAuth) (id : String) (w : World) (stored c : OauthCredential)
    → IsCurrent h w stored c
    → Uses h w stored (derive h id (some c))
unfolding derive
derive-Uses h id w stored c i = derived-Uses h id w stored c (h.to_auth c) i refl

refreshed-Uses :
    (h : OauthAuth) (id : String) (w : World) (stored old : OauthCredential)
    (r : String ⊎ OauthCredential)
    → w.current ≡ some (Credential.oauth old)
    → has_expired w.now_locked old ≡ true
    → h.refresh old ≡ r
    → Uses h w stored (after_modify h id none w.current (refreshed id r))
unfolding after_modify
refreshed-Uses h id w stored old (inl e) k x y = tt
refreshed-Uses h id w stored old (inr c) k x y =
    derive-Uses h id w stored c (inr (inr (old, k, x, y)))

locked-Uses :
    (h : OauthAuth) (id : String) (w : World) (stored : OauthCredential) (o : Option Credential)
    → w.current ≡ o
    → Uses h w stored (after_modify h id none w.current (refresh_locked h id w.now_locked o))
unfolding refresh_locked after_modify derive
locked-Uses h id w stored none k = simp k tt
locked-Uses h id w stored (some (Credential.api_key c)) k = simp k tt
locked-Uses h id w stored (some (Credential.oauth c)) k =
    elim (Bool-cases (has_expired w.now_locked c)) [
      | inl x ↦ rw x (refreshed-Uses h id w stored c (h.refresh c) k x refl)
      | inr x ↦ rw x (simp k (derive-Uses h id w stored c (inr (inl (k, x)))))
    ]

modified-Uses :
    (h : OauthAuth) (id : String) (w : World) (stored : OauthCredential) (e : Option String)
    → Uses h w stored (after_modify h id e w.current (refresh_locked h id w.now_locked w.current))
unfolding after_modify
modified-Uses h id w stored (some e) = tt
modified-Uses h id w stored none = locked-Uses h id w stored w.current refl

resolve_stored_oauth-Uses :
    (h : OauthAuth) (id : String) (w : World) (stored : OauthCredential)
    → Uses h w stored (resolve_stored_oauth h id w stored)
unfolding resolve_stored_oauth
resolve_stored_oauth-Uses h id w stored = elim (Bool-cases (has_expired w.now stored)) [
  | inl x ↦ rw x (modified-Uses h id w stored w.modify_error)
  | inr x ↦ rw x (derive-Uses h id w stored stored (inl (refl, x)))
]

-- Where the store has an OAuth token for a provider with an OAuth handler, and the request brings no key
-- of its own, the environment and the handler of API keys have no part in the result. A result that has
-- headers has them from a token that was good when it was looked at, or from a refresh of one that was
-- not.
pub resolve_provider_auth-Uses :
    (id : String) (keys : Option ApiKeyAuth) (h : OauthAuth) (model : Option String) (w : World)
    (lookup : String → String) (o : Option Overrides) (stored : OauthCredential)
    → override_key o ≡ none
    → w.read ≡ inr (some (Credential.oauth stored))
    → (resolve_provider_auth id keys (some h) model w lookup o ≡ resolve_stored_oauth h id w stored)
      × Uses h w stored (resolve_provider_auth id keys (some h) model w lookup o)
unfolding resolve_provider_auth resolve_stored
resolve_provider_auth-Uses id none h model w lookup o stored k r =
    simp r (refl, resolve_stored_oauth-Uses h id w stored)
resolve_provider_auth-Uses id (some a) h model w lookup o stored k r =
    simp (k, r) (refl, resolve_stored_oauth-Uses h id w stored)
