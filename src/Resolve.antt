-- ===== src/Resolve.antt =====
-- ai/resolve.go: which credential a request is sent with.
pub mod Types
pub mod Refresh
pub mod Fresh
use kern_proxy.Base.{
  ℕ, Bool, true, false, not, Option, none, some, List, String, ◌=ₛ◌, ◌+ₛ◌, ◌⊎◌, inl, inr,
  if◌then◌else◌,
}
use kern_proxy.Base.Int.{ℤ, ltb_ℤ}
use kern_proxy.Resolve.Types.{
  ApiKeyAuth, ApiKeyCredential, AuthResult, Credential, Env, ErrorCode, Input, ModelAuth,
  ModelsError, OauthAuth, OauthCredential, Overrides, Result, World,
}

abbrev overlaid : (String → String) → Option String → String → String
overlaid base none name = base name
overlaid base (some v) name = if v =ₛ "" then base name else v

-- `overlayAuthContext.Env`
unfoldable pub overlay_env : (String → String) → Env → String → String
overlay_env base env name = overlaid base (env name) name

abbrev pub request_lookup : (String → String) → Option Env → String → String
request_lookup base none = base
request_lookup base (some env) = overlay_env base env

abbrev merged_value : Option String → Option String → Option String
merged_value old none = old
merged_value old (some v) = some v

abbrev or_empty : Option Env → Env
or_empty none name = none
or_empty (some env) name = env name

-- The two `range` loops over `merged`.
unfoldable pub merge_env : Option Env → Env → Env
merge_env old new name = merged_value (or_empty old name) (new name)

-- A stored API key, with the environment of the request over its own.
unfoldable pub with_env : ApiKeyCredential → Option Env → ApiKeyCredential
with_env c none = c
with_env c (some env) = record { key = c.key; env = some (merge_env c.env env) }

abbrev model_provider : Option String → String
model_provider none = ""
model_provider (some p) = p

abbrev key_result : String → String ⊎ Option AuthResult → Result (Option AuthResult)
key_result provider (inl e) = Result.err (record {
  code = ErrorCode.auth;
  message = "API key auth failed for provider " +ₛ provider;
  cause = e;
})
key_result provider (inr r) = Result.ok r

-- `resolveAPIKey`
unfoldable pub resolve_api_key :
    (String → String)
    → ApiKeyAuth
    → Option String
    → Option ApiKeyCredential
    → Result (Option AuthResult)
resolve_api_key lookup handler model credential =
    key_result (model_provider model)
      (handler (record { model = model; lookup = lookup; credential = credential }))

-- `authClock() >= credential.Expires`
abbrev pub has_expired : ℤ → OauthCredential → Bool
has_expired now c = not (ltb_ℤ now c.expires)

-- What the function that is given to `Modify` returns.
pub data Change : Type 0 where
  refuse : ModelsError → Change
  keep : Change
  write : OauthCredential → Change

abbrev pub refreshed : String → String ⊎ OauthCredential → Change
refreshed id (inl e) =
    Change.refuse
      (record { code = ErrorCode.oauth; message = "OAuth refresh failed for " +ₛ id; cause = e })
refreshed id (inr c) = Change.write c

-- The function that is given to `Modify`: it sees the credential under the lock.
unfoldable pub refresh_locked : OauthAuth → String → ℤ → Option Credential → Change
refresh_locked h id now none = Change.keep
refresh_locked h id now (some (Credential.api_key _)) = Change.keep
refresh_locked h id now (some (Credential.oauth c)) =
    if has_expired now c then refreshed id (h.refresh c) else Change.keep

-- The credential behind `Modify`.
abbrev pub post : Option Credential → Change → Option Credential
post current (Change.write c) = some (Credential.oauth c)
post current _ = current

abbrev pub oauth_of : Option Credential → Option OauthCredential
oauth_of (some (Credential.oauth c)) = some c
oauth_of _ = none

abbrev derived : String → String ⊎ ModelAuth → Result (Option AuthResult)
derived id (inl e) = Result.err (record {
  code = ErrorCode.oauth;
  message = "OAuth auth derivation failed for " +ₛ id;
  cause = e;
})
derived id (inr a) = Result.ok (some (record { auth = a; env = none; source = "OAuth" }))

-- The end of `resolveStoredOAuth`; without a credential somebody has logged out meanwhile.
unfoldable pub derive : OauthAuth → String → Option OauthCredential → Result (Option AuthResult)
derive h id none = Result.ok none
derive h id (some c) = derived id (h.to_auth c)

-- Behind `Modify`.
unfoldable pub after_modify :
    OauthAuth → String → Option String → Option Credential → Change → Result (Option AuthResult)
after_modify h id (some e) current change = Result.err (record {
  code = ErrorCode.auth;
  message = "Credential store modify failed for " +ₛ id;
  cause = e;
})
after_modify h id none current (Change.refuse e) = Result.err e
after_modify h id none current Change.keep = derive h id (oauth_of current)
after_modify h id none current (Change.write c) = derive h id (some c)

-- `resolveStoredOAuth`
unfoldable pub resolve_stored_oauth :
    OauthAuth → String → World → OauthCredential → Result (Option AuthResult)
resolve_stored_oauth h id w stored =
    if has_expired w.now stored
    then after_modify h id w.modify_error w.current (refresh_locked h id w.now_locked w.current)
    else derive h id (some stored)

abbrev pub override_env : Option Overrides → Option Env
override_env none = none
override_env (some o) = o.env

abbrev pub override_key : Option Overrides → Option String
override_key none = none
override_key (some o) = o.api_key

abbrev pub ambient :
    (String → String)
    → Option ApiKeyAuth
    → Option String
    → Option ApiKeyCredential
    → Result (Option AuthResult)
ambient lookup none model c = Result.ok none
ambient lookup (some h) model c = resolve_api_key lookup h model c

-- The branches on what is stored.
unfoldable pub resolve_stored :
    String
    → Option ApiKeyAuth
    → Option OauthAuth
    → Option String
    → World
    → (String → String)
    → Option Env
    → Option Credential
    → Result (Option AuthResult)
resolve_stored id keys flow model w lookup env none = ambient lookup keys model none
resolve_stored id keys (some h) model w lookup env (some (Credential.oauth c)) =
    resolve_stored_oauth h id w c
resolve_stored id keys none model w lookup env (some (Credential.oauth c)) = Result.ok none
resolve_stored id keys flow model w lookup env (some (Credential.api_key c)) =
    ambient lookup keys model (some (with_env c env))

abbrev after_read :
    String
    → Option ApiKeyAuth
    → Option OauthAuth
    → Option String
    → World
    → (String → String)
    → Option Env
    → String ⊎ Option Credential
    → Result (Option AuthResult)
after_read id keys flow model w lookup env (inl e) = Result.err (record {
  code = ErrorCode.auth;
  message = "Credential store read failed for " +ₛ id;
  cause = e;
})
after_read id keys flow model w lookup env (inr stored) =
    resolve_stored id keys flow model w lookup env stored

abbrev overridden :
    String
    → Option ApiKeyAuth
    → Option OauthAuth
    → Option String
    → World
    → (String → String)
    → Option Env
    → Option String
    → Result (Option AuthResult)
overridden id (some h) flow model w lookup env (some key) =
    resolve_api_key lookup h model (some (record { key = key; env = env }))
overridden id keys flow model w lookup env _ = after_read id keys flow model w lookup env w.read

-- `ResolveProviderAuth`
unfoldable pub resolve_provider_auth :
    String
    → Option ApiKeyAuth
    → Option OauthAuth
    → Option String
    → World
    → (String → String)
    → Option Overrides
    → Result (Option AuthResult)
resolve_provider_auth id keys flow model w lookup o =
    overridden id keys flow model w (request_lookup lookup (override_env o)) (override_env o)
      (override_key o)
