-- ===== src/Resolve/Types.antt =====
-- ai/auth.go and the errors of ai/resolve.go. What the store, the clock and the handlers of the provider
-- answer in a call is a `World`; a handler gives an error's text or a value. The maps of environment
-- variables are functions, nil ones `none`.
use kern_proxy.Base.{Option, List, String, ◌⊎◌}
use kern_proxy.Base.Int.{ℤ}

abbrev pub Env : Type 0
Env = String → Option String

pub record ModelAuth : Type 0 where
  pub api_key : String
  pub headers : Option (List (String × Option String))
  pub base_url : String

pub record AuthResult : Type 0 where
  pub auth : ModelAuth
  pub env : Option Env
  pub source : String

pub record ApiKeyCredential : Type 0 where
  pub key : String
  pub env : Option Env

-- `Extra` is left out: it is copied and never read.
pub record OauthCredential : Type 0 where
  pub refresh : String
  pub access : String
  pub expires : ℤ

pub data Credential : Type 0 where
  api_key : ApiKeyCredential → Credential
  oauth : OauthCredential → Credential

pub data ErrorCode : Type 0 where
  auth oauth : ErrorCode

-- `ModelsError`; `cause` is the text of the error that it wraps.
pub record ModelsError : Type 0 where
  pub code : ErrorCode
  pub message : String
  pub cause : String

pub data Result (A : Type 0) : Type 0 where
  ok : A → Result A
  err : ModelsError → Result A

-- `OAuthAuth`
pub record OauthAuth : Type 0 where
  pub refresh : OauthCredential → String ⊎ OauthCredential
  pub to_auth : OauthCredential → String ⊎ ModelAuth

-- `APIKeyResolveInput`: `model` is the provider of the model, and `lookup` the `Env` of its context.
pub record Input : Type 0 where
  pub model : Option String
  pub lookup : String → String
  pub credential : Option ApiKeyCredential

abbrev pub ApiKeyAuth : Type 0
ApiKeyAuth = Input → String ⊎ Option AuthResult

pub record Overrides : Type 0 where
  pub api_key : Option String
  pub env : Option Env

-- `read` is what the store's `Read` gives. If `Modify` is called, its function runs on `current` at the
-- time `now_locked`, and `modify_error` is an error of the store itself.
pub record World : Type 0 where
  pub read : String ⊎ Option Credential
  pub now : ℤ
  pub modify_error : Option String
  pub current : Option Credential
  pub now_locked : ℤ
