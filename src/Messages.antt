-- ===== src/Messages.antt =====
-- ai/types.go (content parts, messages, usage, chat contexts) and ai/model.go (the descriptor of
-- a model). Texts are sequences of code points. A slice that may be nil is an `Option`. What the
-- code marshals and never looks into (arguments, details) is kept as its JSON text, with `none`
-- for a value that `json.Marshal` refuses. The dollar costs, diagnostics, response ids and
-- routing fields are left out: the modelled code copies them and reads none of them.
use kern_proxy.Base.{Bool, true, false, Option, List, [], ◌∷◌, String}
use kern_proxy.Base.Int.{ℤ}

-- A Go slice, which may be nil.
abbrev pub Slice : Type 0 → Type 0
Slice A = Option (List A)

pub data StopReason : Type 0 where
  stop length tool_use error aborted : StopReason

pub StopReason-discrete : Discrete StopReason
StopReason-discrete = hlevel

pub record TextContent : Type 0 where
  pub text : String
  pub text_signature : String

pub record ThinkingContent : Type 0 where
  pub thinking : String
  pub thinking_signature : String
  pub redacted : Bool

pub record ImageContent : Type 0 where
  pub bytes : String
  pub mime_type : String

pub record ToolCall : Type 0 where
  pub id : String
  pub name : String
  pub arguments : Option String
  pub thought_signature : String

-- `AssistantContentPart`: the content blocks of an assistant message.
pub data AssistantPart : Type 0 where
  text : TextContent → AssistantPart
  thinking : ThinkingContent → AssistantPart
  tool_call : ToolCall → AssistantPart

-- `UserContentPart`: the content blocks of a user message and of a tool result.
pub data UserPart : Type 0 where
  text : TextContent → UserPart
  image : ImageContent → UserPart

pub record Usage : Type 0 where
  pub input : ℤ
  pub output : ℤ
  pub cache_read : ℤ
  pub cache_write : ℤ
  pub total_tokens : ℤ

pub record UserContent : Type 0 where
  pub plain : Option String
  pub blocks : Slice UserPart

pub record UserMessage : Type 0 where
  pub content : UserContent
  pub timestamp : ℤ

pub record AssistantMessage : Type 0 where
  pub content : Slice AssistantPart
  pub api : String
  pub provider : String
  pub model : String
  pub usage : Usage
  pub stop_reason : StopReason
  pub error_message : String
  pub timestamp : ℤ

pub record ToolResultMessage : Type 0 where
  pub tool_call_id : String
  pub tool_name : String
  pub content : Slice UserPart
  pub details : Option String
  pub is_error : Bool
  pub timestamp : ℤ

-- The union is closed: the `default` branches of the switches over it are never taken.
pub data Message : Type 0 where
  user : UserMessage → Message
  assistant : AssistantMessage → Message
  tool_result : ToolResultMessage → Message

pub data Modality : Type 0 where
  text image : Modality

pub record Model : Type 0 where
  pub id : String
  pub api : String
  pub provider : String
  pub input : List Modality
  pub context_window : ℤ
  pub max_tokens : ℤ

-- `(*Model).SupportsImageInput`
unfoldable pub supports_image : List Modality → Bool
supports_image [] = false
supports_image (Modality.image ∷ rest) = true
supports_image (Modality.text ∷ rest) = supports_image rest

unfoldable pub supports_image_input : Model → Bool
unfolding supports_image
supports_image_input m = supports_image m.input
