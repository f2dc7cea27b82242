-- ===== src/Anthropic/Convert.antt =====
-- `convertMessages` of ai/apis/anthropic/anthropic.go: a conversation becomes the messages of a request.
-- A block is what the map of the source says, and `cache` its `cache_control`. Texts are sequences of
-- Unicode scalar values, which `SanitizeSurrogates` leaves alone.
pub mod Answers
pub mod Cached
use kern_proxy.Base.{
  ℕ, Bool, true, false, Option, none, some, List, [], ◌∷◌, ◌++◌, String, ◌=ₛ◌, ◌+ₛ◌, if◌then◌else◌,
  items,
}
use kern_proxy.Base.Int.{ℤ}
use kern_proxy.Messages.{
  UserPart, AssistantPart, UserContent, ThinkingContent, ToolCall, UserMessage, AssistantMessage,
  ToolResultMessage, Message, Model,
}
use kern_proxy.Transform.Blocks.{is_blank, Normalizer}
use kern_proxy.Transform.Pipeline.{transform_messages}
use kern_proxy.Anthropic.Names.{normalize_tool_call_id, to_claude_code_name}

-- `wireCacheControl`: the `ttl` is `1h` or omitted.
pub record CacheControl : Type 0 where
  pub long : Bool

-- The content of a tool result is a text, or texts and images.
pub data ResultPart : Type 0 where
  text : String → ResultPart
  image : String → String → ResultPart

pub data ResultContent : Type 0 where
  plain : String → ResultContent
  blocks : List ResultPart → ResultContent

pub data Block : Type 0 where
  text : String → Block
  image : String → String → Block  -- media type and data
  thinking : String → String → Block  -- with its signature
  redacted_thinking : String → Block
  tool_use : String → String → Option String → Block  -- id, name, input
  tool_result : String → ResultContent → Bool → Block

pub record WireBlock : Type 0 where
  pub block : Block
  pub cache : Option CacheControl

pub data Content : Type 0 where
  plain : String → Content
  blocks : List WireBlock → Content

pub data Role : Type 0 where
  user assistant : Role

pub record WireMessage : Type 0 where
  pub role : Role
  pub content : Content

-- What the conversion reads of the model and the token.
pub record Options : Type 0 where
  pub allow_empty_signature : Bool
  pub is_oauth : Bool
  pub to_lower : String → String

abbrev pub bare : Block → WireBlock
bare b = record { block = b; cache = none }

-- `convertUserBlocks`
unfoldable pub convert_user_blocks : List UserPart → List WireBlock
convert_user_blocks [] = []
convert_user_blocks (UserPart.text t ∷ bs) =
    let rest = convert_user_blocks bs in
    if is_blank t.text then rest else bare (Block.text t.text) ∷ rest
convert_user_blocks (UserPart.image i ∷ bs) =
    bare (Block.image i.mime_type i.bytes) ∷ convert_user_blocks bs

-- The `ThinkingContent` branch of `convertAssistantBlocks`.
unfoldable pub convert_thinking : Options → ThinkingContent → List WireBlock
convert_thinking o b =
    if b.redacted
    then bare (Block.redacted_thinking b.thinking_signature) ∷ []
    else if is_blank b.thinking
    then []
    else if is_blank b.thinking_signature
    then if o.allow_empty_signature
      then bare (Block.thinking b.thinking "") ∷ []
      else bare (Block.text b.thinking) ∷ []
    else bare (Block.thinking b.thinking b.thinking_signature) ∷ []

-- A nil map has the JSON text `null`.
abbrev pub arguments_or_empty : Option String → Option String
arguments_or_empty none = none
arguments_or_empty (some a) = if a =ₛ "null" then some "{}" else some a

abbrev pub convert_call : Options → ToolCall → Block
convert_call o c =
    Block.tool_use c.id (if o.is_oauth then to_claude_code_name o.to_lower c.name else c.name)
      (arguments_or_empty c.arguments)

-- `convertAssistantBlocks`
unfoldable pub convert_assistant_blocks : Options → List AssistantPart → List WireBlock
convert_assistant_blocks o [] = []
convert_assistant_blocks o (AssistantPart.text t ∷ bs) =
    let rest = convert_assistant_blocks o bs in
    if is_blank t.text then rest else bare (Block.text t.text) ∷ rest
convert_assistant_blocks o (AssistantPart.thinking t ∷ bs) =
    convert_thinking o t ++ convert_assistant_blocks o bs
convert_assistant_blocks o (AssistantPart.tool_call c ∷ bs) =
    bare (convert_call o c) ∷ convert_assistant_blocks o bs

unfoldable pub has_images : List UserPart → Bool
has_images [] = false
has_images (UserPart.image _ ∷ bs) = true
has_images (UserPart.text _ ∷ bs) = has_images bs

unfoldable pub texts : List UserPart → List String
texts [] = []
texts (UserPart.image _ ∷ bs) = texts bs
texts (UserPart.text t ∷ bs) = t.text ∷ texts bs

-- `strings.Join(texts, "\n")`
unfoldable pub join_lines : List String → String
join_lines [] = ""
join_lines (t ∷ []) = t
join_lines (t ∷ u ∷ rest) = let later = join_lines (u ∷ rest) in t +ₛ "\n" +ₛ later

unfoldable pub result_parts : List UserPart → List ResultPart
result_parts [] = []
result_parts (UserPart.text t ∷ bs) = ResultPart.text t.text ∷ result_parts bs
result_parts (UserPart.image i ∷ bs) = ResultPart.image i.mime_type i.bytes ∷ result_parts bs

unfoldable pub has_text : List ResultPart → Bool
has_text [] = false
has_text (ResultPart.text _ ∷ bs) = true
has_text (ResultPart.image _ _ ∷ bs) = has_text bs

-- `convertToolResultContent`
unfoldable pub convert_tool_result_content : List UserPart → ResultContent
convert_tool_result_content content =
    if has_images content
    then if has_text (result_parts content)
      then ResultContent.blocks (result_parts content)
      else ResultContent.blocks (ResultPart.text "(see attached image)" ∷ result_parts content)
    else ResultContent.plain (join_lines (texts content))

-- `toolResultBlock`
abbrev pub tool_result_block : ToolResultMessage → WireBlock
tool_result_block m =
    bare
      (Block.tool_result m.tool_call_id (convert_tool_result_content (items m.content)) m.is_error)

abbrev pub blocks_message : Role → List WireBlock → List WireMessage
blocks_message role [] = []
blocks_message role (b ∷ bs) = record { role = role; content = Content.blocks (b ∷ bs) } ∷ []

abbrev pub convert_user : Option String → UserMessage → List WireMessage
convert_user none m = blocks_message Role.user (convert_user_blocks (items m.content.blocks))
convert_user (some t) m =
    if is_blank t then [] else record { role = Role.user; content = Content.plain t } ∷ []

abbrev pub results_message : List WireBlock → WireMessage
results_message results = record { role = Role.user; content = Content.blocks results }

-- The loop of `convertMessages`; `convert_results` is its inner loop, on the results so far.
unfoldable mutual
  pub convert_all : Options → List Message → List WireMessage
  convert_all o [] = []
  convert_all o (Message.user m ∷ ms) = convert_user m.content.plain m ++ convert_all o ms
  convert_all o (Message.assistant m ∷ ms) =
      blocks_message Role.assistant (convert_assistant_blocks o (items m.content))
      ++ convert_all o ms
  convert_all o (Message.tool_result m ∷ ms) = convert_results o (tool_result_block m ∷ []) ms

  pub convert_results : Options → List WireBlock → List Message → List WireMessage
  convert_results o results [] = results_message results ∷ []
  convert_results o results (Message.tool_result m ∷ ms) =
      convert_results o (results ++ tool_result_block m ∷ []) ms
  convert_results o results (Message.user m ∷ ms) =
      results_message results ∷ convert_user m.content.plain m ++ convert_all o ms
  convert_results o results (Message.assistant m ∷ ms) =
      results_message results
        ∷ blocks_message Role.assistant (convert_assistant_blocks o (items m.content))
      ++ convert_all o ms

-- The switch on the type of the last block.
abbrev pub takes_cache : Block → Bool
takes_cache (Block.text _) = true
takes_cache (Block.image _ _) = true
takes_cache (Block.tool_result _ _ _) = true
takes_cache _ = false

unfoldable pub cache_last_block : CacheControl → List WireBlock → List WireBlock
cache_last_block cc [] = []
cache_last_block cc (b ∷ []) =
    (if takes_cache b.block then record b { cache = some cc } else b) ∷ []
cache_last_block cc (b ∷ c ∷ bs) = let rest = cache_last_block cc (c ∷ bs) in b ∷ rest

abbrev pub cache_content : CacheControl → Content → Content
cache_content cc (Content.plain t) =
    Content.blocks (record { block = Block.text t; cache = some cc } ∷ [])
cache_content cc (Content.blocks bs) = Content.blocks (cache_last_block cc bs)

abbrev pub cache_message : CacheControl → Role → WireMessage → WireMessage
cache_message cc Role.user w = record w { content = cache_content cc w.content }
cache_message cc Role.assistant w = w

-- `applyCacheControlToLastUserMessage`
unfoldable pub apply_cache_control : Option CacheControl → List WireMessage → List WireMessage
apply_cache_control none ws = ws
apply_cache_control (some cc) [] = []
apply_cache_control (some cc) (w ∷ []) = cache_message cc w.role w ∷ []
apply_cache_control (some cc) (w ∷ v ∷ ws) =
    let rest = apply_cache_control (some cc) (v ∷ ws) in w ∷ rest

abbrev pub id_normalizer : Option Normalizer
id_normalizer = some (λ id model message. normalize_tool_call_id id)

-- `convertMessages`; `now` is the clock that `TransformMessages` reads.
unfoldable pub convert_messages :
    (ℕ → ℤ) → Options → List Message → Model → Option CacheControl → List WireMessage
convert_messages now o ms model cache =
    apply_cache_control cache (convert_all o (transform_messages now ms model id_normalizer))
