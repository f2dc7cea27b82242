-- ===== src/OpenAi/Message.antt =====
-- The messages of an OpenAI completions request (`wireMessage` and the structs in it) in
-- ai/apis/openaicompletions/openaicompletions.go, and the ids of calls. Texts are sequences of Unicode scalar values, which
-- `SanitizeSurrogates` leaves alone.
use Prim.Native.Char.{Char, code}
use kern_proxy.Base.{
  ℕ, ◌-◌, Bool, Option, none, some, List, [], String, ◌=ₛ◌, ◌==◌, ltb, leb, if◌then◌else◌,
}
use kern_proxy.Messages.{Model}
use kern_proxy.Anthropic.Names.{replace_chars, cut_at}
use kern_proxy.Anthropic.Convert.{CacheControl}

pub data Role : Type 0 where
  system developer user assistant tool : Role

pub data PartKind : Type 0 where
  text : String → PartKind
  image_url : String → PartKind

-- `wireContentPart`
pub record ContentPart : Type 0 where
  pub kind : PartKind
  pub cache : Option CacheControl

-- A nil content, a text, or parts.
pub data Content : Type 0 where
  absent : Content
  plain : String → Content
  parts : List ContentPart → Content

-- `wireToolCall`
pub record WireCall : Type 0 where
  pub id : String
  pub name : String
  pub arguments : String

-- The fields under which thinking is sent back.
pub record Reasoning : Type 0 where
  pub reasoning_content : Option String
  pub reasoning : Option String
  pub reasoning_text : Option String

-- `wireMessage`
pub record WireMessage : Type 0 where
  pub role : Role
  pub content : Content
  pub tool_calls : List WireCall
  pub tool_call_id : String
  pub name : String
  pub reasoning : Reasoning
  pub reasoning_details : List String

-- The fields of `resolvedCompat` and of the model that are read here; `valid` is `json.Valid`.
pub record Options : Type 0 where
  pub provider : String
  pub reasoning : Bool
  pub supports_developer_role : Bool
  pub requires_tool_result_name : Bool
  pub requires_assistant_after_tool_result : Bool
  pub requires_thinking_as_text : Bool
  pub requires_reasoning_content : Bool
  pub valid : String → Bool

abbrev pub no_reasoning : Reasoning
no_reasoning = record { reasoning_content = none; reasoning = none; reasoning_text = none }

abbrev pub message : Role → Content → WireMessage
message role content = record {
  role = role;
  content = content;
  tool_calls = [];
  tool_call_id = "";
  name = "";
  reasoning = no_reasoning;
  reasoning_details = [];
}

-- The text before the first `|`, if there is one.
unfoldable pub before_bar : String → Option String
before_bar String.[] = none
before_bar (String.◌∷◌ c s) =
    let rest = before_bar s in
    if code c == b'|'
    then some String.[]
    else elim rest [ none ↦ none | some t ↦ some (String.◌∷◌ c t) ]

-- The bytes of a character.
abbrev pub width : Char → ℕ
width c =
    if ltb (code c) 0x80
    then 1
    else if ltb (code c) 0x800
    then 2
    else if ltb (code c) 0x10000
    then 3
    else 4

-- `id[:n]`. A cut inside a character would leave what is no text; here the character goes.
unfoldable pub cut_bytes : ℕ → String → String
cut_bytes n String.[] = String.[]
cut_bytes n (String.◌∷◌ c s) =
    let rest = cut_bytes (n - width c) s in if leb (width c) n then String.◌∷◌ c rest else String.[]

abbrev pub normalized : Model → String → Option String → String
normalized m id none = if m.provider =ₛ "openai" then cut_bytes 40 id else id
normalized m id (some call_id) = cut_at 40 (replace_chars call_id)

-- `normalizeToolCallID`: a text of 40 bytes at most is left whole by the cut.
unfoldable pub normalize_tool_call_id : Model → String → String
normalize_tool_call_id m id = normalized m id (before_bar id)

abbrev pub bare : PartKind → ContentPart
bare kind = record { kind = kind; cache = none }
