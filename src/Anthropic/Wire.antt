-- ===== src/Anthropic/Wire.antt =====
-- What the server sends (`rawMessageStart` and the other structs), and what is read off it. Each
-- `unmarshal` stands for `json.Unmarshal` into one of the structs; `none` is its error. Costs, the
-- one-hour share of cache writes and the response id are left out.
use kern_proxy.Base.{Bool, Option, none, some, List, String, ◌=ₛ◌, if◌then◌else◌}
use kern_proxy.Base.Bytes.{Bytes, eq_bytes}
use kern_proxy.Base.Int.{ℤ, pos, ◌+ℤ◌, int64}
use kern_proxy.Messages.{StopReason, Usage}
use kern_proxy.PartialJson.Repair.{repair}

-- `rawUsage`
pub record RawUsage : Type 0 where
  pub input_tokens : Option ℤ
  pub output_tokens : Option ℤ
  pub cache_read_input_tokens : Option ℤ
  pub cache_creation_input_tokens : Option ℤ

-- `rawContentBlockStart`; `input` is the JSON text of the object in it, if it is one.
pub record RawStart : Type 0 where
  pub index : ℤ
  pub type : String
  pub id : String
  pub name : String
  pub input : Option String
  pub payload : String

-- `rawContentBlockDelta`
pub record RawDelta : Type 0 where
  pub index : ℤ
  pub type : String
  pub text : String
  pub partial_json : String
  pub thinking : String
  pub signature : String

-- `rawMessageDelta`; `explanation` is that of `stop_details`.
pub record RawMessageDelta : Type 0 where
  pub stop_reason : Option String
  pub explanation : Option String
  pub usage : RawUsage

-- `object` is `partialjson.ParseStreamingObject` on texts, with its result as JSON text; `is_oauth`, `tools` (their names) and `to_lower` are
-- what `fromClaudeCodeName` needs. `string` gives
-- the text of bytes, and `parse_error` that of the error of `json.Unmarshal` on a payload.
pub record Json : Type 0 where
  pub unmarshal_type : Bytes → Option String
  pub unmarshal_message_start : Bytes → Option RawUsage
  pub unmarshal_block_start : Bytes → Option RawStart
  pub unmarshal_block_delta : Bytes → Option RawDelta
  pub unmarshal_block_stop : Bytes → Option ℤ
  pub unmarshal_message_delta : Bytes → Option RawMessageDelta
  pub object : String → String
  pub is_oauth : Bool
  pub tools : List String
  pub to_lower : String → String
  pub string : Bytes → String
  pub parse_error : Bytes → String

-- `decodeWithRepair`
unfoldable pub decode_with_repair : {A : Type 0} → (Bytes → Option A) → Bytes → Option A
decode_with_repair unmarshal payload = elim (unmarshal payload) [
  | some v ↦ some v
  | none ↦ if eq_bytes (repair payload) payload then none else unmarshal (repair payload)
]

abbrev or_zero : Option ℤ → ℤ
or_zero none = pos 0
or_zero (some n) = n

abbrev or_else : Option ℤ → ℤ → ℤ
or_else none old = old
or_else (some n) old = n

-- `output.Usage.TotalTokens = …`
unfoldable pub with_total : Usage → Usage
with_total u = record u {
  total_tokens = int64 (int64 (int64 (u.input +ℤ u.output) +ℤ u.cache_read) +ℤ u.cache_write);
}

-- `applyUsage`
unfoldable pub apply_usage : Usage → RawUsage → Usage
apply_usage u raw = record u {
  input = or_zero raw.input_tokens;
  output = or_zero raw.output_tokens;
  cache_read = or_zero raw.cache_read_input_tokens;
  cache_write = or_zero raw.cache_creation_input_tokens;
}

-- `applyUsageDelta`
unfoldable pub apply_usage_delta : Usage → RawUsage → Usage
apply_usage_delta u raw = record u {
  input = or_else raw.input_tokens u.input;
  output = or_else raw.output_tokens u.output;
  cache_read = or_else raw.cache_read_input_tokens u.cache_read;
  cache_write = or_else raw.cache_creation_input_tokens u.cache_write;
}

abbrev refusal : Option String → String
refusal none = "The model refused to complete the request"
refusal (some e) = if e =ₛ "" then "The model refused to complete the request" else e

-- `mapStopReason`; `none` is its error.
unfoldable pub map_stop_reason : String → Option String → Option (StopReason × String)
map_stop_reason reason details =
    if reason =ₛ "end_turn"
    then some (StopReason.stop, "")
    else if reason =ₛ "max_tokens"
    then some (StopReason.length, "")
    else if reason =ₛ "tool_use"
    then some (StopReason.tool_use, "")
    else if reason =ₛ "refusal"
    then some (StopReason.error, refusal details)
    else if reason =ₛ "pause_turn"
    then some (StopReason.stop, "")
    else if reason =ₛ "stop_sequence"
    then some (StopReason.stop, "")
    else if reason =ₛ "sensitive"
    then some (StopReason.error, "")
    else none
