-- ===== src/OpenAi/Wire.antt =====
-- What the server sends (`rawChunk` and the structs in it) in ai/apis/openaicompletions/openaicompletions.go, and
-- what is read off it. The unmarshalling functions stand for `json.Unmarshal` into one of the structs,
-- with `none` for its error. The response's id and model are left out, and the reasoning tokens.
use kern_proxy.Base.{
  Bool, not, ◌&&◌, ◌||◌, Option, none, some, List, String, ◌=ₛ◌, ◌+ₛ◌, if◌then◌else◌,
}
use kern_proxy.Base.Bytes.{Bytes}
use kern_proxy.Base.Int.{ℤ, pos, ◌+ℤ◌, ◌-ℤ◌, ltb_ℤ, int64}
use kern_proxy.Messages.{StopReason, Usage}

-- `rawPromptTokenDetails`
pub record RawDetails : Type 0 where
  pub cached_tokens : ℤ
  pub cache_write_tokens : ℤ

-- `rawUsage`
pub record RawUsage : Type 0 where
  pub prompt_tokens : ℤ
  pub completion_tokens : ℤ
  pub prompt_cache_hit_tokens : ℤ
  pub prompt_tokens_details : Option RawDetails

-- `rawToolCallDeltaFunc`
pub record RawFunction : Type 0 where
  pub name : String
  pub arguments : String

-- `rawToolCallDelta`
pub record RawToolCall : Type 0 where
  pub index : Option ℤ
  pub id : String
  pub function : Option RawFunction

-- `rawDelta`; the details of the reasoning are JSON texts.
pub record RawDelta : Type 0 where
  pub content : Option String
  pub reasoning_content : String
  pub reasoning : String
  pub reasoning_text : String
  pub tool_calls : List RawToolCall
  pub reasoning_details : List String

-- `rawReasoningDetail`
pub record RawDetail : Type 0 where
  pub type : String
  pub id : String
  pub payload : String

-- `rawChoice`
pub record RawChoice : Type 0 where
  pub delta : Option RawDelta
  pub finish_reason : Option String
  pub usage : Option RawUsage

-- `rawChunk`
pub record RawChunk : Type 0 where
  pub choices : List RawChoice
  pub usage : Option RawUsage

-- `object` is `partialjson.ParseStreamingObject` on texts, with its result as JSON text; `marshal_detail`
-- is `json.Marshal`.
pub record Json : Type 0 where
  pub unmarshal_chunk : Bytes → Option RawChunk
  pub unmarshal_detail : String → Option RawDetail
  pub marshal_detail : RawDetail → Option String
  pub object : String → String

-- `isEncrypted`
unfoldable pub is_encrypted : RawDetail → Bool
is_encrypted d = (d.type =ₛ "reasoning.encrypted") && not (d.id =ₛ "") && not (d.payload =ₛ "")

-- `reasoningField`
unfoldable pub reasoning_field : RawDelta → String × String
reasoning_field d =
    if not (d.reasoning_content =ₛ "")
    then ("reasoning_content", d.reasoning_content)
    else if not (d.reasoning =ₛ "")
    then ("reasoning", d.reasoning)
    else if not (d.reasoning_text =ₛ "")
    then ("reasoning_text", d.reasoning_text)
    else ("", "")

abbrev pub cache_tokens : ℤ → Option RawDetails → ℤ × ℤ
cache_tokens hit none = (hit, pos 0)
cache_tokens hit (some d) = (d.cached_tokens, d.cache_write_tokens)

abbrev pub not_below_zero : ℤ → ℤ
not_below_zero n = if ltb_ℤ n (pos 0) then pos 0 else n

-- `parseChunkUsage`
unfoldable pub parse_chunk_usage : RawUsage → Usage
parse_chunk_usage raw =
    let (read, write) = cache_tokens raw.prompt_cache_hit_tokens raw.prompt_tokens_details in
    let input = not_below_zero (int64 (int64 (raw.prompt_tokens -ℤ read) -ℤ write)) in
    record {
      input = input;
      output = raw.completion_tokens;
      cache_read = read;
      cache_write = write;
      total_tokens = int64 (int64 (int64 (input +ℤ raw.completion_tokens) +ℤ read) +ℤ write);
    }

-- `mapStopReason`
unfoldable pub map_stop_reason : String → StopReason × String
map_stop_reason reason =
    if (reason =ₛ "stop") || (reason =ₛ "end")
    then (StopReason.stop, "")
    else if reason =ₛ "length"
    then (StopReason.length, "")
    else if (reason =ₛ "function_call") || (reason =ₛ "tool_calls")
    then (StopReason.tool_use, "")
    else (StopReason.error, "Provider finish_reason: " +ₛ reason)
