-- ===== src/Anthropic/Sent.antt =====
-- `buildHeaders` of ai/apis/anthropic/anthropic.go: the headers that a request is sent with.
use kern_proxy.Base.{
  Bool, true, false, not, ◌&&◌, none, some, List, [], ◌∷◌, String, ◌=ₛ◌, ◌+ₛ◌, if◌then◌else◌,
}
use kern_proxy.Headers.{Headers, put, stated, overlay, merge_provider_headers}
use kern_proxy.Anthropic.Names.{is_oauth_token}
use kern_proxy.Anthropic.Params.{given}
use kern_proxy.Anthropic.Request.{Input}
use kern_proxy.Anthropic.Run.{Request}

abbrev has_some : {A : Type 0} → List A → Bool
has_some [] = false
has_some (a ∷ rest) = true

-- `needsFineGrainedToolStreamingBeta`
abbrev pub needs_fine_grained_tool_streaming : Input → Bool
needs_fine_grained_tool_streaming i =
    has_some i.tools && not (given i.compat.eager_tool_input_streaming true)

-- `strings.Join(betas, ",")`
unfoldable pub join_commas : List String → String
join_commas [] = ""
join_commas (b ∷ []) = b
join_commas (b ∷ c ∷ bs) = let rest = join_commas (c ∷ bs) in b +ₛ "," +ₛ rest

abbrev pub fine_grained : Input → List String
fine_grained i =
    if needs_fine_grained_tool_streaming i
    then "fine-grained-tool-streaming-2025-05-14" ∷ []
    else []

abbrev pub betas : Input → String → List String
betas i key =
    if is_oauth_token key
    then "claude-code-20250219" ∷ "oauth-2025-04-20" ∷ fine_grained i
    else fine_grained i

abbrev pub with_betas : List String → Headers → Headers
with_betas bs h = if has_some bs then put "anthropic-beta" (some (join_commas bs)) h else h

abbrev pub signed : String → Headers
signed key =
    let base = put "anthropic-version" (some "2023-06-01") (
      put "accept" (some "text/event-stream")
        (put "content-type" (some "application/json") (λ k. none))) in
    if is_oauth_token key
    then put "x-app" (some "cli") (
        put "user-agent" (some "claude-cli/2.1.75") (
          put "anthropic-dangerous-direct-browser-access" (some "true")
            (put "authorization" (some ("Bearer " +ₛ key)) base)))
    else if key =ₛ ""
    then base
    else put "x-api-key" (some key) base

-- `buildHeaders`
unfoldable pub build_headers : Request → Input → List (String × String) → Headers
build_headers r i model_headers =
    merge_provider_headers
      (overlay (stated model_headers) (with_betas (betas i r.api_key) (signed r.api_key))) r.headers
