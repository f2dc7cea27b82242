-- ===== src/OpenAi/Sent.antt =====
-- `buildHeaders` of ai/apis/openaicompletions/openaicompletions.go: the headers that a request is sent with.
pub mod Authorized
use kern_proxy.Base.{
  Bool, not, ◌&&◌, Option, none, some, List, [], ◌∷◌, String, ◌=ₛ◌, ◌+ₛ◌, if◌then◌else◌,
}
use kern_proxy.Headers.{Headers, put, stated, overlay, merge_provider_headers}
use kern_proxy.Anthropic.Run.{Request}
use kern_proxy.OpenAi.Compat.{Compat}
use kern_proxy.OpenAi.Request.{Input, resolve_cache_retention}

abbrev pub signed : String → Headers
signed key =
    let base =
      put "accept" (some "text/event-stream")
        (put "content-type" (some "application/json") (λ k. none)) in
    if key =ₛ "" then base else put "authorization" (some ("Bearer " +ₛ key)) base

abbrev pub with_session : Bool → String → Headers → Headers
with_session t id h =
    if t
    then put "x-session-affinity" (some id)
        (put "x-client-request-id" (some id) (put "session_id" (some id) h))
    else h

-- `buildHeaders`
unfoldable pub build_headers : Request → Input → Compat → List (String × String) → Headers
build_headers r i c model_headers =
    merge_provider_headers
      (with_session
        (not (i.session_id =ₛ "")
          && not (resolve_cache_retention i =ₛ "none")
          && c.send_session_affinity_headers)
        i.session_id (overlay (stated model_headers) (signed r.api_key)))
      r.headers
