-- ===== src/Lib.antt =====
-- kern-link (the repository kern-proxy) is a Go library that speaks to language-model providers: a
-- conversation is a list of messages, an adapter turns it into an HTTP request, the answer comes
-- back as server-sent events, and the adapter pushes events of its own onto a stream that one
-- consumer reads. This library models the parts between the caller and the adapters, and two
-- adapters.
--
-- The parts and their files:
-- - Messages: the messages, content blocks, usage and model descriptor of ai/types.go and
--   ai/model.go.
-- - Transform: `TransformMessages` of ai/apis/transform.go, which makes a recorded conversation
--   fit for a model that may not have written it. Its passes have a module each:
--   Transform/Normalize is `normalizeNilContent`, Transform/Images `downgradeUnsupportedImages`,
--   Transform/Blocks the loop of `transformOne` with the map of tool-call ids passed from message
--   to message, Transform/Orphans `insertOrphanToolResults`, and Transform/Pipeline the whole.
-- - Stream: the event queue of ai/stream.go over the events of ai/events.go. `Push`, `End` and a
--   round of `next` each run under the mutex, so each is one step. Stream/Pump is the goroutine of
--   `Events` beside a producer and a cancellation: `System` is the state of all three, and a run
--   is any list of actions that are enabled one after the other.
-- - Sse: the reader of ai/internal/sse/sse.go, byte by byte; Sse/Encode is the format it reads.
-- - PartialJson: ai/internal/partialjson. PartialJson/Repair is `Repair` of repair.go, which mends
--   the string literals of a fragment of JSON; PartialJson/Text and PartialJson/Parse are the
--   parser of partial.go, which reads JSON that is cut off anywhere, and `ParseStreaming`.
-- - Thinking: the ladder of thinking levels and `ClampThinkingLevel` of ai/cost.go.
-- - Budget: the limits on output and thinking of ai/apis/simpleopts.go.
-- - Estimate: the token estimates of ai/estimate.go. Budget takes an estimate from it.
-- - Retry: the classes of error texts of ai/retry.go, with a matcher for the form of regular
--   expression that its lists are written in.
-- - HttpRetry: the loop of `Do` in ai/apis/internal/httpretry/httpretry.go, over the classes of
--   Retry.
-- - DeviceCode: the polling loop of ai/auth/oauth/devicecode.go, which waits for a user to enter a
--   code.
-- - Registry: the collection of providers of ai/provider.go, with its lookups of providers and
--   models.
-- - Credentials: the store in memory of ai/credentialstore.go, with any number of goroutines.
-- - Resolve: `ResolveProviderAuth` of ai/resolve.go over the types of ai/auth.go. What the store,
--   the clock and the handlers answer is a `World`; Resolve/Refresh is any number of requests that
--   share a token, each a look without a lock and, if it has expired, a `Modify`.
-- - Anthropic: the adapter of ai/apis/anthropic/anthropic.go. Anthropic/Wire is what the server
--   sends, Anthropic/Blocks and Anthropic/Decode `decodeEvents`, Anthropic/Run the goroutine
--   `run`, which reads the response with Sse and pushes on Stream; Anthropic/Convert is
--   `convertMessages`, which calls Transform; Anthropic/Params is `StreamSimple`, with the limits
--   and the thinking in `buildParams`, and Anthropic/Request the rest of that; Anthropic/Sent is
--   `buildHeaders`; Anthropic/Names has the names of tools and the ids of calls. Anthropic/Replay
--   compares the decoder with the consumer of Replay.
-- - OpenAi: the adapter of ai/apis/openaicompletions/openaicompletions.go. OpenAi/Wire is what the
--   server sends, OpenAi/Blocks and OpenAi/Decode `decodeEvents`, OpenAi/Run the goroutine `run`;
--   it is read and told as in Anthropic. OpenAi/Message has the messages of a request and the ids
--   of calls, OpenAi/Convert is `convertMessages`, OpenAi/Caching the cache control in the
--   messages, OpenAi/Request `buildParams`, and OpenAi/Thinking `applyThinkingFormat`, with the
--   level that `StreamSimple` asks for, which Thinking clamps, and the names of levels in
--   OpenAi/Levels. OpenAi/Compat is `getCompat` of ai/apis/openaicompletions/compat.go, and
--   OpenAi/Sent `buildHeaders`.
-- - Headers: `MergeProviderHeaders` of ai/headers.go, and the loop of ai/apis/internal/httpretry/httpretry.go that sets the
--   headers of a request.
-- - Replay: a consumer of the events of any adapter, who adds up the deltas.
-- - Base: what the modules share. Tests: the theorems at concrete inputs, and runs of the code.
--
-- How the code's things are written down. The texts of messages are sequences of code points, so a
-- Go string that is not UTF-8 is not covered; the wire formats of Sse and PartialJson are lists of
-- bytes. A slice or a pointer that may be nil is an `Option`. The unions of messages and blocks
-- are closed, so the `default` branches of the type switches have no counterpart. An `int` is a ℤ,
-- wrapped to 64 bits (`int64`) where the source adds; counts of characters are in ℕ. What the code
-- takes from outside is a parameter: the clock (`now n` is read while the message at place n of
-- the output is made), the normaliser of tool-call ids, the result of `json.Marshal`, and, for the
-- retry loop, a `Round` for each attempt, which says what the network, the context, the timer and
-- the caller's hook do in it. `RetryAfterDelay` reads floating-point numbers and HTTP dates: a
-- `Round` holds its result. `ExponentialDelay` goes through `math.Pow` and is modelled for
-- attempts up to 62.
--
-- Fuel: the retry loop runs on fuel, one unit for each attempt. The retry cap plus one is enough,
-- since an attempt is repeated only below the cap. The device-code loop sleeps a second at least
-- or up to its deadline, so as many rounds as the deadline has seconds and one more are enough, on a
-- clock that does not go back.
-- The JSON parser calls itself for each bracket and each element, and takes two units of fuel for
-- each byte and one more, which is enough. All other loops are recursions on their list.
--
-- An adapter takes `json.Unmarshal` into each of its structs as a parameter, and
-- `ParseStreamingObject`; a failed type assertion and an index out of range are a result of the
-- model, `panics`.
--
-- Not modelled: prices (floating point), the encoding of messages and events as JSON, the other
-- adapters, the catalogue of models, how credentials are applied to a request, the store in a
-- file, the rest of OAuth, the command-line tool. Of a message, the response id, diagnostics and
-- routing fields are left out, which the modelled code copies and never reads.
pub mod Base
pub mod Messages
pub mod Transform
pub mod PartialJson
pub mod Sse
pub mod Stream
pub mod Replay
pub mod Thinking
pub mod Budget
pub mod Estimate
pub mod Retry
pub mod HttpRetry
pub mod DeviceCode
pub mod Registry
pub mod Credentials
pub mod Resolve
pub mod Anthropic
pub mod Headers
pub mod OpenAi
pub mod Tests
