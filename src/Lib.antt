-- ===== src/Lib.antt =====
-- The core of Buzz, a proxy in front of several providers of language models: which upstream targets
-- and provider keys a request tries, in what order and how often, whether its user has quota left, and
-- how the answer of a provider reaches a client that speaks another protocol.
--
-- The parts and their files:
--   Types       internal/types.go, internal/store_types.go: the shared records
--   Keys        internal/key_state.go: `KeyState`, the keys in rotation and their cooldowns
--   Cache       internal/runtime_cache.go: the cooldowns that processes share through Redis
--   Cooldown    internal/key_cooldown.go: `nextProviderKey` and the marks, over Keys and Cache
--   Routing     internal/provider.go, internal/route_session.go: the targets of a request, their
--               rotation by round robin or weight, and the session that keeps a user on one route
--   Attempts    internal/provider.go, internal/util.go: `doProviderAttemptLoop`, which takes keys from
--               Cooldown, and the loop over the targets
--   Dispatch    internal/provider.go: `doProviderTargetLoop`, a whole request over Routing and Attempts
--   Quota       internal/store_quota.go, internal/quota.go, internal/store_usage.go: weeks, the gate of
--               `enforceUserQuota`, and what `InsertUsageBatch` charges (Quota/Batch: its transaction)
--   Signatures  internal/tool_signatures.go: the table of the signatures of tool calls
--   Admins      internal/runtime_cache.go: admin sessions in Redis and their revocation
--   Shared      internal/runtime_cache.go: route sessions and tool signatures in Redis
--   Errors      internal/protocol_errors.go: the names of errors in each protocol
--   Canonical   internal/protocol/canonical.go: answers and stream events between two protocols
--   Protocols   internal/protocol: an answer or stream chunk of OpenAI Chat, OpenAI Responses, Anthropic
--               and Gemini, to and from the canonical form
--   Streams     internal/stream_convert.go, internal/cross_protocol_routes.go: the readers of the four
--               protocols (Read*), the tracker of tool calls (Tools), the writers (*Out), and
--               internal/canonical_proxy.go, `streamCanonicalResult`, which joins them (Convert)
--               The modules below a writer show what it keeps: AnthropicOut/Grammar and Content,
--               ResponsesOut/Items to Answer, ChatOut/Ends; those below Convert join a reader and a
--               writer, so that their results are about whole streams
--   Tests       concrete inputs, and the theorems applied to them
-- A function bears the name of the Go function in snake case. A method that writes takes the state and
-- returns the new one; the mutex of a component is held for all of a method, so that a method is one
-- step. Base holds byte strings, maps, tests and list lemmas.
--
-- Numbers: instants and durations are nanoseconds in ℕ, so the clock does not stand before the zero time
-- and no duration of the configuration is negative. Identifiers, token counts and credits are in ℕ; the
-- sums of microcredits do not wrap around. Where Go subtracts int64, ℕ stops at 0; the comments say why
-- this is the same. The difference of two instants that starts a week saturates at the greatest int64, as
-- `Sub` does in Go, so that weeks are exact for 292 years after their anchor.
--
-- Fuel: `next_provider_key` is a loop without a bound in Go; a round that finds a shared cooldown rests a
-- key here, so one round more than there are keys is enough, if no reading of the clock falls on a
-- whole second (a shared cooldown ends on one, and at that instant Redis still rests the key while the
-- local state does not). The other loops are structural, over the keys, the attempts left or the
-- targets; `trim` of Signatures runs on the number of entries, of which each round removes one at least.
--
-- Streams: a scanner is the list of the lines that it gives and the error at its end; a reader's
-- events are collected and then written, which is the same, since no writer can stop a reader. A place of a
-- tool call or block is in ℕ.
--
-- Parameters: Redis, SHA-256, the decimal print of an integer, the JSON codec, the reading of an upstream
-- error, the clock and the jitter, the upstream's answers, and the database with its transactions. Nothing
-- is assumed of them but what a theorem says. Routing keeps the calls that it makes on the shared sessions
-- (`told`, the newest first), and takes the answers as arguments. One reading of the clock serves all rounds
-- of a call of `next_provider_key`, where Go reads it in each.
--
-- Not modelled: HTTP, SQL text, the conversion of requests between protocols, usage statistics, users,
-- sessions in the database, the admin API and its pages, presets, start-up.
mod Base
pub mod Types
pub mod Keys
pub mod Cache
pub mod Routing
pub mod Cooldown
pub mod Attempts
pub mod Dispatch
pub mod Quota
pub mod Signatures
pub mod Admins
pub mod Errors
pub mod Shared
pub mod Canonical
pub mod Protocols
pub mod Streams
mod Tests
