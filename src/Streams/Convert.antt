-- ===== src/Streams/Convert.antt =====
-- internal/canonical_proxy.go, `streamCanonicalResult`: the stream of any provider, written for a client.
-- The choice of the reader and of the writer; HTTP headers and the counts of tokens that are returned are
-- left out.
pub mod ToAnthropic
pub mod ToChat
pub mod ToResponses
use buzzhive.Base.{
  ℕ, List, [], ◌∷◌, ◌++◌, Bool, true, false, not, ◌&&◌, Option, none, some, Text, text, text_eq,
  ◌==◌, if◌then◌else◌,
}
use buzzhive.Canonical.{CanonicalToolCall, StreamEvent, tool_call_done, Fallible}
use buzzhive.Streams.Read.{Scan, ReadResult}
use buzzhive.Streams.ReadChat.{ChatCodec, read_chat}
use buzzhive.Streams.ReadAnthropic
use buzzhive.Streams.ReadAnthropic.{read_anthropic}
use buzzhive.Streams.ReadGemini.{GeminiCodec, read_gemini}
use buzzhive.Streams.ReadResponses.{ResponsesCodec, read_responses}
use buzzhive.Streams.AnthropicOut
use buzzhive.Streams.AnthropicOut.{stream_to_anthropic}
use buzzhive.Streams.ChatOut.{ChatSse, stream_to_chat}
use buzzhive.Streams.ResponsesOut.{Value, stream_to_responses}
use buzzhive.Streams.GeminiOut.{GeminiSse, stream_to_gemini}

-- The protocol of the provider, with the decoding of its payloads.
pub data Outbound : Type 0 where
  openai : ChatCodec → Outbound
  openai_responses : ResponsesCodec → Outbound
  anthropic : (Text → Fallible ReadAnthropic.WireEvent) → Outbound
  gemini : GeminiCodec → Outbound

-- `read`: what it passes on to `emit`, and what it returns.
unfoldable pub read : Outbound → Text → Scan → ReadResult
read (openai codec) request_id scan = read_chat codec scan
read (openai_responses codec) request_id scan = read_responses codec scan
read (anthropic decode) request_id scan = read_anthropic decode scan
read (gemini codec) request_id scan = read_gemini codec request_id scan

abbrev pub signed_call : StreamEvent → Bool
signed_call e = elim e.type [ tool_call_done ↦ not (e.signature == []) | _ ↦ false ]

-- The calls for which `rememberingEmit` calls `rememberToolSignatures`, in order.
unfoldable pub remembered : List StreamEvent → List CanonicalToolCall
remembered [] = []
remembered (e ∷ es) =
    let rest = remembered es in
    if signed_call e
    then record { id = e.call_id; name = e.name; arguments = e.arguments; signature = e.signature }
      ∷ rest
    else rest

-- The branches of the client's protocol: what is written.
unfoldable pub stream_for_anthropic : Outbound → Text → Text → Scan → List AnthropicOut.Sse
unfolding read stream_to_anthropic
stream_for_anthropic outbound request_id model scan =
    (stream_to_anthropic request_id model (read outbound request_id scan)).out

unfoldable pub stream_for_chat : Outbound → Text → ℕ → Text → Bool → Scan → List ChatSse
unfolding read stream_to_chat
stream_for_chat outbound request_id created model include_usage scan =
    (stream_to_chat (text "chatcmpl-" ++ request_id) created model include_usage
      (read outbound request_id scan)).out

unfoldable pub stream_for_gemini : (Text → Text) → Outbound → Text → Scan → List GeminiSse
unfolding read stream_to_gemini
stream_for_gemini to_upper outbound request_id scan =
    (stream_to_gemini to_upper (read outbound request_id scan)).out

unfoldable pub stream_for_responses :
    (ℕ → Text) → Outbound → Text → ℕ → Text → Scan → List (ℕ × Value)
unfolding read stream_to_responses
stream_for_responses decimal outbound request_id created model scan =
    (stream_to_responses decimal request_id created model (read outbound request_id scan)).out
