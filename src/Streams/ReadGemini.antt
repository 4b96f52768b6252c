-- ===== src/Streams/ReadGemini.antt =====
-- internal/stream_convert.go, `readGeminiStreamAsCanonical`: a stream of Gemini, read as canonical events.
-- The decoding of a payload, `strings.ToLower` and the decimal print of a number are arguments.
pub mod Ends
use buzzhive.Base.{
  ℕ, ◌+◌, ltb, List, [], ◌∷◌, ◌++◌, Bool, true, false, ◌&&◌, Option, none, some, Text, text,
  text_eq, ◌==◌, if◌then◌else◌,
}
use buzzhive.Canonical.{
  CanonicalUsage, no_usage, StreamEvent, EventType, event_of, response_start, message_start,
  text_delta, refusal_delta, reasoning_delta, tool_call_start, tool_arguments_delta, tool_call_done,
  usage_report, response_done, stream_error, Fallible, good, bad,
}
use buzzhive.Protocols.Gemini.{GeminiResponse, gemini_to_events}
use buzzhive.Streams.Read.{
  Scan, ReadResult, Flow, go, leave, fail, each_line, sse_payload, read_end, error_event,
}

pub record GeminiError : Type 0 where
  pub code : ℕ
  pub message : Text
  pub status : Text

pub record GeminiCodec : Type 0 where
  pub error_of : Text → Option GeminiError
  pub chunk_of : Text → Fallible GeminiResponse
  pub decimal : ℕ → Text
  pub to_lower : Text → Text

pub record GeminiReader : Type 0 where
  pub events : List StreamEvent
  pub usage : CanonicalUsage
  pub tool_offset : ℕ
  pub terminated : Bool
  pub stream_err : Option Text

abbrev pub new_reader : Text → GeminiReader
new_reader request_id = record {
  events =
      record (event_of response_start) { id = request_id }
      ∷ record (event_of message_start) { role = text "assistant" }
      ∷ [];
  usage = no_usage;
  tool_offset = 0;
  terminated = false;
  stream_err = none;
}

-- The body of the loop over the events of a chunk.
unfoldable pub on_event : EventType → GeminiReader → StreamEvent → GeminiReader
on_event usage_report r e = record r { usage = e.usage; events = r.events ++ e ∷ [] }
on_event tool_call_done r e = record r {
  tool_offset = r.tool_offset + 1;
  events = r.events ++ e ∷ [];
}
on_event response_done r e =
    let reason =
      if ltb 0 r.tool_offset && e.finish_reason == text "stop"
      then text "tool_calls"
      else e.finish_reason in
    record r { terminated = true; events = r.events ++ record e { finish_reason = reason } ∷ [] }
on_event _ r e = record r { events = r.events ++ e ∷ [] }

unfoldable pub on_events : GeminiReader → List StreamEvent → GeminiReader
unfolding on_event
on_events r [] = r
on_events r (e ∷ es) = on_events (on_event e.type r e) es

unfoldable pub stop_with : GeminiCodec → GeminiReader → GeminiError → GeminiReader
stop_with codec r err =
    let code = if err.status == [] then codec.decimal err.code else err.status in
    record r {
      events = r.events ++ error_event code err.message ∷ [];
      stream_err = some (text "Gemini stream error " ++ (code ++ (text ": " ++ err.message)));
      terminated = true;
    }

unfoldable pub on_payload : GeminiCodec → Text → GeminiReader → Text → Flow GeminiReader
unfolding stop_with on_events
on_payload codec request_id r payload =
    if payload == text "[DONE]"
    then leave (record r { terminated = true })
    else elim (codec.error_of payload) [
      | some err ↦ leave (stop_with codec r err)
      | none ↦ elim (codec.chunk_of payload) [
        | bad message ↦ fail r (text "decode Gemini stream event: " ++ message)
        | good chunk ↦ go (
            on_events r
              (gemini_to_events codec.decimal codec.to_lower chunk request_id r.tool_offset))
      ]
    ]

unfoldable pub on_line : GeminiCodec → Text → GeminiReader → Text → Flow GeminiReader
unfolding sse_payload on_payload
on_line codec request_id r line = elim (sse_payload line) [
  | none ↦ go r
  | some payload ↦ on_payload codec request_id r payload
]

abbrev pub result : GeminiReader → Option Text → ReadResult
result r error = record { events = r.events; usage = r.usage; error = error }

unfoldable pub finish : Scan → GeminiReader → ReadResult
unfolding read_end
finish scan r =
    result r (read_end scan.error (text "read Gemini stream: ") r.stream_err r.terminated)

-- `readGeminiStreamAsCanonical`.
unfoldable pub read_gemini : GeminiCodec → Text → Scan → ReadResult
unfolding each_line on_line finish
read_gemini codec request_id scan =
    elim (each_line (on_line codec request_id) (new_reader request_id) scan.lines) [
      | go r ↦ finish scan r
      | leave r ↦ finish scan r
      | fail r message ↦ result r (some message)
    ]
