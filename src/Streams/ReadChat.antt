-- ===== src/Streams/ReadChat.antt =====
-- internal/stream_convert.go, `readOpenAIChatStreamAsCanonical`: a stream of OpenAI Chat, read as canonical
-- events. The decoding of a payload is an argument.
pub mod Ends
use buzzhive.Base.{
  ℕ, List, [], ◌∷◌, ◌++◌, Bool, true, false, Option, none, some, Text, text, text_eq, ◌==◌,
  if◌then◌else◌,
}
use buzzhive.Canonical.{
  CanonicalUsage, no_usage, StreamEvent, EventType, event_of, response_start, message_start,
  text_delta, refusal_delta, reasoning_delta, tool_call_start, tool_arguments_delta, tool_call_done,
  usage_report, response_done, stream_error, Fallible, good, bad,
}
use buzzhive.Protocols.OpenaiChat.{ChatResponse}
use buzzhive.Protocols.OpenaiChat.Stream.{chunk_to_canonical}
use buzzhive.Streams.Read.{
  Scan, ReadResult, Flow, go, leave, fail, each_line, sse_payload, read_end, first_non_empty,
  error_event,
}
use buzzhive.Streams.Tools.{Tracker, new_tracker, start, delta, and_then, done_all}

pub record ChatError : Type 0 where
  pub code : Text
  pub type : Text
  pub message : Text

-- `json.Unmarshal` of a payload: into an error, where it holds one, and into a chunk.
pub record ChatCodec : Type 0 where
  pub error_of : Text → Option ChatError
  pub chunk_of : Text → Fallible ChatResponse

pub record ChatReader : Type 0 where
  pub events : List StreamEvent
  pub usage : CanonicalUsage
  pub tools : Tracker
  pub done : Option StreamEvent
  pub response_started : Bool
  pub terminated : Bool
  pub stream_err : Option Text

abbrev pub new_reader : ChatReader
new_reader = record {
  events = [];
  usage = no_usage;
  tools = new_tracker;
  done = none;
  response_started = false;
  terminated = false;
  stream_err = none;
}

-- `onEvent(toolEvent)` for each of `doneAll`.
unfoldable pub end_tools : ChatReader → ChatReader
end_tools r =
    let (tools, out) = done_all r.tools in record r { tools = tools; events = r.events ++ out }

-- The switch over the events of a chunk.
unfoldable pub on_event : EventType → ChatReader → StreamEvent → ChatReader
unfolding end_tools
on_event tool_call_start r e =
    let (tools, out) = start r.tools e in
    record r { tools = tools; events = r.events ++ and_then out [] }
on_event tool_arguments_delta r e =
    let (tools, out) = delta r.tools e in record r { tools = tools; events = r.events ++ out ∷ [] }
on_event usage_report r e = record r { usage = e.usage; events = r.events ++ e ∷ [] }
on_event response_done r e = record (end_tools r) { done = some e }
on_event _ r e = record r { events = r.events ++ e ∷ [] }

unfoldable pub on_events : ChatReader → List StreamEvent → ChatReader
unfolding on_event
on_events r [] = r
on_events r (e ∷ es) = on_events (on_event e.type r e) es

unfoldable pub begin_response : ChatReader → ChatResponse → ChatReader
begin_response r chunk = if r.response_started then r else record r {
  response_started = true;
  events =
      r.events
      ++ record (event_of response_start) {
        id = chunk.id;
        created = chunk.created;
        model = chunk.model;
      }
        ∷ [];
}

unfoldable pub stop_with : ChatReader → ChatError → ChatReader
unfolding first_non_empty
stop_with r err =
    let code = first_non_empty (err.code ∷ err.type ∷ []) in
    record r {
      events = r.events ++ error_event code err.message ∷ [];
      stream_err = some (text "OpenAI Chat stream error " ++ (code ++ (text ": " ++ err.message)));
      terminated = true;
    }

unfoldable pub on_payload : ChatCodec → ChatReader → Text → Flow ChatReader
unfolding stop_with begin_response on_events
on_payload codec r payload =
    if payload == text "[DONE]"
    then leave (record r { terminated = true })
    else elim (codec.error_of payload) [
      | some err ↦ leave (stop_with r err)
      | none ↦ elim (codec.chunk_of payload) [
        | bad message ↦ fail r (text "decode OpenAI Chat stream event: " ++ message)
        | good chunk ↦ go (on_events (begin_response r chunk) (chunk_to_canonical chunk))
      ]
    ]

unfoldable pub on_line : ChatCodec → ChatReader → Text → Flow ChatReader
unfolding sse_payload on_payload
on_line codec r line = elim (sse_payload line) [
  | none ↦ go r
  | some payload ↦ on_payload codec r payload
]

unfoldable pub give_done : ChatReader → ChatReader
give_done r = elim r.done [
  | none ↦ r
  | some e ↦ record r { events = r.events ++ e ∷ []; terminated = true }
]

abbrev pub result : ChatReader → Option Text → ReadResult
result r error = record { events = r.events; usage = r.usage; error = error }

unfoldable pub finish : Scan → ChatReader → ReadResult
unfolding end_tools give_done read_end
finish scan r =
    let r' = give_done (end_tools r) in
    result r' (read_end scan.error (text "read OpenAI Chat stream: ") r'.stream_err r'.terminated)

-- `readOpenAIChatStreamAsCanonical`.
unfoldable pub read_chat : ChatCodec → Scan → ReadResult
unfolding each_line on_line finish
read_chat codec scan = elim (each_line (on_line codec) new_reader scan.lines) [
  | go r ↦ finish scan r
  | leave r ↦ finish scan r
  | fail r message ↦ result r (some message)
]
