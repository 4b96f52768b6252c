-- ===== src/Streams/ReadAnthropic.antt =====
-- internal/stream_convert.go, `readAnthropicStreamAsCanonical`: a stream of Anthropic Messages, read as
-- canonical events. The decoding of a payload is an argument; the places of blocks are in ℕ.
pub mod Ends
pub mod Cut
use buzzhive.Base.{
  ℕ, ◌+◌, List, [], ◌∷◌, ◌++◌, Bool, true, false, not, ◌&&◌, ◌||◌, Option, none, some, Text, text,
  text_eq, nat_eq, ◌==◌, if◌then◌else◌,
}
use buzzhive.Canonical.{
  CanonicalUsage, no_usage, is_zero, StreamEvent, event_of, response_start, message_start,
  text_delta, refusal_delta, reasoning_delta, tool_call_start, tool_arguments_delta, tool_call_done,
  usage_report, response_done, Fallible, good, bad,
}
use buzzhive.Protocols.Anthropic.{AnthropicUsage, AnthropicStopDetails, stop_reason_to_canonical}
use buzzhive.Streams.Read.{
  Scan, ReadResult, Flow, go, leave, fail, each_line, sse_payload, read_end, first_non_empty,
  error_event,
}
use buzzhive.Streams.Tools.{Tracker, new_tracker, start, delta, done, and_then, done_all}

-- The event of the wire, with the fields of its nested objects: of `Message`, of the content block, of
-- the delta and of the error those that are read.
pub record WireEvent : Type 0 where
  pub type : Text
  pub index : ℕ
  pub message_id : Text
  pub message_model : Text
  pub message_role : Text
  pub message_usage : AnthropicUsage
  pub block_type : Text
  pub block_id : Text
  pub block_name : Text
  pub delta_type : Text
  pub delta_text : Text
  pub thinking : Text
  pub signature : Text
  pub partial_json : Text
  pub stop_reason : Text
  pub stop_details : Option AnthropicStopDetails
  pub usage : AnthropicUsage
  pub error_type : Text
  pub error_message : Text

pub record AnthropicReader : Type 0 where
  pub events : List StreamEvent
  pub usage : CanonicalUsage
  pub tools : Tracker
  pub response_done_seen : Bool
  pub message_delta_seen : Bool
  pub finish_reason : Text

abbrev pub new_reader : AnthropicReader
new_reader = record {
  events = [];
  usage = no_usage;
  tools = new_tracker;
  response_done_seen = false;
  message_delta_seen = false;
  finish_reason = [];
}

unfoldable pub thinking_or : Option ℕ → ℕ → ℕ
thinking_or none n = n
thinking_or (some t) n = if t == 0 then n else t

-- `mergeAnthropicStreamUsage`.
unfoldable pub merge_usage : CanonicalUsage → AnthropicUsage → CanonicalUsage
unfolding thinking_or
merge_usage u next =
    let counted =
      next.input_tokens == 0
      && (next.cache_creation_input_tokens == 0 && next.cache_read_input_tokens == 0) in
    let prompt =
      if counted
      then u.prompt_tokens
      else next.input_tokens + next.cache_creation_input_tokens + next.cache_read_input_tokens in
    let completion = if next.output_tokens == 0 then u.completion_tokens else next.output_tokens in
    record {
      prompt_tokens = prompt;
      completion_tokens = completion;
      total_tokens = prompt + completion;
      cached_tokens =
          if next.cache_read_input_tokens == 0
          then u.cached_tokens
          else next.cache_read_input_tokens;
      reasoning_tokens = thinking_or next.thinking_tokens u.reasoning_tokens;
    }

abbrev pub on_event : AnthropicReader → StreamEvent → AnthropicReader
on_event r e = record r { events = r.events ++ e ∷ [] }

-- What a call on the tracker gives out is passed on.
abbrev pub on_call : AnthropicReader → Tracker × Option StreamEvent → AnthropicReader
on_call r c = record r { tools = c.0; events = r.events ++ and_then c.1 [] }

unfoldable pub end_tools : AnthropicReader → AnthropicReader
end_tools r =
    let (tools, out) = done_all r.tools in record r { tools = tools; events = r.events ++ out }

unfoldable pub give_usage : AnthropicReader → AnthropicReader
give_usage r =
    if is_zero r.usage then r else on_event r (record (event_of usage_report) { usage = r.usage })

unfoldable pub on_message_start : AnthropicReader → WireEvent → AnthropicReader
unfolding merge_usage
on_message_start r w = record r {
  usage = merge_usage r.usage w.message_usage;
  events =
      r.events
      ++ record (event_of response_start) { id = w.message_id; model = w.message_model }
        ∷ record (event_of message_start) { role = w.message_role }
        ∷ [];
}

unfoldable pub on_block_start : AnthropicReader → WireEvent → AnthropicReader
on_block_start r w =
    if w.block_type == text "tool_use"
    then on_call r (
        start r.tools (record (event_of tool_call_start) {
          index = w.index;
          call_id = w.block_id;
          name = w.block_name;
        }))
    else r

unfoldable pub on_arguments : AnthropicReader → WireEvent → AnthropicReader
on_arguments r w =
    let (tools, out) =
      delta r.tools
        (record (event_of tool_arguments_delta) { index = w.index; delta = w.partial_json }) in
    record r { tools = tools; events = r.events ++ out ∷ [] }

unfoldable pub on_block_delta : AnthropicReader → WireEvent → AnthropicReader
unfolding on_arguments
on_block_delta r w =
    if w.delta_type == text "text_delta"
    then on_event r (record (event_of text_delta) { index = w.index; delta = w.delta_text })
    else if w.delta_type == text "thinking_delta"
    then on_event r (record (event_of reasoning_delta) { index = w.index; delta = w.thinking })
    else if w.delta_type == text "signature_delta"
    then on_event r (record (event_of reasoning_delta) { index = w.index; signature = w.signature })
    else if w.delta_type == text "input_json_delta"
    then on_arguments r w
    else r

unfoldable pub on_block_stop : AnthropicReader → WireEvent → AnthropicReader
on_block_stop r w = on_call r (done r.tools (record (event_of tool_call_done) { index = w.index }))

unfoldable pub refusal_of : Option AnthropicStopDetails → Text
unfolding first_non_empty
refusal_of none = text "Anthropic refused the request"
refusal_of (some d) =
    first_non_empty (d.explanation ∷ d.category ∷ text "Anthropic refused the request" ∷ [])

unfoldable pub give_refusal : AnthropicReader → WireEvent → AnthropicReader
unfolding refusal_of
give_refusal r w =
    if w.stop_reason == text "refusal"
    then on_event r (record (event_of refusal_delta) { delta = refusal_of w.stop_details })
    else r

unfoldable pub on_message_delta : AnthropicReader → WireEvent → AnthropicReader
unfolding stop_reason_to_canonical merge_usage end_tools give_usage give_refusal
on_message_delta r w =
    let r' = record r {
      message_delta_seen = true;
      finish_reason = stop_reason_to_canonical w.stop_reason;
      usage = merge_usage r.usage w.usage;
    } in
    give_refusal (give_usage (end_tools r')) w

unfoldable pub on_message_stop : AnthropicReader → Flow AnthropicReader
on_message_stop r =
    if r.message_delta_seen
    then leave (record r {
      events = r.events ++ record (event_of response_done) { finish_reason = r.finish_reason } ∷ [];
      response_done_seen = true;
    })
    else fail r (text "Anthropic message_stop arrived before message_delta")

-- The switch over the types of events; a type that is not listed does nothing.
unfoldable pub on_wire : AnthropicReader → WireEvent → Flow AnthropicReader
unfolding on_message_start on_block_start on_block_delta on_block_stop on_message_delta
    on_message_stop
on_wire r w =
    if w.type == text "message_start"
    then go (on_message_start r w)
    else if w.type == text "content_block_start"
    then go (on_block_start r w)
    else if w.type == text "content_block_delta"
    then go (on_block_delta r w)
    else if w.type == text "content_block_stop"
    then go (on_block_stop r w)
    else if w.type == text "message_delta"
    then go (on_message_delta r w)
    else if w.type == text "message_stop"
    then on_message_stop r
    else if w.type == text "error"
    then fail (on_event r (error_event w.error_type w.error_message))
        (text "Anthropic stream error " ++ (w.error_type ++ (text ": " ++ w.error_message)))
    else go r

unfoldable pub on_line : (Text → Fallible WireEvent) → AnthropicReader → Text → Flow AnthropicReader
unfolding sse_payload on_wire
on_line decode r line = elim (sse_payload line) [
  | none ↦ go r
  | some payload ↦ elim (decode payload) [
    | bad message ↦ fail r (text "decode Anthropic stream event: " ++ message)
    | good w ↦ on_wire r w
  ]
]

abbrev pub result : AnthropicReader → Option Text → ReadResult
result r error = record { events = r.events; usage = r.usage; error = error }

unfoldable pub finish : Scan → AnthropicReader → ReadResult
unfolding end_tools give_usage read_end
finish scan r =
    let r' = end_tools r in
    let r'' = if r'.response_done_seen then r' else give_usage r' in
    result r'' (read_end scan.error (text "read Anthropic stream: ") none r''.response_done_seen)

-- `readAnthropicStreamAsCanonical`.
unfoldable pub read_anthropic : (Text → Fallible WireEvent) → Scan → ReadResult
unfolding each_line on_line finish
read_anthropic decode scan = elim (each_line (on_line decode) new_reader scan.lines) [
  | go r ↦ finish scan r
  | leave r ↦ finish scan r
  | fail r message ↦ result r (some message)
]
