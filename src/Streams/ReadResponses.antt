-- ===== src/Streams/ReadResponses.antt =====
-- internal/stream_convert.go, `readResponsesStreamAsCanonical`: a stream of OpenAI Responses, read as
-- canonical events. The decoding of a payload and the verb `%q` of the package `fmt` are arguments; the
-- places of items are in ℕ.
pub mod Ends
use buzzhive.Base.{
  ℕ, ◌≡◌, length, List, [], ◌∷◌, ◌++◌, Bool, true, false, not, ◌&&◌, ◌||◌, Option, none, some, Text,
  text, text_eq, ◌==◌, if◌then◌else◌,
}
use buzzhive.Base.Maps.{get_or}
use buzzhive.Canonical.{
  CanonicalUsage, no_usage, is_zero, CanonicalToolCall, CanonicalResponse, StreamEvent, event_of,
  response_start, message_start, text_delta, refusal_delta, reasoning_delta, tool_call_start,
  tool_arguments_delta, tool_call_done, usage_report, response_done, Fallible, good, bad,
}
use buzzhive.Protocols.Responses.{OutputItem, ResponsesResponse, responses_to_canonical}
use buzzhive.Streams.Read.{
  Scan, ReadResult, Flow, go, leave, fail, each_line, sse_payload, read_end, first_non_empty,
  error_event,
}
use buzzhive.Streams.Tools.{
  Tracker, new_tracker, start, delta, done, and_then, done_all, index_for_call_id,
}

pub record WireEvent : Type 0 where
  pub type : Text
  pub delta : Text
  pub arguments : Text
  pub name : Text
  pub item_id : Text
  pub output_index : ℕ
  pub item : OutputItem
  pub response : ResponsesResponse
  pub code : Text
  pub message : Text

pub record ResponsesCodec : Type 0 where
  pub event_of_payload : Text → Fallible WireEvent
  pub quote : Text → Text

pub record ResponsesReader : Type 0 where
  pub events : List StreamEvent
  pub usage : CanonicalUsage
  pub tools : Tracker
  pub reasoning_seen : Bool
  pub text_seen : Bool
  pub refusal_seen : Bool
  pub terminated : Bool

abbrev pub new_reader : ResponsesReader
new_reader = record {
  events = [];
  usage = no_usage;
  tools = new_tracker;
  reasoning_seen = false;
  text_seen = false;
  refusal_seen = false;
  terminated = false;
}

abbrev pub on_event : ResponsesReader → StreamEvent → ResponsesReader
on_event r e = record r { events = r.events ++ e ∷ [] }

-- What a call on the tracker gives out is passed on.
abbrev pub on_call : ResponsesReader → Tracker × Option StreamEvent → ResponsesReader
on_call r c = record r { tools = c.0; events = r.events ++ and_then c.1 [] }

abbrev pub item_call_id : WireEvent → Text
item_call_id w = first_non_empty (w.item.call_id ∷ w.item.id ∷ w.item_id ∷ [])

unfoldable pub on_text : ResponsesReader → WireEvent → ResponsesReader
on_text r w =
    on_event (record r { text_seen = true })
      (record (event_of text_delta) { index = w.output_index; delta = w.delta })

unfoldable pub on_refusal : ResponsesReader → WireEvent → ResponsesReader
on_refusal r w =
    on_event (record r { refusal_seen = true })
      (record (event_of refusal_delta) { index = w.output_index; delta = w.delta })

unfoldable pub on_reasoning : ResponsesReader → WireEvent → ResponsesReader
on_reasoning r w =
    on_event (record r { reasoning_seen = true })
      (record (event_of reasoning_delta) { index = w.output_index; delta = w.delta })

unfoldable pub on_item_added : ResponsesReader → WireEvent → ResponsesReader
unfolding first_non_empty
on_item_added r w =
    if w.item.type == text "message"
    then on_event r (record (event_of message_start) { index = w.output_index; role = w.item.role })
    else if w.item.type == text "function_call"
    then on_call r (
        start r.tools (record (event_of tool_call_start) {
          index = w.output_index;
          call_id = item_call_id w;
          name = w.item.name;
        }))
    else r

unfoldable pub on_arguments_delta : ResponsesReader → WireEvent → ResponsesReader
on_arguments_delta r w =
    let (tools, out) = delta r.tools (record (event_of tool_arguments_delta) {
      index = w.output_index;
      call_id = w.item_id;
      delta = w.delta;
    }) in
    record r { tools = tools; events = r.events ++ out ∷ [] }

unfoldable pub on_arguments_done : ResponsesReader → WireEvent → ResponsesReader
on_arguments_done r w = on_call r (
    done r.tools (record (event_of tool_call_done) {
      index = w.output_index;
      call_id = w.item_id;
      name = w.name;
      arguments = w.arguments;
    }))

-- The answer that holds only the item.
abbrev pub only_item : OutputItem → ResponsesResponse
only_item item = record {
  id = [];
  created_at = 0;
  status = [];
  incomplete_reason = none;
  error = none;
  model = [];
  output = item ∷ [];
  usage = none;
}

unfoldable pub give_reasoning : ResponsesReader → ℕ → CanonicalResponse → ResponsesReader
give_reasoning r index answer =
    if answer.reasoning == [] && answer.signature == []
    then r
    else on_event (record r { reasoning_seen = true })
        (record (event_of reasoning_delta) {
          index = index;
          delta = answer.reasoning;
          signature = answer.signature;
        })

unfoldable pub on_reasoning_done :
    (Text → Text) → ResponsesReader → WireEvent → Flow ResponsesReader
unfolding give_reasoning responses_to_canonical
on_reasoning_done quote r w =
    if not r.reasoning_seen
    then elim (responses_to_canonical quote (only_item w.item)) [
      | bad message ↦ fail r message
      | good answer ↦ go (give_reasoning r w.output_index answer)
    ]
    else if w.item.encrypted_content == []
    then go r
    else go (
        on_event r (record (event_of reasoning_delta) {
          index = w.output_index;
          signature = w.item.encrypted_content;
        }))

unfoldable pub on_item_done : (Text → Text) → ResponsesReader → WireEvent → Flow ResponsesReader
unfolding on_reasoning_done first_non_empty
on_item_done quote r w =
    if w.item.type == text "reasoning"
    then on_reasoning_done quote r w
    else if w.item.type == text "function_call"
    then go (
        on_call r (
          done r.tools (record (event_of tool_call_done) {
            index = w.output_index;
            call_id = item_call_id w;
            name = w.item.name;
            arguments = w.item.arguments;
          })))
    else go r

-- A call of the whole answer: under the index that its identifier has, or the number of those known.
unfoldable pub give_call : ResponsesReader → CanonicalToolCall → ResponsesReader
give_call r c =
    let index = get_or (index_for_call_id r.tools c.id) (length r.tools.order) in
    let r' = on_call r (
      start r.tools
        (record (event_of tool_call_start) { index = index; call_id = c.id; name = c.name })) in
    on_call r' (
      done r'.tools (record (event_of tool_call_done) {
        index = index;
        call_id = c.id;
        name = c.name;
        arguments = c.arguments;
        signature = c.signature;
      }))

unfoldable pub give_calls : ResponsesReader → List CanonicalToolCall → ResponsesReader
unfolding give_call
give_calls r [] = r
give_calls r (c ∷ cs) = give_calls (give_call r c) cs

unfoldable pub end_tools : ResponsesReader → ResponsesReader
end_tools r =
    let (tools, out) = done_all r.tools in record r { tools = tools; events = r.events ++ out }

unfoldable pub give_text : ResponsesReader → Text → ResponsesReader
give_text r body =
    if body == [] || r.text_seen
    then r
    else on_event (record r { text_seen = true }) (record (event_of text_delta) { delta = body })

unfoldable pub give_refusal : ResponsesReader → Text → ResponsesReader
give_refusal r refusal =
    if refusal == [] || r.refusal_seen
    then r
    else on_event (record r { refusal_seen = true })
        (record (event_of refusal_delta) { delta = refusal })

unfoldable pub give_usage : ResponsesReader → CanonicalUsage → ResponsesReader
give_usage r usage =
    let r' = record r { usage = usage } in
    if is_zero usage then r' else on_event r' (record (event_of usage_report) { usage = usage })

-- What `response.completed` and `response.incomplete` do with the whole answer.
unfoldable pub on_completed : ResponsesReader → CanonicalResponse → ResponsesReader
unfolding give_text give_refusal give_calls end_tools give_usage
on_completed r answer =
    let r' = give_calls (give_refusal (give_text r answer.body) answer.refusal) answer.tool_calls in
    let r'' = give_usage (end_tools r') answer.usage in
    record r'' {
      events =
          r''.events
          ++ record (event_of response_done) {
            status = answer.status;
            finish_reason = answer.finish_reason;
          }
            ∷ [];
      terminated = true;
    }

-- The switch over the types of events; a type that is not listed does nothing.
unfoldable pub on_wire : (Text → Text) → ResponsesReader → WireEvent → Flow ResponsesReader
unfolding on_text on_refusal on_reasoning on_item_added on_arguments_delta on_arguments_done
    on_item_done on_completed responses_to_canonical
on_wire quote r w =
    if w.type == text "response.created"
    then go (
        on_event r (record (event_of response_start) {
          id = w.response.id;
          created = w.response.created_at;
          model = w.response.model;
        }))
    else if w.type == text "response.output_text.delta"
    then go (on_text r w)
    else if w.type == text "response.refusal.delta"
    then go (on_refusal r w)
    else if w.type == text "response.reasoning_summary_text.delta"
        || w.type == text "response.reasoning_text.delta"
    then go (on_reasoning r w)
    else if w.type == text "response.output_item.added"
    then go (on_item_added r w)
    else if w.type == text "response.function_call_arguments.delta"
    then go (on_arguments_delta r w)
    else if w.type == text "response.function_call_arguments.done"
    then go (on_arguments_done r w)
    else if w.type == text "response.output_item.done"
    then on_item_done quote r w
    else if w.type == text "response.completed" || w.type == text "response.incomplete"
    then elim (responses_to_canonical quote w.response) [
      | bad message ↦ fail r message
      | good answer ↦ leave (on_completed r answer)
    ]
    else if w.type == text "response.failed"
    then elim (responses_to_canonical quote w.response) [
      | bad message ↦ fail r message
      | good answer ↦ fail r (text "Responses stream failed")
    ]
    else if w.type == text "error"
    then fail (on_event r (error_event w.code w.message))
        (text "Responses stream error " ++ (w.code ++ (text ": " ++ w.message)))
    else go r

unfoldable pub on_line : ResponsesCodec → ResponsesReader → Text → Flow ResponsesReader
unfolding sse_payload on_wire
on_line codec r line = elim (sse_payload line) [
  | none ↦ go r
  | some payload ↦ elim (codec.event_of_payload payload) [
    | bad message ↦ fail r (text "decode Responses stream event: " ++ message)
    | good w ↦ on_wire codec.quote r w
  ]
]

abbrev pub result : ResponsesReader → Option Text → ReadResult
result r error = record { events = r.events; usage = r.usage; error = error }

unfoldable pub finish : Scan → ResponsesReader → ReadResult
unfolding read_end
finish scan r = result r (read_end scan.error (text "read Responses stream: ") none r.terminated)

-- `readResponsesStreamAsCanonical`.
unfoldable pub read_responses : ResponsesCodec → Scan → ReadResult
unfolding each_line on_line finish
read_responses codec scan = elim (each_line (on_line codec) new_reader scan.lines) [
  | go r ↦ finish scan r
  | leave r ↦ finish scan r
  | fail r message ↦ result r (some message)
]
