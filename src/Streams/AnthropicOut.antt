-- ===== src/Streams/AnthropicOut.antt =====
-- internal/stream_convert.go, `anthropicStreamEncoder`: canonical events, written as the stream of an
-- Anthropic message. The values of `writeSSEJSON` are the constructors of `Sse`, with the fields that vary.
pub mod Grammar
pub mod Protocol
pub mod Content
use buzzhive.Base.{
  ℕ, ◌+◌, ◌-◌, ◌++◌, List, [], ◌∷◌, Bool, true, false, not, ◌&&◌, ◌||◌, Option, none, some, Text,
  text, text_eq, nat_eq, ◌==◌, Map, if◌then◌else◌,
}
use buzzhive.Base.Maps
use buzzhive.Base.Maps.{empty, insert}
use buzzhive.Base.Bytes.{contains, trim_space}
use buzzhive.Canonical.{
  CanonicalUsage, no_usage, is_zero, CanonicalToolCall, StreamEvent, EventType, event_of,
  response_start, message_start, text_delta, refusal_delta, reasoning_delta, tool_call_start,
  tool_arguments_delta, tool_call_done, usage_report, response_done, stream_error,
}
use buzzhive.Errors.{to_lower}
use buzzhive.Protocols.Anthropic.{finish_reason_to_anthropic}
use buzzhive.Streams.Read.{ReadResult, read_error}

pub data Block : Type 0 where
  text_block : Block
  thinking_block : Block
  tool_block : Text → Text → Block  -- the identifier and the name

pub data BlockDelta : Type 0 where
  of_text : Text → BlockDelta
  of_thinking : Text → BlockDelta
  of_signature : Text → BlockDelta
  of_json : Text → BlockDelta

pub data Sse : Type 0 where
  sse_message_start : Text → Text → Sse
  content_block_start : ℕ → Block → Sse
  content_block_delta : ℕ → BlockDelta → Sse
  content_block_stop : ℕ → Sse
  message_delta : Text → Option Text → ℕ → CanonicalUsage → Sse
  message_stop : Sse
  sse_error : Text → Text → Sse

pub record Encoder : Type 0 where
  pub out : List Sse
  pub next_index : ℕ
  pub text_index : ℕ
  pub text_open : Bool
  pub reasoning_index : ℕ
  pub reasoning_open : Bool
  pub reasoning_signature : Text
  pub refusal : Text
  pub tool_calls : Map ℕ CanonicalToolCall
  pub usage : CanonicalUsage
  pub finished : Bool

abbrev pub emit : Encoder → List Sse → Encoder
emit e more = record e { out = e.out ++ more }

abbrev pub new_encoder : Text → Text → Encoder
new_encoder id model = record {
  out = sse_message_start id model ∷ [];
  next_index = 0;
  text_index = 0;
  text_open = false;
  reasoning_index = 0;
  reasoning_open = false;
  reasoning_signature = [];
  refusal = [];
  tool_calls = empty;
  usage = no_usage;
  finished = false;
}

unfoldable pub close_text : Encoder → Encoder
close_text e =
    if e.text_open
    then record e { out = e.out ++ content_block_stop e.text_index ∷ []; text_open = false }
    else e

unfoldable pub signed_stop : ℕ → Text → List Sse
signed_stop index signature =
    if signature == []
    then content_block_stop index ∷ []
    else content_block_delta index (of_signature signature) ∷ content_block_stop index ∷ []

unfoldable pub close_reasoning : Encoder → Encoder
unfolding signed_stop
close_reasoning e =
    if e.reasoning_open
    then record e {
      out = e.out ++ signed_stop e.reasoning_index e.reasoning_signature;
      reasoning_open = false;
    }
    else e

unfoldable pub open_text : Encoder → Encoder
open_text e = record e {
  out = e.out ++ content_block_start e.next_index text_block ∷ [];
  text_open = true;
  text_index = e.next_index;
  next_index = e.next_index + 1;
}

unfoldable pub ensure_text : Encoder → Encoder
unfolding close_reasoning open_text
ensure_text e = if e.text_open then e else open_text (close_reasoning e)

unfoldable pub open_reasoning : Encoder → Encoder
open_reasoning e = record e {
  out = e.out ++ content_block_start e.next_index thinking_block ∷ [];
  reasoning_signature = [];
  reasoning_open = true;
  reasoning_index = e.next_index;
  next_index = e.next_index + 1;
}

unfoldable pub ensure_reasoning : Encoder → Encoder
unfolding close_text open_reasoning
ensure_reasoning e = if e.reasoning_open then e else open_reasoning (close_text e)

unfoldable pub write_text_delta : Encoder → Text → Encoder
unfolding ensure_text
write_text_delta e delta =
    let e' = ensure_text e in
    if delta == [] then e else emit e' (content_block_delta e'.text_index (of_text delta) ∷ [])

unfoldable pub thinking : ℕ → Text → List Sse
thinking index delta =
    if delta == [] then [] else content_block_delta index (of_thinking delta) ∷ []

unfoldable pub write_reasoning_delta : Encoder → StreamEvent → Encoder
unfolding ensure_reasoning thinking
write_reasoning_delta e ev =
    let e' = ensure_reasoning e in
    if ev.delta == [] && ev.signature == [] then e else record e' {
      out = e'.out ++ thinking e'.reasoning_index ev.delta;
      reasoning_signature = e'.reasoning_signature ++ ev.signature;
    }

abbrev pub no_call : CanonicalToolCall
no_call = record { id = []; name = []; arguments = []; signature = [] }

-- What `writeToolDone` makes of the call that it holds.
unfoldable pub merge_call : CanonicalToolCall → StreamEvent → CanonicalToolCall
merge_call call ev = record call {
  id = if call.id == [] then ev.call_id else call.id;
  name = if call.name == [] then ev.name else call.name;
  arguments = if ev.arguments == [] then call.arguments else ev.arguments;
}

unfoldable pub write_tool_done : Encoder → StreamEvent → Encoder
unfolding close_reasoning close_text merge_call
write_tool_done e ev =
    let e' = close_text (close_reasoning e) in
    let call = merge_call (Maps.get_or (e'.tool_calls ev.index) no_call) ev in
    record e' {
      out =
          e'.out
          ++ content_block_start e'.next_index (tool_block call.id call.name)
            ∷ content_block_delta e'.next_index (of_json call.arguments)
            ∷ content_block_stop e'.next_index
            ∷ [];
      tool_calls = insert ev.index call e'.tool_calls;
      next_index = e'.next_index + 1;
    }

unfoldable pub stop_details : Text → Text → Option Text
stop_details stop_reason refusal =
    if not (stop_reason == text "refusal")
    then none
    else if refusal == []
    then some (text "The request was declined")
    else some refusal

-- A negative count of input tokens is made 0.
unfoldable pub finish : Encoder → Text → CanonicalUsage → Encoder
unfolding close_reasoning close_text
finish e reason usage =
    let e' = close_text (close_reasoning e) in
    let final = if is_zero usage then e'.usage else usage in
    let stop_reason = finish_reason_to_anthropic reason in
    if e.finished then e else record e' {
      out =
          e'.out
          ++ message_delta stop_reason (stop_details stop_reason e'.refusal)
              (final.prompt_tokens - final.cached_tokens) final
            ∷ message_stop
            ∷ [];
      usage = final;
      finished = true;
    }

unfoldable pub anthropic_stream_error_type : Text → Text
anthropic_stream_error_type code =
    let value = to_lower (trim_space code) in
    if contains value (text "rate") || contains value (text "resource_exhausted")
    then text "rate_limit_error"
    else if contains value (text "auth") || contains value (text "api_key")
    then text "authentication_error"
    else if contains value (text "permission")
    then text "permission_error"
    else if contains value (text "not_found")
    then text "not_found_error"
    else if contains value (text "invalid")
    then text "invalid_request_error"
    else if contains value (text "overload") || contains value (text "unavailable")
    then text "overloaded_error"
    else text "api_error"

unfoldable pub write_error : Encoder → StreamEvent → Encoder
write_error e ev = elim ev.error [
  | none ↦ record e { finished = true }
  | some err ↦ record e {
    out = e.out ++ sse_error (anthropic_stream_error_type err.code) err.message ∷ [];
    finished = true;
  }
]

-- `writeEvent` of an encoder that is not finished.
unfoldable pub write_open : EventType → Encoder → StreamEvent → Encoder
write_open response_start e ev = e
write_open message_start e ev = e
write_open text_delta e ev = write_text_delta e ev.delta
write_open refusal_delta e ev = record e { refusal = e.refusal ++ ev.delta }
write_open reasoning_delta e ev = write_reasoning_delta e ev
write_open tool_call_start e ev = record e {
  tool_calls =
      insert ev.index
        (record { id = ev.call_id; name = ev.name; arguments = []; signature = ev.signature })
        e.tool_calls;
}
write_open tool_arguments_delta e ev =
    let call = Maps.get_or (e.tool_calls ev.index) no_call in
    record e {
      tool_calls =
          insert ev.index (record call { arguments = call.arguments ++ ev.delta }) e.tool_calls;
    }
write_open tool_call_done e ev = write_tool_done e ev
write_open usage_report e ev = record e { usage = ev.usage }
write_open response_done e ev = finish e ev.finish_reason e.usage
write_open stream_error e ev = write_error e ev

unfoldable pub write_event : Encoder → StreamEvent → Encoder
unfolding write_open
write_event e ev = if e.finished then e else write_open ev.type e ev

unfoldable pub write_events : Encoder → List StreamEvent → Encoder
write_events e [] = e
write_events e (ev ∷ evs) = write_events (write_event e ev) evs

unfoldable pub end_stream : Encoder → CanonicalUsage → Option Text → Encoder
unfolding write_event finish read_error
end_stream e usage none = finish e (text "stop") usage
end_stream e usage (some message) = write_event e (read_error message)

-- The branch for Anthropic of `streamCanonicalResult`, after `read` has passed on its events.
unfoldable pub stream_to_anthropic : Text → Text → ReadResult → Encoder
unfolding write_events end_stream
stream_to_anthropic id model r =
    end_stream (write_events (new_encoder (text "msg_" ++ id) model) r.events) r.usage r.error
