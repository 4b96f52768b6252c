-- ===== src/Streams/ResponsesOut.antt =====
-- internal/stream_convert.go, `responsesStreamEncoder`, with the branch for Responses of
-- `streamCanonicalResult` of internal/canonical_proxy.go: canonical events, written as the stream of OpenAI
-- Responses. The values of `write` are the constructors of `Value`, with the fields that vary, and stand in
-- the output with their sequence numbers. The indexes that no item has yet (-1) are 0. The decimal print of
-- a number is an argument.
pub mod Items
pub mod Steps
pub mod Calls
pub mod Finish
pub mod Answer
use buzzhive.Base.{
  ℕ, zero, suc, ◌+◌, ltb, ◌++◌, List, [], ◌∷◌, Bool, true, false, not, ◌&&◌, Option, none, some,
  Text, text, text_eq, nat_eq, ◌==◌, Map, if◌then◌else◌,
}
use buzzhive.Base.Maps.{empty, insert}
use buzzhive.Base.Ordered
use buzzhive.Base.Ordered.{Ordered}
use buzzhive.Canonical.{
  CanonicalUsage, no_usage, is_zero, CanonicalToolCall, CanonicalResponse, StreamEvent, EventType,
  event_of, response_start, message_start, text_delta, refusal_delta, reasoning_delta,
  tool_call_start, tool_arguments_delta, tool_call_done, usage_report, response_done, stream_error,
}
use buzzhive.Protocols.Responses.{
  OutputPart, OutputItem, ResponsesResponse, item_of, summary_part, text_part, refusal_part,
  canonical_to_responses,
}
use buzzhive.Streams.Read.{ReadResult, read_error}

pub data Value : Type 0 where
  response_created : Text → ℕ → Text → Value
  item_added : ℕ → OutputItem → Value
  content_part_added : Text → ℕ → OutputPart → Value
  summary_part_added : Text → ℕ → Value
  summary_text_delta : Text → ℕ → Text → Value
  summary_text_done : Text → ℕ → Text → Value
  summary_part_done : Text → ℕ → OutputPart → Value
  output_text_delta : Text → ℕ → Text → Value
  output_refusal_delta : Text → ℕ → Text → Value
  output_text_done : Text → ℕ → Text → Value
  output_refusal_done : Text → ℕ → Text → Value
  content_part_done : Text → ℕ → OutputPart → Value
  arguments_delta : Text → ℕ → Text → Value
  arguments_done : Text → ℕ → Text → Text → Value
  item_done : ℕ → OutputItem → Value
  completed : ResponsesResponse → Value
  incomplete : ResponsesResponse → Value
  error_value : Text → Text → Value

pub record ToolItem : Type 0 where
  pub call : CanonicalToolCall
  pub item_id : Text
  pub output_index : ℕ
  pub done : Bool

pub record Encoder : Type 0 where
  pub out : List (ℕ × Value)
  pub id : Text
  pub created : ℕ
  pub model : Text
  pub sequence : ℕ
  pub next_output_index : ℕ
  pub content : Text  -- `text`
  pub text_index : ℕ
  pub text_open : Bool
  pub text_refusal : Bool
  pub reasoning : Text
  pub reasoning_signature : Text
  pub reasoning_index : ℕ
  pub reasoning_open : Bool
  pub tool_calls : Ordered ToolItem
  pub output : Map ℕ OutputItem
  pub usage : CanonicalUsage
  pub finished : Bool

unfoldable pub write : Encoder → Value → Encoder
write e v = record e { out = e.out ++ (e.sequence, v) ∷ []; sequence = e.sequence + 1 }

unfoldable pub write_all : Encoder → List Value → Encoder
unfolding write
write_all e [] = e
write_all e (v ∷ vs) = write_all (write e v) vs

abbrev pub blank_encoder : Text → ℕ → Text → Encoder
blank_encoder id created model = record {
  out = [];
  id = id;
  created = created;
  model = model;
  sequence = 0;
  next_output_index = 0;
  content = [];
  text_index = 0;
  text_open = false;
  text_refusal = false;
  reasoning = [];
  reasoning_signature = [];
  reasoning_index = 0;
  reasoning_open = false;
  tool_calls = [];
  output = empty;
  usage = no_usage;
  finished = false;
}

unfoldable pub new_encoder : Text → ℕ → Text → Encoder
unfolding write
new_encoder id created model =
    write (blank_encoder id created model) (response_created id created model)

abbrev pub message_id : Encoder → Text
message_id e = e.id ++ text "_msg"

abbrev pub reasoning_id : Encoder → Text
reasoning_id e = e.id ++ text "_reasoning"

-- `reserveOutputIndex`: the index is the one that was next.
unfoldable pub reserve : Encoder → Encoder
reserve e = record e { next_output_index = e.next_output_index + 1 }

abbrev pub reasoning_item : Encoder → OutputItem
reasoning_item e = record (item_of (text "reasoning")) {
  id = reasoning_id e;
  status = text "completed";
  summary = summary_part e.reasoning ∷ [];
  encrypted_content = e.reasoning_signature;
}

abbrev pub reasoning_ended : Encoder → Encoder
reasoning_ended e = record e {
  output = insert e.reasoning_index (reasoning_item e) e.output;
  reasoning_open = false;
}

abbrev pub reasoning_end : Encoder → List Value
reasoning_end e =
    summary_text_done (reasoning_id e) e.reasoning_index e.reasoning
    ∷ summary_part_done (reasoning_id e) e.reasoning_index (summary_part e.reasoning)
    ∷ item_done e.reasoning_index (reasoning_item e)
    ∷ []

unfoldable pub close_reasoning : Encoder → Encoder
unfolding write_all
close_reasoning e = if e.reasoning_open then write_all (reasoning_ended e) (reasoning_end e) else e

abbrev pub text_begun : Encoder → Bool → Encoder
text_begun e refusal = record (reserve e) {
  text_index = e.next_output_index;
  text_open = true;
  text_refusal = refusal;
}

abbrev pub text_begin : Encoder → Bool → List Value
text_begin e refusal =
    item_added e.next_output_index (record (item_of (text "message")) {
      id = message_id e;
      status = text "in_progress";
      role = text "assistant";
    })
    ∷ content_part_added (message_id e) e.next_output_index
        (if refusal then refusal_part [] else text_part [])
    ∷ []

unfoldable pub open_text : Encoder → Bool → Encoder
unfolding reserve write_all
open_text e refusal = write_all (text_begun e refusal) (text_begin e refusal)

unfoldable pub ensure_text : Encoder → Bool → Encoder
unfolding close_reasoning open_text
ensure_text e refusal = if e.text_open then e else open_text (close_reasoning e) refusal

abbrev pub reasoning_begun : Encoder → Encoder
reasoning_begun e = record (reserve e) {
  reasoning_index = e.next_output_index;
  reasoning_open = true;
}

abbrev pub reasoning_begin : Encoder → List Value
reasoning_begin e =
    item_added e.next_output_index
      (record (item_of (text "reasoning")) { id = reasoning_id e; status = text "in_progress" })
    ∷ summary_part_added (reasoning_id e) e.next_output_index
    ∷ []

unfoldable pub open_reasoning : Encoder → Encoder
unfolding reserve write_all
open_reasoning e = write_all (reasoning_begun e) (reasoning_begin e)

unfoldable pub ensure_reasoning : Encoder → Encoder
unfolding open_reasoning
ensure_reasoning e = if e.reasoning_open then e else open_reasoning e

unfoldable pub add_reasoning : Encoder → Text → Encoder
unfolding write
add_reasoning e delta =
    if delta == []
    then e
    else write (record e { reasoning = e.reasoning ++ delta })
        (summary_text_delta (reasoning_id e) e.reasoning_index delta)

unfoldable pub write_reasoning_delta : Encoder → StreamEvent → Encoder
unfolding ensure_reasoning add_reasoning
write_reasoning_delta e ev =
    let e' = add_reasoning (ensure_reasoning e) ev.delta in
    if ev.delta == [] && ev.signature == []
    then e
    else record e' { reasoning_signature = e'.reasoning_signature ++ ev.signature }

unfoldable pub write_text_delta : Encoder → Text → Bool → Encoder
unfolding ensure_text write
write_text_delta e delta refusal =
    let e' = ensure_text e refusal in
    if delta == []
    then e
    else write (record e' { content = e'.content ++ delta })
        (if e'.text_refusal
          then output_refusal_delta (message_id e') e'.text_index delta
          else output_text_delta (message_id e') e'.text_index delta)

abbrev pub or_else : Text → Text → Text
or_else a b = if a == [] then b else a

abbrev pub call_item : ToolItem → Text → OutputItem
call_item s status = record (item_of (text "function_call")) {
  id = s.item_id;
  status = status;
  call_id = s.call.id;
  name = s.call.name;
}

abbrev pub done_item : ToolItem → OutputItem
done_item s = record (call_item s (text "completed")) { arguments = s.call.arguments }

abbrev pub done_event : ℕ → ToolItem → StreamEvent
done_event index s = record (event_of tool_call_done) {
  index = index;
  call_id = s.call.id;
  name = s.call.name;
  arguments = s.call.arguments;
  signature = s.call.signature;
}

unfoldable pub fill_tool : ToolItem → StreamEvent → ToolItem
fill_tool s ev = record s {
  call = record s.call {
    id = or_else s.call.id ev.call_id;
    name = or_else s.call.name ev.name;
    signature = or_else s.call.signature ev.signature;
  };
}

unfoldable pub extend_tool : Encoder → ℕ → Text → ToolItem → Encoder
unfolding write
extend_tool e index delta s =
    if s.done
    then e
    else if delta == []
    then e
    else write
        (record e {
          tool_calls =
              Ordered.insert index
                (record s { call = record s.call { arguments = s.call.arguments ++ delta } })
                e.tool_calls;
        })
        (arguments_delta s.item_id s.output_index delta)

unfoldable pub end_call : CanonicalToolCall → StreamEvent → CanonicalToolCall
end_call c ev = record c {
  id = or_else c.id ev.call_id;
  name = or_else c.name ev.name;
  arguments = or_else ev.arguments c.arguments;
  signature = or_else ev.signature c.signature;
}

unfoldable pub ended_tool : ToolItem → StreamEvent → ToolItem
unfolding end_call
ended_tool s ev = record s { call = end_call s.call ev; done = true }

abbrev pub tool_ended : Encoder → ℕ → ToolItem → Encoder
tool_ended e index s = record e {
  tool_calls = Ordered.insert index s e.tool_calls;
  output = insert s.output_index (done_item s) e.output;
}

abbrev pub tool_end : ToolItem → List Value
tool_end s =
    arguments_done s.item_id s.output_index s.call.name s.call.arguments
    ∷ item_done s.output_index (done_item s)
    ∷ []

unfoldable pub end_tool : Encoder → StreamEvent → ToolItem → Encoder
unfolding ended_tool write_all
end_tool e ev s =
    let s' = ended_tool s ev in
    if s.done then e else write_all (tool_ended e ev.index s') (tool_end s')

-- The start that `writeToolDelta` makes has no signature.
abbrev pub delta_start : StreamEvent → StreamEvent
delta_start ev = record (event_of tool_call_start) {
  index = ev.index;
  call_id = ev.call_id;
  name = ev.name;
}

module _ (decimal : ℕ → Text) where
  -- `toolItemID`.
  unfoldable pub tool_item_id : Encoder → ℕ → Text
  tool_item_id e index = e.id ++ (text "_fc_" ++ decimal index)

  abbrev pub new_tool : Encoder → StreamEvent → ToolItem
  new_tool e ev = record {
    call = record { id = ev.call_id; name = ev.name; arguments = []; signature = ev.signature };
    item_id = tool_item_id e ev.index;
    output_index = e.next_output_index;
    done = false;
  }

  abbrev pub tool_begun : Encoder → StreamEvent → Encoder
  tool_begun e ev = record (reserve e) {
    tool_calls = Ordered.insert ev.index (new_tool e ev) e.tool_calls;
  }

  unfoldable pub open_tool : Encoder → StreamEvent → Encoder
  unfolding tool_item_id reserve write
  open_tool e ev =
      write (tool_begun e ev)
        (item_added e.next_output_index (call_item (new_tool e ev) (text "in_progress")))

  unfoldable pub write_tool_start : Encoder → StreamEvent → Encoder
  unfolding close_reasoning open_tool fill_tool
  write_tool_start e ev = elim (Ordered.lookup ev.index e.tool_calls) [
    | some s ↦ record e { tool_calls = Ordered.insert ev.index (fill_tool s ev) e.tool_calls }
    | none ↦ open_tool (close_reasoning e) ev
  ]

  -- What `writeToolDelta` and `writeToolDone` do first where the call is not known.
  unfoldable pub ensure_tool : Encoder → StreamEvent → Encoder
  unfolding write_tool_start
  ensure_tool e ev = elim (Ordered.lookup ev.index e.tool_calls) [
    | some s ↦ e
    | none ↦ write_tool_start e ev
  ]

  unfoldable pub write_tool_delta : Encoder → StreamEvent → Encoder
  unfolding ensure_tool extend_tool
  write_tool_delta e ev =
      let e' = ensure_tool e (delta_start ev) in
      elim (Ordered.lookup ev.index e'.tool_calls) [
        | none ↦ e'
        | some s ↦ extend_tool e' ev.index ev.delta s
      ]

  unfoldable pub write_tool_done : Encoder → StreamEvent → Encoder
  unfolding ensure_tool end_tool
  write_tool_done e ev =
      let e' = ensure_tool e ev in
      elim (Ordered.lookup ev.index e'.tool_calls) [ none ↦ e' | some s ↦ end_tool e' ev s ]

  unfoldable pub end_known : Encoder → ℕ → Encoder
  unfolding write_tool_done
  end_known e i = elim (Ordered.lookup i e.tool_calls) [
    | none ↦ e
    | some s ↦ if s.done then e else write_tool_done e (done_event i s)
  ]

  -- The loop of `finish` over the indexes of the calls.
  unfoldable pub end_tools : Encoder → List ℕ → Encoder
  unfolding end_known
  end_tools e [] = e
  end_tools e (i ∷ is) = end_tools (end_known e i) is

abbrev pub answer_of : Encoder → Text → Text → CanonicalResponse
answer_of e status reason = record {
  id = e.id;
  created = e.created;
  model = e.model;
  role = text "assistant";
  status = status;
  body = [];
  refusal = if e.text_refusal then e.content else [];
  reasoning = [];
  signature = [];
  tool_calls = [];
  finish_reason = reason;
  usage = e.usage;
}

-- The end of the text in `finish`; it stays open, as the encoder is finished.
abbrev pub said_part : Encoder → OutputPart
said_part e = if e.text_refusal then refusal_part e.content else text_part e.content

abbrev pub message_item : Encoder → Text → OutputItem
message_item e status = record (item_of (text "message")) {
  id = message_id e;
  status = status;
  role = text "assistant";
  content = said_part e ∷ [];
}

abbrev pub text_ended : Encoder → Text → Encoder
text_ended e status = record e { output = insert e.text_index (message_item e status) e.output }

abbrev pub text_end : Encoder → Text → List Value
text_end e status =
    (if e.text_refusal
      then output_refusal_done (message_id e) e.text_index e.content
      else output_text_done (message_id e) e.text_index e.content)
    ∷ content_part_done (message_id e) e.text_index (said_part e)
    ∷ item_done e.text_index (message_item e status)
    ∷ []

unfoldable pub end_text : Encoder → Text → Encoder
unfolding write_all
end_text e status = if e.text_open then write_all (text_ended e status) (text_end e status) else e

abbrev pub and_item : Option OutputItem → List OutputItem → List OutputItem
and_item none items = items
and_item (some item) items = item ∷ items

-- `sortedOutput`: `count` indexes from the first.
unfoldable pub sorted_output : Map ℕ OutputItem → ℕ → ℕ → List OutputItem
sorted_output output first zero = []
sorted_output output first (suc count) =
    and_item (output first) (sorted_output output (first + 1) count)

unfoldable pub complete : Encoder → ResponsesResponse → Encoder
unfolding write
complete e resp =
    write (record e { finished = true })
      (if resp.status == text "incomplete" then incomplete resp else completed resp)

unfoldable pub write_error : Encoder → StreamEvent → Encoder
unfolding write
write_error e ev = elim ev.error [
  | none ↦ record e { finished = true }
  | some err ↦ record (write e (error_value err.code err.message)) { finished = true }
]

module _ (decimal : ℕ → Text) where
  unfoldable pub close_all : Encoder → Text → Encoder
  unfolding close_reasoning end_text end_tools
  close_all e status =
      let e' = end_text (close_reasoning e) status in
      end_tools decimal e' (Ordered.keys e'.tool_calls)

  abbrev pub final_response : Encoder → CanonicalResponse → ResponsesResponse
  final_response e answer = record (canonical_to_responses decimal answer) {
    output = sorted_output e.output 0 e.next_output_index;
  }

  unfoldable pub finish : Encoder → Text → Text → CanonicalUsage → Encoder
  unfolding close_all complete
  finish e status reason usage =
      let e' = if is_zero usage then e else record e { usage = usage } in
      let answer = answer_of e' status reason in
      let closed = close_all e' (canonical_to_responses decimal answer).status in
      if e.finished then e else complete closed (final_response closed answer)

  -- `writeEvent` of an encoder that is not finished.
  unfoldable pub write_open : EventType → Encoder → StreamEvent → Encoder
  unfolding write_error
  write_open text_delta e ev = write_text_delta e ev.delta false
  write_open refusal_delta e ev = write_text_delta e ev.delta true
  write_open reasoning_delta e ev = write_reasoning_delta e ev
  write_open tool_call_start e ev = write_tool_start decimal e ev
  write_open tool_arguments_delta e ev = write_tool_delta decimal e ev
  write_open tool_call_done e ev = write_tool_done decimal e ev
  write_open usage_report e ev = record e { usage = ev.usage }
  write_open response_done e ev = finish e ev.status ev.finish_reason e.usage
  write_open stream_error e ev = write_error e ev
  write_open t e ev = e

  unfoldable pub write_event : Encoder → StreamEvent → Encoder
  unfolding write_open
  write_event e ev = if e.finished then e else write_open ev.type e ev

  unfoldable pub write_events : Encoder → List StreamEvent → Encoder
  write_events e [] = e
  write_events e (ev ∷ evs) = write_events (write_event e ev) evs

  unfoldable pub end_stream : Encoder → CanonicalUsage → Option Text → Encoder
  unfolding write_event finish read_error
  end_stream e usage none = finish e [] (text "stop") usage
  end_stream e usage (some message) = write_event e (read_error message)

  -- The branch for Responses of `streamCanonicalResult`, after `read` has passed on its events.
  unfoldable pub stream_to_responses : Text → ℕ → Text → ReadResult → Encoder
  unfolding new_encoder write_events end_stream
  stream_to_responses id created model r =
      end_stream (write_events (new_encoder (text "resp_" ++ id) created model) r.events) r.usage
        r.error
