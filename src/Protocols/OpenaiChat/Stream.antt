-- ===== src/Protocols/OpenaiChat/Stream.antt =====
-- internal/protocol/openai_chat_response.go: the chunks of a stream of OpenAI Chat, to and from canonical
-- events.
use buzzhive.Base.{
  ℕ, List, [], ◌∷◌, ◌++◌, Bool, true, false, not, ◌&&◌, ◌||◌, Option, none, some, Text, text,
  text_eq, nat_eq, ◌==◌, if◌then◌else◌,
}
use buzzhive.Base.Maps.{get_or}
use buzzhive.Canonical.{
  is_zero, StreamEvent, event_of, EventType, message_start, text_delta, refusal_delta,
  reasoning_delta, tool_call_start, tool_arguments_delta, usage_report, response_done,
}
use buzzhive.Protocols.OpenaiChat.{
  OpenaiToolCall, StreamDelta, Choice, ChatResponse, openai_usage_to_canonical,
  canonical_usage_to_openai, thought_signature, extra_content,
}

abbrev pub unless : Bool → List StreamEvent → List StreamEvent
unless b es = if b then [] else es

unfoldable pub call_events : ℕ → OpenaiToolCall → List StreamEvent
call_events choice call =
    let index = get_or call.index choice in
    unless (call.id == [] && call.name == []) (
      record (event_of tool_call_start) {
        index = index;
        call_id = call.id;
        name = call.name;
        signature = thought_signature call;
      }
      ∷ [])
    ++ unless (call.arguments == []) (
        record (event_of tool_arguments_delta) {
          index = index;
          call_id = call.id;
          name = call.name;
          delta = call.arguments;
        }
        ∷ [])

unfoldable pub calls_events : ℕ → List OpenaiToolCall → List StreamEvent
unfolding call_events
calls_events choice [] = []
calls_events choice (call ∷ calls) = call_events choice call ++ calls_events choice calls

unfoldable pub delta_events : ℕ → Option StreamDelta → List StreamEvent
unfolding calls_events
delta_events index none = []
delta_events index (some d) =
    unless (d.role == []) (record (event_of message_start) { role = d.role; index = index } ∷ [])
    ++ unless (d.content == [])
        (record (event_of text_delta) { index = index; delta = d.content } ∷ [])
    ++ unless (d.refusal == [])
        (record (event_of refusal_delta) { index = index; delta = d.refusal } ∷ [])
    ++ unless (d.reasoning_content == [])
        (record (event_of reasoning_delta) { index = index; delta = d.reasoning_content } ∷ [])
    ++ calls_events index d.tool_calls

unfoldable pub finish_events : ℕ → Option Text → List StreamEvent
finish_events index none = []
finish_events index (some reason) =
    record (event_of response_done) { index = index; finish_reason = reason } ∷ []

unfoldable pub choices_events : List Choice → List StreamEvent
unfolding delta_events finish_events
choices_events [] = []
choices_events (c ∷ cs) =
    delta_events c.index c.delta ++ finish_events c.index c.finish_reason ++ choices_events cs

-- `OpenAIChatStreamChunkToCanonical`.
unfoldable pub chunk_to_canonical : ChatResponse → List StreamEvent
unfolding choices_events
chunk_to_canonical chunk =
    let usage = openai_usage_to_canonical chunk.usage in
    choices_events chunk.choices
    ++ unless (is_zero usage) (record (event_of usage_report) { usage = usage } ∷ [])

abbrev pub no_delta : StreamDelta
no_delta = record { role = []; content = []; refusal = []; reasoning_content = []; tool_calls = [] }

abbrev pub chunk_of : Text → ℕ → Text → List Choice → ChatResponse
chunk_of id created model choices = record {
  id = id;
  created = created;
  model = model;
  choices = choices;
  usage = none;
}

-- `OpenAIChatRoleStreamChunk`.
unfoldable pub role_chunk : Text → ℕ → Text → ChatResponse
role_chunk id created model = chunk_of id created model (
    record {
      index = 0;
      message = none;
      delta = some (record no_delta { role = text "assistant" });
      finish_reason = none;
    }
    ∷ [])

-- The delta of the choice that `CanonicalToOpenAIStreamChunk` makes, for the events that have one.
unfoldable pub event_delta : StreamEvent → EventType → Option StreamDelta
event_delta e message_start = some (record no_delta { role = e.role })
event_delta e text_delta = some (record no_delta { content = e.delta })
event_delta e refusal_delta = some (record no_delta { refusal = e.delta })
event_delta e reasoning_delta = some (record no_delta { reasoning_content = e.delta })
event_delta e tool_call_start = some (record no_delta {
  tool_calls =
      record {
        index = some e.index;
        id = e.call_id;
        name = e.name;
        arguments = [];
        extra_content = extra_content e.signature;
      }
      ∷ [];
})
event_delta e tool_arguments_delta = some (record no_delta {
  tool_calls =
      record { index = some e.index; id = []; name = []; arguments = e.delta; extra_content = none }
      ∷ [];
})
event_delta e response_done = some no_delta
event_delta e _ = none

abbrev pub is_done : EventType → Bool
is_done response_done = true
is_done _ = false

-- The chunk of an event, but for one that reports usage.
unfoldable pub event_chunk : StreamEvent → Text → ℕ → Text → Bool → Option ChatResponse
unfolding event_delta
event_chunk e id created model include_usage = elim (event_delta e e.type) [
  | none ↦ none
  | some d ↦ some (record {
    id = id;
    created = created;
    model = model;
    choices =
        record {
          index = e.index;
          message = none;
          delta = some d;
          finish_reason = if is_done e.type then some e.finish_reason else none;
        }
        ∷ [];
    usage =
        if include_usage && not (is_zero e.usage)
        then some (canonical_usage_to_openai e.usage)
        else none;
  })
]

-- `CanonicalToOpenAIStreamChunk`.
unfoldable pub canonical_to_chunk : StreamEvent → Text → ℕ → Text → Bool → Option ChatResponse
unfolding event_chunk
canonical_to_chunk e id created model include_usage = elim e.type [
  | usage_report ↦
      if not include_usage || is_zero e.usage
      then none
      else some (record (chunk_of id created model []) {
        usage = some (canonical_usage_to_openai e.usage);
      })
  | _ ↦ event_chunk e id created model include_usage
]
