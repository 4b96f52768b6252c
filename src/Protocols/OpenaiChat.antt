-- ===== src/Protocols/OpenaiChat.antt =====
-- internal/protocol/openai_chat_response.go, with the parts of internal/protocol/openai_chat.go that it uses:
-- answers and stream chunks of OpenAI Chat. Pointers are options. `Object` and `Type` hold constants that
-- nothing reads back, and counts are in ℕ.
pub mod Stream
pub mod RoundTrip
use buzzhive.Base.{
  ℕ, List, [], ◌∷◌, ◌++◌, map, Bool, true, false, not, ◌&&◌, ◌||◌, Option, none, some, Text,
  text_eq, nat_eq, ◌==◌, if◌then◌else◌,
}
use buzzhive.Base.Maps.{get_or}
use buzzhive.Canonical.{
  CanonicalUsage, no_usage, is_zero, CanonicalToolCall, CanonicalResponse, StreamEvent, event_of,
  EventType, response_start, message_start, text_delta, refusal_delta, reasoning_delta,
  tool_call_start, tool_arguments_delta, tool_call_done, usage_report, response_done, stream_error,
}

pub record OpenaiUsage : Type 0 where
  pub prompt_tokens : ℕ
  pub completion_tokens : ℕ
  pub total_tokens : ℕ
  pub prompt_cache_hit_tokens : ℕ
  pub cached_tokens : Option ℕ  -- `PromptTokensDetails`
  pub reasoning_tokens : Option ℕ  -- `CompletionTokensDetails`

-- `ExtraContent` holds at most `Google`, which holds the signature.
pub record OpenaiToolCall : Type 0 where
  pub index : Option ℕ
  pub id : Text
  pub name : Text
  pub arguments : Text
  pub extra_content : Option (Option Text)

pub record MessageOut : Type 0 where
  pub role : Text
  pub content : Option Text
  pub refusal : Option Text
  pub reasoning_content : Text
  pub tool_calls : List OpenaiToolCall

pub record StreamDelta : Type 0 where
  pub role : Text
  pub content : Text
  pub refusal : Text
  pub reasoning_content : Text
  pub tool_calls : List OpenaiToolCall

pub record Choice : Type 0 where
  pub index : ℕ
  pub message : Option MessageOut
  pub delta : Option StreamDelta
  pub finish_reason : Option Text

pub record ChatResponse : Type 0 where
  pub id : Text
  pub created : ℕ
  pub model : Text
  pub choices : List Choice
  pub usage : Option OpenaiUsage

unfoldable pub openai_usage_to_canonical : Option OpenaiUsage → CanonicalUsage
openai_usage_to_canonical none = no_usage
openai_usage_to_canonical (some u) = record {
  prompt_tokens = u.prompt_tokens;
  completion_tokens = u.completion_tokens;
  total_tokens = u.total_tokens;
  cached_tokens = get_or u.cached_tokens u.prompt_cache_hit_tokens;
  reasoning_tokens = get_or u.reasoning_tokens 0;
}

unfoldable pub canonical_usage_to_openai : CanonicalUsage → OpenaiUsage
canonical_usage_to_openai u = record {
  prompt_tokens = u.prompt_tokens;
  completion_tokens = u.completion_tokens;
  total_tokens = u.total_tokens;
  prompt_cache_hit_tokens = 0;
  cached_tokens = if u.cached_tokens == 0 then none else some u.cached_tokens;
  reasoning_tokens = if u.reasoning_tokens == 0 then none else some u.reasoning_tokens;
}

-- `openAIToolCallExtraContent`.
unfoldable pub extra_content : Text → Option (Option Text)
extra_content signature = if signature == [] then none else some (some signature)

-- `openAIToolCallThoughtSignature`.
unfoldable pub thought_signature : OpenaiToolCall → Text
thought_signature call = elim call.extra_content [ none ↦ [] | some google ↦ get_or google [] ]

unfoldable pub call_to_canonical : OpenaiToolCall → CanonicalToolCall
unfolding thought_signature
call_to_canonical call = record {
  id = call.id;
  name = call.name;
  arguments = call.arguments;
  signature = thought_signature call;
}

-- `openAIToolCallsToCanonical`.
unfoldable pub openai_tool_calls_to_canonical : List OpenaiToolCall → List CanonicalToolCall
unfolding call_to_canonical
openai_tool_calls_to_canonical calls = map call_to_canonical calls

unfoldable pub call_to_openai : CanonicalToolCall → OpenaiToolCall
unfolding extra_content
call_to_openai call = record {
  index = none;
  id = call.id;
  name = call.name;
  arguments = call.arguments;
  extra_content = extra_content call.signature;
}

-- `canonicalToolCallsToOpenAIToolCalls`.
unfoldable pub canonical_tool_calls_to_openai : List CanonicalToolCall → List OpenaiToolCall
unfolding call_to_openai
canonical_tool_calls_to_openai calls = map call_to_openai calls

abbrev pub response_head : ChatResponse → CanonicalResponse
response_head resp = record {
  id = resp.id;
  created = resp.created;
  model = resp.model;
  role = [];
  status = [];
  body = [];
  refusal = [];
  reasoning = [];
  signature = [];
  tool_calls = [];
  finish_reason = [];
  usage = openai_usage_to_canonical resp.usage;
}

unfoldable pub openai_chat_response_to_canonical : ChatResponse → CanonicalResponse
unfolding openai_usage_to_canonical openai_tool_calls_to_canonical
openai_chat_response_to_canonical resp = elim resp.choices [
  | [] ↦ response_head resp
  | choice ∷ others ↦ elim choice.message [
    | none ↦ record (response_head resp) { finish_reason = get_or choice.finish_reason [] }
    | some message ↦ record (response_head resp) {
      finish_reason = get_or choice.finish_reason [];
      role = message.role;
      body = get_or message.content [];
      refusal = get_or message.refusal [];
      reasoning = message.reasoning_content;
      tool_calls = openai_tool_calls_to_canonical message.tool_calls;
    }
  ]
]

-- A refusal and tool calls each take the place of the text.
unfoldable pub message_to_openai : CanonicalResponse → MessageOut
unfolding canonical_tool_calls_to_openai
message_to_openai resp = record {
  role = resp.role;
  content =
      if resp.refusal == []
      then elim resp.tool_calls [ [] ↦ some resp.body | _ ∷ _ ↦ none ]
      else none;
  refusal = if resp.refusal == [] then none else some resp.refusal;
  reasoning_content = resp.reasoning;
  tool_calls = canonical_tool_calls_to_openai resp.tool_calls;
}

unfoldable pub canonical_to_openai_chat_response : CanonicalResponse → ChatResponse
unfolding message_to_openai canonical_usage_to_openai
canonical_to_openai_chat_response resp = record {
  id = resp.id;
  created = resp.created;
  model = resp.model;
  choices =
      record {
        index = 0;
        message = some (message_to_openai resp);
        delta = none;
        finish_reason = some resp.finish_reason;
      }
      ∷ [];
  usage = some (canonical_usage_to_openai resp.usage);
}
