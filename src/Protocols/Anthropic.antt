-- ===== src/Protocols/Anthropic.antt =====
-- internal/protocol/anthropic.go: an answer of Anthropic Messages, to and from the canonical form. The
-- content of a tool's result is the text of a JSON value; `marshalJSONRaw` on it and the verb `%q` of the
-- package `fmt` are arguments. `StopSequence` and the constant `Type` of an answer are not read.
use buzzhive.Base.{
  ℕ, ◌+◌, ◌-◌, List, [], ◌∷◌, ◌++◌, map, Bool, true, false, not, ◌&&◌, ◌||◌, Option, none, some,
  Text, text, text_eq, ◌==◌, if◌then◌else◌,
}
use buzzhive.Base.Maps.{get_or}
use buzzhive.Canonical.{
  CanonicalUsage, CanonicalToolCall, CanonicalResponse, CanonicalPart, part_of, Fallible, good, bad,
}
use buzzhive.Protocols.Values.{first_non_blank}

pub record AnthropicSource : Type 0 where
  pub type : Text
  pub media_type : Text
  pub payload : Text  -- `Data`

pub record AnthropicContent : Type 0 where
  pub type : Text
  pub content_text : Text  -- `Text`
  pub thinking : Text
  pub signature : Text
  pub source : Option AnthropicSource
  pub id : Text
  pub name : Text
  pub input : Text
  pub tool_use_id : Text
  pub content : Text

pub record AnthropicStopDetails : Type 0 where
  pub type : Text
  pub category : Text
  pub explanation : Text

pub record AnthropicUsage : Type 0 where
  pub input_tokens : ℕ
  pub output_tokens : ℕ
  pub cache_creation_input_tokens : ℕ
  pub cache_read_input_tokens : ℕ
  pub thinking_tokens : Option ℕ  -- `OutputTokensDetails`

pub record AnthropicResponse : Type 0 where
  pub id : Text
  pub role : Text
  pub model : Text
  pub content : List AnthropicContent
  pub stop_reason : Text
  pub stop_details : Option AnthropicStopDetails
  pub usage : AnthropicUsage

-- `AnthropicStopReasonToCanonical`.
unfoldable pub stop_reason_to_canonical : Text → Text
stop_reason_to_canonical reason =
    if reason == text "end_turn" || (reason == text "stop_sequence" || reason == text "pause_turn")
    then text "stop"
    else if reason == text "max_tokens" || reason == text "model_context_window_exceeded"
    then text "length"
    else if reason == text "tool_use"
    then text "tool_calls"
    else if reason == text "refusal"
    then text "content_filter"
    else reason

-- `CanonicalFinishReasonToAnthropic`.
unfoldable pub finish_reason_to_anthropic : Text → Text
finish_reason_to_anthropic reason =
    if reason == [] || reason == text "stop"
    then text "end_turn"
    else if reason == text "length"
    then text "max_tokens"
    else if reason == text "tool_calls"
    then text "tool_use"
    else if reason == text "content_filter"
    then text "refusal"
    else reason

-- `allCanonicalPartsAreToolResponses` of internal/protocol/gemini.go.
unfoldable pub all_responses : List CanonicalPart → Bool
all_responses [] = true
all_responses (p ∷ ps) = p.type == text "tool_response" && all_responses ps

unfoldable pub all_parts_are_tool_responses : List CanonicalPart → Bool
unfolding all_responses
all_parts_are_tool_responses [] = false
all_parts_are_tool_responses (p ∷ ps) = all_responses (p ∷ ps)

unfoldable pub role_to_canonical : Text → List CanonicalPart → Text
unfolding all_parts_are_tool_responses
role_to_canonical role parts =
    if all_parts_are_tool_responses parts
    then text "tool"
    else if role == text "assistant"
    then text "assistant"
    else text "user"

unfoldable pub role_to_anthropic : Text → Text
role_to_anthropic role = if role == text "assistant" then text "assistant" else text "user"

unfoldable pub image_part : Option AnthropicSource → Fallible CanonicalPart
image_part none = bad (text "only Anthropic base64 images are supported")
image_part (some s) =
    if s.type == text "base64"
    then good (record (part_of (text "image")) { mime_type = s.media_type; payload = s.payload })
    else bad (text "only Anthropic base64 images are supported")

module _ (marshal : Text → Fallible Text) (quote : Text → Text) where
  -- One part of `anthropicContentToCanonical`.
  unfoldable pub content_to_canonical : AnthropicContent → Fallible CanonicalPart
  unfolding image_part
  content_to_canonical c =
      if c.type == text "text"
      then good (record (part_of (text "text")) { content = c.content_text })
      else if c.type == text "thinking"
      then good
          (record (part_of (text "reasoning")) { content = c.thinking; signature = c.signature })
      else if c.type == text "image"
      then image_part c.source
      else if c.type == text "tool_use"
      then good (record (part_of (text "tool_call")) {
        tool_call_id = c.id;
        name = c.name;
        arguments = if c.input == [] then text "{}" else c.input;
      })
      else if c.type == text "tool_result"
      then elim (marshal c.content) [
        | bad message ↦ bad message
        | good raw ↦ good (record (part_of (text "tool_response")) {
          tool_call_id = c.tool_use_id;
          response = raw;
        })
      ]
      else bad (text "unsupported Anthropic content type " ++ quote c.type)

  -- `anthropicContentToCanonical`.
  unfoldable pub contents_to_canonical : List AnthropicContent → Fallible (List CanonicalPart)
  contents_to_canonical [] = good []
  contents_to_canonical (c ∷ cs) = elim (content_to_canonical c) [
    | bad message ↦ bad message
    | good part ↦ elim (contents_to_canonical cs) [
      | bad message ↦ bad message
      | good parts ↦ good (part ∷ parts)
    ]
  ]

-- What the loop over the parts of an answer does with one.
unfoldable pub add_part : CanonicalResponse → CanonicalPart → CanonicalResponse
add_part out p =
    if p.type == text "text"
    then record out { body = out.body ++ p.content }
    else if p.type == text "reasoning"
    then record out { reasoning = out.reasoning ++ p.content; signature = p.signature }
    else if p.type == text "tool_call"
    then record out {
      tool_calls =
          out.tool_calls
          ++ record {
            id = p.tool_call_id;
            name = p.name;
            arguments = p.arguments;
            signature = p.signature;
          }
            ∷ [];
    }
    else out

unfoldable pub add_parts : CanonicalResponse → List CanonicalPart → CanonicalResponse
unfolding add_part
add_parts out [] = out
add_parts out (p ∷ ps) = add_parts (add_part out p) ps

unfoldable pub refusal_text : Option AnthropicStopDetails → Text
unfolding first_non_blank
refusal_text none = text "Anthropic refused the request"
refusal_text (some d) =
    first_non_blank (d.explanation ∷ d.category ∷ text "Anthropic refused the request" ∷ [])

unfoldable pub answer_usage : AnthropicUsage → CanonicalUsage
answer_usage u =
    let prompt = u.input_tokens + u.cache_creation_input_tokens + u.cache_read_input_tokens in
    record {
      prompt_tokens = prompt;
      completion_tokens = u.output_tokens;
      total_tokens = prompt + u.output_tokens;
      cached_tokens = u.cache_read_input_tokens;
      reasoning_tokens = get_or u.thinking_tokens 0;
    }

abbrev pub empty_answer : AnthropicResponse → List CanonicalPart → CanonicalResponse
empty_answer resp parts = record {
  id = resp.id;
  created = 0;
  model = resp.model;
  role = role_to_canonical resp.role parts;
  status = [];
  body = [];
  refusal = if resp.stop_reason == text "refusal" then refusal_text resp.stop_details else [];
  reasoning = [];
  signature = [];
  tool_calls = [];
  finish_reason = stop_reason_to_canonical resp.stop_reason;
  usage = answer_usage resp.usage;
}

unfoldable pub end_with_calls : Text → CanonicalResponse → CanonicalResponse
end_with_calls stop_reason out = elim out.tool_calls [
  | [] ↦ out
  | c ∷ cs ↦
      if stop_reason == [] || stop_reason == text "tool_use"
      then record out { finish_reason = text "tool_calls" }
      else out
]

-- `AnthropicMessagesResponseToCanonical`.
unfoldable pub anthropic_to_canonical :
    (Text → Fallible Text) → (Text → Text) → AnthropicResponse → Fallible CanonicalResponse
unfolding contents_to_canonical content_to_canonical add_parts role_to_canonical refusal_text
    stop_reason_to_canonical answer_usage end_with_calls
anthropic_to_canonical marshal quote resp =
    elim (contents_to_canonical marshal quote resp.content) [
      | bad message ↦ bad message
      | good parts ↦
          good (end_with_calls resp.stop_reason (add_parts (empty_answer resp parts) parts))
    ]

abbrev pub content_of : Text → AnthropicContent
content_of type = record {
  type = type;
  content_text = [];
  thinking = [];
  signature = [];
  source = none;
  id = [];
  name = [];
  input = [];
  tool_use_id = [];
  content = [];
}

abbrev pub tool_use : CanonicalToolCall → AnthropicContent
tool_use c = record (content_of (text "tool_use")) { id = c.id; name = c.name; input = c.arguments }

-- `canonicalResponseToAnthropicContent`.
unfoldable pub response_content :
    Text → Text → Text → List CanonicalToolCall → List AnthropicContent
response_content reasoning signature body calls =
    (if reasoning == [] && signature == []
      then []
      else record (content_of (text "thinking")) { thinking = reasoning; signature = signature }
        ∷ [])
    ++ ((if body == [] then [] else record (content_of (text "text")) { content_text = body } ∷ [])
        ++ map tool_use calls)

-- A negative count of input tokens is made 0.
unfoldable pub usage_to_anthropic : CanonicalUsage → AnthropicUsage
usage_to_anthropic u = record {
  input_tokens = u.prompt_tokens - u.cached_tokens;
  output_tokens = u.completion_tokens;
  cache_creation_input_tokens = 0;
  cache_read_input_tokens = u.cached_tokens;
  thinking_tokens = some u.reasoning_tokens;
}

-- `CanonicalToAnthropicMessagesResponse`.
unfoldable pub canonical_to_anthropic : CanonicalResponse → AnthropicResponse
unfolding response_content role_to_anthropic finish_reason_to_anthropic usage_to_anthropic
canonical_to_anthropic resp =
    let refused = not (resp.refusal == []) in
    record {
      id = resp.id;
      role = role_to_anthropic resp.role;
      model = resp.model;
      content =
          if refused
          then []
          else response_content resp.reasoning resp.signature resp.body resp.tool_calls;
      stop_reason =
          if refused then text "refusal" else finish_reason_to_anthropic resp.finish_reason;
      stop_details =
          if refused
          then some (record { type = text "refusal"; category = []; explanation = resp.refusal })
          else none;
      usage = usage_to_anthropic resp.usage;
    }
