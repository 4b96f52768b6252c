-- ===== src/Protocols/Responses.antt =====
-- internal/protocol/openai_responses.go: an answer of OpenAI Responses, to and from the canonical form.
-- `Object` and the annotations of a part hold constants that nothing reads back, `Param` of an error is
-- not read, and the decimal print and quotation of a text are arguments.
pub mod RoundTrip
use buzzhive.Base.{
  ℕ, ◌+◌, length, List, [], ◌∷◌, ◌++◌, Bool, true, false, not, ◌&&◌, ◌||◌, Option, none, some, Text,
  text, text_eq, ◌==◌, if◌then◌else◌,
}
use buzzhive.Base.Bytes.{trim_space}
use buzzhive.Canonical.{
  CanonicalUsage, no_usage, CanonicalToolCall, CanonicalResponse, Fallible, good, bad,
}
use buzzhive.Protocols.Values.{is_blank, first_non_blank}

pub record OutputPart : Type 0 where
  pub type : Text
  pub content : Text  -- `Text`
  pub refusal : Text

pub record OutputItem : Type 0 where
  pub type : Text
  pub id : Text
  pub status : Text
  pub role : Text
  pub content : List OutputPart
  pub summary : List OutputPart
  pub encrypted_content : Text
  pub call_id : Text
  pub name : Text
  pub arguments : Text

pub record ResponsesError : Type 0 where
  pub code : Text
  pub message : Text
  pub type : Text

pub record ResponsesUsage : Type 0 where
  pub input_tokens : ℕ
  pub output_tokens : ℕ
  pub total_tokens : ℕ
  pub cached_tokens : ℕ  -- `InputTokensDetails`
  pub reasoning_tokens : ℕ  -- `OutputTokensDetails`

pub record ResponsesResponse : Type 0 where
  pub id : Text
  pub created_at : ℕ
  pub status : Text
  pub incomplete_reason : Option Text  -- `IncompleteDetails`
  pub error : Option ResponsesError
  pub model : Text
  pub output : List OutputItem
  pub usage : Option ResponsesUsage

-- The Go literal that gives a type and leaves every other field empty.
abbrev pub item_of : Text → OutputItem
item_of type = record {
  type = type;
  id = [];
  status = [];
  role = [];
  content = [];
  summary = [];
  encrypted_content = [];
  call_id = [];
  name = [];
  arguments = [];
}

abbrev pub summary_part : Text → OutputPart
summary_part content = record { type = text "summary_text"; content = content; refusal = [] }

abbrev pub text_part : Text → OutputPart
text_part content = record { type = text "output_text"; content = content; refusal = [] }

abbrev pub refusal_part : Text → OutputPart
refusal_part refusal = record { type = text "refusal"; content = []; refusal = refusal }

unfoldable pub responses_usage_to_canonical : Option ResponsesUsage → CanonicalUsage
responses_usage_to_canonical none = no_usage
responses_usage_to_canonical (some u) = record {
  prompt_tokens = u.input_tokens;
  completion_tokens = u.output_tokens;
  total_tokens = u.total_tokens;
  cached_tokens = u.cached_tokens;
  reasoning_tokens = u.reasoning_tokens;
}

unfoldable pub canonical_usage_to_responses : CanonicalUsage → ResponsesUsage
canonical_usage_to_responses u = record {
  input_tokens = u.prompt_tokens;
  output_tokens = u.completion_tokens;
  total_tokens = u.total_tokens;
  cached_tokens = u.cached_tokens;
  reasoning_tokens = u.reasoning_tokens;
}

-- `canonicalFinishReasonToResponsesStatus`.
unfoldable pub finish_reason_to_status : Text → Text
finish_reason_to_status reason =
    if reason == text "length" || reason == text "content_filter"
    then text "incomplete"
    else text "completed"

-- `responsesItemStatus`.
unfoldable pub item_status : Text → Text
item_status status = if status == text "incomplete" then text "incomplete" else text "completed"

-- `canonicalFinishReasonToResponsesIncompleteReason`.
unfoldable pub incomplete_reason_of : Text → Text
incomplete_reason_of reason =
    if reason == text "content_filter" then text "content_filter" else text "max_output_tokens"

-- `responsesIncompleteReasonToCanonical`.
unfoldable pub incomplete_reason_to_canonical : Option Text → Text
incomplete_reason_to_canonical none = text "length"
incomplete_reason_to_canonical (some reason) =
    if reason == text "content_filter" then text "content_filter" else text "length"

-- The texts of the parts of a type, joined.
unfoldable pub texts_of : Text → List OutputPart → Text
texts_of type [] = []
texts_of type (p ∷ ps) =
    let rest = texts_of type ps in if p.type == type then p.content ++ rest else rest

unfoldable pub refusals_of : List OutputPart → Text
refusals_of [] = []
refusals_of (p ∷ ps) =
    let rest = refusals_of ps in if p.type == text "refusal" then p.refusal ++ rest else rest

-- What the loop over the items of an answer does with one.
unfoldable pub add_item : CanonicalResponse → OutputItem → CanonicalResponse
unfolding texts_of refusals_of first_non_blank
add_item out item =
    if item.type == text "reasoning"
    then record out {
      reasoning =
          (out.reasoning ++ texts_of (text "summary_text") item.summary)
          ++ texts_of (text "reasoning_text") item.content;
      signature = if item.encrypted_content == [] then out.signature else item.encrypted_content;
    }
    else if item.type == text "message"
    then record out {
      body = out.body ++ texts_of (text "output_text") item.content;
      refusal = out.refusal ++ refusals_of item.content;
    }
    else if item.type == text "function_call"
    then record out {
      tool_calls =
          out.tool_calls
          ++ record {
            id = first_non_blank (item.call_id ∷ item.id ∷ []);
            name = item.name;
            arguments = item.arguments;
            signature = [];
          }
            ∷ [];
    }
    else out

unfoldable pub add_items : CanonicalResponse → List OutputItem → CanonicalResponse
unfolding add_item
add_items out [] = out
add_items out (item ∷ items) = add_items (add_item out item) items

abbrev pub with_reason : CanonicalResponse → Text → CanonicalResponse
with_reason out reason = record out { finish_reason = reason }

abbrev pub has_calls : CanonicalResponse → Bool
has_calls out = elim out.tool_calls [ [] ↦ false | c ∷ cs ↦ true ]

unfoldable pub ended_badly : (Text → Text) → ResponsesResponse → Text
unfolding first_non_blank
ended_badly quote resp = elim resp.error [
  | some e ↦
      text "Responses "
      ++ (first_non_blank (e.code ∷ e.type ∷ resp.status ∷ []) ++ (text ": " ++ e.message))
  | none ↦ text "Responses response ended with status " ++ quote resp.status
]

abbrev pub empty_answer : ResponsesResponse → CanonicalResponse
empty_answer resp = record {
  id = resp.id;
  created = resp.created_at;
  model = resp.model;
  role = text "assistant";
  status = resp.status;
  body = [];
  refusal = [];
  reasoning = [];
  signature = [];
  tool_calls = [];
  finish_reason = [];
  usage = responses_usage_to_canonical resp.usage;
}

-- `OpenAIResponsesResponseToCanonical`. `quote` is the verb `%q` of the package `fmt`.
unfoldable pub responses_to_canonical :
    (Text → Text) → ResponsesResponse → Fallible CanonicalResponse
unfolding add_items responses_usage_to_canonical incomplete_reason_to_canonical ended_badly
responses_to_canonical quote resp =
    let out = add_items (empty_answer resp) resp.output in
    if resp.status == text "completed"
    then good (with_reason out (if has_calls out then text "tool_calls" else text "stop"))
    else if resp.status == text "incomplete"
    then good (with_reason out (incomplete_reason_to_canonical resp.incomplete_reason))
    else if resp.status == text "failed" || resp.status == text "cancelled"
    then bad (ended_badly quote resp)
    else if resp.status == []
    then good (with_reason out (if has_calls out then text "tool_calls" else []))
    else bad (text "Responses response is not terminal: status " ++ quote resp.status)

-- `responsesOutputItemID`.
unfoldable pub output_item_id : (ℕ → Text) → Text → Text → ℕ → Text
output_item_id decimal response_id kind index =
    let id = if is_blank response_id then text "resp" else trim_space response_id in
    id ++ (text "_" ++ (kind ++ (text "_" ++ decimal index)))

unfoldable pub response_status : CanonicalResponse → Text
unfolding finish_reason_to_status
response_status resp =
    if resp.status == text "incomplete"
    then text "incomplete"
    else if resp.status == text "completed" || (resp.status == [] && not (resp.refusal == []))
    then text "completed"
    else finish_reason_to_status resp.finish_reason

unfoldable pub reasoning_items : (ℕ → Text) → CanonicalResponse → List OutputItem
unfolding output_item_id
reasoning_items decimal resp =
    if resp.reasoning == [] && resp.signature == []
    then []
    else record (item_of (text "reasoning")) {
      id = output_item_id decimal resp.id (text "rs") 0;
      status = text "completed";
      summary = summary_part resp.reasoning ∷ [];
      encrypted_content = resp.signature;
    }
      ∷ []

unfoldable pub message_items : (ℕ → Text) → CanonicalResponse → Text → ℕ → List OutputItem
unfolding output_item_id item_status first_non_blank
message_items decimal resp status index =
    if resp.body == [] && resp.refusal == []
    then []
    else record (item_of (text "message")) {
      id = output_item_id decimal resp.id (text "msg") index;
      status = item_status status;
      role = first_non_blank (resp.role ∷ text "assistant" ∷ []);
      content =
          (if resp.refusal == [] then text_part resp.body else refusal_part resp.refusal) ∷ [];
    }
      ∷ []

unfoldable pub call_items : (ℕ → Text) → Text → ℕ → List CanonicalToolCall → List OutputItem
unfolding output_item_id first_non_blank
call_items decimal id index [] = []
call_items decimal id index (c ∷ cs) =
    let item_id = output_item_id decimal id (text "fc") index in
    record (item_of (text "function_call")) {
      id = item_id;
      call_id = first_non_blank (c.id ∷ item_id ∷ []);
      status = text "completed";
      name = c.name;
      arguments = c.arguments;
    }
    ∷ call_items decimal id (index + 1) cs

-- `CanonicalToOpenAIResponsesResponse`.
unfoldable pub canonical_to_responses : (ℕ → Text) → CanonicalResponse → ResponsesResponse
unfolding response_status reasoning_items message_items call_items canonical_usage_to_responses
    incomplete_reason_of
canonical_to_responses decimal resp =
    let status = response_status resp in
    let first = reasoning_items decimal resp in
    let second = first ++ message_items decimal resp status (length first) in
    record {
      id = resp.id;
      created_at = resp.created;
      status = status;
      incomplete_reason =
          if status == text "incomplete"
          then some (incomplete_reason_of resp.finish_reason)
          else none;
      error = none;
      model = resp.model;
      output = second ++ call_items decimal resp.id (length second) resp.tool_calls;
      usage = some (canonical_usage_to_responses resp.usage);
    }
