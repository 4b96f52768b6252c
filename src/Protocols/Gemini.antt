-- ===== src/Protocols/Gemini.antt =====
-- internal/protocol/gemini_response.go, with the types of internal/protocol/gemini.go that it uses: an
-- answer and a stream chunk of Gemini, to and from the canonical form. Parts that are data or answers of
-- functions, and safety ratings, are left out, since no answer reads them. `strings.ToLower` and
-- `strings.ToUpper` of any text, and the decimal print of a number, are arguments.
use buzzhive.Base.{
  ℕ, suc, ltb, List, [], ◌∷◌, ◌++◌, map, Bool, true, false, not, ◌&&◌, ◌||◌, Option, none, some,
  Text, text, text_eq, nat_eq, ◌==◌, if◌then◌else◌,
}
use buzzhive.Base.Bytes.{trim_space}
use buzzhive.Canonical.{
  CanonicalUsage, is_zero, CanonicalToolCall, CanonicalResponse, StreamEvent, event_of, EventType,
  text_delta, refusal_delta, reasoning_delta, tool_call_start, tool_arguments_delta, tool_call_done,
  usage_report, response_done,
}
use buzzhive.Protocols.Values.{is_blank, first_non_blank}

pub record GeminiFunctionCall : Type 0 where
  pub id : Text
  pub name : Text
  pub args : Text

pub record GeminiPart : Type 0 where
  pub content : Text  -- `Text`
  pub thought : Bool
  pub function_call : Option GeminiFunctionCall
  pub thought_signature : Text

pub record GeminiContent : Type 0 where
  pub role : Text
  pub parts : List GeminiPart

pub record GeminiCandidate : Type 0 where
  pub content : GeminiContent
  pub finish_reason : Text

pub record GeminiPromptFeedback : Type 0 where
  pub block_reason : Text
  pub block_reason_message : Text

pub record GeminiUsageMetadata : Type 0 where
  pub prompt_token_count : ℕ
  pub candidates_token_count : ℕ
  pub total_token_count : ℕ
  pub cached_content_token_count : ℕ
  pub thoughts_token_count : ℕ

pub record GeminiResponse : Type 0 where
  pub candidates : List GeminiCandidate
  pub prompt_feedback : Option GeminiPromptFeedback
  pub usage_metadata : GeminiUsageMetadata

unfoldable pub gemini_usage : GeminiResponse → CanonicalUsage
gemini_usage resp =
    let u = resp.usage_metadata in
    record {
      prompt_tokens = u.prompt_token_count;
      completion_tokens = u.candidates_token_count;
      total_tokens = u.total_token_count;
      cached_tokens = u.cached_content_token_count;
      reasoning_tokens = u.thoughts_token_count;
    }

unfoldable pub canonical_usage_to_gemini : CanonicalUsage → GeminiUsageMetadata
canonical_usage_to_gemini u = record {
  prompt_token_count = u.prompt_tokens;
  candidates_token_count = u.completion_tokens;
  total_token_count = u.total_tokens;
  cached_content_token_count = u.cached_tokens;
  thoughts_token_count = u.reasoning_tokens;
}

unfoldable pub finish_reason_to_canonical : (Text → Text) → Text → Text
finish_reason_to_canonical to_lower reason =
    if reason == [] || reason == text "STOP"
    then text "stop"
    else if reason == text "MAX_TOKENS"
    then text "length"
    else if reason == text "SAFETY"
        || (reason == text "RECITATION"
            || (reason == text "BLOCKLIST"
                || (reason == text "PROHIBITED_CONTENT" || reason == text "SPII")))
    then text "content_filter"
    else to_lower reason

unfoldable pub finish_reason_to_gemini : (Text → Text) → Text → Text
finish_reason_to_gemini to_upper reason =
    if reason == [] || (reason == text "stop" || reason == text "tool_calls")
    then text "STOP"
    else if reason == text "length"
    then text "MAX_TOKENS"
    else if reason == text "content_filter"
    then text "SAFETY"
    else to_upper reason

-- The call of a part, where it has one with a name.
unfoldable pub named_call : GeminiPart → Option GeminiFunctionCall
named_call part = elim part.function_call [
  | none ↦ none
  | some call ↦ if is_blank call.name then none else some call
]

abbrev pub count_named : List GeminiPart → ℕ
count_named [] = 0
count_named (p ∷ ps) = elim (named_call p) [
  | none ↦ count_named ps
  | some call ↦ suc (count_named ps)
]

unfoldable pub call_id : (ℕ → Text) → Text → ℕ → GeminiFunctionCall → Text
call_id decimal request_id index call =
    if is_blank call.id
    then text "call_" ++ (request_id ++ (text "_" ++ decimal index))
    else trim_space call.id

unfoldable pub text_events : GeminiPart → List StreamEvent
text_events part = elim part.function_call [
  | some call ↦ []
  | none ↦
      if part.content == [] && part.thought_signature == []
      then []
      else record (event_of (if part.thought then reasoning_delta else text_delta)) {
        delta = part.content;
        signature = part.thought_signature;
      }
        ∷ []
]

unfoldable pub call_events :
    (ℕ → Text) → Text → ℕ → GeminiPart → GeminiFunctionCall → List StreamEvent
unfolding call_id
call_events decimal request_id index part call =
    let id = call_id decimal request_id index call in
    let arguments =
      if is_blank call.args || call.args == text "null" then text "{}" else call.args in
    record (event_of tool_call_start) {
      index = index;
      call_id = id;
      name = call.name;
      signature = part.thought_signature;
    }
    ∷ record (event_of tool_arguments_delta) {
      index = index;
      call_id = id;
      name = call.name;
      delta = arguments;
    }
    ∷ record (event_of tool_call_done) {
      index = index;
      call_id = id;
      name = call.name;
      arguments = arguments;
      signature = part.thought_signature;
    }
    ∷ []

unfoldable pub parts_events : (ℕ → Text) → Text → ℕ → List GeminiPart → List StreamEvent
unfolding text_events call_events named_call
parts_events decimal request_id index [] = []
parts_events decimal request_id index (p ∷ ps) = elim (named_call p) [
  | none ↦ text_events p ++ parts_events decimal request_id index ps
  | some call ↦
      text_events p
      ++ (call_events decimal request_id index p call
          ++ parts_events decimal request_id (suc index) ps)
]

abbrev pub done_with : Text → StreamEvent
done_with reason = record (event_of response_done) { finish_reason = reason }

unfoldable pub candidate_events :
    (ℕ → Text) → (Text → Text) → Text → ℕ → GeminiCandidate → List StreamEvent
unfolding parts_events finish_reason_to_canonical
candidate_events decimal to_lower request_id offset c =
    let reason = finish_reason_to_canonical to_lower c.finish_reason in
    parts_events decimal request_id offset c.content.parts
    ++ (if c.finish_reason == []
        then []
        else done_with (
            if ltb 0 (count_named c.content.parts) && reason == text "stop"
            then text "tool_calls"
            else reason)
          ∷ [])

abbrev pub block_message : GeminiPromptFeedback → Text
block_message f =
    first_non_blank
      (f.block_reason_message ∷ (text "Gemini blocked the prompt: " ++ f.block_reason) ∷ [])

unfoldable pub feedback_events : Option GeminiPromptFeedback → List StreamEvent
unfolding first_non_blank
feedback_events none = []
feedback_events (some f) =
    if is_blank f.block_reason
    then []
    else record (event_of refusal_delta) { delta = block_message f }
      ∷ done_with (text "content_filter")
      ∷ []

abbrev pub is_response_done : EventType → Bool
is_response_done response_done = true
is_response_done _ = false

-- The report of usage goes before the end of the answer, or last.
unfoldable pub insert_before_done : StreamEvent → List StreamEvent → List StreamEvent
insert_before_done u [] = u ∷ []
insert_before_done u (e ∷ es) =
    let rest = insert_before_done u es in if is_response_done e.type then u ∷ e ∷ es else e ∷ rest

-- `GeminiToCanonicalStreamEvents`.
unfoldable pub gemini_to_events :
    (ℕ → Text) → (Text → Text) → GeminiResponse → Text → ℕ → List StreamEvent
unfolding candidate_events feedback_events gemini_usage insert_before_done
gemini_to_events decimal to_lower resp request_id offset =
    let out : List StreamEvent = elim resp.candidates [
      | [] ↦ feedback_events resp.prompt_feedback
      | c ∷ cs ↦ candidate_events decimal to_lower request_id offset c
    ] in
    let usage = gemini_usage resp in
    if is_zero usage
    then out
    else insert_before_done (record (event_of usage_report) { usage = usage }) out

abbrev pub gemini_part : Text → Bool → Text → GeminiPart
gemini_part content thought signature = record {
  content = content;
  thought = thought;
  function_call = none;
  thought_signature = signature;
}

-- `jsonRawObject`.
unfoldable pub json_raw_object : Text → Text
json_raw_object value = if is_blank value then text "{}" else trim_space value

unfoldable pub call_part : Text → Text → Text → Text → GeminiPart
unfolding json_raw_object
call_part id name arguments signature = record {
  content = [];
  thought = false;
  function_call = some (record { id = id; name = name; args = json_raw_object arguments });
  thought_signature = signature;
}

abbrev pub model_says : List GeminiPart → Text → GeminiCandidate
model_says parts reason = record {
  content = record { role = text "model"; parts = parts };
  finish_reason = reason;
}

abbrev pub no_count : GeminiUsageMetadata
no_count = record {
  prompt_token_count = 0;
  candidates_token_count = 0;
  total_token_count = 0;
  cached_content_token_count = 0;
  thoughts_token_count = 0;
}

abbrev pub says : GeminiCandidate → Option GeminiResponse
says c = some (record { candidates = c ∷ []; prompt_feedback = none; usage_metadata = no_count })

-- `CanonicalStreamEventToGeminiGenerateResponse`.
unfoldable pub event_to_gemini : (Text → Text) → StreamEvent → EventType → Option GeminiResponse
unfolding call_part finish_reason_to_gemini canonical_usage_to_gemini
event_to_gemini to_upper e reasoning_delta =
    says (model_says (gemini_part e.delta true e.signature ∷ []) [])
event_to_gemini to_upper e text_delta =
    says (model_says (gemini_part e.delta false e.signature ∷ []) [])
event_to_gemini to_upper e refusal_delta =
    says (model_says (gemini_part e.delta false e.signature ∷ []) [])
event_to_gemini to_upper e tool_call_done =
    says (model_says (call_part e.call_id e.name e.arguments e.signature ∷ []) [])
event_to_gemini to_upper e usage_report = some (record {
  candidates = [];
  prompt_feedback = none;
  usage_metadata = canonical_usage_to_gemini e.usage;
})
event_to_gemini to_upper e response_done =
    says (model_says [] (finish_reason_to_gemini to_upper e.finish_reason))
event_to_gemini to_upper e _ = none

abbrev pub tool_part : CanonicalToolCall → GeminiPart
tool_part c = call_part c.id c.name c.arguments c.signature

-- `canonicalResponsePartsToGemini`.
unfoldable pub response_parts : Text → Text → Text → List CanonicalToolCall → List GeminiPart
unfolding call_part
response_parts reasoning signature content calls =
    (if reasoning == [] then [] else gemini_part reasoning true signature ∷ [])
    ++ ((if content == [] then [] else gemini_part content false [] ∷ []) ++ map tool_part calls)

-- `CanonicalToGeminiGenerateResponse`.
unfoldable pub canonical_to_gemini : (Text → Text) → CanonicalResponse → GeminiResponse
unfolding response_parts first_non_blank finish_reason_to_gemini canonical_usage_to_gemini
canonical_to_gemini to_upper resp = record {
  candidates =
      model_says
        (response_parts resp.reasoning resp.signature
          (first_non_blank (resp.refusal ∷ resp.body ∷ [])) resp.tool_calls)
        (finish_reason_to_gemini to_upper resp.finish_reason)
      ∷ [];
  prompt_feedback = none;
  usage_metadata = canonical_usage_to_gemini resp.usage;
}

-- `geminiResponseToolCalls`: from the calls found before.
unfoldable pub response_calls : (ℕ → Text) → Text → ℕ → List GeminiPart → List CanonicalToolCall
unfolding named_call call_id
response_calls decimal request_id index [] = []
response_calls decimal request_id index (p ∷ ps) = elim (named_call p) [
  | none ↦ response_calls decimal request_id index ps
  | some call ↦
      record {
        id = call_id decimal request_id index call;
        name = call.name;
        arguments = if call.args == [] || call.args == text "null" then text "{}" else call.args;
        signature = p.thought_signature;
      }
      ∷ response_calls decimal request_id (suc index) ps
]

-- `geminiResponseText` and `geminiResponseReasoning`: the parts that are thoughts, or those that are not.
unfoldable pub joined_text : Bool → List GeminiPart → Text
joined_text thoughts [] = []
joined_text thoughts (p ∷ ps) =
    let rest = joined_text thoughts ps in
    if (if thoughts then p.thought else not p.thought) then p.content ++ rest else rest

-- `geminiResponseSignature`: the last one that is not empty.
unfoldable pub last_signature : List GeminiPart → Text
last_signature [] = []
last_signature (p ∷ ps) =
    let rest = last_signature ps in if rest == [] then p.thought_signature else rest

abbrev pub first_parts : GeminiResponse → List GeminiPart
first_parts resp = elim resp.candidates [ [] ↦ [] | c ∷ cs ↦ c.content.parts ]

-- `geminiFinishReason`.
abbrev pub first_reason : GeminiResponse → Text
first_reason resp = elim resp.candidates [ [] ↦ [] | c ∷ cs ↦ c.finish_reason ]

-- The message of a prompt that was blocked, with no candidate at all.
unfoldable pub blocked : GeminiResponse → Option GeminiPromptFeedback
blocked resp = elim resp.candidates [
  | c ∷ cs ↦ none
  | [] ↦ elim resp.prompt_feedback [
    | none ↦ none
    | some f ↦ if is_blank f.block_reason then none else some f
  ]
]

abbrev pub stop_or_calls : Text → List CanonicalToolCall → Text
stop_or_calls reason [] = reason
stop_or_calls reason (c ∷ cs) = if reason == text "stop" then text "tool_calls" else reason

-- `GeminiToCanonicalResponse`.
unfoldable pub gemini_to_canonical :
    (ℕ → Text) → (Text → Text) → GeminiResponse → Text → Text → ℕ → Text → CanonicalResponse
unfolding response_calls joined_text last_signature blocked gemini_usage finish_reason_to_canonical
    first_non_blank
gemini_to_canonical decimal to_lower resp model id created request_id =
    let parts = first_parts resp in
    let calls = response_calls decimal request_id 0 parts in
    let out : CanonicalResponse = record {
      id = id;
      created = created;
      model = model;
      role = text "assistant";
      status = [];
      body = joined_text false parts;
      refusal = [];
      reasoning = joined_text true parts;
      signature = last_signature parts;
      tool_calls = calls;
      finish_reason = stop_or_calls (finish_reason_to_canonical to_lower (first_reason resp)) calls;
      usage = gemini_usage resp;
    } in
    elim (blocked resp) [
      | none ↦ out
      | some f ↦ record out { refusal = block_message f; finish_reason = text "content_filter" }
    ]
