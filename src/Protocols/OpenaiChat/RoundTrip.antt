-- ===== src/Protocols/OpenaiChat/RoundTrip.antt =====
-- internal/protocol/openai_chat_response.go: an answer, written in the form of OpenAI Chat and read back.
use buzzhive.Base.{
  ℕ, ◌≡◌, refl, List, [], ◌∷◌, none, some, Text, text_eq, nat_eq, ◌==◌, if◌then◌else◌, arith,
}
use buzzhive.Base.Eq.{bytes_beq}
use buzzhive.Base.Maps.{get_or}
use buzzhive.Canonical.{CanonicalUsage, CanonicalToolCall, CanonicalResponse}
use buzzhive.Protocols.OpenaiChat.{
  openai_usage_to_canonical, canonical_usage_to_openai, extra_content, thought_signature,
  call_to_canonical, call_to_openai, openai_tool_calls_to_canonical, canonical_tool_calls_to_openai,
  openai_chat_response_to_canonical, message_to_openai, canonical_to_openai_chat_response,
}

count_given : (n : ℕ) → get_or (if n == 0 then none else some n) 0 ≡ n
count_given n = ground arith

text_given : (t : Text) → get_or (if t == [] then none else some t) [] ≡ t
unfolding bytes_beq
text_given [] = refl
text_given (c ∷ cs) = refl

usage_round_trip :
    (u : CanonicalUsage) → openai_usage_to_canonical (some (canonical_usage_to_openai u)) ≡ u
unfolding openai_usage_to_canonical canonical_usage_to_openai
usage_round_trip u = rw (count_given u.cached_tokens, count_given u.reasoning_tokens) refl

signature_kept : (c : CanonicalToolCall) → thought_signature (call_to_openai c) ≡ c.signature
unfolding call_to_openai thought_signature extra_content bytes_beq
signature_kept c = ground arith

call_round_trip : (c : CanonicalToolCall) → call_to_canonical (call_to_openai c) ≡ c
unfolding call_to_canonical call_to_openai
call_round_trip c = rw (signature_kept c) refl

calls_round_trip :
    (cs : List CanonicalToolCall)
    → openai_tool_calls_to_canonical (canonical_tool_calls_to_openai cs) ≡ cs
unfolding openai_tool_calls_to_canonical canonical_tool_calls_to_openai
calls_round_trip [] = refl
calls_round_trip (c ∷ cs) = rw (call_round_trip c, calls_round_trip cs) refl

-- The text that a message keeps: none beside a refusal or tool calls.
abbrev pub kept_text : CanonicalResponse → Text
kept_text r = if r.refusal == [] then elim r.tool_calls [ [] ↦ r.body | c ∷ cs ↦ [] ] else []

text_kept : (r : CanonicalResponse) → get_or (message_to_openai r).content [] ≡ kept_text r
unfolding message_to_openai
text_kept r = ground arith

-- An answer in the form of OpenAI Chat reads back as it was, its counts of tokens and its tool calls with their
-- signatures included, but without the status and the signature of its reasoning, and without the text where
-- there is a refusal or a tool call.
pub openai_chat_round_trip :
    (r : CanonicalResponse)
    → openai_chat_response_to_canonical (canonical_to_openai_chat_response r)
      ≡ record r { status = []; signature = []; body = kept_text r }
unfolding openai_chat_response_to_canonical canonical_to_openai_chat_response message_to_openai
openai_chat_round_trip r =
    rw (text_kept r, text_given r.refusal, calls_round_trip r.tool_calls, usage_round_trip r.usage)
      refl
