-- ===== src/Tests/Codecs.antt =====
-- An answer with a tool call, in the forms of OpenAI Chat and OpenAI Responses.
use buzzhive.Base.{ℕ, ◌+◌, ◌≡◌, refl, map, true, [], ◌∷◌, Text, text, text_eq, ◌==◌, if◌then◌else◌}
use buzzhive.Base.Eq.{bytes_beq}
use buzzhive.Base.Bytes.{trim_space, strip, leading_space, trailing_space, ascii_space, wide_space}
use buzzhive.Canonical.{good, no_usage, CanonicalResponse}
use buzzhive.Protocols.OpenaiChat.{
  canonical_to_openai_chat_response, openai_chat_response_to_canonical,
}
use buzzhive.Protocols.Responses.{response_status, responses_to_canonical, canonical_to_responses}
use buzzhive.Protocols.Responses.RoundTrip.{named, unsigned, reason_read, responses_round_trip}
use buzzhive.Protocols.OpenaiChat.RoundTrip.{kept_text, openai_chat_round_trip}

abbrev weather : CanonicalResponse
weather = record {
  id = text "1";
  created = 7;
  model = text "m";
  role = text "assistant";
  status = text "completed";
  body = text "Let me see.";
  refusal = [];
  reasoning = text "A call is due.";
  signature = text "s";
  tool_calls =
      record {
        id = text "call_1";
        name = text "weather";
        arguments = text "{}";
        signature = text "t";
      }
      ∷ [];
  finish_reason = text "tool_calls";
  usage = no_usage;
}

openai_chat_round_trip_example :
    openai_chat_response_to_canonical (canonical_to_openai_chat_response weather)
    ≡ record weather { status = []; signature = []; body = kept_text weather }
openai_chat_round_trip_example = openai_chat_round_trip weather

abbrev one_digit : ℕ → Text
one_digit n = (48 + n) ∷ []

call_named : named weather.tool_calls ≡ true
unfolding named bytes_beq trim_space strip leading_space trailing_space ascii_space wide_space
call_named = refl

responses_round_trip_example :
    responses_to_canonical (λ t. t) (canonical_to_responses one_digit weather)
    ≡ good (record weather {
      role = text "assistant";
      status = response_status weather;
      body = if weather.refusal == [] then weather.body else [];
      tool_calls = map unsigned weather.tool_calls;
      finish_reason = reason_read weather;
    })
responses_round_trip_example = responses_round_trip one_digit (λ t. t) weather call_named
