-- ===== src/Tests/Streams.antt =====
-- A stream of Anthropic Messages with a text and a tool call, and what is made of it.
use buzzhive.Base.{
  ℕ, ◌+◌, ltb, ◌≡◌, ◌⊎◌, refl, List, [], ◌∷◌, ◌++◌, map, true, false, none, some, Text, text,
  text_eq, ◌==◌, if◌then◌else◌,
}
use buzzhive.Base.Bytes.{trim_space, has_prefix, trim_prefix}
use buzzhive.Base.Eq.{bytes_beq}
use buzzhive.Canonical.{
  is_zero, StreamEvent, event_of, tool_call_start, tool_arguments_delta, tool_call_done, Fallible,
  good, bad,
}
use buzzhive.Protocols.Anthropic.{AnthropicUsage}
use buzzhive.Streams.Read.{Scan, is_none, sse_payload}
use buzzhive.Streams.Tools.{
  new_state, start, delta, ensure, fill, done, done_all, new_tracker, done_event,
}
use buzzhive.Streams.Tools.History.{
  Call, starts, extends, run, step, is_end_of, ends_of, ends_once, names,
}
use buzzhive.Streams.Tools.Arguments.{none_ended, joined, done_joins}
use buzzhive.Streams.ReadAnthropic.{WireEvent, read_anthropic}
use buzzhive.Streams.AnthropicOut.Grammar.{begin, stopped, failed, accepts}
use buzzhive.Streams.Convert.{
  anthropic, read, stream_for_anthropic, stream_for_responses, stream_for_chat,
}
use buzzhive.Streams.Convert.ToChat.{stream_for_chat_ends, stream_for_chat_cut}
use buzzhive.Streams.ReadAnthropic.Cut.{has_stop, stops}
use buzzhive.Streams.ChatOut.Ends.{has_mark, has_error, EndsWell}
use buzzhive.Streams.Convert.ToResponses.{stream_for_responses_items}
use buzzhive.Streams.ResponsesOut.Items.{added_of, done_of}
use buzzhive.Streams.ResponsesOut.Answer.{answered}
use buzzhive.Streams.Convert.ToAnthropic.{stream_for_anthropic_ends, stream_for_anthropic_says}
use buzzhive.Streams.AnthropicOut.Content.{text_in, said}

abbrev tokens : ℕ → ℕ → AnthropicUsage
tokens input output = record {
  input_tokens = input;
  output_tokens = output;
  cache_creation_input_tokens = 0;
  cache_read_input_tokens = 0;
  thinking_tokens = none;
}

abbrev wire : Text → ℕ → WireEvent
wire type index = record {
  type = type;
  index = index;
  message_id = text "msg_1";
  message_model = text "claude";
  message_role = text "assistant";
  message_usage = tokens 4 0;
  block_type = [];
  block_id = [];
  block_name = [];
  delta_type = [];
  delta_text = [];
  thinking = [];
  signature = [];
  partial_json = [];
  stop_reason = [];
  stop_details = none;
  usage = tokens 0 2;
  error_type = [];
  error_message = [];
}

-- One letter for each event of the stream.
abbrev decode : Text → Fallible WireEvent
decode payload =
    if payload == text "a"
    then good (wire (text "message_start") 0)
    else if payload == text "b"
    then good (record (wire (text "content_block_start") 0) { block_type = text "text" })
    else if payload == text "c"
    then good (record (wire (text "content_block_delta") 0) {
      delta_type = text "text_delta";
      delta_text = text "Hello";
    })
    else if payload == text "d"
    then good (wire (text "content_block_stop") 0)
    else if payload == text "e"
    then good (record (wire (text "message_delta") 0) { stop_reason = text "end_turn" })
    else if payload == text "f"
    then good (wire (text "message_stop") 0)
    else bad (text "no event")

abbrev one_digit : ℕ → Text
one_digit n = (48 + n) ∷ []

abbrev text_stream : Scan
text_stream = record {
  lines =
      map (λ l. text "data: " ++ l)
        (text "a" ∷ text "b" ∷ text "c" ∷ text "d" ∷ text "e" ∷ text "f" ∷ []);
  error = none;
}

stream_for_anthropic_ends_example :
    let out = stream_for_anthropic (anthropic decode) (text "1") (text "claude") text_stream in
    (accepts (some begin) out ≡ some stopped)
    ⊎ ((is_none (read (anthropic decode) (text "1") text_stream).error ≡ false)
        × (accepts (some begin) out ≡ some failed))
stream_for_anthropic_ends_example =
    stream_for_anthropic_ends (anthropic decode) (text "1") (text "claude") text_stream

text_stream_whole : (read (anthropic decode) (text "1") text_stream).error ≡ none
unfolding read read_anthropic bytes_beq trim_space has_prefix trim_prefix is_zero done fill done_all
text_stream_whole = refl

stream_for_responses_items_example :
    let out =
      stream_for_responses one_digit (anthropic decode) (text "1") 7 (text "claude") text_stream in
    (n : ℕ) × (answered out ≡ some n)
    × ((i : ℕ)
        → (added_of i out ≡ (if ltb i n then 1 else 0))
          × (done_of i out ≡ (if ltb i n then 1 else 0)))
stream_for_responses_items_example =
    stream_for_responses_items one_digit (anthropic decode) (text "1") 7 (text "claude") text_stream
      text_stream_whole

stream_for_anthropic_says_example :
    text_in true (stream_for_anthropic (anthropic decode) (text "1") (text "claude") text_stream)
    ≡ said true (read (anthropic decode) (text "1") text_stream).events
stream_for_anthropic_says_example =
    stream_for_anthropic_says true (anthropic decode) (text "1") (text "claude") text_stream

-- Cut off in the middle of its text.
abbrev cut_stream : Scan
cut_stream = record {
  lines = map (λ l. text "data: " ++ l) (text "a" ∷ text "b" ∷ text "c" ∷ []);
  error = none;
}

stream_for_chat_ends_example :
    let out = stream_for_chat (anthropic decode) (text "1") 7 (text "claude") true cut_stream in
    (((read (anthropic decode) (text "1") cut_stream).error ≡ none) × EndsWell out)
    ⊎ ((is_none (read (anthropic decode) (text "1") cut_stream).error ≡ false)
        × (has_mark out ≡ false)
        × (has_error out ≡ true))
stream_for_chat_ends_example =
    stream_for_chat_ends (anthropic decode) (text "1") 7 (text "claude") true cut_stream

cut_before_stop : has_stop decode cut_stream.lines ≡ false
unfolding has_stop stops bytes_beq trim_space has_prefix trim_prefix sse_payload
cut_before_stop = refl

stream_for_chat_cut_example :
    let out = stream_for_chat (anthropic decode) (text "1") 7 (text "claude") true cut_stream in
    (has_mark out ≡ false) × (has_error out ≡ true)
stream_for_chat_cut_example =
    stream_for_chat_cut decode (text "1") 7 (text "claude") true cut_stream cut_before_stop

abbrev at : ℕ → StreamEvent → StreamEvent
at index e = record e { index = index }

abbrev two_calls : List Call
two_calls =
    starts (at 1 (event_of tool_call_start))
    ∷ extends (record (at 1 (event_of tool_arguments_delta)) { delta = text "{" })
    ∷ starts (at 2 (event_of tool_call_start))
    ∷ extends (record (at 1 (event_of tool_arguments_delta)) { delta = text "}" })
    ∷ []

ends_once_example :
    let history = run new_tracker two_calls in
    ends_of 1 (history.1 ++ (done_all history.0).1) ≡ (if names 1 two_calls then 1 else 0)
ends_once_example = ends_once two_calls 1

-- Reading a block of text ends a tool call that never began.
text_block_ends_call : ends_of 0 (read_anthropic decode text_stream).events ≡ 1
unfolding read_anthropic ends_of bytes_beq trim_space has_prefix trim_prefix is_zero is_end_of done
    fill done_all
text_block_ends_call = refl

abbrev first_end : StreamEvent
first_end = done_event (record (new_state 1) { arguments = text "{}" })

first_end_given :
    (done (run new_tracker two_calls).0 (record (event_of tool_call_done) { index = 1 })).1
    ≡ some first_end
unfolding done ensure fill run start delta step bytes_beq
first_end_given = refl

none_ended_yet : none_ended two_calls ≡ true
unfolding none_ended
none_ended_yet = refl

done_joins_example : first_end.arguments ≡ joined 1 two_calls
done_joins_example = done_joins two_calls 1 first_end none_ended_yet first_end_given
