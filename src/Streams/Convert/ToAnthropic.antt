-- ===== src/Streams/Convert/ToAnthropic.antt =====
-- internal/canonical_proxy.go, `streamCanonicalResult`: a provider's stream, whatever it holds, as the client of
-- Anthropic's protocol sees it.
use buzzhive.Base.{Bool, ◌≡◌, ◌⊎◌, false, some, Text}
use buzzhive.Streams.Read.{Scan, is_none}
use buzzhive.Streams.Read.Clean.{TellsErrors}
use buzzhive.Streams.ReadChat.Ends.{read_chat-TellsErrors}
use buzzhive.Streams.ReadAnthropic.Ends.{read_anthropic-TellsErrors}
use buzzhive.Streams.ReadGemini.Ends.{read_gemini-TellsErrors}
use buzzhive.Streams.ReadResponses.Ends.{read_responses-TellsErrors}
use buzzhive.Streams.AnthropicOut.Grammar.{begin, stopped, failed, accepts}
use buzzhive.Streams.AnthropicOut.Protocol.{stream_to_anthropic_ends}
use buzzhive.Streams.AnthropicOut.Content.{text_in, said, says-stream_to_anthropic}
use buzzhive.Streams.Convert.{
  Outbound, openai, openai_responses, anthropic, gemini, read, stream_for_anthropic,
}

pub read-TellsErrors :
    (o : Outbound) (request_id : Text) (scan : Scan) → TellsErrors (read o request_id scan)
unfolding read
read-TellsErrors (openai codec) request_id scan = read_chat-TellsErrors codec scan
read-TellsErrors (openai_responses codec) request_id scan = read_responses-TellsErrors codec scan
read-TellsErrors (anthropic decode) request_id scan = read_anthropic-TellsErrors decode scan
read-TellsErrors (gemini codec) request_id scan = read_gemini-TellsErrors codec request_id scan

-- Whatever lines a provider's stream has in any of the four protocols, however its payloads decode, and
-- however reading it ends: the stream that a client of Anthropic's protocol receives is accepted by the
-- automaton up to an end. It has one message start, then blocks that are numbered 0, 1, 2, … and closed
-- before the next one is opened, with parts of the block's own kind only, and then either the summary and
-- the message stop, or one error, with nothing after them; the error only if the reader returned one.
pub stream_for_anthropic_ends :
    (o : Outbound) (request_id model : Text) (scan : Scan)
    → let out = stream_for_anthropic o request_id model scan in
      (accepts (some begin) out ≡ some stopped)
      ⊎ ((is_none (read o request_id scan).error ≡ false)
          × (accepts (some begin) out ≡ some failed))
unfolding stream_for_anthropic
stream_for_anthropic_ends o request_id model scan =
    stream_to_anthropic_ends request_id model (read o request_id scan)
      (read-TellsErrors o request_id scan).holds

-- What a client of Anthropic's protocol is told is what a provider of any of the four protocols said: the
-- texts of the text parts of the stream, joined, are the joined texts of the events that were read, and
-- the texts of its thinking parts are the joined reasoning, up to the first event that ends the answer.
pub stream_for_anthropic_says :
    (told : Bool) (o : Outbound) (request_id model : Text) (scan : Scan)
    → text_in told (stream_for_anthropic o request_id model scan)
      ≡ said told (read o request_id scan).events
unfolding stream_for_anthropic
stream_for_anthropic_says told o request_id model scan =
    says-stream_to_anthropic told request_id model (read o request_id scan)
