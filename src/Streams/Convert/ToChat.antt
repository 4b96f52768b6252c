-- ===== src/Streams/Convert/ToChat.antt =====
-- internal/canonical_proxy.go, `streamCanonicalResult`: a provider's stream, as the client of OpenAI Chat sees it.
use buzzhive.Base.{ℕ, ◌≡◌, ◌⊎◌, Bool, true, false, none, inl, inr, arith, Text, text, ◌++◌}
use buzzhive.Streams.Read.{Scan, is_none}
use buzzhive.Streams.ChatOut.Ends.{has_mark, has_error, EndsWell, stream_to_chat_ends}
use buzzhive.Canonical.{Fallible}
use buzzhive.Streams.ReadAnthropic.{WireEvent}
use buzzhive.Streams.ReadAnthropic.Cut.{has_stop, read_anthropic_cut}
use buzzhive.Streams.Convert.{Outbound, anthropic, read, stream_for_chat}
use buzzhive.Streams.Convert.ToAnthropic.{read-TellsErrors}

-- Whatever a provider's stream holds, in any of the four protocols: if reading it returns no error, a client
-- of OpenAI Chat receives no error and one closing mark, which is the last thing it receives. If reading it
-- returns an error, the client receives an error and no closing mark.
pub stream_for_chat_ends :
    (o : Outbound) (request_id : Text) (created : ℕ) (model : Text) (include_usage : Bool)
    (scan : Scan)
    → let out = stream_for_chat o request_id created model include_usage scan in
      (((read o request_id scan).error ≡ none) × EndsWell out)
      ⊎ ((is_none (read o request_id scan).error ≡ false)
          × (has_mark out ≡ false)
          × (has_error out ≡ true))
unfolding stream_for_chat
stream_for_chat_ends o request_id created model include_usage scan =
    stream_to_chat_ends (text "chatcmpl-" ++ request_id) created model include_usage
      (read o request_id scan) (read-TellsErrors o request_id scan).holds

-- A stream of Anthropic Messages that is cut off before the event that ends the message, whatever else its
-- lines are: a client of OpenAI Chat receives an error, and no closing mark.
pub stream_for_chat_cut :
    (decode : Text → Fallible WireEvent) (request_id : Text) (created : ℕ) (model : Text)
    (include_usage : Bool) (scan : Scan)
    → has_stop decode scan.lines ≡ false
    → let out = stream_for_chat (anthropic decode) request_id created model include_usage scan in
      (has_mark out ≡ false) × (has_error out ≡ true)
stream_for_chat_cut decode request_id created model include_usage scan no_stop =
    elim (stream_for_chat_ends (anthropic decode) request_id created model include_usage scan) [
      | inl (whole, ended) ↦ absurd (ground (arith, whole, cut))
      | inr (told, mark, error) ↦ (mark, error)
    ]
  where
    cut : is_none (read (anthropic decode) request_id scan).error ≡ false
    cut = unfold read in read_anthropic_cut decode scan no_stop
