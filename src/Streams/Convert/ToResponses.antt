-- ===== src/Streams/Convert/ToResponses.antt =====
-- internal/canonical_proxy.go, `streamCanonicalResult`: a provider's stream, as the client of OpenAI Responses
-- sees it.
use buzzhive.Base.{ℕ, ◌≡◌, sym, ◌∙◌, ap, ltb, true, none, some, Text, if◌then◌else◌}
use buzzhive.Streams.Read.{Scan, is_none, all_clean}
use buzzhive.Streams.ResponsesOut.{stream_to_responses}
use buzzhive.Streams.ResponsesOut.Items.{added_of, done_of}
use buzzhive.Streams.ResponsesOut.Answer.{answered, stream_to_responses-IsOver}
use buzzhive.Streams.Convert.{Outbound, read, stream_for_responses}
use buzzhive.Streams.Convert.ToAnthropic.{read-TellsErrors}

-- If reading a provider's stream of any of the four protocols returns no error: the stream that a client of
-- OpenAI Responses receives ends with an answer of some number of items. Each output index below that
-- number is added to the stream exactly once and done exactly once, and no other index is added or done.
pub stream_for_responses_items :
    (decimal : ℕ → Text) (o : Outbound) (request_id : Text) (created : ℕ) (model : Text)
    (scan : Scan)
    → (read o request_id scan).error ≡ none
    → let out = stream_for_responses decimal o request_id created model scan in
      (n : ℕ) × (answered out ≡ some n)
      × ((i : ℕ)
          → (added_of i out ≡ (if ltb i n then 1 else 0))
            × (done_of i out ≡ (if ltb i n then 1 else 0)))
unfolding stream_for_responses
stream_for_responses_items decimal o request_id created model scan whole =
    let r = read o request_id scan in
    let e = stream_to_responses decimal request_id created model r in
    let clean : all_clean true r.events ≡ true =
      ap (λ x. all_clean (is_none x) r.events) (sym whole)
      ∙ (read-TellsErrors o request_id scan).holds in
    let over = stream_to_responses-IsOver decimal request_id created model r whole clean in
    (
      e.next_output_index,
      over.answer,
      λ i. ((over.whole i).added, (over.whole i).done ∙ (over.whole i).added),
    )
