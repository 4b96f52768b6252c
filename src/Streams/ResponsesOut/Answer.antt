-- ===== src/Streams/ResponsesOut/Answer.antt =====
-- internal/stream_convert.go, `responsesStreamEncoder`: the items of a whole stream, and of the answer at its
-- end.
use buzzhive.Base.{
  ℕ, suc, zero, ◌+◌, ◌≤◌, ◌<◌, ◌≡◌, ◌≢◌, refl, ap, ◌∙◌, ◌⊎◌, inl, inr, ◌++◌, List, [], ◌∷◌, length,
  true, false, Option, none, some, Text, text, text_eq, ◌==◌, Map, arith, if_elim,
}
use buzzhive.Base.Ordered.{total, ascends}
use buzzhive.Canonical.{
  StreamEvent, EventType, response_start, message_start, text_delta, refusal_delta, reasoning_delta,
  tool_call_start, tool_arguments_delta, tool_call_done, usage_report, response_done, stream_error,
  CanonicalUsage,
}
use buzzhive.Protocols.Responses.{OutputItem, ResponsesResponse}
use buzzhive.Streams.Read.{ReadResult, is_clean, all_clean}
use buzzhive.Streams.ResponsesOut.{
  Value, completed, incomplete, response_created, Encoder, write, blank_encoder, new_encoder,
  sorted_output, complete, finish, write_open, write_event, write_events, end_stream,
  stream_to_responses,
}
use buzzhive.Streams.ResponsesOut.Items.{
  adds, dones, added_of, done_of, held, IsBalanced, write-IsBalanced,
}
use buzzhive.Streams.ResponsesOut.Steps.{
  same_items, write_text_delta-IsBalanced, write_reasoning_delta-IsBalanced,
}
use buzzhive.Streams.ResponsesOut.Calls.{
  write_tool_start-IsBalanced, write_tool_delta-IsBalanced, write_tool_done-IsBalanced,
}
use buzzhive.Streams.ResponsesOut.Finish.{IsWhole, close_all-IsWhole, complete-IsWhole, used_usage}

abbrev answer_size : Value → Option ℕ
answer_size (completed resp) = some (length resp.output)
answer_size (incomplete resp) = some (length resp.output)
answer_size _ = none

-- The number of items in the answer that ends a stream.
unfoldable pub answered : List (ℕ × Value) → Option ℕ
answered [] = none
answered ((n, v) ∷ []) = answer_size v
answered ((n, v) ∷ next ∷ out) = answered (next ∷ out)

answered-snoc :
    (n : ℕ) (v : Value) (out : List (ℕ × Value)) → answered (out ++ (n, v) ∷ []) ≡ answer_size v
unfolding answered
answered-snoc n v [] = refl
answered-snoc n v (x ∷ []) = refl
answered-snoc n v (x ∷ y ∷ out) = answered-snoc n v (y ∷ out)

length-sorted_output :
    (output : Map ℕ OutputItem) (first count : ℕ)
    → ((i : ℕ) → first ≤ i → i < first + count → held (output i) ≡ true)
    → length (sorted_output output first count) ≡ count
unfolding sorted_output
length-sorted_output output first zero full = refl
length-sorted_output output first (suc count) full = ground (
  arith,
  full first,
  length-sorted_output output (first + 1) count (λ i lo hi. full i (omega arith) (omega arith)),
)

-- The end of a stream: the answer has each item that was added.
pub record IsOver (e : Encoder) : Type 0 where
  pub whole : (i : ℕ) → IsWhole i e
  pub answer : answered e.out ≡ some e.next_output_index
  pub over : e.finished ≡ true

answered-complete :
    (e : Encoder) (resp : ResponsesResponse)
    → answered (complete e resp).out ≡ some (length resp.output)
unfolding complete write
answered-complete e resp =
    answered-snoc e.sequence _ e.out
    ∙ if_elim (λ v. answer_size v ≡ some (length resp.output)) (resp.status == text "incomplete")
        (λ _. refl) (λ _. refl)

module _ (decimal : ℕ → Text) where
  finish-IsOver :
      (e : Encoder) (status reason : Text) (u : CanonicalUsage)
      → ((i : ℕ) → IsBalanced true i e)
      → IsOver (finish decimal e status reason u)
  unfolding finish
  finish-IsOver e status reason u g =
      if_elim IsOver e.finished (λ over. absurd (ground (arith, over, (g 0).unfinished)))
        (λ _. closed_over _ _ refl (λ i. close_all-IsWhole decimal i _ _ (used_usage i e u (g i))))
    where
      closed_over :
          (e' : Encoder) (resp : ResponsesResponse)
          → resp.output ≡ sorted_output e'.output 0 e'.next_output_index
          → ((i : ℕ) → IsWhole i e')
          → IsOver (complete e' resp)
      closed_over e' resp same w = record {
        whole = λ i. complete-IsWhole i e' resp (w i);
        answer =
            unfold complete write in
            answered-complete e' resp
            ∙ ap some (
                ap length same
                ∙ length-sorted_output e'.output 0 e'.next_output_index
                    (λ i lo hi. ground (arith, (w i).kept, (w i).added, hi)));
        over = unfold complete write in refl;
      }

  -- An encoder whose stream goes on, or is over.
  abbrev IsValid : Encoder → Type 0
  IsValid e = ((i : ℕ) → IsBalanced true i e) ⊎ IsOver e

  write_open-IsValid :
      (t : EventType) (e : Encoder) (ev : StreamEvent)
      → t ≢ stream_error
      → ((i : ℕ) → IsBalanced true i e)
      → IsValid (write_open decimal t e ev)
  unfolding write_open
  write_open-IsValid response_start e ev n g = inl g
  write_open-IsValid message_start e ev n g = inl g
  write_open-IsValid text_delta e ev n g =
      inl (λ i. write_text_delta-IsBalanced i e ev.delta false (g i))
  write_open-IsValid refusal_delta e ev n g =
      inl (λ i. write_text_delta-IsBalanced i e ev.delta true (g i))
  write_open-IsValid reasoning_delta e ev n g =
      inl (λ i. write_reasoning_delta-IsBalanced true i e ev (g i))
  write_open-IsValid tool_call_start e ev n g =
      inl (λ i. write_tool_start-IsBalanced decimal true i e ev (g i))
  write_open-IsValid tool_arguments_delta e ev n g =
      inl (λ i. write_tool_delta-IsBalanced decimal true i e ev (g i))
  write_open-IsValid tool_call_done e ev n g =
      inl (λ i. write_tool_done-IsBalanced decimal true i e ev (g i))
  write_open-IsValid usage_report e ev n g =
      inl (λ i. same_items true i e _ (g i) refl refl refl refl (g i).sorted refl)
  write_open-IsValid response_done e ev n g =
      inr (finish-IsOver e ev.status ev.finish_reason e.usage g)
  write_open-IsValid stream_error e ev n g = absurd (n refl)

  write_event-IsValid :
      (e : Encoder) (ev : StreamEvent)
      → is_clean true ev ≡ true
      → IsValid e
      → IsValid (write_event decimal e ev)
  unfolding write_event
  write_event-IsValid e ev given v = if_elim IsValid e.finished (λ _. v) (λ on. goes_on on v)
    where
      goes_on : e.finished ≡ false → IsValid e → IsValid (write_open decimal ev.type e ev)
      goes_on on (inl g) = write_open-IsValid ev.type e ev (λ t. ground (arith, given, t)) g
      goes_on on (inr o) = absurd (ground (arith, on, o.over))

  write_events-IsValid :
      (e : Encoder) (evs : List StreamEvent)
      → all_clean true evs ≡ true
      → IsValid e
      → IsValid (write_events decimal e evs)
  unfolding write_events
  write_events-IsValid e [] given v = v
  write_events-IsValid e (ev ∷ evs) given v =
      write_events-IsValid (write_event decimal e ev) evs (ground arith)
        (write_event-IsValid e ev (ground arith) v)

  new_encoder-IsBalanced :
      (i : ℕ) (id : Text) (created : ℕ) (model : Text)
      → IsBalanced true i (new_encoder id created model)
  unfolding new_encoder adds dones
  new_encoder-IsBalanced i id created model =
      write-IsBalanced true i (blank_encoder id created model) (response_created id created model)
        refl refl
        (unfold added_of done_of total ascends in
          record {
            added = ground arith;
            balance = ground arith;
            kept = refl;
            sorted = refl;
            unfinished = refl;
          })

  end_stream-IsOver :
      (e : Encoder) (u : CanonicalUsage) → IsValid e → IsOver (end_stream decimal e u none)
  unfolding end_stream
  end_stream-IsOver e u (inl g) = finish-IsOver e [] (text "stop") u g
  end_stream-IsOver e u (inr o) =
      unfold finish in
      if_elim IsOver e.finished (λ _. o) (λ on. absurd (ground (arith, on, o.over)))

  pub stream_to_responses-IsOver :
      (id : Text) (created : ℕ) (model : Text) (r : ReadResult)
      → r.error ≡ none
      → all_clean true r.events ≡ true
      → IsOver (stream_to_responses decimal id created model r)
  unfolding stream_to_responses
  stream_to_responses-IsOver id created model r whole clean = rw whole (
      end_stream-IsOver _ r.usage (
        write_events-IsValid _ r.events clean
          (inl (λ i. new_encoder-IsBalanced i _ created model))))
