-- ===== src/Streams/AnthropicOut/Protocol.antt =====
-- internal/stream_convert.go, `anthropicStreamEncoder`, with the branch for Anthropic of
-- `streamCanonicalResult` of internal/canonical_proxy.go: every stream that is written is well formed.
use buzzhive.Base.{
  ℕ, ◌+◌, ◌≡◌, ◌≢◌, ◌⊎◌, refl, sym, ap, ◌∙◌, inl, inr, List, [], ◌∷◌, ◌++◌, Bool, true, false, ◌&&◌,
  Option, none, some, Text, text, text_eq, nat_eq, if◌then◌else◌, arith, Option-cases, if_elim,
}
use buzzhive.Canonical.{
  CanonicalUsage, StreamEvent, EventType, response_start, message_start, text_delta, refusal_delta,
  reasoning_delta, tool_call_start, tool_arguments_delta, tool_call_done, usage_report,
  response_done, stream_error,
}
use buzzhive.Streams.AnthropicOut.{
  tool_block, of_json, content_block_start, content_block_delta, content_block_stop, message_delta,
  message_stop, sse_error, Encoder, new_encoder, close_text, close_reasoning, write_tool_done,
  finish, write_error, write_open, write_event, write_events, stream_to_anthropic, end_stream,
}
use buzzhive.Streams.Read.{ReadResult, read_error, is_clean, all_clean, is_none}
use buzzhive.Streams.AnthropicOut.Grammar.{
  Phase, begin, between, stopped, failed, in_block, accept, accepts, phase, IsAt, new_encoder-IsAt,
  extends, extends_closed, close_both-IsClosed, write_text_delta-IsAt, write_reasoning_delta-IsAt,
}

tool_accepted :
    (n : ℕ) (id name arguments : Text)
    → accepts (some (between n)) (
        content_block_start n (tool_block id name)
        ∷ content_block_delta n (of_json arguments)
        ∷ content_block_stop n
        ∷ [])
      ≡ some (between (n + 1))
unfolding accepts accept in_block
tool_accepted n id name arguments = ground arith

shut_phase :
    (e : Encoder) → e.text_open ≡ false → e.reasoning_open ≡ false → phase e ≡ between e.next_index
shut_phase e no_text no_reasoning = ground (arith, no_text, no_reasoning)

write_tool_done-IsAt : (e : Encoder) (ev : StreamEvent) → IsAt e → IsAt (write_tool_done e ev)
unfolding write_tool_done
write_tool_done-IsAt e ev v =
    let c = close_both-IsClosed e v in
    record {
      reached =
          extends_closed (close_text (close_reasoning e)) _ c (tool_accepted _ _ _ _)
          ∙ ap some (sym (shut_phase (write_tool_done e ev) c.no_text c.no_reasoning));
      one_open = ap (λ b. b && (write_tool_done e ev).reasoning_open) c.no_text;
      text_last =
          ap
            (λ b.
              if b
              then (write_tool_done e ev).text_index + 1
              else (write_tool_done e ev).next_index)
            c.no_text;
      reasoning_last =
          ap
            (λ b.
              if b
              then (write_tool_done e ev).reasoning_index + 1
              else (write_tool_done e ev).next_index)
            c.no_reasoning;
      unfinished = c.at.unfinished;
    }

-- A finished stream stands at its end.
record IsOver (last : Phase) (e : Encoder) : Type 0 where
  reached : accepts (some begin) e.out ≡ some last
  over : e.finished ≡ true

summary_accepted :
    (n : ℕ) (reason : Text) (details : Option Text) (input : ℕ) (u : CanonicalUsage)
    → accepts (some (between n)) (message_delta reason details input u ∷ message_stop ∷ [])
      ≡ some stopped
unfolding accepts accept
summary_accepted n reason details input u = refl

finish-IsOver :
    (e : Encoder) (reason : Text) (u : CanonicalUsage) → IsAt e → IsOver stopped (finish e reason u)
finish-IsOver e reason u v =
    unfold finish in
    let c = close_both-IsClosed e v in
    if_elim (IsOver stopped) e.finished (λ over. absurd (ground (arith, over, v.unfinished)))
      (λ _. record {
        reached = extends_closed (close_text (close_reasoning e)) _ c (summary_accepted _ _ _ _ _);
        over = refl;
      })

error_accepted :
    (e : Encoder) (type message : Text)
    → accepts (some (phase e)) (sse_error type message ∷ []) ≡ some failed
unfolding accepts accept
error_accepted e type message = ground arith

write_error-IsOver :
    (e : Encoder) (ev : StreamEvent) → ev.error ≢ none → IsAt e → IsOver failed (write_error e ev)
unfolding write_error
write_error-IsOver e ev given v = elim (Option-cases ev.error) [
  | inl missing ↦ absurd (given missing)
  | inr (err, found) ↦
      rw found (record { reached = extends e _ v (error_accepted e _ _); over = refl })
]

-- A change of fields that the protocol does not read.
same_place :
    (e e' : Encoder)
    → IsAt e
    → e'.out ≡ e.out
    → e'.next_index ≡ e.next_index
    → e'.text_open ≡ e.text_open
    → e'.text_index ≡ e.text_index
    → e'.reasoning_open ≡ e.reasoning_open
    → e'.reasoning_index ≡ e.reasoning_index
    → e'.finished ≡ e.finished
    → IsAt e'
same_place e e' v a b c d f g h = record {
  reached = rw (a, b, c, d, f, g) v.reached;
  one_open = rw (c, f) v.one_open;
  text_last = rw (b, c, d) v.text_last;
  reasoning_last = rw (b, f, g) v.reasoning_last;
  unfinished = h ∙ v.unfinished;
}

-- An encoder whose stream goes on, or has its end; the end by an error only where the reader is not strict.
abbrev IsValid : Bool → Encoder → Type 0
IsValid strict e = IsAt e ⊎ (IsOver stopped e ⊎ ((strict ≡ false) × IsOver failed e))

write_open-IsValid :
    (strict : Bool) (t : EventType) (e : Encoder) (ev : StreamEvent)
    → (t ≡ stream_error → (ev.error ≢ none) × (strict ≡ false))
    → IsAt e
    → IsValid strict (write_open t e ev)
unfolding write_open
write_open-IsValid s response_start e ev given v = inl v
write_open-IsValid s message_start e ev given v = inl v
write_open-IsValid s text_delta e ev given v = inl (write_text_delta-IsAt e ev.delta v)
write_open-IsValid s refusal_delta e ev given v =
    inl (same_place e _ v refl refl refl refl refl refl refl)
write_open-IsValid s reasoning_delta e ev given v = inl (write_reasoning_delta-IsAt e ev v)
write_open-IsValid s tool_call_start e ev given v =
    inl (same_place e _ v refl refl refl refl refl refl refl)
write_open-IsValid s tool_arguments_delta e ev given v =
    inl (same_place e _ v refl refl refl refl refl refl refl)
write_open-IsValid s tool_call_done e ev given v = inl (write_tool_done-IsAt e ev v)
write_open-IsValid s usage_report e ev given v =
    inl (same_place e _ v refl refl refl refl refl refl refl)
write_open-IsValid s response_done e ev given v =
    inr (inl (finish-IsOver e ev.finish_reason e.usage v))
write_open-IsValid s stream_error e ev given v =
    let (found, lax) = given refl in inr (inr (lax, write_error-IsOver e ev found v))

-- Nothing is written once the stream is over.
write_event_over :
    (last : Phase) (e : Encoder) (ev : StreamEvent) → IsOver last e → write_event e ev ≡ e
unfolding write_event
write_event_over last e ev o = ap (λ b. if b then e else write_open ev.type e ev) o.over

write_event-IsValid :
    (strict : Bool) (e : Encoder) (ev : StreamEvent)
    → is_clean strict ev ≡ true
    → IsValid strict e
    → IsValid strict (write_event e ev)
write_event-IsValid s e ev given (inl v) =
    unfold write_event in
    if_elim (IsValid s) e.finished (λ _. inl v)
      (λ _.
        write_open-IsValid s ev.type e ev
          (λ t. (λ missing. ground (arith, given, t, missing), ground (arith, given, t))) v)
write_event-IsValid s e ev given (inr (inl o)) = rw (write_event_over stopped e ev o) (inr (inl o))
write_event-IsValid s e ev given (inr (inr (lax, o))) =
    rw (write_event_over failed e ev o) (inr (inr (lax, o)))

write_events-IsValid :
    (strict : Bool) (e : Encoder) (evs : List StreamEvent)
    → all_clean strict evs ≡ true
    → IsValid strict e
    → IsValid strict (write_events e evs)
unfolding write_events
write_events-IsValid s e [] given v = v
write_events-IsValid s e (ev ∷ evs) given v =
    write_events-IsValid s (write_event e ev) evs (ground arith)
      (write_event-IsValid s e ev (ground arith) v)

-- Where a stream may end: by an error only if the reader gave one.
abbrev HasEnd : Bool → Encoder → Type 0
HasEnd strict e = IsOver stopped e ⊎ ((strict ≡ false) × IsOver failed e)

finish_over :
    (last : Phase) (e : Encoder) (reason : Text) (u : CanonicalUsage)
    → IsOver last e
    → finish e reason u ≡ e
unfolding finish
finish_over last e reason u o = ground (arith, o.over)

-- An error ends the stream.
read_error-IsOver :
    (e : Encoder) (message : Text) → IsAt e → IsOver failed (write_event e (read_error message))
unfolding read_error write_error
read_error-IsOver e message v =
    unfold write_event write_open in
    if_elim (IsOver failed) e.finished (λ over. absurd (ground (arith, over, v.unfinished)))
      (λ _. write_error-IsOver e (read_error message) (cc) v)

end_stream-HasEnd :
    (e : Encoder) (u : CanonicalUsage) (error : Option Text)
    → IsValid (is_none error) e
    → HasEnd (is_none error) (end_stream e u error)
unfolding end_stream
end_stream-HasEnd e u none (inl v) = inl (finish-IsOver e (text "stop") u v)
end_stream-HasEnd e u none (inr (inl o)) = rw (finish_over stopped e (text "stop") u o) (inl o)
end_stream-HasEnd e u none (inr (inr (lax, o))) = absurd (cc)
end_stream-HasEnd e u (some message) (inl v) = inr (refl, read_error-IsOver e message v)
end_stream-HasEnd e u (some message) (inr (inl o)) =
    rw (write_event_over stopped e (read_error message) o) (inl o)
end_stream-HasEnd e u (some message) (inr (inr (lax, o))) =
    rw (write_event_over failed e (read_error message) o) (inr (lax, o))

ends_where :
    (e : Encoder) (strict : Bool)
    → HasEnd strict e
    → (accepts (some begin) e.out ≡ some stopped)
      ⊎ ((strict ≡ false) × (accepts (some begin) e.out ≡ some failed))
ends_where e strict (inl o) = inl o.reached
ends_where e strict (inr (lax, o)) = inr (lax, o.reached)

-- For any events that a reader passes on (each event of an error with what failed, and none of them if the
-- reader returns no error), the stream that is written is accepted up to an end, and to the end by an error
-- only if the reader returned one.
pub stream_to_anthropic_ends :
    (id model : Text) (r : ReadResult)
    → all_clean (is_none r.error) r.events ≡ true
    → let out = (stream_to_anthropic id model r).out in
      (accepts (some begin) out ≡ some stopped)
      ⊎ ((is_none r.error ≡ false) × (accepts (some begin) out ≡ some failed))
unfolding stream_to_anthropic
stream_to_anthropic_ends id model r given =
    let first = new_encoder (text "msg_" ++ id) model in
    let events = write_events first r.events in
    ends_where (end_stream events r.usage r.error) (is_none r.error) (
      end_stream-HasEnd events r.usage r.error (
        write_events-IsValid (is_none r.error) first r.events given
          (inl (new_encoder-IsAt (text "msg_" ++ id) model))))
