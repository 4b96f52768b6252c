-- ===== src/Streams/ReadChat/Ends.antt =====
-- internal/stream_convert.go, `readOpenAIChatStreamAsCanonical`: how its events tell of an error.
use buzzhive.Base.{
  ℕ, ◌≡◌, refl, sym, ◌∙◌, List, [], ◌∷◌, ◌++◌, Bool, true, false, Option, none, some, Text, text,
  subst, text_eq, ◌==◌, arith, if_elim,
}
use buzzhive.Canonical.{
  StreamEvent, EventType, response_start, message_start, text_delta, refusal_delta, reasoning_delta,
  tool_call_start, tool_arguments_delta, tool_call_done, usage_report, response_done, stream_error,
  Fallible, good, bad,
}
use buzzhive.Protocols.OpenaiChat.{OpenaiToolCall, StreamDelta, Choice, ChatResponse}
use buzzhive.Protocols.OpenaiChat.Stream.{
  call_events, calls_events, delta_events, finish_events, choices_events, chunk_to_canonical,
}
use buzzhive.Streams.Read.{
  Scan, Flow, go, leave, fail, each_line, sse_payload, is_clean, all_clean, is_none,
}
use buzzhive.Streams.Read.Clean.{
  IsClean, append_clean, clean_push, clean_lax, is_clean_lax, start_clean, delta_clean,
  done_all_clean, FlowIs, each_line-FlowIs, TellsErrors, read_end-clean,
}
use buzzhive.Streams.ReadChat.{
  ChatCodec, ChatReader, new_reader, end_tools, on_event, on_events, begin_response, stop_with,
  on_payload, on_line, give_done, finish, read_chat, result, ChatError,
}

call_clean : (b : Bool) (i : ℕ) (c : OpenaiToolCall) → IsClean b (call_events i c)
unfolding call_events
call_clean b i c = record { holds = ground arith }

calls_clean : (b : Bool) (i : ℕ) (calls : List OpenaiToolCall) → IsClean b (calls_events i calls)
unfolding calls_events
calls_clean b i [] = record { holds = refl }
calls_clean b i (c ∷ cs) = append_clean (call_clean b i c) (calls_clean b i cs)

parts_clean : (b : Bool) (i : ℕ) (d : Option StreamDelta) → IsClean b (delta_events i d)
unfolding delta_events
parts_clean b i none = record { holds = refl }
parts_clean b i (some d) = record { holds = ground (arith, (calls_clean b i d.tool_calls).holds) }

finish_clean : (b : Bool) (i : ℕ) (reason : Option Text) → IsClean b (finish_events i reason)
unfolding finish_events
finish_clean b i reason = record { holds = ground arith }

choices_clean : (b : Bool) (cs : List Choice) → IsClean b (choices_events cs)
unfolding choices_events
choices_clean b [] = record { holds = refl }
choices_clean b (c ∷ cs) =
    append_clean
      (append_clean (parts_clean b c.index c.delta) (finish_clean b c.index c.finish_reason))
      (choices_clean b cs)

chunk_clean : (b : Bool) (chunk : ChatResponse) → IsClean b (chunk_to_canonical chunk)
unfolding chunk_to_canonical
chunk_clean b chunk = append_clean (choices_clean b chunk.choices) (record { holds = ground arith })

-- The end that is put off is clean too.
abbrev done_clean : Bool → ChatReader → Bool
done_clean b r = elim r.done [ none ↦ true | some e ↦ is_clean b e ]

record IsGood (b : Bool) (r : ChatReader) : Type 0 where
  events : IsClean b r.events
  done : done_clean b r ≡ true

end_tools-IsGood : (b : Bool) (r : ChatReader) → IsGood b r → IsGood b (end_tools r)
unfolding end_tools
end_tools-IsGood b r g = record {
  events = append_clean g.events (done_all_clean b r.tools);
  done = g.done;
}

on_event-IsGood :
    (b : Bool) (t : EventType) (r : ChatReader) (e : StreamEvent)
    → is_clean b e ≡ true
    → IsGood b r
    → IsGood b (on_event t r e)
unfolding on_event
on_event-IsGood b tool_call_start r e h g = record {
  events = append_clean g.events (start_clean b r.tools e);
  done = g.done;
}
on_event-IsGood b tool_arguments_delta r e h g = record {
  events = append_clean g.events (delta_clean b r.tools e);
  done = g.done;
}
on_event-IsGood b response_done r e h g = record {
  events = (end_tools-IsGood b r g).events;
  done = h;
}
on_event-IsGood b usage_report r e h g = record { events = clean_push e h g.events; done = g.done }
on_event-IsGood b response_start r e h g = record {
  events = clean_push e h g.events;
  done = g.done;
}
on_event-IsGood b message_start r e h g = record { events = clean_push e h g.events; done = g.done }
on_event-IsGood b text_delta r e h g = record { events = clean_push e h g.events; done = g.done }
on_event-IsGood b refusal_delta r e h g = record { events = clean_push e h g.events; done = g.done }
on_event-IsGood b reasoning_delta r e h g = record {
  events = clean_push e h g.events;
  done = g.done;
}
on_event-IsGood b tool_call_done r e h g = record {
  events = clean_push e h g.events;
  done = g.done;
}
on_event-IsGood b stream_error r e h g = record { events = clean_push e h g.events; done = g.done }

on_events-IsGood :
    (b : Bool) (r : ChatReader) (es : List StreamEvent)
    → all_clean b es ≡ true
    → IsGood b r
    → IsGood b (on_events r es)
unfolding on_events
on_events-IsGood b r [] h g = g
on_events-IsGood b r (e ∷ es) h g =
    on_events-IsGood b (on_event e.type r e) es (ground arith)
      (on_event-IsGood b e.type r e (ground arith) g)

on_event-stream_err :
    (t : EventType) (r : ChatReader) (e : StreamEvent) → (on_event t r e).stream_err ≡ r.stream_err
unfolding on_event
on_event-stream_err tool_call_start r e = refl
on_event-stream_err t r e = ground arith

on_events-stream_err :
    (r : ChatReader) (es : List StreamEvent) → (on_events r es).stream_err ≡ r.stream_err
unfolding on_events
on_events-stream_err r [] = refl
on_events-stream_err r (e ∷ es) =
    on_events-stream_err (on_event e.type r e) es ∙ on_event-stream_err e.type r e

begin-IsGood :
    (b : Bool) (r : ChatReader) (chunk : ChatResponse)
    → IsGood b r
    → IsGood b (begin_response r chunk)
begin-IsGood b r chunk g =
    unfold begin_response in
    if_elim (IsGood b) r.response_started (λ _. g)
      (λ _. record { events = append_clean g.events (record { holds = refl }); done = g.done })

begin-stream_err :
    (r : ChatReader) (chunk : ChatResponse) → (begin_response r chunk).stream_err ≡ r.stream_err
unfolding begin_response
begin-stream_err r chunk = ground arith

-- A reader that goes on has reported no error; one that has left its loop has, if it holds one.
abbrev Reads : ChatReader → Type 0
Reads r = IsGood (is_none r.stream_err) r

abbrev Failed : ChatReader → Type 0
Failed r = IsClean false r.events

stop_with-Reads : (r : ChatReader) (err : ChatError) → Reads r → Reads (stop_with r err)
unfolding stop_with
stop_with-Reads r err g = record {
  events = clean_push _ refl (clean_lax g.events);
  done = lax_done r.done g.done;
}
  where
    lax_done :
        (d : Option StreamEvent)
        → elim d [ none ↦ true | some e ↦ is_clean (is_none r.stream_err) e ] ≡ true
        → elim d [ none ↦ true | some e ↦ is_clean false e ] ≡ true
    lax_done none h = refl
    lax_done (some e) h = is_clean_lax (is_none r.stream_err) e h

chunk-Reads :
    (r : ChatReader) (chunk : ChatResponse)
    → Reads r
    → Reads (on_events (begin_response r chunk) (chunk_to_canonical chunk))
chunk-Reads r chunk g =
    let b = is_none r.stream_err in
    let begun = begin_response r chunk in
    let good_events =
      on_events-IsGood b begun (chunk_to_canonical chunk) (chunk_clean b chunk).holds
        (begin-IsGood b r chunk g) in
    subst (λ (o : Option Text). IsGood (is_none o) (on_events begun (chunk_to_canonical chunk)))
      (sym (on_events-stream_err begun (chunk_to_canonical chunk) ∙ begin-stream_err r chunk))
      good_events

on_payload-FlowIs :
    (codec : ChatCodec) (r : ChatReader) (payload : Text)
    → Reads r
    → FlowIs Reads Failed (on_payload codec r payload)
on_payload-FlowIs codec r payload g =
    unfold on_payload in
    if_elim (FlowIs Reads Failed) (payload == text "[DONE]")
      (λ _. record { events = g.events; done = g.done }) (λ _. at_error (codec.error_of payload))
  where
    at_chunk :
        (c : Fallible ChatResponse)
        → FlowIs Reads Failed (elim c [
          | bad message ↦ fail r (text "decode OpenAI Chat stream event: " ++ message)
          | good chunk ↦ go (on_events (begin_response r chunk) (chunk_to_canonical chunk))
        ])
    at_chunk (bad message) = clean_lax g.events
    at_chunk (good chunk) = chunk-Reads r chunk g

    at_error :
        (o : Option ChatError)
        → FlowIs Reads Failed (elim o [
          | some err ↦ leave (stop_with r err)
          | none ↦ elim (codec.chunk_of payload) [
            | bad message ↦ fail r (text "decode OpenAI Chat stream event: " ++ message)
            | good chunk ↦ go (on_events (begin_response r chunk) (chunk_to_canonical chunk))
          ]
        ])
    at_error (some err) = stop_with-Reads r err g
    at_error none = at_chunk (codec.chunk_of payload)

on_line-FlowIs :
    (codec : ChatCodec) (r : ChatReader) (line : Text)
    → Reads r
    → FlowIs Reads Failed (on_line codec r line)
on_line-FlowIs codec r line g = unfold on_line in at (sse_payload line)
  where
    at :
        (o : Option Text)
        → FlowIs Reads Failed (elim o [ none ↦ go r | some payload ↦ on_payload codec r payload ])
    at none = g
    at (some payload) = on_payload-FlowIs codec r payload g

give_done-clean : (b : Bool) (r : ChatReader) → IsGood b r → IsClean b (give_done r).events
give_done-clean b r g = unfold give_done in at r.done g.done
  where
    at :
        (d : Option StreamEvent)
        → elim d [ none ↦ true | some e ↦ is_clean b e ] ≡ true
        → IsClean b
            (elim d as (λ _. ChatReader) [
              | none ↦ r
              | some e ↦ record r { events = r.events ++ e ∷ []; terminated = true }
            ]).events
    at none h = g.events
    at (some e) h = clean_push e h g.events

give_done-stream_err : (r : ChatReader) → (give_done r).stream_err ≡ r.stream_err
unfolding give_done
give_done-stream_err r = ground arith

finish-TellsErrors : (scan : Scan) (r : ChatReader) → Reads r → TellsErrors (finish scan r)
unfolding finish end_tools
finish-TellsErrors scan r g =
    let b = is_none r.stream_err in
    let r' = give_done (end_tools r) in
    read_end-clean scan.error (text "read OpenAI Chat stream: ") r'.stream_err r'.terminated (
      subst (λ (o : Option Text). IsClean (is_none o) r'.events)
        (sym (give_done-stream_err (end_tools r)))
        (give_done-clean b (end_tools r) (end_tools-IsGood b r g)))

pub read_chat-TellsErrors : (codec : ChatCodec) (scan : Scan) → TellsErrors (read_chat codec scan)
read_chat-TellsErrors codec scan =
    unfold read_chat in
    at (each_line (on_line codec) new_reader scan.lines) (
      each_line-FlowIs Reads Failed (on_line codec) (on_line-FlowIs codec) new_reader scan.lines
        (record { events = record { holds = refl }; done = refl }))
  where
    at :
        (f : Flow ChatReader)
        → FlowIs Reads Failed f
        → TellsErrors (elim f [
          | go r ↦ finish scan r
          | leave r ↦ finish scan r
          | fail r message ↦ result r (some message)
        ])
    at (go r) h = finish-TellsErrors scan r h
    at (leave r) h = finish-TellsErrors scan r h
    at (fail r message) h = h
