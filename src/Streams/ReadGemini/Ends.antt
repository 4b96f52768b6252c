-- ===== src/Streams/ReadGemini/Ends.antt =====
-- internal/stream_convert.go, `readGeminiStreamAsCanonical`: how its events tell of an error.
use buzzhive.Base.{
  ℕ, suc, ◌≡◌, refl, sym, ◌∙◌, subst, List, [], ◌∷◌, ◌++◌, Bool, true, false, Option, none, some,
  Text, text, text_eq, ◌==◌, arith, if_elim,
}
use buzzhive.Canonical.{
  StreamEvent, EventType, event_of, response_start, message_start, text_delta, refusal_delta,
  reasoning_delta, tool_call_start, tool_arguments_delta, tool_call_done, usage_report,
  response_done, stream_error, Fallible, good, bad, is_zero,
}
use buzzhive.Protocols.Gemini.{
  GeminiPart, GeminiFunctionCall, GeminiCandidate, GeminiPromptFeedback, GeminiResponse, named_call,
  text_events, call_events, parts_events, candidate_events, feedback_events, insert_before_done,
  gemini_to_events, gemini_usage,
}
use buzzhive.Streams.Read.{
  Scan, Flow, go, leave, fail, each_line, sse_payload, is_clean, all_clean, is_none,
}
use buzzhive.Streams.Read.Clean.{
  IsClean, append_clean, clean_push, clean_lax, FlowIs, each_line-FlowIs, TellsErrors,
  read_end-clean,
}
use buzzhive.Streams.ReadGemini.{
  GeminiError, GeminiCodec, GeminiReader, new_reader, on_event, on_events, stop_with, on_payload,
  on_line, finish, read_gemini, result,
}

text_clean : (b : Bool) (p : GeminiPart) → IsClean b (text_events p)
unfolding text_events
text_clean b p = record { holds = ground arith }

call_clean :
    (b : Bool) (decimal : ℕ → Text) (request_id : Text) (i : ℕ) (p : GeminiPart)
    (c : GeminiFunctionCall)
    → IsClean b (call_events decimal request_id i p c)
unfolding call_events
call_clean b decimal request_id i p c = record { holds = refl }

parts_clean :
    (b : Bool) (decimal : ℕ → Text) (request_id : Text) (i : ℕ) (ps : List GeminiPart)
    → IsClean b (parts_events decimal request_id i ps)
unfolding parts_events
parts_clean b decimal request_id i [] = record { holds = refl }
parts_clean b decimal request_id i (p ∷ ps) =
    at (named_call p) (parts_clean b decimal request_id i ps)
      (parts_clean b decimal request_id (suc i) ps)
  where
    at :
        (o : Option GeminiFunctionCall)
        → IsClean b (parts_events decimal request_id i ps)
        → IsClean b (parts_events decimal request_id (suc i) ps)
        → IsClean b (elim o [
          | none ↦ text_events p ++ parts_events decimal request_id i ps
          | some call ↦
              text_events p
              ++ (call_events decimal request_id i p call
                  ++ parts_events decimal request_id (suc i) ps)
        ])
    at none g h = append_clean (text_clean b p) g
    at (some call) g h =
        append_clean (text_clean b p) (append_clean (call_clean b decimal request_id i p call) h)

candidate_clean :
    (b : Bool) (decimal : ℕ → Text) (to_lower : Text → Text) (request_id : Text) (i : ℕ)
    (c : GeminiCandidate)
    → IsClean b (candidate_events decimal to_lower request_id i c)
unfolding candidate_events
candidate_clean b decimal to_lower request_id i c =
    append_clean (parts_clean b decimal request_id i c.content.parts) (
      if_elim (IsClean b) (c.finish_reason == []) (λ _. record { holds = refl })
        (λ _. record { holds = refl }))

feedback_clean : (b : Bool) (f : Option GeminiPromptFeedback) → IsClean b (feedback_events f)
unfolding feedback_events
feedback_clean b none = record { holds = refl }
feedback_clean b (some f) = record { holds = ground arith }

insert_clean :
    (b : Bool) (u : StreamEvent) (es : List StreamEvent)
    → is_clean b u ≡ true
    → all_clean b es ≡ true
    → all_clean b (insert_before_done u es) ≡ true
unfolding insert_before_done
insert_clean b u [] h k = ground arith
insert_clean b u (e ∷ es) h k = ground (arith, insert_clean b u es)

-- The events of a chunk report no error.
chunk_clean :
    (b : Bool) (codec : GeminiCodec) (chunk : GeminiResponse) (request_id : Text) (i : ℕ)
    → IsClean b (gemini_to_events codec.decimal codec.to_lower chunk request_id i)
chunk_clean b codec chunk request_id i =
    unfold gemini_to_events in
    if_elim (IsClean b) (is_zero (gemini_usage chunk)) (λ _. out chunk.candidates)
      (λ _. record {
        holds =
            insert_clean b (record (event_of usage_report) { usage = gemini_usage chunk })
              (elim chunk.candidates [
                | [] ↦ feedback_events chunk.prompt_feedback
                | c ∷ rest ↦ candidate_events codec.decimal codec.to_lower request_id i c
              ])
              refl (out chunk.candidates).holds;
      })
  where
    out :
        (cs : List GeminiCandidate)
        → IsClean b (elim cs [
          | [] ↦ feedback_events chunk.prompt_feedback
          | c ∷ rest ↦ candidate_events codec.decimal codec.to_lower request_id i c
        ])
    out [] = feedback_clean b chunk.prompt_feedback
    out (c ∷ rest) = candidate_clean b codec.decimal codec.to_lower request_id i c

on_event-clean :
    (b : Bool) (t : EventType) (r : GeminiReader) (e : StreamEvent)
    → is_clean b e ≡ true
    → IsClean b r.events
    → IsClean b (on_event t r e).events
unfolding on_event
on_event-clean b response_done r e h g = clean_push _ h g
on_event-clean b usage_report r e h g = clean_push e h g
on_event-clean b tool_call_done r e h g = clean_push e h g
on_event-clean b response_start r e h g = clean_push e h g
on_event-clean b message_start r e h g = clean_push e h g
on_event-clean b text_delta r e h g = clean_push e h g
on_event-clean b refusal_delta r e h g = clean_push e h g
on_event-clean b reasoning_delta r e h g = clean_push e h g
on_event-clean b tool_call_start r e h g = clean_push e h g
on_event-clean b tool_arguments_delta r e h g = clean_push e h g
on_event-clean b stream_error r e h g = clean_push e h g

on_events-clean :
    (b : Bool) (r : GeminiReader) (es : List StreamEvent)
    → all_clean b es ≡ true
    → IsClean b r.events
    → IsClean b (on_events r es).events
unfolding on_events
on_events-clean b r [] h g = g
on_events-clean b r (e ∷ es) h g =
    on_events-clean b (on_event e.type r e) es (ground arith)
      (on_event-clean b e.type r e (ground arith) g)

on_event-stream_err :
    (t : EventType) (r : GeminiReader) (e : StreamEvent)
    → (on_event t r e).stream_err ≡ r.stream_err
unfolding on_event
on_event-stream_err tool_call_done r e = refl
on_event-stream_err t r e = ground arith

on_events-stream_err :
    (r : GeminiReader) (es : List StreamEvent) → (on_events r es).stream_err ≡ r.stream_err
unfolding on_events
on_events-stream_err r [] = refl
on_events-stream_err r (e ∷ es) =
    on_events-stream_err (on_event e.type r e) es ∙ on_event-stream_err e.type r e

-- A reader that goes on has reported no error; one that has left its loop has, if it holds one.
abbrev Reads : GeminiReader → Type 0
Reads r = IsClean (is_none r.stream_err) r.events

abbrev Failed : GeminiReader → Type 0
Failed r = IsClean false r.events

on_payload-FlowIs :
    (codec : GeminiCodec) (request_id : Text) (r : GeminiReader) (payload : Text)
    → Reads r
    → FlowIs Reads Failed (on_payload codec request_id r payload)
on_payload-FlowIs codec request_id r payload g =
    unfold on_payload in
    if_elim (FlowIs Reads Failed) (payload == text "[DONE]") (λ _. g)
      (λ _. at_error (codec.error_of payload))
  where
    at_chunk :
        (c : Fallible GeminiResponse)
        → FlowIs Reads Failed (elim c [
          | bad message ↦ fail r (text "decode Gemini stream event: " ++ message)
          | good chunk ↦ go (
              on_events r
                (gemini_to_events codec.decimal codec.to_lower chunk request_id r.tool_offset))
        ])
    at_chunk (bad message) = clean_lax g
    at_chunk (good chunk) =
        let es = gemini_to_events codec.decimal codec.to_lower chunk request_id r.tool_offset in
        let b = is_none r.stream_err in
        subst (λ (o : Option Text). IsClean (is_none o) (on_events r es).events)
          (sym (on_events-stream_err r es))
          (on_events-clean b r es (chunk_clean b codec chunk request_id r.tool_offset).holds g)

    at_error :
        (o : Option GeminiError)
        → FlowIs Reads Failed (elim o [
          | some err ↦ leave (stop_with codec r err)
          | none ↦ elim (codec.chunk_of payload) [
            | bad message ↦ fail r (text "decode Gemini stream event: " ++ message)
            | good chunk ↦ go (
                on_events r
                  (gemini_to_events codec.decimal codec.to_lower chunk request_id r.tool_offset))
          ]
        ])
    at_error (some err) = unfold stop_with in clean_push _ refl (clean_lax g)
    at_error none = at_chunk (codec.chunk_of payload)

on_line-FlowIs :
    (codec : GeminiCodec) (request_id : Text) (r : GeminiReader) (line : Text)
    → Reads r
    → FlowIs Reads Failed (on_line codec request_id r line)
on_line-FlowIs codec request_id r line g = unfold on_line in at (sse_payload line)
  where
    at :
        (o : Option Text)
        → FlowIs Reads Failed
            (elim o [ none ↦ go r | some payload ↦ on_payload codec request_id r payload ])
    at none = g
    at (some payload) = on_payload-FlowIs codec request_id r payload g

pub read_gemini-TellsErrors :
    (codec : GeminiCodec) (request_id : Text) (scan : Scan)
    → TellsErrors (read_gemini codec request_id scan)
read_gemini-TellsErrors codec request_id scan =
    unfold read_gemini in
    at (each_line (on_line codec request_id) (new_reader request_id) scan.lines) (
      each_line-FlowIs Reads Failed (on_line codec request_id) (on_line-FlowIs codec request_id)
        (new_reader request_id) scan.lines (record { holds = refl }))
  where
    ended : (r : GeminiReader) → Reads r → TellsErrors (finish scan r)
    ended r g =
        unfold finish in
        read_end-clean scan.error (text "read Gemini stream: ") r.stream_err r.terminated g

    at :
        (f : Flow GeminiReader)
        → FlowIs Reads Failed f
        → TellsErrors (elim f [
          | go r ↦ finish scan r
          | leave r ↦ finish scan r
          | fail r message ↦ result r (some message)
        ])
    at (go r) h = ended r h
    at (leave r) h = ended r h
    at (fail r message) h = h
