-- ===== src/Streams/ReadResponses/Ends.antt =====
-- internal/stream_convert.go, `readResponsesStreamAsCanonical`: how its events tell of an error.
use buzzhive.Base.{
  ℕ, refl, List, [], ◌∷◌, ◌++◌, true, false, ◌&&◌, ◌||◌, not, Option, none, some, Text, text,
  text_eq, ◌==◌, if_elim,
}
use buzzhive.Canonical.{
  CanonicalUsage, CanonicalToolCall, CanonicalResponse, is_zero, Fallible, good, bad,
}
use buzzhive.Protocols.Responses.{responses_to_canonical}
use buzzhive.Streams.Read.{Scan, Flow, go, leave, fail, each_line, sse_payload}
use buzzhive.Streams.Read.Clean.{
  IsClean, append_clean, clean_push, clean_lax, start_clean, delta_clean, done_clean,
  done_all_clean, FlowIs, each_line-FlowIs, TellsErrors, read_end-clean,
}
use buzzhive.Streams.ReadResponses.{
  WireEvent, ResponsesCodec, ResponsesReader, new_reader, on_text, on_refusal, on_reasoning,
  on_item_added, on_arguments_delta, on_arguments_done, give_reasoning, on_reasoning_done,
  on_item_done, give_call, give_calls, end_tools, give_text, give_refusal, give_usage, on_completed,
  on_wire, on_line, finish, read_responses, result, only_item,
}

-- A reader that goes on has reported no error.
abbrev Reads : ResponsesReader → Type 0
Reads r = IsClean true r.events

abbrev Failed : ResponsesReader → Type 0
Failed r = IsClean false r.events

on_text-Reads : (r : ResponsesReader) (w : WireEvent) → Reads r → Reads (on_text r w)
unfolding on_text
on_text-Reads r w g = clean_push _ refl g

on_refusal-Reads : (r : ResponsesReader) (w : WireEvent) → Reads r → Reads (on_refusal r w)
unfolding on_refusal
on_refusal-Reads r w g = clean_push _ refl g

on_reasoning-Reads : (r : ResponsesReader) (w : WireEvent) → Reads r → Reads (on_reasoning r w)
unfolding on_reasoning
on_reasoning-Reads r w g = clean_push _ refl g

on_item_added-Reads : (r : ResponsesReader) (w : WireEvent) → Reads r → Reads (on_item_added r w)
on_item_added-Reads r w g =
    unfold on_item_added in
    if_elim Reads (w.item.type == text "message") (λ _. clean_push _ refl g)
      (λ _.
        if_elim Reads (w.item.type == text "function_call")
          (λ _. append_clean g (start_clean true r.tools _)) (λ _. g))

on_arguments_delta-Reads :
    (r : ResponsesReader) (w : WireEvent) → Reads r → Reads (on_arguments_delta r w)
unfolding on_arguments_delta
on_arguments_delta-Reads r w g = append_clean g (delta_clean true r.tools _)

on_arguments_done-Reads :
    (r : ResponsesReader) (w : WireEvent) → Reads r → Reads (on_arguments_done r w)
unfolding on_arguments_done
on_arguments_done-Reads r w g = append_clean g (done_clean true r.tools _)

give_reasoning-Reads :
    (r : ResponsesReader) (i : ℕ) (a : CanonicalResponse) → Reads r → Reads (give_reasoning r i a)
give_reasoning-Reads r i a g =
    unfold give_reasoning in
    if_elim Reads (a.reasoning == [] && a.signature == []) (λ _. g) (λ _. clean_push _ refl g)

on_reasoning_done-FlowIs :
    (quote : Text → Text) (r : ResponsesReader) (w : WireEvent)
    → Reads r
    → FlowIs Reads Failed (on_reasoning_done quote r w)
on_reasoning_done-FlowIs quote r w g =
    unfold on_reasoning_done in
    let P = FlowIs Reads Failed in
    if_elim P (not r.reasoning_seen) (λ _. at (responses_to_canonical quote (only_item w.item)))
      (λ _. if_elim P (w.item.encrypted_content == []) (λ _. g) (λ _. clean_push _ refl g))
  where
    at :
        (o : Fallible CanonicalResponse)
        → FlowIs Reads Failed (elim o [
          | bad message ↦ fail r message
          | good answer ↦ go (give_reasoning r w.output_index answer)
        ])
    at (bad message) = clean_lax g
    at (good answer) = give_reasoning-Reads r w.output_index answer g

on_item_done-FlowIs :
    (quote : Text → Text) (r : ResponsesReader) (w : WireEvent)
    → Reads r
    → FlowIs Reads Failed (on_item_done quote r w)
on_item_done-FlowIs quote r w g =
    unfold on_item_done in
    let P = FlowIs Reads Failed in
    if_elim P (w.item.type == text "reasoning") (λ _. on_reasoning_done-FlowIs quote r w g)
      (λ _.
        if_elim P (w.item.type == text "function_call")
          (λ _. append_clean g (done_clean true r.tools _)) (λ _. g))

give_call-Reads : (r : ResponsesReader) (c : CanonicalToolCall) → Reads r → Reads (give_call r c)
unfolding give_call
give_call-Reads r c g =
    append_clean (append_clean g (start_clean true r.tools _)) (done_clean true _ _)

give_calls-Reads :
    (r : ResponsesReader) (cs : List CanonicalToolCall) → Reads r → Reads (give_calls r cs)
unfolding give_calls
give_calls-Reads r [] g = g
give_calls-Reads r (c ∷ cs) g = give_calls-Reads (give_call r c) cs (give_call-Reads r c g)

end_tools-Reads : (r : ResponsesReader) → Reads r → Reads (end_tools r)
unfolding end_tools
end_tools-Reads r g = append_clean g (done_all_clean true r.tools)

give_text-Reads : (r : ResponsesReader) (t : Text) → Reads r → Reads (give_text r t)
give_text-Reads r t g =
    unfold give_text in if_elim Reads (t == [] || r.text_seen) (λ _. g) (λ _. clean_push _ refl g)

give_refusal-Reads : (r : ResponsesReader) (t : Text) → Reads r → Reads (give_refusal r t)
give_refusal-Reads r t g =
    unfold give_refusal in
    if_elim Reads (t == [] || r.refusal_seen) (λ _. g) (λ _. clean_push _ refl g)

give_usage-Reads : (r : ResponsesReader) (u : CanonicalUsage) → Reads r → Reads (give_usage r u)
give_usage-Reads r u g =
    unfold give_usage in if_elim Reads (is_zero u) (λ _. g) (λ _. clean_push _ refl g)

on_completed-Reads :
    (r : ResponsesReader) (a : CanonicalResponse) → Reads r → Reads (on_completed r a)
on_completed-Reads r a g =
    unfold on_completed in
    let said = give_text r a.body in
    let refused = give_refusal said a.refusal in
    let called = give_calls refused a.tool_calls in
    clean_push _ refl (
      give_usage-Reads (end_tools called) a.usage (
        end_tools-Reads called (
          give_calls-Reads refused a.tool_calls
            (give_refusal-Reads said a.refusal (give_text-Reads r a.body g)))))

on_wire-FlowIs :
    (quote : Text → Text) (r : ResponsesReader) (w : WireEvent)
    → Reads r
    → FlowIs Reads Failed (on_wire quote r w)
on_wire-FlowIs quote r w g =
    unfold on_wire in
    let P = FlowIs Reads Failed in
    if_elim P (w.type == text "response.created") (λ _. clean_push _ refl g)
      (λ _.
        if_elim P (w.type == text "response.output_text.delta") (λ _. on_text-Reads r w g)
          (λ _.
            if_elim P (w.type == text "response.refusal.delta") (λ _. on_refusal-Reads r w g)
              (λ _.
                if_elim P
                  (w.type == text "response.reasoning_summary_text.delta"
                    || w.type == text "response.reasoning_text.delta")
                  (λ _. on_reasoning-Reads r w g)
                  (λ _.
                    if_elim P (w.type == text "response.output_item.added")
                      (λ _. on_item_added-Reads r w g)
                      (λ _.
                        if_elim P (w.type == text "response.function_call_arguments.delta")
                          (λ _. on_arguments_delta-Reads r w g)
                          (λ _.
                            if_elim P (w.type == text "response.function_call_arguments.done")
                              (λ _. on_arguments_done-Reads r w g)
                              (λ _.
                                if_elim P (w.type == text "response.output_item.done")
                                  (λ _. on_item_done-FlowIs quote r w g)
                                  (λ _.
                                    if_elim P
                                      (w.type == text "response.completed"
                                        || w.type == text "response.incomplete")
                                      (λ _. completed (responses_to_canonical quote w.response))
                                      (λ _.
                                        if_elim P (w.type == text "response.failed")
                                          (λ _. failed (responses_to_canonical quote w.response))
                                          (λ _.
                                            if_elim P (w.type == text "error")
                                              (λ _. clean_push _ refl (clean_lax g))
                                              (λ _. g)))))))))))
  where
    completed :
        (o : Fallible CanonicalResponse)
        → FlowIs Reads Failed
            (elim o [ bad message ↦ fail r message | good answer ↦ leave (on_completed r answer) ])
    completed (bad message) = clean_lax g
    completed (good answer) = on_completed-Reads r answer g

    failed :
        (o : Fallible CanonicalResponse)
        → FlowIs Reads Failed (elim o [
          | bad message ↦ fail r message
          | good answer ↦ fail r (text "Responses stream failed")
        ])
    failed (bad message) = clean_lax g
    failed (good answer) = clean_lax g

on_line-FlowIs :
    (codec : ResponsesCodec) (r : ResponsesReader) (line : Text)
    → Reads r
    → FlowIs Reads Failed (on_line codec r line)
on_line-FlowIs codec r line g = unfold on_line in at (sse_payload line)
  where
    decoded :
        (o : Fallible WireEvent)
        → FlowIs Reads Failed (elim o [
          | bad message ↦ fail r (text "decode Responses stream event: " ++ message)
          | good w ↦ on_wire codec.quote r w
        ])
    decoded (bad message) = clean_lax g
    decoded (good w) = on_wire-FlowIs codec.quote r w g

    at :
        (o : Option Text)
        → FlowIs Reads Failed (elim o [
          | none ↦ go r
          | some payload ↦ elim (codec.event_of_payload payload) [
            | bad message ↦ fail r (text "decode Responses stream event: " ++ message)
            | good w ↦ on_wire codec.quote r w
          ]
        ])
    at none = g
    at (some payload) = decoded (codec.event_of_payload payload)

pub read_responses-TellsErrors :
    (codec : ResponsesCodec) (scan : Scan) → TellsErrors (read_responses codec scan)
read_responses-TellsErrors codec scan =
    unfold read_responses in
    at (each_line (on_line codec) new_reader scan.lines) (
      each_line-FlowIs Reads Failed (on_line codec) (on_line-FlowIs codec) new_reader scan.lines
        (record { holds = refl }))
  where
    ended : (r : ResponsesReader) → Reads r → TellsErrors (finish scan r)
    ended r g =
        unfold finish in
        read_end-clean scan.error (text "read Responses stream: ") none r.terminated g

    at :
        (f : Flow ResponsesReader)
        → FlowIs Reads Failed f
        → TellsErrors (elim f [
          | go r ↦ finish scan r
          | leave r ↦ finish scan r
          | fail r message ↦ result r (some message)
        ])
    at (go r) h = ended r h
    at (leave r) h = ended r h
    at (fail r message) h = h
