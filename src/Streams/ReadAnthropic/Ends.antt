-- ===== src/Streams/ReadAnthropic/Ends.antt =====
-- internal/stream_convert.go, `readAnthropicStreamAsCanonical`: how its events tell of an error.
use buzzhive.Base.{
  refl, ◌++◌, true, false, Option, none, some, Text, text, text_eq, nat_eq, ◌==◌, if_elim,
}
use buzzhive.Canonical.{is_zero, Fallible, good, bad}
use buzzhive.Protocols.Anthropic.{stop_reason_to_canonical}
use buzzhive.Streams.Read.{Scan, Flow, go, leave, fail, each_line, sse_payload}
use buzzhive.Streams.Read.Clean.{
  IsClean, append_clean, clean_push, clean_lax, start_clean, delta_clean, done_clean,
  done_all_clean, FlowIs, each_line-FlowIs, TellsErrors, read_end-clean,
}
use buzzhive.Streams.ReadAnthropic.{
  WireEvent, AnthropicReader, new_reader, merge_usage, end_tools, give_usage, on_message_start,
  on_block_start, on_arguments, on_block_delta, on_block_stop, give_refusal, on_message_delta,
  on_message_stop, on_wire, on_line, finish, read_anthropic, result,
}

-- A reader that goes on has reported no error.
abbrev Reads : AnthropicReader → Type 0
Reads r = IsClean true r.events

abbrev Failed : AnthropicReader → Type 0
Failed r = IsClean false r.events

end_tools-Reads : (r : AnthropicReader) → Reads r → Reads (end_tools r)
unfolding end_tools
end_tools-Reads r g = append_clean g (done_all_clean true r.tools)

give_usage-Reads : (r : AnthropicReader) → Reads r → Reads (give_usage r)
give_usage-Reads r g =
    unfold give_usage in if_elim Reads (is_zero r.usage) (λ _. g) (λ _. clean_push _ refl g)

on_message_start-Reads :
    (r : AnthropicReader) (w : WireEvent) → Reads r → Reads (on_message_start r w)
unfolding on_message_start
on_message_start-Reads r w g = append_clean g (record { holds = refl })

on_block_start-Reads : (r : AnthropicReader) (w : WireEvent) → Reads r → Reads (on_block_start r w)
on_block_start-Reads r w g =
    unfold on_block_start in
    if_elim Reads (w.block_type == text "tool_use")
      (λ _. append_clean g (start_clean true r.tools _)) (λ _. g)

on_arguments-Reads : (r : AnthropicReader) (w : WireEvent) → Reads r → Reads (on_arguments r w)
unfolding on_arguments
on_arguments-Reads r w g = append_clean g (delta_clean true r.tools _)

on_block_delta-Reads : (r : AnthropicReader) (w : WireEvent) → Reads r → Reads (on_block_delta r w)
on_block_delta-Reads r w g =
    unfold on_block_delta in
    if_elim Reads (w.delta_type == text "text_delta") (λ _. clean_push _ refl g)
      (λ _.
        if_elim Reads (w.delta_type == text "thinking_delta") (λ _. clean_push _ refl g)
          (λ _.
            if_elim Reads (w.delta_type == text "signature_delta") (λ _. clean_push _ refl g)
              (λ _.
                if_elim Reads (w.delta_type == text "input_json_delta")
                  (λ _. on_arguments-Reads r w g) (λ _. g))))

on_block_stop-Reads : (r : AnthropicReader) (w : WireEvent) → Reads r → Reads (on_block_stop r w)
unfolding on_block_stop
on_block_stop-Reads r w g = append_clean g (done_clean true r.tools _)

give_refusal-Reads : (r : AnthropicReader) (w : WireEvent) → Reads r → Reads (give_refusal r w)
give_refusal-Reads r w g =
    unfold give_refusal in
    if_elim Reads (w.stop_reason == text "refusal") (λ _. clean_push _ refl g) (λ _. g)

on_message_delta-Reads :
    (r : AnthropicReader) (w : WireEvent) → Reads r → Reads (on_message_delta r w)
on_message_delta-Reads r w g =
    unfold on_message_delta in
    let r' = record r {
      message_delta_seen = true;
      finish_reason = stop_reason_to_canonical w.stop_reason;
      usage = merge_usage r.usage w.usage;
    } in
    give_refusal-Reads (give_usage (end_tools r')) w
      (give_usage-Reads (end_tools r') (end_tools-Reads r' g))

on_message_stop-FlowIs : (r : AnthropicReader) → Reads r → FlowIs Reads Failed (on_message_stop r)
on_message_stop-FlowIs r g =
    unfold on_message_stop in
    if_elim (FlowIs Reads Failed) r.message_delta_seen (λ _. clean_push _ refl g) (λ _. clean_lax g)

on_wire-FlowIs : (r : AnthropicReader) (w : WireEvent) → Reads r → FlowIs Reads Failed (on_wire r w)
on_wire-FlowIs r w g =
    unfold on_wire in
    let P = FlowIs Reads Failed in
    if_elim P (w.type == text "message_start") (λ _. on_message_start-Reads r w g)
      (λ _.
        if_elim P (w.type == text "content_block_start") (λ _. on_block_start-Reads r w g)
          (λ _.
            if_elim P (w.type == text "content_block_delta") (λ _. on_block_delta-Reads r w g)
              (λ _.
                if_elim P (w.type == text "content_block_stop") (λ _. on_block_stop-Reads r w g)
                  (λ _.
                    if_elim P (w.type == text "message_delta") (λ _. on_message_delta-Reads r w g)
                      (λ _.
                        if_elim P (w.type == text "message_stop") (λ _. on_message_stop-FlowIs r g)
                          (λ _.
                            if_elim P (w.type == text "error")
                              (λ _. clean_push _ refl (clean_lax g)) (λ _. g)))))))

on_line-FlowIs :
    (decode : Text → Fallible WireEvent) (r : AnthropicReader) (line : Text)
    → Reads r
    → FlowIs Reads Failed (on_line decode r line)
on_line-FlowIs decode r line g = unfold on_line in at (sse_payload line)
  where
    decoded :
        (o : Fallible WireEvent)
        → FlowIs Reads Failed (elim o [
          | bad message ↦ fail r (text "decode Anthropic stream event: " ++ message)
          | good w ↦ on_wire r w
        ])
    decoded (bad message) = clean_lax g
    decoded (good w) = on_wire-FlowIs r w g

    at :
        (o : Option Text)
        → FlowIs Reads Failed (elim o [
          | none ↦ go r
          | some payload ↦ elim (decode payload) [
            | bad message ↦ fail r (text "decode Anthropic stream event: " ++ message)
            | good w ↦ on_wire r w
          ]
        ])
    at none = g
    at (some payload) = decoded (decode payload)

finish-TellsErrors : (scan : Scan) (r : AnthropicReader) → Reads r → TellsErrors (finish scan r)
finish-TellsErrors scan r g =
    unfold finish in
    read_end-clean scan.error (text "read Anthropic stream: ") none _ (
      if_elim Reads (end_tools r).response_done_seen (λ _. end_tools-Reads r g)
        (λ _. give_usage-Reads (end_tools r) (end_tools-Reads r g)))

pub read_anthropic-TellsErrors :
    (decode : Text → Fallible WireEvent) (scan : Scan) → TellsErrors (read_anthropic decode scan)
read_anthropic-TellsErrors decode scan =
    unfold read_anthropic in
    at (each_line (on_line decode) new_reader scan.lines) (
      each_line-FlowIs Reads Failed (on_line decode) (on_line-FlowIs decode) new_reader scan.lines
        (record { holds = refl }))
  where
    at :
        (f : Flow AnthropicReader)
        → FlowIs Reads Failed f
        → TellsErrors (elim f [
          | go r ↦ finish scan r
          | leave r ↦ finish scan r
          | fail r message ↦ result r (some message)
        ])
    at (go r) h = finish-TellsErrors scan r h
    at (leave r) h = finish-TellsErrors scan r h
    at (fail r message) h = h
