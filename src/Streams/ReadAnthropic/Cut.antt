-- ===== src/Streams/ReadAnthropic/Cut.antt =====
-- internal/stream_convert.go, `readAnthropicStreamAsCanonical`: a stream that is cut off.
use buzzhive.Base.{
  ◌≡◌, refl, ◌∙◌, List, [], ◌∷◌, ◌++◌, Bool, true, false, not, ◌||◌, Option, none, some, Text, text,
  text_eq, ◌==◌, arith,
}
use buzzhive.Canonical.{Fallible, good, bad}
use buzzhive.Streams.Read.{
  Scan, ReadResult, Flow, go, leave, fail, each_line, sse_payload, read_end, is_none,
}
use buzzhive.Streams.ReadAnthropic.{
  WireEvent, AnthropicReader, new_reader, end_tools, give_usage, on_message_start, on_block_start,
  on_arguments, on_block_delta, on_block_stop, give_refusal, on_message_delta, on_wire, on_line,
  result, finish, read_anthropic,
}

-- Whether a line is the event that ends a message, and whether one of the lines is.
unfoldable pub stops : (Text → Fallible WireEvent) → Text → Bool
stops decode line = elim (sse_payload line) [
  | none ↦ false
  | some payload ↦ elim (decode payload) [
    | bad message ↦ false
    | good w ↦ w.type == text "message_stop"
  ]
]

unfoldable pub has_stop : (Text → Fallible WireEvent) → List Text → Bool
has_stop decode [] = false
has_stop decode (line ∷ lines) = stops decode line || has_stop decode lines

-- The reader has not passed on the end of the answer.
abbrev is_open : Flow AnthropicReader → Bool
is_open (go r) = not r.response_done_seen
is_open (leave r) = not r.response_done_seen
is_open (fail r message) = true

give_usage-response_done_seen :
    (r : AnthropicReader) → (give_usage r).response_done_seen ≡ r.response_done_seen
unfolding give_usage
give_usage-response_done_seen r = ground arith

give_refusal-response_done_seen :
    (r : AnthropicReader) (w : WireEvent)
    → (give_refusal r w).response_done_seen ≡ r.response_done_seen
unfolding give_refusal
give_refusal-response_done_seen r w = ground arith

on_message_delta-response_done_seen :
    (r : AnthropicReader) (w : WireEvent)
    → (on_message_delta r w).response_done_seen ≡ r.response_done_seen
unfolding on_message_delta end_tools
on_message_delta-response_done_seen r w =
    give_refusal-response_done_seen _ w ∙ give_usage-response_done_seen _

on_block_start-response_done_seen :
    (r : AnthropicReader) (w : WireEvent)
    → (on_block_start r w).response_done_seen ≡ r.response_done_seen
unfolding on_block_start
on_block_start-response_done_seen r w = ground arith

on_block_delta-response_done_seen :
    (r : AnthropicReader) (w : WireEvent)
    → (on_block_delta r w).response_done_seen ≡ r.response_done_seen
unfolding on_block_delta on_arguments
on_block_delta-response_done_seen r w = ground arith

on_wire_open :
    (r : AnthropicReader) (w : WireEvent)
    → (w.type == text "message_stop") ≡ false
    → r.response_done_seen ≡ false
    → is_open (on_wire r w) ≡ true
unfolding on_wire on_message_start on_block_stop
on_wire_open r w no_stop open_ = ground (
  arith,
  no_stop,
  open_,
  on_message_delta-response_done_seen r w,
  on_block_start-response_done_seen r w,
  on_block_delta-response_done_seen r w,
)

on_line_open :
    (decode : Text → Fallible WireEvent) (r : AnthropicReader) (line : Text)
    → stops decode line ≡ false
    → r.response_done_seen ≡ false
    → is_open (on_line decode r line) ≡ true
unfolding on_line stops
on_line_open decode r line = at (sse_payload line)
  where
    decoded :
        (d : Fallible WireEvent)
        → elim d [ bad message ↦ false | good w ↦ w.type == text "message_stop" ] ≡ false
        → r.response_done_seen ≡ false
        → is_open (elim d [
          | bad message ↦ fail r (text "decode Anthropic stream event: " ++ message)
          | good w ↦ on_wire r w
        ])
          ≡ true
    decoded (bad message) no_stop open_ = refl
    decoded (good w) no_stop open_ = on_wire_open r w no_stop open_

    at :
        (payload : Option Text)
        → elim payload [
          | none ↦ false
          | some p ↦ elim (decode p) [
            | bad message ↦ false
            | good w ↦ w.type == text "message_stop"
          ]
        ]
          ≡ false
        → r.response_done_seen ≡ false
        → is_open (elim payload [
          | none ↦ go r
          | some p ↦ elim (decode p) [
            | bad message ↦ fail r (text "decode Anthropic stream event: " ++ message)
            | good w ↦ on_wire r w
          ]
        ])
          ≡ true
    at none no_stop open_ = ground (arith, open_)
    at (some p) no_stop open_ = decoded (decode p) no_stop open_

each_line_open :
    (decode : Text → Fallible WireEvent) (r : AnthropicReader) (lines : List Text)
    → has_stop decode lines ≡ false
    → r.response_done_seen ≡ false
    → is_open (each_line (on_line decode) r lines) ≡ true
unfolding each_line has_stop
each_line_open decode r [] no_stop open_ = ground (arith, open_)
each_line_open decode r (line ∷ lines) no_stop open_ =
    at (on_line decode r line) (on_line_open decode r line (ground arith) open_)
      (λ r' o. each_line_open decode r' lines (ground arith) o)
  where
    at :
        (f : Flow AnthropicReader)
        → is_open f ≡ true
        → ((r' : AnthropicReader)
            → r'.response_done_seen ≡ false
            → is_open (each_line (on_line decode) r' lines) ≡ true)
        → is_open (elim f [
          | go r' ↦ each_line (on_line decode) r' lines
          | leave r' ↦ leave r'
          | fail r' message ↦ fail r' message
        ])
          ≡ true
    at (go r') h rest = rest r' (ground arith)
    at (leave r') h rest = h
    at (fail r' message) h rest = h

finish_open :
    (scan : Scan) (r : AnthropicReader)
    → r.response_done_seen ≡ false
    → is_none (finish scan r).error ≡ false
unfolding finish end_tools give_usage read_end
finish_open scan r open_ = ground (arith, open_)

-- A stream of Anthropic Messages without the event that ends a message is read with an error, whatever else
-- its lines are.
pub read_anthropic_cut :
    (decode : Text → Fallible WireEvent) (scan : Scan)
    → has_stop decode scan.lines ≡ false
    → is_none (read_anthropic decode scan).error ≡ false
unfolding read_anthropic
read_anthropic_cut decode scan no_stop =
    at (each_line (on_line decode) new_reader scan.lines)
      (each_line_open decode new_reader scan.lines no_stop refl)
  where
    at :
        (f : Flow AnthropicReader)
        → is_open f ≡ true
        → is_none
            (elim f as (λ _. ReadResult) [
              | go r ↦ finish scan r
              | leave r ↦ finish scan r
              | fail r message ↦ result r (some message)
            ]).error
          ≡ false
    at (go r) h = finish_open scan r (ground arith)
    at (leave r) h = finish_open scan r (ground arith)
    at (fail r message) h = refl
