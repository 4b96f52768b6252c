-- ===== src/Streams/GeminiOut.antt =====
-- internal/stream_convert.go, `geminiStreamEncoder`, with the branch for Gemini of `streamCanonicalResult`
-- of internal/canonical_proxy.go: canonical events, written as the stream of Gemini. `strings.ToUpper` is
-- an argument.
use buzzhive.Base.{
  ℕ, ltb, List, [], ◌∷◌, ◌++◌, map, Bool, true, false, Option, none, some, Text, text,
  if◌then◌else◌,
}
use buzzhive.Canonical.{
  CanonicalToolCall, CanonicalResponse, no_usage, StreamEvent, EventType, tool_call_done,
  response_done, stream_error,
}
use buzzhive.Errors.{canonical_stream_error_http_status, gemini_error_status}
use buzzhive.Protocols.Gemini.{GeminiResponse, event_to_gemini, canonical_to_gemini}
use buzzhive.Streams.Read.{ReadResult, read_error}

pub data GeminiSse : Type 0 where
  answer : GeminiResponse → GeminiSse
  gemini_error : ℕ → Text → Text → GeminiSse  -- the code, the message and the status

pub record Encoder : Type 0 where
  pub out : List GeminiSse
  pub tool_calls : List StreamEvent
  pub failed : Bool  -- of `streamCanonicalResult`

abbrev pub new_encoder : Encoder
new_encoder = record { out = []; tool_calls = []; failed = false }

-- `sort.SliceStable` by the index: an insertion sort is stable, and a stable sort is one function.
unfoldable pub insert_call : StreamEvent → List StreamEvent → List StreamEvent
insert_call c [] = c ∷ []
insert_call c (d ∷ ds) =
    let rest = insert_call c ds in if ltb d.index c.index then d ∷ rest else c ∷ d ∷ ds

unfoldable pub sort_calls : List StreamEvent → List StreamEvent
unfolding insert_call
sort_calls [] = []
sort_calls (c ∷ cs) = insert_call c (sort_calls cs)

abbrev pub call_of : StreamEvent → CanonicalToolCall
call_of e = record {
  id = e.call_id;
  name = e.name;
  arguments = e.arguments;
  signature = e.signature;
}

abbrev pub calls_response : List StreamEvent → Text → CanonicalResponse
calls_response calls reason = record {
  id = [];
  created = 0;
  model = [];
  role = text "assistant";
  status = [];
  body = [];
  refusal = [];
  reasoning = [];
  signature = [];
  tool_calls = map call_of calls;
  finish_reason = reason;
  usage = no_usage;
}

module _ (to_upper : Text → Text) where
  unfoldable pub answer_of : StreamEvent → List GeminiSse
  answer_of e = elim (event_to_gemini to_upper e e.type) [ none ↦ [] | some a ↦ answer a ∷ [] ]

  -- `writeGeminiStreamEvent`.
  unfoldable pub write_gemini_event : StreamEvent → EventType → List GeminiSse
  unfolding answer_of
  write_gemini_event e stream_error = elim e.error [
    | some err ↦
        let status = canonical_stream_error_http_status err.code in
        gemini_error status err.message (gemini_error_status status) ∷ []
    | none ↦ answer_of e
  ]
  write_gemini_event e t = answer_of e

  unfoldable pub write_done : Encoder → StreamEvent → Encoder
  unfolding write_gemini_event sort_calls
  write_done e ev = elim e.tool_calls [
    | [] ↦ record e { out = e.out ++ write_gemini_event ev ev.type }
    | c ∷ cs ↦ record e {
      out =
          e.out
          ++ answer
              (canonical_to_gemini to_upper (calls_response (sort_calls (c ∷ cs)) ev.finish_reason))
            ∷ [];
      tool_calls = [];
    }
  ]

  -- `writeEvent`: the calls are held back until the end.
  unfoldable pub write_event : EventType → Encoder → StreamEvent → Encoder
  unfolding write_gemini_event write_done
  write_event tool_call_done e ev = record e { tool_calls = e.tool_calls ++ ev ∷ [] }
  write_event response_done e ev = write_done e ev
  write_event stream_error e ev = record e {
    failed = true;
    out = e.out ++ write_gemini_event ev ev.type;
  }
  write_event t e ev = record e { out = e.out ++ write_gemini_event ev ev.type }

  unfoldable pub write_events : Encoder → List StreamEvent → Encoder
  unfolding write_event
  write_events e [] = e
  write_events e (ev ∷ evs) = write_events (write_event ev.type e ev) evs

  unfoldable pub report_read : Encoder → Option Text → Encoder
  unfolding write_gemini_event read_error
  report_read e none = e
  report_read e (some message) =
      if e.failed
      then e
      else record e { out = e.out ++ write_gemini_event (read_error message) stream_error }

  -- The branch for Gemini of `streamCanonicalResult`.
  unfoldable pub stream_to_gemini : ReadResult → Encoder
  unfolding write_events report_read
  stream_to_gemini r = report_read (write_events new_encoder r.events) r.error
