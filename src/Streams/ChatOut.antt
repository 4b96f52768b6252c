-- ===== src/Streams/ChatOut.antt =====
-- internal/cross_protocol_routes.go, `streamCanonicalAsOpenAIChat`: canonical events, written as the stream
-- of OpenAI Chat.
pub mod Ends
use buzzhive.Base.{
  ℕ, List, [], ◌∷◌, ◌++◌, Bool, true, false, ◌&&◌, ◌||◌, Option, none, some, Text, text,
  if◌then◌else◌,
}
use buzzhive.Canonical.{
  StreamErrorData, StreamEvent, EventType, response_start, message_start, usage_report,
  stream_error,
}
use buzzhive.Protocols.OpenaiChat.{ChatResponse}
use buzzhive.Protocols.OpenaiChat.Stream.{role_chunk, canonical_to_chunk}
use buzzhive.Streams.Read.{ReadResult}

pub data ChatSse : Type 0 where
  chunk : ChatResponse → ChatSse
  server_error : Text → Text → ChatSse  -- the message and the code
  done_mark : ChatSse  -- the closing `DONE`

pub record Writer : Type 0 where
  pub out : List ChatSse
  pub role_written : Bool
  pub failed : Bool

abbrev pub new_writer : Writer
new_writer = record { out = []; role_written = false; failed = false }

abbrev pub of_type : EventType → StreamEvent → Bool
of_type response_start e = elim e.type [ response_start ↦ true | _ ↦ false ]
of_type message_start e = elim e.type [ message_start ↦ true | _ ↦ false ]
of_type usage_report e = elim e.type [ usage_report ↦ true | _ ↦ false ]
of_type stream_error e = elim e.type [ stream_error ↦ true | _ ↦ false ]
of_type t e = false

unfoldable pub report : Writer → Option StreamErrorData → Writer
report w none = record w { failed = true }
report w (some err) = record w {
  failed = true;
  out = w.out ++ server_error err.message err.code ∷ [];
}

unfoldable pub report_read : Writer → Option Text → Writer
report_read w none = w
report_read w (some message) = if w.failed then w else record w {
  failed = true;
  out = w.out ++ server_error message (text "upstream_stream_error") ∷ [];
}

module _ (id : Text) (created : ℕ) (model : Text) (include_usage : Bool) where
  unfoldable pub write_role : Writer → Writer
  write_role w =
      if w.role_written
      then w
      else record w { role_written = true; out = w.out ++ chunk (role_chunk id created model) ∷ [] }

  unfoldable pub write_chunk : Writer → StreamEvent → Writer
  write_chunk w e = elim (canonical_to_chunk e id created model include_usage) [
    | none ↦ w
    | some c ↦ record w { out = w.out ++ chunk c ∷ [] }
  ]

  -- An event, from where the role is written if it is to be.
  unfoldable pub write_body : Writer → StreamEvent → Writer
  unfolding write_chunk
  write_body w e = if of_type message_start e && w.role_written then w else write_chunk w e

  unfoldable pub write_event : Writer → StreamEvent → Writer
  unfolding report write_role write_body
  write_event w e =
      if of_type stream_error e
      then report w e.error
      else if w.failed
      then w
      else if of_type response_start e || of_type usage_report e
      then write_body w e
      else write_body (write_role w) e

  unfoldable pub write_events : Writer → List StreamEvent → Writer
  unfolding write_event
  write_events w [] = w
  write_events w (e ∷ es) = write_events (write_event w e) es

  unfoldable pub close : Writer → Writer
  unfolding write_role
  close w =
      if w.failed
      then w
      else (let w' = write_role w in record w' { out = w'.out ++ done_mark ∷ [] })

  -- `streamCanonicalAsOpenAIChat`, after `read` has passed on its events.
  unfoldable pub stream_to_chat : ReadResult → Writer
  unfolding write_events report_read close
  stream_to_chat r = close (report_read (write_events new_writer r.events) r.error)
