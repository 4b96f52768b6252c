-- ===== src/Streams/ChatOut/Ends.antt =====
-- internal/cross_protocol_routes.go, `streamCanonicalAsOpenAIChat`: how the stream of a client of OpenAI Chat ends.
use buzzhive.Base.{
  ℕ, ◌≡◌, refl, sym, ap, ◌∙◌, ◌⊎◌, inl, inr, ◌++◌, List, [], ◌∷◌, Bool, true, false, ◌&&◌, ◌||◌,
  Option, none, some, Text, arith, if_elim, option_elim,
}
use buzzhive.Canonical.{
  StreamEvent, StreamErrorData, stream_error, response_start, message_start, usage_report,
}
use buzzhive.Protocols.OpenaiChat.{ChatResponse}
use buzzhive.Protocols.OpenaiChat.Stream.{canonical_to_chunk}
use buzzhive.Streams.Read.{ReadResult, is_clean, all_clean, is_none}
use buzzhive.Streams.ChatOut.{
  ChatSse, chunk, server_error, done_mark, Writer, new_writer, of_type, report, report_read,
  write_role, write_chunk, write_body, write_event, write_events, close, stream_to_chat,
}

abbrev pub is_mark : ChatSse → Bool
is_mark done_mark = true
is_mark _ = false

abbrev pub is_error : ChatSse → Bool
is_error (server_error message code) = true
is_error _ = false

-- Whether the output has the closing mark, and whether it has an error.
unfoldable pub has_mark : List ChatSse → Bool
has_mark [] = false
has_mark (v ∷ out) = is_mark v || has_mark out

unfoldable pub has_error : List ChatSse → Bool
has_error [] = false
has_error (v ∷ out) = is_error v || has_error out

has_mark-snoc :
    (v : ChatSse) (out : List ChatSse) → has_mark (out ++ v ∷ []) ≡ (has_mark out || is_mark v)
unfolding has_mark
has_mark-snoc v [] = ground arith
has_mark-snoc v (w ∷ out) = ground (arith, has_mark-snoc v out)

has_error-snoc :
    (v : ChatSse) (out : List ChatSse) → has_error (out ++ v ∷ []) ≡ (has_error out || is_error v)
unfolding has_error
has_error-snoc v [] = ground arith
has_error-snoc v (w ∷ out) = ground (arith, has_error-snoc v out)

-- Before the end: a writer that has failed has told so, and one whose reader is strict has not failed.
record IsGoing (strict : Bool) (w : Writer) : Type 0 where
  unmarked : has_mark w.out ≡ false
  told : w.failed ≡ has_error w.out
  sound : strict && w.failed ≡ false

add_chunk :
    (s : Bool) (w w' : Writer) (c : ChatResponse)
    → w'.out ≡ w.out ++ chunk c ∷ []
    → w'.failed ≡ w.failed
    → IsGoing s w
    → IsGoing s w'
add_chunk s w w' c o f g = record {
  unmarked = ap has_mark o ∙ has_mark-snoc (chunk c) w.out ∙ ground (arith, g.unmarked);
  told = f ∙ g.told ∙ sym (ap has_error o ∙ has_error-snoc (chunk c) w.out ∙ ground arith);
  sound = ground (arith, f, g.sound);
}

add_error :
    (w : Writer) (message code : Text)
    → IsGoing false w
    → IsGoing false (record w { failed = true; out = w.out ++ server_error message code ∷ [] })
add_error w message code g = record {
  unmarked = has_mark-snoc (server_error message code) w.out ∙ ground (arith, g.unmarked);
  told = sym (has_error-snoc (server_error message code) w.out ∙ ground arith);
  sound = refl;
}

report-IsGoing :
    (s : Bool) (w : Writer) (reported : Option StreamErrorData)
    → s ≡ false
    → is_none reported ≡ false
    → IsGoing s w
    → IsGoing s (report w reported)
unfolding report
report-IsGoing true w reported lax given g = absurd (cc)
report-IsGoing false w none lax given g = absurd (cc)
report-IsGoing false w (some err) lax given g = add_error w err.message err.code g

report_clean :
    (s : Bool) (e : StreamEvent)
    → of_type stream_error e ≡ true
    → is_clean s e ≡ true
    → (s ≡ false) × (is_none e.error ≡ false)
report_clean s e reports given = (ground (arith, reports, given), ground (arith, reports, given))

-- A reader's error is written where nothing else has failed.
record HasFailed (w : Writer) : Type 0 where
  going : IsGoing false w
  failed : w.failed ≡ true

report_read-HasFailed :
    (w : Writer) (message : Text) → IsGoing false w → HasFailed (report_read w (some message))
unfolding report_read
report_read-HasFailed w message g =
    if_elim HasFailed w.failed (λ before. record { going = g; failed = before })
      (λ _. record { going = add_error w message _ g; failed = refl })

-- The end of a stream that was read without error: the mark, after anything but marks and errors.
abbrev pub EndsWell : List ChatSse → Type 0
EndsWell out =
    (body : List ChatSse) × (out ≡ body ++ done_mark ∷ [])
    × (has_mark body ≡ false)
    × (has_error body ≡ false)

module _ (id : Text) (created : ℕ) (model : Text) (include_usage : Bool) where
  write_role-IsGoing :
      (s : Bool) (w : Writer)
      → IsGoing s w
      → IsGoing s (write_role id created model include_usage w)
  unfolding write_role
  write_role-IsGoing s w g =
      if_elim (IsGoing s) w.role_written (λ _. g) (λ _. add_chunk s w _ _ refl refl g)

  write_body-IsGoing :
      (s : Bool) (w : Writer) (e : StreamEvent)
      → IsGoing s w
      → IsGoing s (write_body id created model include_usage w e)
  unfolding write_body write_chunk
  write_body-IsGoing s w e g =
      if_elim (IsGoing s) (of_type message_start e && w.role_written) (λ _. g)
        (λ _.
          option_elim (IsGoing s) (canonical_to_chunk e id created model include_usage) (λ _. g)
            (λ c _. add_chunk s w _ c refl refl g))

  write_event-IsGoing :
      (s : Bool) (w : Writer) (e : StreamEvent)
      → is_clean s e ≡ true
      → IsGoing s w
      → IsGoing s (write_event id created model include_usage w e)
  unfolding write_event
  write_event-IsGoing s w e given g =
      if_elim (IsGoing s) (of_type stream_error e)
        (λ failed_.
          let (lax, told_) = report_clean s e failed_ given in
          report-IsGoing s w e.error lax told_ g)
        (λ _.
          if_elim (IsGoing s) w.failed (λ _. g)
            (λ _.
              if_elim (IsGoing s) (of_type response_start e || of_type usage_report e)
                (λ _. write_body-IsGoing s w e g)
                (λ _. write_body-IsGoing s _ e (write_role-IsGoing s w g))))

  write_events-IsGoing :
      (s : Bool) (w : Writer) (es : List StreamEvent)
      → all_clean s es ≡ true
      → IsGoing s w
      → IsGoing s (write_events id created model include_usage w es)
  unfolding write_events
  write_events-IsGoing s w [] given g = g
  write_events-IsGoing s w (e ∷ es) given g =
      write_events-IsGoing s (write_event id created model include_usage w e) es (ground arith)
        (write_event-IsGoing s w e (ground arith) g)

  close-EndsWell :
      (w : Writer) → IsGoing true w → EndsWell (close id created model include_usage w).out
  unfolding close
  close-EndsWell w g =
      let g' = write_role-IsGoing true w g in
      if_elim (λ (x : Writer). EndsWell x.out) w.failed
        (λ before. absurd (ground (arith, before, g.sound)))
        (λ _. (_, refl, g'.unmarked, ground (arith, g'.told, g'.sound)))

  close_failed : (w : Writer) → w.failed ≡ true → close id created model include_usage w ≡ w
  unfolding close
  close_failed w before = ground (arith, before)

  pub stream_to_chat_ends :
      (r : ReadResult)
      → all_clean (is_none r.error) r.events ≡ true
      → let out = (stream_to_chat id created model include_usage r).out in
        ((r.error ≡ none) × EndsWell out)
        ⊎ ((is_none r.error ≡ false) × (has_mark out ≡ false) × (has_error out ≡ true))
  unfolding stream_to_chat
  stream_to_chat_ends r clean = at r.error (write_events-IsGoing _ new_writer r.events clean start_)
    where
      start_ : {s : Bool} → IsGoing s new_writer
      start_ =
          unfold has_mark has_error in record { unmarked = refl; told = refl; sound = ground arith }

      at :
          (error : Option Text) {w : Writer}
          → IsGoing (is_none error) w
          → let out = (close id created model include_usage (report_read w error)).out in
            ((error ≡ none) × EndsWell out)
            ⊎ ((is_none error ≡ false) × (has_mark out ≡ false) × (has_error out ≡ true))
      at none {w} g = unfold report_read in inl (refl, close-EndsWell w g)
      at (some message) {w} g =
          let f = report_read-HasFailed w message g in
          rw (close_failed (report_read w (some message)) f.failed)
            (inr (refl, f.going.unmarked, ground (arith, f.going.told, f.failed)))
