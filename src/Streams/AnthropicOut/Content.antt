-- ===== src/Streams/AnthropicOut/Content.antt =====
-- internal/stream_convert.go, `anthropicStreamEncoder`: what is said in the stream that it writes.
use buzzhive.Base.{
  ℕ, ◌≡◌, refl, sym, ap, ◌∙◌, inl, inr, ◌++◌, List, [], ◌∷◌, Bool, true, false, ◌&&◌, Option, none,
  some, Text, text, text_eq, ◌==◌, if◌then◌else◌, arith, if_elim, option_elim, Bool-cases,
}
use buzzhive.Base.Eq.{bytes_beq}
use mathlib.Core.List.{append-nil, append_assoc}
use buzzhive.Canonical.{
  CanonicalUsage, StreamEvent, EventType, response_start, message_start, text_delta, refusal_delta,
  reasoning_delta, tool_call_start, tool_arguments_delta, tool_call_done, usage_report,
  response_done, stream_error,
}
use buzzhive.Streams.Read.{ReadResult, read_error}
use buzzhive.Streams.AnthropicOut.{
  Sse, content_block_delta, of_text, of_thinking, Encoder, new_encoder, close_text, signed_stop,
  close_reasoning, open_text, ensure_text, open_reasoning, ensure_reasoning, write_text_delta,
  thinking, write_reasoning_delta, write_tool_done, finish, write_error, write_open, write_event,
  write_events, end_stream, stream_to_anthropic,
}

-- The text of a value, or with `false` its thinking.
abbrev written : Bool → Sse → Text
written b v = elim v [
  | content_block_delta i d ↦ elim d [
    | of_text t ↦ if b then t else []
    | of_thinking t ↦ if b then [] else t
    | _ ↦ []
  ]
  | _ ↦ []
]

-- The texts of a stream, joined, or its thinking.
unfoldable pub text_in : Bool → List Sse → Text
text_in b [] = []
text_in b (v ∷ out) = written b v ++ text_in b out

abbrev part : Bool → EventType → StreamEvent → Text
part b text_delta ev = if b then ev.delta else []
part b reasoning_delta ev = if b then [] else ev.delta
part b _ ev = []

abbrev ends : EventType → Bool
ends response_done = true
ends stream_error = true
ends _ = false

-- The text, or the thinking, of the events before the first one that ends the stream.
unfoldable pub said : Bool → List StreamEvent → Text
said b [] = []
said b (ev ∷ evs) =
    part b ev.type ev ++ (let rest = said b evs in if ends ev.type then [] else rest)

-- Values without text at the end of a stream.
quiet_end :
    (b : Bool) (out more : List Sse) → text_in b more ≡ [] → text_in b (out ++ more) ≡ text_in b out
unfolding text_in
quiet_end b [] more h = h
quiet_end b (v ∷ out) more h = ap (λ t. written b v ++ t) (quiet_end b out more h)

text_in-append :
    (b : Bool) (out more : List Sse) → text_in b (out ++ more) ≡ text_in b out ++ text_in b more
unfolding text_in
text_in-append b [] more = refl
text_in-append b (v ∷ out) more =
    ap (λ t. written b v ++ t) (text_in-append b out more)
    ∙ sym (append_assoc (written b v) (text_in b out) (text_in b more))

abbrev says : Bool → Encoder → Text
says b e = text_in b e.out

says-close_text : (b : Bool) (e : Encoder) → says b (close_text e) ≡ says b e
unfolding close_text text_in
says-close_text b e =
    if_elim (λ (x : Encoder). says b x ≡ says b e) e.text_open (λ _. quiet_end b e.out _ refl)
      (λ _. refl)

signed_stop_quiet :
    (b : Bool) (index : ℕ) (signature : Text) → text_in b (signed_stop index signature) ≡ []
unfolding text_in signed_stop
signed_stop_quiet b index signature = ground arith

says-close_reasoning : (b : Bool) (e : Encoder) → says b (close_reasoning e) ≡ says b e
unfolding close_reasoning
says-close_reasoning b e =
    if_elim (λ (x : Encoder). says b x ≡ says b e) e.reasoning_open
      (λ _. quiet_end b e.out _ (signed_stop_quiet b e.reasoning_index e.reasoning_signature))
      (λ _. refl)

says-close_both : (b : Bool) (e : Encoder) → says b (close_text (close_reasoning e)) ≡ says b e
says-close_both b e = says-close_text b (close_reasoning e) ∙ says-close_reasoning b e

says-ensure_text : (b : Bool) (e : Encoder) → says b (ensure_text e) ≡ says b e
unfolding ensure_text open_text text_in
says-ensure_text b e =
    if_elim (λ (x : Encoder). says b x ≡ says b e) e.text_open (λ _. refl)
      (λ _. quiet_end b (close_reasoning e).out _ refl ∙ says-close_reasoning b e)

says-ensure_reasoning : (b : Bool) (e : Encoder) → says b (ensure_reasoning e) ≡ says b e
unfolding ensure_reasoning open_reasoning text_in
says-ensure_reasoning b e =
    if_elim (λ (x : Encoder). says b x ≡ says b e) e.reasoning_open (λ _. refl)
      (λ _. quiet_end b (close_text e).out _ refl ∙ says-close_text b e)

says-write_text_delta :
    (b : Bool) (e : Encoder) (delta : Text)
    → says b (write_text_delta e delta) ≡ says b e ++ (if b then delta else [])
unfolding write_text_delta text_in
says-write_text_delta b e [] =
    unfold bytes_beq in
    sym (
      if_elim (λ (t : Text). says b e ++ t ≡ says b e) b (λ _. append-nil (says b e))
        (λ _. append-nil (says b e)))
says-write_text_delta b e (c ∷ cs) =
    unfold bytes_beq in
    text_in-append b (ensure_text e).out _
    ∙ ap (λ t. t ++ ((if b then c ∷ cs else []) ++ [])) (says-ensure_text b e)
    ∙ ap (λ t. says b e ++ t) (append-nil (if b then c ∷ cs else []))

thinking_says :
    (b : Bool) (index : ℕ) (delta : Text)
    → text_in b (thinking index delta) ≡ (if b then [] else delta)
unfolding thinking text_in bytes_beq
thinking_says b index [] = ground arith
thinking_says b index (c ∷ cs) = append-nil (if b then [] else c ∷ cs)

says-write_reasoning_delta :
    (b : Bool) (e : Encoder) (ev : StreamEvent)
    → says b (write_reasoning_delta e ev) ≡ says b e ++ (if b then [] else ev.delta)
unfolding write_reasoning_delta bytes_beq
says-write_reasoning_delta b e ev =
    if_elim (λ (x : Encoder). says b x ≡ says b e ++ (if b then [] else ev.delta))
      (ev.delta == [] && ev.signature == [])
      (λ blank. sym (ap (λ t. says b e ++ t) (unspoken blank) ∙ append-nil (says b e)))
      (λ _.
        text_in-append b (ensure_reasoning e).out _
        ∙ ap (λ t. t ++ text_in b (thinking (ensure_reasoning e).reasoning_index ev.delta))
            (says-ensure_reasoning b e)
        ∙ ap (λ t. says b e ++ t) (thinking_says b (ensure_reasoning e).reasoning_index ev.delta))
  where
    empty_ : (t : Text) → (t == []) ≡ true → (if b then [] else t) ≡ []
    empty_ [] h = ground arith
    empty_ (c ∷ cs) h = absurd (cc)

    unspoken : (ev.delta == [] && ev.signature == []) ≡ true → (if b then [] else ev.delta) ≡ []
    unspoken blank = empty_ ev.delta (ground (arith, blank))

says-write_tool_done :
    (b : Bool) (e : Encoder) (ev : StreamEvent) → says b (write_tool_done e ev) ≡ says b e
unfolding write_tool_done text_in
says-write_tool_done b e ev =
    quiet_end b (close_text (close_reasoning e)).out _ refl ∙ says-close_both b e

says-finish :
    (b : Bool) (e : Encoder) (reason : Text) (u : CanonicalUsage)
    → says b (finish e reason u) ≡ says b e
unfolding finish text_in
says-finish b e reason u =
    if_elim (λ (x : Encoder). says b x ≡ says b e) e.finished (λ _. refl)
      (λ _. quiet_end b (close_text (close_reasoning e)).out _ refl ∙ says-close_both b e)

says-write_error :
    (b : Bool) (e : Encoder) (ev : StreamEvent) → says b (write_error e ev) ≡ says b e
unfolding write_error text_in
says-write_error b e ev =
    option_elim (λ (x : Encoder). says b x ≡ says b e) ev.error (λ _. refl)
      (λ err _. quiet_end b e.out _ refl)

says-write_open :
    (b : Bool) (t : EventType) (e : Encoder) (ev : StreamEvent)
    → says b (write_open t e ev) ≡ says b e ++ part b t ev
unfolding write_open
says-write_open b response_start e ev = sym (append-nil (says b e))
says-write_open b message_start e ev = sym (append-nil (says b e))
says-write_open b text_delta e ev = says-write_text_delta b e ev.delta
says-write_open b refusal_delta e ev = sym (append-nil (says b e))
says-write_open b reasoning_delta e ev = says-write_reasoning_delta b e ev
says-write_open b tool_call_start e ev = sym (append-nil (says b e))
says-write_open b tool_arguments_delta e ev = sym (append-nil (says b e))
says-write_open b tool_call_done e ev = says-write_tool_done b e ev ∙ sym (append-nil (says b e))
says-write_open b usage_report e ev = sym (append-nil (says b e))
says-write_open b response_done e ev =
    says-finish b e ev.finish_reason e.usage ∙ sym (append-nil (says b e))
says-write_open b stream_error e ev = says-write_error b e ev ∙ sym (append-nil (says b e))

write_open-finished :
    (t : EventType) (e : Encoder) (ev : StreamEvent)
    → e.finished ≡ false
    → (write_open t e ev).finished ≡ ends t
unfolding write_open write_text_delta ensure_text open_text close_reasoning write_reasoning_delta
    ensure_reasoning open_reasoning close_text write_tool_done finish write_error
write_open-finished response_start e ev h = h
write_open-finished message_start e ev h = h
write_open-finished text_delta e ev h = ground (arith, h)
write_open-finished refusal_delta e ev h = h
write_open-finished reasoning_delta e ev h = ground (arith, h)
write_open-finished tool_call_start e ev h = h
write_open-finished tool_arguments_delta e ev h = h
write_open-finished tool_call_done e ev h = ground (arith, h)
write_open-finished usage_report e ev h = h
write_open-finished response_done e ev h = ground (arith, h)
write_open-finished stream_error e ev h = ground (arith, h)

write_events_over :
    (e : Encoder) (evs : List StreamEvent) → e.finished ≡ true → write_events e evs ≡ e
unfolding write_events write_event
write_events_over e [] over = refl
write_events_over e (ev ∷ evs) over =
    ap (λ b. write_events (if b then e else write_open ev.type e ev) evs) over
    ∙ write_events_over e evs over

write_event_open :
    (e : Encoder) (ev : StreamEvent)
    → e.finished ≡ false
    → write_event e ev ≡ write_open ev.type e ev
unfolding write_event
write_event_open e ev on = ap (λ b. if b then e else write_open ev.type e ev) on

says-write_events :
    (b : Bool) (e : Encoder) (evs : List StreamEvent)
    → e.finished ≡ false
    → says b (write_events e evs) ≡ says b e ++ said b evs
unfolding write_events said
says-write_events b e [] on = sym (append-nil (says b e))
says-write_events b e (ev ∷ evs) on =
    ap (λ x. says b (write_events x evs)) (write_event_open e ev on)
    ∙ elim (Bool-cases (ends ev.type)) [
      | inl last ↦
          ap (says b) (write_events_over e' evs (over ∙ last))
          ∙ step
          ∙ ap (λ t. says b e ++ t) (sym (append-nil (part b ev.type ev)))
          ∙ ap (λ x. says b e ++ (part b ev.type ev ++ (if x then [] else said b evs))) (sym last)
      | inr more ↦
          says-write_events b e' evs (over ∙ more)
          ∙ ap (λ t. t ++ said b evs) step
          ∙ append_assoc (says b e) (part b ev.type ev) (said b evs)
          ∙ ap (λ x. says b e ++ (part b ev.type ev ++ (if x then [] else said b evs))) (sym more)
    ]
  where
    e' : Encoder
    e' = write_open ev.type e ev

    over : e'.finished ≡ ends ev.type
    over = write_open-finished ev.type e ev on

    step : says b e' ≡ says b e ++ part b ev.type ev
    step = says-write_open b ev.type e ev

says-end_stream :
    (b : Bool) (e : Encoder) (u : CanonicalUsage) (error : Option Text)
    → says b (end_stream e u error) ≡ says b e
unfolding end_stream
says-end_stream b e u none = says-finish b e (text "stop") u
says-end_stream b e u (some message) =
    unfold write_event write_open read_error in
    if_elim (λ (x : Encoder). says b x ≡ says b e) e.finished (λ _. refl)
      (λ _. says-write_error b e (read_error message))

pub says-stream_to_anthropic :
    (b : Bool) (id model : Text) (r : ReadResult)
    → text_in b (stream_to_anthropic id model r).out ≡ said b r.events
unfolding stream_to_anthropic
says-stream_to_anthropic b id model r =
    says-end_stream b _ r.usage r.error
    ∙ says-write_events b (new_encoder (text "msg_" ++ id) model) r.events refl
    ∙ nothing_yet
  where
    nothing_yet :
        says b (new_encoder (text "msg_" ++ id) model) ++ said b r.events ≡ said b r.events
    nothing_yet = unfold text_in in refl
