-- ===== src/Streams/AnthropicOut/Grammar.antt =====
-- internal/stream_convert.go, `anthropicStreamEncoder`, against the order of events that the stream of an
-- Anthropic message must have, as an automaton.
use buzzhive.Base.{
  ℕ, ◌+◌, ◌≡◌, refl, sym, ap, ◌∙◌, inl, inr, List, [], ◌∷◌, ◌++◌, Bool, true, false, ◌&&◌, Option,
  none, some, Text, text_eq, nat_eq, ◌==◌, if◌then◌else◌, arith, Bool-cases, if_elim,
}
use buzzhive.Canonical.{StreamEvent}
use buzzhive.Streams.AnthropicOut.{
  Block, text_block, thinking_block, tool_block, BlockDelta, of_text, of_thinking, of_signature,
  of_json, Sse, sse_message_start, content_block_start, content_block_delta, content_block_stop,
  message_delta, message_stop, sse_error, Encoder, new_encoder, close_text, close_reasoning,
  signed_stop, open_text, open_reasoning, ensure_text, ensure_reasoning, write_text_delta, thinking,
  write_reasoning_delta,
}

-- Where a stream stands: before its start, between two blocks, in one (`signed` after the signature of a
-- thinking block), after the summary, at its end, or ended by an error.
pub data Phase : Type 0 where
  begin : Phase
  between : ℕ → Phase
  inside : ℕ → Block → Phase
  signed : ℕ → Phase
  summed : Phase
  stopped : Phase
  failed : Phase

unfoldable pub belongs : BlockDelta → Block → Bool
belongs (of_text t) text_block = true
belongs (of_thinking t) thinking_block = true
belongs (of_json t) (tool_block id name) = true
belongs _ _ = false

unfoldable pub in_block : ℕ → Block → BlockDelta → Option Phase
unfolding belongs
in_block n thinking_block (of_signature t) = some (signed n)
in_block n b d = if belongs d b then some (inside n b) else none

-- The blocks are numbered from 0, one at a time, and only the parts of a block stand between its start
-- and its stop.
unfoldable pub accept : Phase → Sse → Option Phase
accept begin (sse_message_start id model) = some (between 0)
accept (between n) (content_block_start i b) = if i == n then some (inside n b) else none
accept (between n) (message_delta reason details input usage) = some summed
accept (between n) (sse_error type message) = some failed
accept (inside n b) (content_block_delta i d) = if i == n then in_block n b d else none
accept (inside n b) (content_block_stop i) = if i == n then some (between (n + 1)) else none
accept (inside n b) (sse_error type message) = some failed
accept (signed n) (content_block_stop i) = if i == n then some (between (n + 1)) else none
accept summed message_stop = some stopped
accept _ _ = none

unfoldable pub accepts : Option Phase → List Sse → Option Phase
accepts none out = none
accepts (some p) [] = some p
accepts (some p) (x ∷ xs) = accepts (accept p x) xs

pub accepts-append :
    (p : Option Phase) (xs ys : List Sse) → accepts p (xs ++ ys) ≡ accepts (accepts p xs) ys
unfolding accepts
accepts-append none xs ys = refl
accepts-append (some p) [] ys = refl
accepts-append (some p) (x ∷ xs) ys = accepts-append (accept p x) xs ys

abbrev pub phase : Encoder → Phase
phase e =
    if e.text_open
    then inside e.text_index text_block
    else if e.reasoning_open
    then inside e.reasoning_index thinking_block
    else between e.next_index

-- The encoder's own record of its place agrees with its output.
pub record IsAt (e : Encoder) : Type 0 where
  pub reached : accepts (some begin) e.out ≡ some (phase e)
  pub one_open : (e.text_open && e.reasoning_open) ≡ false
  pub text_last : (if e.text_open then e.text_index + 1 else e.next_index) ≡ e.next_index
  pub reasoning_last :
      (if e.reasoning_open then e.reasoning_index + 1 else e.next_index) ≡ e.next_index
  pub unfinished : e.finished ≡ false

pub new_encoder-IsAt : (id model : Text) → IsAt (new_encoder id model)
unfolding accepts accept
new_encoder-IsAt id model = record {
  reached = refl;
  one_open = refl;
  text_last = refl;
  reasoning_last = refl;
  unfinished = refl;
}

pub extends :
    (e : Encoder) (more : List Sse) {q : Phase}
    → IsAt e
    → accepts (some (phase e)) more ≡ some q
    → accepts (some begin) (e.out ++ more) ≡ some q
extends e more v h = accepts-append (some begin) e.out more ∙ ap (λ p. accepts p more) v.reached ∙ h

signed_stop_accepted :
    (n : ℕ) (signature : Text)
    → accepts (some (inside n thinking_block)) (signed_stop n signature) ≡ some (between (n + 1))
unfolding signed_stop accepts accept in_block
signed_stop_accepted n signature = ground arith

stop_accepted :
    (n : ℕ) (b : Block)
    → accepts (some (inside n b)) (content_block_stop n ∷ []) ≡ some (between (n + 1))
unfolding accepts accept
stop_accepted n b = ground arith

close_text-IsAt : (e : Encoder) → IsAt e → IsAt (close_text e) × ((close_text e).text_open ≡ false)
unfolding close_text
close_text-IsAt e v = elim (Bool-cases e.text_open) [
  | inl open_ ↦
      let shut : e.reasoning_open ≡ false = ground (arith, v.one_open) in
      let here : accepts (some (phase e)) (content_block_stop e.text_index ∷ [])
          ≡ some (between e.next_index) =
        ground (arith, stop_accepted e.text_index text_block, v.text_last) in
      let reached = extends e (content_block_stop e.text_index ∷ []) v here in
      (
        record {
          reached = ground (arith, reached, open_, shut);
          one_open = ground (arith, open_, shut);
          text_last = ground (arith, open_, shut);
          reasoning_last = ground (arith, open_, shut);
          unfinished = ground (arith, v.unfinished);
        },
        ground (arith, open_),
      )
  | inr shut ↦
      let same : close_text e ≡ e = rw (shut, close_text) refl in (rw same v, ground (arith, shut))
]

close_reasoning-IsAt :
    (e : Encoder) → IsAt e → IsAt (close_reasoning e) × ((close_reasoning e).reasoning_open ≡ false)
unfolding close_reasoning
close_reasoning-IsAt e v = elim (Bool-cases e.reasoning_open) [
  | inl open_ ↦
      let shut : e.text_open ≡ false = ground (arith, v.one_open) in
      let here : accepts (some (phase e)) (signed_stop e.reasoning_index e.reasoning_signature)
          ≡ some (between e.next_index) =
        ground
          (arith, signed_stop_accepted e.reasoning_index e.reasoning_signature, v.reasoning_last) in
      let reached = extends e (signed_stop e.reasoning_index e.reasoning_signature) v here in
      (
        record {
          reached = ground (arith, reached, open_, shut);
          one_open = ground (arith, open_, shut);
          text_last = ground (arith, open_, shut);
          reasoning_last = ground (arith, open_, shut);
          unfinished = ground (arith, v.unfinished);
        },
        ground (arith, open_),
      )
  | inr shut ↦
      let same : close_reasoning e ≡ e = rw (shut, close_reasoning) refl in
      (rw same v, ground (arith, shut))
]

reasoning_open-close_text : (e : Encoder) → (close_text e).reasoning_open ≡ e.reasoning_open
unfolding close_text
reasoning_open-close_text e = ground arith

text_open-close_reasoning : (e : Encoder) → (close_reasoning e).text_open ≡ e.text_open
unfolding close_reasoning
text_open-close_reasoning e = ground arith

-- Both blocks are closed.
pub record IsClosed (e : Encoder) : Type 0 where
  pub at : IsAt e
  pub no_text : e.text_open ≡ false
  pub no_reasoning : e.reasoning_open ≡ false

pub close_both-IsClosed : (e : Encoder) → IsAt e → IsClosed (close_text (close_reasoning e))
close_both-IsClosed e v =
    let (v', shut) = close_reasoning-IsAt e v in
    let (v'', done) = close_text-IsAt (close_reasoning e) v' in
    record {
      at = v'';
      no_text = done;
      no_reasoning = reasoning_open-close_text (close_reasoning e) ∙ shut;
    }

start_accepted :
    (n : ℕ) (b : Block)
    → accepts (some (between n)) (content_block_start n b ∷ []) ≡ some (inside n b)
unfolding accepts accept
start_accepted n b = ground arith

-- What can follow where both blocks are closed.
pub extends_closed :
    (e : Encoder) (more : List Sse) {q : Phase}
    → IsClosed e
    → accepts (some (between e.next_index)) more ≡ some q
    → accepts (some begin) (e.out ++ more) ≡ some q
extends_closed e more c h =
    extends e more c.at
      (ap (λ p. accepts (some p) more) (ground (arith, c.no_text, c.no_reasoning)) ∙ h)

open_text-IsAt : (e : Encoder) → IsClosed e → IsAt (open_text e) × ((open_text e).text_open ≡ true)
unfolding open_text
open_text-IsAt e c = (
  record {
    reached =
        extends_closed e (content_block_start e.next_index text_block ∷ []) c
          (start_accepted e.next_index text_block);
    one_open = c.no_reasoning;
    text_last = refl;
    reasoning_last = ground (arith, c.no_reasoning);
    unfinished = c.at.unfinished;
  },
  refl,
)

open_reasoning-IsAt :
    (e : Encoder)
    → IsClosed e
    → IsAt (open_reasoning e) × ((open_reasoning e).reasoning_open ≡ true)
unfolding open_reasoning
open_reasoning-IsAt e c =
    let reached =
      extends_closed e (content_block_start e.next_index thinking_block ∷ []) c
        (start_accepted e.next_index thinking_block) in
    (
      record {
        reached = ground (arith, reached, c.no_text);
        one_open = ground (arith, c.no_text);
        text_last = ground (arith, c.no_text);
        reasoning_last = refl;
        unfinished = c.at.unfinished;
      },
      refl,
    )

ensure_text-IsAt :
    (e : Encoder) → IsAt e → IsAt (ensure_text e) × ((ensure_text e).text_open ≡ true)
ensure_text-IsAt e v =
    unfold ensure_text in
    if_elim (λ x. IsAt x × (x.text_open ≡ true)) e.text_open (λ open_. (v, open_))
      (λ shut. open_text-IsAt (close_reasoning e) (record {
        at = (close_reasoning-IsAt e v).0;
        no_text = text_open-close_reasoning e ∙ shut;
        no_reasoning = (close_reasoning-IsAt e v).1;
      }))

ensure_reasoning-IsAt :
    (e : Encoder)
    → IsAt e
    → IsAt (ensure_reasoning e) × ((ensure_reasoning e).reasoning_open ≡ true)
ensure_reasoning-IsAt e v =
    unfold ensure_reasoning in
    if_elim (λ x. IsAt x × (x.reasoning_open ≡ true)) e.reasoning_open (λ open_. (v, open_))
      (λ shut. open_reasoning-IsAt (close_text e) (record {
        at = (close_text-IsAt e v).0;
        no_text = (close_text-IsAt e v).1;
        no_reasoning = reasoning_open-close_text e ∙ shut;
      }))

text_part_accepted :
    (n : ℕ) (t : Text)
    → accepts (some (inside n text_block)) (content_block_delta n (of_text t) ∷ [])
      ≡ some (inside n text_block)
unfolding accepts accept in_block
text_part_accepted n t = ground arith

thinking_accepted :
    (n : ℕ) (t : Text)
    → accepts (some (inside n thinking_block)) (thinking n t) ≡ some (inside n thinking_block)
unfolding thinking accepts accept in_block
thinking_accepted n t = ground arith

pub write_text_delta-IsAt : (e : Encoder) (t : Text) → IsAt e → IsAt (write_text_delta e t)
write_text_delta-IsAt e t v =
    unfold write_text_delta in
    let e' = ensure_text e in
    let (v', open_) = ensure_text-IsAt e v in
    let here : phase e' ≡ inside e'.text_index text_block = ground (arith, open_) in
    let more = content_block_delta e'.text_index (of_text t) ∷ [] in
    let reached =
      extends e' more v'
        (ap (λ p. accepts (some p) more) here ∙ text_part_accepted e'.text_index t) in
    if_elim IsAt (t == []) (λ _. v)
      (λ _. record {
        reached = reached ∙ ap some (sym here);
        one_open = v'.one_open;
        text_last = v'.text_last;
        reasoning_last = v'.reasoning_last;
        unfinished = v'.unfinished;
      })

pub write_reasoning_delta-IsAt :
    (e : Encoder) (ev : StreamEvent) → IsAt e → IsAt (write_reasoning_delta e ev)
write_reasoning_delta-IsAt e ev v =
    unfold write_reasoning_delta in
    let e' = ensure_reasoning e in
    let (v', open_) = ensure_reasoning-IsAt e v in
    let here : phase e' ≡ inside e'.reasoning_index thinking_block =
      ground (arith, open_, v'.one_open) in
    let more = thinking e'.reasoning_index ev.delta in
    let reached =
      extends e' more v'
        (ap (λ p. accepts (some p) more) here ∙ thinking_accepted e'.reasoning_index ev.delta) in
    if_elim IsAt (ev.delta == [] && ev.signature == []) (λ _. v)
      (λ _. record {
        reached = reached ∙ ap some (sym here);
        one_open = v'.one_open;
        text_last = v'.text_last;
        reasoning_last = v'.reasoning_last;
        unfinished = v'.unfinished;
      })
