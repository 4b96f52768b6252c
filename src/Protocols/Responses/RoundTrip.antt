-- ===== src/Protocols/Responses/RoundTrip.antt =====
-- internal/protocol/openai_responses.go: an answer, written in the form of OpenAI Responses and read back.
use mathlib.Core.List.{append-nil, append_assoc}
use buzzhive.Base.{
  ℕ, ◌+◌, ◌≡◌, refl, sym, ap, ◌∙◌, ◌⊎◌, inl, inr, List, [], ◌∷◌, ◌++◌, map, Bool, true, false, not,
  ◌&&◌, ◌||◌, none, some, Text, text, text_eq, ◌==◌, if◌then◌else◌, arith, if_elim,
}
use buzzhive.Base.Eq.{bytes_beq}
use buzzhive.Canonical.{CanonicalToolCall, CanonicalResponse, Fallible, good, bad}
use buzzhive.Protocols.Values.{is_blank, first_non_blank}
use buzzhive.Protocols.Responses.{
  OutputItem, OutputPart, texts_of, refusals_of, add_item, add_items, reasoning_items, text_part,
  refusal_part, message_items, call_items, output_item_id, response_status, responses_to_canonical,
  canonical_to_responses, empty_answer, with_reason, has_calls, incomplete_reason_to_canonical,
  incomplete_reason_of, responses_usage_to_canonical, canonical_usage_to_responses, ended_badly,
  finish_reason_to_status,
}

add_items-append :
    (out : CanonicalResponse) (xs ys : List OutputItem)
    → add_items out (xs ++ ys) ≡ add_items (add_items out xs) ys
unfolding add_items
add_items-append out [] ys = refl
add_items-append out (x ∷ xs) ys = add_items-append (add_item out x) xs ys

signature_read : (t : Text) → (if t == [] then [] else t) ≡ t
unfolding bytes_beq
signature_read [] = refl
signature_read (c ∷ cs) = refl

empty_text : (t : Text) → (t == []) ≡ true → t ≡ []
unfolding bytes_beq
empty_text [] h = refl
empty_text (c ∷ cs) h = absurd (cc)

read_reasoning :
    (decimal : ℕ → Text) (out r : CanonicalResponse)
    → out.reasoning ≡ []
    → out.signature ≡ []
    → add_items out (reasoning_items decimal r)
      ≡ record out { reasoning = r.reasoning; signature = r.signature }
read_reasoning decimal out r no_reasoning no_signature =
    unfold reasoning_items in
    if_elim
      (λ (x : List OutputItem).
        add_items out x ≡ record out { reasoning = r.reasoning; signature = r.signature })
      (r.reasoning == [] && r.signature == [])
      (λ blank.
        unfold add_items in
        λ i. record out {
          reasoning = (no_reasoning ∙ sym (empty_text r.reasoning (ground (arith, blank)))) i;
          signature = (no_signature ∙ sym (empty_text r.signature (ground (arith, blank)))) i;
        })
      (λ given.
        unfold add_items add_item texts_of bytes_beq in
        λ i. record out {
          reasoning =
              (ap (λ t. (t ++ (r.reasoning ++ [])) ++ []) no_reasoning
                  ∙ append-nil (r.reasoning ++ [])
                  ∙ append-nil r.reasoning)
                i;
          signature =
              (ap (λ t. if r.signature == [] then t else r.signature) no_signature
                  ∙ signature_read r.signature)
                i;
        })

said_texts :
    (body refusal : Text)
    → texts_of
        (text "output_text")
        ((if refusal == [] then text_part body else refusal_part refusal) ∷ [])
      ≡ (if refusal == [] then body else [])
unfolding texts_of bytes_beq
said_texts body [] = append-nil body
said_texts body (c ∷ cs) = refl

said_refusals :
    (body refusal : Text)
    → refusals_of ((if refusal == [] then text_part body else refusal_part refusal) ∷ []) ≡ refusal
unfolding refusals_of bytes_beq
said_refusals body [] = refl
said_refusals body (c ∷ cs) = append-nil (c ∷ cs)

abbrev said_part : CanonicalResponse → List OutputPart
said_part r = (if r.refusal == [] then text_part r.body else refusal_part r.refusal) ∷ []

read_message :
    (decimal : ℕ → Text) (out r : CanonicalResponse) (status : Text) (index : ℕ)
    → out.body ≡ []
    → out.refusal ≡ []
    → add_items out (message_items decimal r status index)
      ≡ record out { body = if r.refusal == [] then r.body else []; refusal = r.refusal }
read_message decimal out r status index no_body no_refusal =
    unfold message_items in
    if_elim
      (λ (x : List OutputItem).
        add_items out x
        ≡ record out { body = if r.refusal == [] then r.body else []; refusal = r.refusal })
      (r.body == [] && r.refusal == [])
      (λ blank.
        unfold add_items in
        λ i. record out {
          body = (no_body ∙ unsaid blank) i;
          refusal = (no_refusal ∙ sym (empty_text r.refusal (ground (arith, blank)))) i;
        })
      (λ given.
        unfold add_items add_item bytes_beq in
        λ i. record out {
          body =
              (ap (λ t. t ++ texts_of (text "output_text") (said_part r)) no_body
                  ∙ said_texts r.body r.refusal)
                i;
          refusal =
              (ap (λ t. t ++ refusals_of (said_part r)) no_refusal ∙ said_refusals r.body r.refusal)
                i;
        })
  where
    unsaid :
        (r.body == [] && r.refusal == []) ≡ true → [] ≡ (if r.refusal == [] then r.body else [])
    unsaid blank = ground (arith, blank, empty_text r.body)

unfoldable pub named : List CanonicalToolCall → Bool
named [] = true
named (c ∷ cs) = not (is_blank c.id) && named cs

abbrev pub unsigned : CanonicalToolCall → CanonicalToolCall
unsigned c = record c { signature = [] }

read_call :
    (c : CanonicalToolCall) (item_id : Text)
    → is_blank c.id ≡ false
    → first_non_blank (first_non_blank (c.id ∷ item_id ∷ []) ∷ item_id ∷ []) ≡ c.id
unfolding first_non_blank
read_call c item_id given = ground (arith, given)

read_calls :
    (decimal : ℕ → Text) (id : Text) (index : ℕ) (cs : List CanonicalToolCall)
    (out : CanonicalResponse)
    → named cs ≡ true
    → add_items out (call_items decimal id index cs)
      ≡ record out { tool_calls = out.tool_calls ++ map unsigned cs }
unfolding named call_items add_items add_item first_non_blank bytes_beq
read_calls decimal id index [] out h =
    λ i. record out { tool_calls = sym (append-nil out.tool_calls) i }
read_calls decimal id index (c ∷ cs) out h =
    ap
      (λ (x : Text).
        add_items
          (record out { tool_calls = out.tool_calls ++ record (unsigned c) { id = x } ∷ [] })
          (call_items decimal id (index + 1) cs))
      (read_call c (output_item_id decimal id (text "fc") index) (ground (arith, h)))
    ∙ read_calls decimal id (index + 1) cs
        (record out { tool_calls = out.tool_calls ++ unsigned c ∷ [] }) (ground (arith, h))
    ∙ (λ i. record out {
      tool_calls = append_assoc out.tool_calls (unsigned c ∷ []) (map unsigned cs) i;
    })

abbrev items_read : CanonicalResponse → CanonicalResponse → CanonicalResponse
items_read out r = record out {
  reasoning = r.reasoning;
  signature = r.signature;
  body = if r.refusal == [] then r.body else [];
  refusal = r.refusal;
  tool_calls = map unsigned r.tool_calls;
}

read_items :
    (decimal : ℕ → Text) (out r : CanonicalResponse) (status : Text) (n k : ℕ)
    → out.reasoning ≡ []
    → out.signature ≡ []
    → out.body ≡ []
    → out.refusal ≡ []
    → out.tool_calls ≡ []
    → named r.tool_calls ≡ true
    → add_items out (
        (reasoning_items decimal r ++ message_items decimal r status n)
        ++ call_items decimal r.id k r.tool_calls)
      ≡ items_read out r
read_items decimal out r status n k a b c d f h =
    add_items-append out (reasoning_items decimal r ++ message_items decimal r status n)
      (call_items decimal r.id k r.tool_calls)
    ∙ ap (λ (x : CanonicalResponse). add_items x (call_items decimal r.id k r.tool_calls))
        (add_items-append out (reasoning_items decimal r) (message_items decimal r status n)
          ∙ ap (λ (x : CanonicalResponse). add_items x (message_items decimal r status n))
              (read_reasoning decimal out r a b)
          ∙ read_message decimal (record out { reasoning = r.reasoning; signature = r.signature }) r
              status n c d)
    ∙ read_calls decimal r.id k r.tool_calls _ h
    ∙ (λ i. record (items_read out r) { tool_calls = f i ++ map unsigned r.tool_calls })

-- The reason for which an answer reads as ended.
abbrev pub reason_read : CanonicalResponse → Text
reason_read r =
    if response_status r == text "incomplete"
    then (if r.finish_reason == text "content_filter" then text "content_filter" else text "length")
    else elim r.tool_calls [ [] ↦ text "stop" | c ∷ cs ↦ text "tool_calls" ]

status_cases :
    (r : CanonicalResponse)
    → (response_status r ≡ text "completed") ⊎ (response_status r ≡ text "incomplete")
unfolding response_status finish_reason_to_status
status_cases r = ground arith

reason_said :
    (cs : List CanonicalToolCall)
    → (if elim (map unsigned cs) [ [] ↦ false | c ∷ cs ↦ true ]
        then text "tool_calls"
        else text "stop")
      ≡ elim cs [ [] ↦ text "stop" | c ∷ cs ↦ text "tool_calls" ]
reason_said [] = refl
reason_said (c ∷ cs) = refl

reason_cut :
    (t : Text)
    → incomplete_reason_to_canonical (some (incomplete_reason_of t))
      ≡ (if t == text "content_filter" then text "content_filter" else text "length")
unfolding incomplete_reason_to_canonical incomplete_reason_of
reason_cut t = at (t == text "content_filter")
  where
    at :
        (b : Bool)
        → (if (if b then text "content_filter" else text "max_output_tokens")
              == text "content_filter"
            then text "content_filter"
            else text "length")
          ≡ (if b then text "content_filter" else text "length")
    at true = unfold bytes_beq in refl
    at false = unfold bytes_beq in refl

abbrev done_as : CanonicalResponse → Text → CanonicalResponse
done_as r status = record r {
  role = text "assistant";
  status = status;
  body = if r.refusal == [] then r.body else [];
  tool_calls = map unsigned r.tool_calls;
}

-- An answer, each of whose tool calls has an identifier that is not blank, reads back from the form of OpenAI
-- Responses as it was, its reasoning with the signature included; but its role is the assistant's, the status
-- and the reason are the ones that the form has, there is no text beside a refusal, and the tool calls have no
-- signatures.
pub responses_round_trip :
    (decimal : ℕ → Text) (quote : Text → Text) (r : CanonicalResponse)
    → named r.tool_calls ≡ true
    → responses_to_canonical quote (canonical_to_responses decimal r)
      ≡ good (record r {
        role = text "assistant";
        status = response_status r;
        body = if r.refusal == [] then r.body else [];
        tool_calls = map unsigned r.tool_calls;
        finish_reason = reason_read r;
      })
unfolding responses_to_canonical canonical_to_responses responses_usage_to_canonical
    canonical_usage_to_responses
responses_round_trip decimal quote r h =
    ap (λ (out : CanonicalResponse). ended out (response_status r))
      (read_items decimal (empty_answer (canonical_to_responses decimal r)) r (response_status r) _
        _ refl refl refl refl refl h)
    ∙ elim (status_cases r) [
      | inl over ↦
          unfold bytes_beq in
          rw over (
            ap (λ (t : Text). good (with_reason (done_as r (text "completed")) t))
              (reason_said r.tool_calls))
      | inr cut ↦
          unfold bytes_beq in
          rw cut (
            ap (λ (t : Text). good (with_reason (done_as r (text "incomplete")) t))
              (reason_cut r.finish_reason))
    ]
  where
    ended : CanonicalResponse → Text → Fallible CanonicalResponse
    ended out status =
        if status == text "completed"
        then good (with_reason out (if has_calls out then text "tool_calls" else text "stop"))
        else if status == text "incomplete"
        then good (
            with_reason out (
              incomplete_reason_to_canonical (
                if status == text "incomplete"
                then some (incomplete_reason_of r.finish_reason)
                else none)))
        else if status == text "failed" || status == text "cancelled"
        then bad (ended_badly quote (canonical_to_responses decimal r))
        else if status == []
        then good (with_reason out (if has_calls out then text "tool_calls" else []))
        else bad (text "Responses response is not terminal: status " ++ quote status)
