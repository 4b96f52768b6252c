-- ===== src/Streams/Read/Clean.antt =====
-- internal/stream_convert.go: which events of the readers report an error, and the loop over the lines.
use buzzhive.Base.{
  ℕ, ◌≡◌, refl, ◌∙◌, List, [], ◌∷◌, ◌++◌, Bool, true, false, ◌&&◌, Option, none, some, Text,
  text_eq, nat_eq, arith,
}
use buzzhive.Canonical.{StreamEvent, event_of, tool_call_done}
use buzzhive.Streams.Read.{
  Flow, go, leave, fail, each_line, is_clean, all_clean, is_none, ReadResult, read_end,
}
use buzzhive.Streams.Tools.{Tracker, start, delta, done, ensure, and_then, done_each, done_all}

pub all_clean-append :
    (b : Bool) (es fs : List StreamEvent)
    → all_clean b (es ++ fs) ≡ (all_clean b es && all_clean b fs)
all_clean-append b [] fs = refl
all_clean-append b (e ∷ es) fs = ground (arith, all_clean-append b es fs)

pub is_clean_lax : (b : Bool) (e : StreamEvent) → is_clean b e ≡ true → is_clean false e ≡ true
is_clean_lax b e h = ground arith

all_clean_lax :
    (b : Bool) (es : List StreamEvent) → all_clean b es ≡ true → all_clean false es ≡ true
all_clean_lax b [] h = refl
all_clean_lax b (e ∷ es) h = ground (arith, is_clean_lax b e, all_clean_lax b es)

-- The same as a record, whose list is read off its type.
pub record IsClean (b : Bool) (es : List StreamEvent) : Type 0 where
  pub holds : all_clean b es ≡ true

pub append_clean :
    {b : Bool} {es fs : List StreamEvent} → IsClean b es → IsClean b fs → IsClean b (es ++ fs)
append_clean {b} {es} {fs} h k = record {
  holds = all_clean-append b es fs ∙ ground (arith, h.holds, k.holds);
}

pub clean_push :
    {b : Bool} {es : List StreamEvent} (e : StreamEvent)
    → is_clean b e ≡ true
    → IsClean b es
    → IsClean b (es ++ e ∷ [])
clean_push {b} {es} e h g = append_clean g (record { holds = ground arith })

pub clean_lax : {b : Bool} {es : List StreamEvent} → IsClean b es → IsClean false es
clean_lax {b} {es} h = record { holds = all_clean_lax b es h.holds }

pub start_clean : (b : Bool) (t : Tracker) (e : StreamEvent) → IsClean b (and_then (start t e).1 [])
unfolding start ensure
start_clean b t e = record { holds = ground arith }

pub delta_clean : (b : Bool) (t : Tracker) (e : StreamEvent) → IsClean b ((delta t e).1 ∷ [])
unfolding delta ensure
delta_clean b t e = record { holds = ground arith }

pub done_clean : (b : Bool) (t : Tracker) (e : StreamEvent) → IsClean b (and_then (done t e).1 [])
unfolding done ensure
done_clean b t e = record { holds = ground arith }

and_then-append :
    (out : Option StreamEvent) (es : List StreamEvent) → and_then out es ≡ and_then out [] ++ es
and_then-append none es = refl
and_then-append (some e) es = refl

done_each_clean : (b : Bool) (t : Tracker) (is : List ℕ) → IsClean b (done_each t is).1
unfolding done_each
done_each_clean b t [] = record { holds = refl }
done_each_clean b t (i ∷ is) =
    let e = record (event_of tool_call_done) { index = i } in
    let (t', out) = done t e in
    rw (and_then-append out (done_each t' is).1)
      (append_clean (done_clean b t e) (done_each_clean b t' is))

pub done_all_clean : (b : Bool) (t : Tracker) → IsClean b (done_all t).1
unfolding done_all
done_all_clean b t = done_each_clean b t t.order

-- No event of a reader that returns no error reports one, and each that does carries what failed.
abbrev pub TellsErrors : ReadResult → Type 0
TellsErrors r = IsClean (is_none r.error) r.events

pub read_end-clean :
    (failed : Option Text) (prefix : Text) (reported : Option Text) (terminated : Bool)
    {es : List StreamEvent}
    → IsClean (is_none reported) es
    → IsClean (is_none (read_end failed prefix reported terminated)) es
unfolding read_end
read_end-clean (some message) prefix reported terminated h = clean_lax h
read_end-clean none prefix (some message) terminated h = h
read_end-clean none prefix none true h = h
read_end-clean none prefix none false h = clean_lax h

-- The rule of the loop: what each line keeps holds where the loop is left; `fail` has its own claim.
abbrev pub FlowIs {ℓ} : {S : Type ℓ} → (S → Type 0) → (S → Type 0) → Flow S → Type 0
FlowIs P Q (go s) = P s
FlowIs P Q (leave s) = P s
FlowIs P Q (fail s message) = Q s

pub each_line-FlowIs {ℓ} :
    {S : Type ℓ} (P Q : S → Type 0) (body : S → Text → Flow S)
    → ((s : S) (line : Text) → P s → FlowIs P Q (body s line))
    → (s : S) (lines : List Text) → P s
    → FlowIs P Q (each_line body s lines)
unfolding each_line
each_line-FlowIs {S = S} P Q body keep s [] h = h
each_line-FlowIs {S = S} P Q body keep s (line ∷ lines) h =
    step (body s line) (keep s line h) (λ s' h'. each_line-FlowIs P Q body keep s' lines h')
  where
    step :
        (f : Flow S)
        → FlowIs P Q f
        → ((s' : S) → P s' → FlowIs P Q (each_line body s' lines))
        → FlowIs P Q (elim f [
          | go s' ↦ each_line body s' lines
          | leave s' ↦ leave s'
          | fail s' message ↦ fail s' message
        ])
    step (go s') h' rest = rest s' h'
    step (leave s') h' rest = h'
    step (fail s' message) h' rest = h'
