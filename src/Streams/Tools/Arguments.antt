-- ===== src/Streams/Tools/Arguments.antt =====
-- internal/stream_convert.go, `canonicalStreamToolTracker`: the arguments of a tool call, which arrive in
-- parts.
use mathlib.Core.List.{append-nil, append_assoc}
use buzzhive.Base.{
  ℕ, ◌≡◌, refl, sym, ap, ◌∙◌, inl, inr, List, [], ◌∷◌, ◌++◌, Bool, true, false, Option, none, some,
  Text, text_eq, nat_eq, ◌==◌, if◌then◌else◌, arith, Bool-cases,
}
use buzzhive.Base.Eq.{bytes_beq}
use buzzhive.Canonical.{StreamEvent, event_of, tool_call_done}
use buzzhive.Streams.Tools.{ToolState, Tracker, new_tracker, fill, ensure, start, delta, done}
use buzzhive.Streams.Tools.History.{Call, starts, extends, ends, ends_all, step, run}

-- No call has ended yet.
unfoldable pub none_ended : List Call → Bool
none_ended [] = true
none_ended (starts e ∷ cs) = none_ended cs
none_ended (extends e ∷ cs) = none_ended cs
none_ended (ends e ∷ cs) = false
none_ended (ends_all ∷ cs) = false

-- The parts for the index, joined in the order of arrival.
unfoldable pub joined : ℕ → List Call → Text
joined i [] = []
joined i (extends e ∷ cs) = let rest = joined i cs in if e.index == i then e.delta ++ rest else rest
joined i (starts e ∷ cs) = joined i cs
joined i (ends e ∷ cs) = joined i cs
joined i (ends_all ∷ cs) = joined i cs

abbrev held : Option ToolState → Text
held none = []
held (some s) = s.arguments

abbrev open_ : Option ToolState → Bool
open_ none = true
open_ (some s) = if s.done then false else true

start-held :
    (t : Tracker) (e : StreamEvent) (i : ℕ)
    → (held ((start t e).0.by_index i) ≡ held (t.by_index i))
      × (open_ ((start t e).0.by_index i) ≡ open_ (t.by_index i))
unfolding start ensure fill
start-held t e i = (ground arith, ground arith)

delta-held :
    (t : Tracker) (e : StreamEvent) (i : ℕ)
    → (held ((delta t e).0.by_index i)
        ≡ (if e.index == i then held (t.by_index i) ++ e.delta else held (t.by_index i)))
      × (open_ ((delta t e).0.by_index i) ≡ open_ (t.by_index i))
unfolding delta ensure fill
delta-held t e i = (ground arith, ground arith)

run-held :
    (t : Tracker) (cs : List Call) (i : ℕ)
    → none_ended cs ≡ true
    → (held ((run t cs).0.by_index i) ≡ held (t.by_index i) ++ joined i cs)
      × (open_ ((run t cs).0.by_index i) ≡ open_ (t.by_index i))
unfolding run step none_ended joined
run-held t [] i h = (sym (append-nil (held (t.by_index i))), refl)
run-held t (starts e ∷ cs) i h =
    let (same, kept) = start-held t e i in
    let (rest, still) = run-held (start t e).0 cs i h in
    (rest ∙ ap (λ x. x ++ joined i cs) same, still ∙ kept)
run-held t (extends e ∷ cs) i h =
    let (grown, kept) = delta-held t e i in
    let (rest, still) = run-held (delta t e).0 cs i h in
    (
      elim (Bool-cases (e.index == i)) [
        | inl here ↦
            ground
              (arith, rest, grown, here, append_assoc (held (t.by_index i)) e.delta (joined i cs))
        | inr there ↦ ground (arith, rest, grown, there)
      ],
      still ∙ kept,
    )
run-held t (ends e ∷ cs) i h = absurd (cc)
run-held t (ends_all ∷ cs) i h = absurd (cc)

-- If the calls on a new tracker only start and extend tool calls, the end that `done` gives out for an index
-- without arguments of its own carries the parts for that index, joined in the order of arrival, however
-- the calls of several indices interleave.
pub done_joins :
    (cs : List Call) (i : ℕ) (out : StreamEvent)
    → none_ended cs ≡ true
    → (done (run new_tracker cs).0 (record (event_of tool_call_done) { index = i })).1 ≡ some out
    → out.arguments ≡ joined i cs
unfolding done ensure fill bytes_beq
done_joins cs i out h given =
    let (parts, still) = run-held new_tracker cs i h in ground (arith, parts, still)
