-- ===== src/Streams/Tools.antt =====
-- internal/stream_convert.go, `canonicalStreamToolTracker`: the tool calls of a stream, by their index.
-- The map of Go holds pointers, so a change of a state is a change of the map.
pub mod History
pub mod Arguments
use buzzhive.Base.{
  ℕ, List, [], ◌∷◌, ◌++◌, Bool, true, false, not, ◌&&◌, Option, none, some, Text, text_eq, nat_eq,
  ◌==◌, Map, if◌then◌else◌,
}
use buzzhive.Base.Maps.{empty, insert}
use buzzhive.Canonical.{
  StreamEvent, event_of, tool_call_start, tool_arguments_delta, tool_call_done,
}

pub record ToolState : Type 0 where
  pub index : ℕ
  pub call_id : Text
  pub name : Text
  pub signature : Text
  pub arguments : Text
  pub done : Bool

pub record Tracker : Type 0 where
  pub by_index : Map ℕ ToolState
  pub order : List ℕ

abbrev pub new_tracker : Tracker
new_tracker = record { by_index = empty; order = [] }

abbrev pub new_state : ℕ → ToolState
new_state index = record {
  index = index;
  call_id = [];
  name = [];
  signature = [];
  arguments = [];
  done = false;
}

-- What `ensure` copies of an event: a signature replaces, the others fill in.
unfoldable pub fill : ToolState → StreamEvent → ToolState
fill s e = record s {
  call_id = if s.call_id == [] then e.call_id else s.call_id;
  name = if s.name == [] then e.name else s.name;
  signature = if e.signature == [] then s.signature else e.signature;
}

abbrev pub write : Tracker → ToolState → ℕ → Tracker
write t s i = record t { by_index = insert i s t.by_index }

unfoldable pub ensure : Tracker → StreamEvent → Tracker × ToolState × Bool
ensure t e = elim (t.by_index e.index) [
  | some old ↦ let s = fill old e in (write t s e.index, s, false)
  | none ↦
      let s = fill (new_state e.index) e in
      (write (record t { order = t.order ++ e.index ∷ [] }) s e.index, s, true)
]

unfoldable pub index_in : Map ℕ ToolState → List ℕ → Text → Option ℕ
index_in states [] call_id = none
index_in states (i ∷ is) call_id =
    let rest = index_in states is call_id in
    elim (states i) [ none ↦ rest | some s ↦ if s.call_id == call_id then some i else rest ]

unfoldable pub index_for_call_id : Tracker → Text → Option ℕ
unfolding index_in
index_for_call_id t call_id = if call_id == [] then none else index_in t.by_index t.order call_id

-- `start`: nothing for a call that is known.
unfoldable pub start : Tracker → StreamEvent → Tracker × Option StreamEvent
unfolding ensure
start t e =
    let (t', s, created) = ensure t e in
    (
      t',
      if created
          then some (record (event_of tool_call_start) {
            index = s.index;
            call_id = s.call_id;
            name = s.name;
            signature = s.signature;
          })
          else none,
    )

unfoldable pub delta : Tracker → StreamEvent → Tracker × StreamEvent
unfolding ensure
delta t e =
    let (t', s, created) = ensure t e in
    (
      write t' (record s { arguments = s.arguments ++ e.delta }) e.index,
      record (event_of tool_arguments_delta) {
        index = s.index;
        call_id = s.call_id;
        name = s.name;
        delta = e.delta;
      },
    )

abbrev pub done_event : ToolState → StreamEvent
done_event s = record (event_of tool_call_done) {
  index = s.index;
  call_id = s.call_id;
  name = s.name;
  arguments = s.arguments;
  signature = s.signature;
}

-- `done`: nothing for a call that is done.
unfoldable pub done : Tracker → StreamEvent → Tracker × Option StreamEvent
unfolding ensure
done t e =
    let (t', s, created) = ensure t e in
    let arguments = if e.arguments == [] then s.arguments else e.arguments in
    let s' = record s { arguments = arguments; done = true } in
    if s.done then (t', none) else (write t' s' e.index, some (done_event s'))

abbrev pub and_then : Option StreamEvent → List StreamEvent → List StreamEvent
and_then none es = es
and_then (some e) es = e ∷ es

unfoldable pub done_each : Tracker → List ℕ → Tracker × List StreamEvent
done_each t [] = (t, [])
done_each t (i ∷ is) =
    let (t', e) = done t (record (event_of tool_call_done) { index = i }) in
    let (t'', es) = done_each t' is in (t'', and_then e es)

-- `doneAll`.
unfoldable pub done_all : Tracker → Tracker × List StreamEvent
unfolding done_each
done_all t = done_each t t.order
