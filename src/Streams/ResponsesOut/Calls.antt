-- ===== src/Streams/ResponsesOut/Calls.antt =====
-- internal/stream_convert.go, `responsesStreamEncoder`: the events of tool calls keep the items balanced.
use buzzhive.Base.{
  ℕ, ◌≡◌, refl, [], Bool, true, false, none, some, Text, text, text_eq, nat_eq, ◌==◌, arith,
  if_elim, option_elim,
}
use buzzhive.Base.Ordered
use buzzhive.Base.Ordered.{total, measure, ascends, ascends-insert, total-insert}
use buzzhive.Canonical.{StreamEvent}
use buzzhive.Streams.ResponsesOut.{
  item_added, call_item, ToolItem, Encoder, write, write_all, delta_start, close_reasoning, reserve,
  new_tool, open_tool, fill_tool, write_tool_start, ensure_tool, extend_tool, write_tool_delta,
  ended_tool, tool_ended, tool_end, end_tool, write_tool_done,
}
use buzzhive.Streams.ResponsesOut.Items.{
  adds, dones, added_in, done_in, added_of-snoc, done_of-snoc, added_of-write_all,
  done_of-write_all, open_at, IsBalanced, write-IsBalanced, Opened-IsBalanced, Closed,
  Closed-IsBalanced,
}
use buzzhive.Streams.ResponsesOut.Steps.{close_reasoning-IsBalanced, same_items}

-- A known call, changed in what the balance does not read.
replace_call :
    (b : Bool) (i : ℕ) (e : Encoder) (k : ℕ) (s s' : ToolItem)
    → Ordered.lookup k e.tool_calls ≡ some s
    → open_at i s' ≡ open_at i s
    → IsBalanced b i e
    → IsBalanced b i (record e { tool_calls = Ordered.insert k s' e.tool_calls })
replace_call b i e k s s' found same g =
    same_items b i e _ g refl refl
      (ground (arith, same, found, total-insert (open_at i) 0 k s' e.tool_calls g.sorted)) refl
      (ascends-insert 0 k s' e.tool_calls (omega arith) g.sorted) refl

extend_tool-IsBalanced :
    (b : Bool) (i : ℕ) (e : Encoder) (k : ℕ) (delta : Text) (s : ToolItem)
    → Ordered.lookup k e.tool_calls ≡ some s
    → IsBalanced b i e
    → IsBalanced b i (extend_tool e k delta s)
unfolding extend_tool open_at adds dones
extend_tool-IsBalanced b i e k delta s found g =
    if_elim (IsBalanced b i) s.done (λ _. g)
      (λ _.
        if_elim (IsBalanced b i) (delta == []) (λ _. g)
          (λ _. write-IsBalanced b i _ _ refl refl (replace_call b i e k s _ found refl g)))

end_tool-Closed :
    (b : Bool) (i : ℕ) (e : Encoder) (k : ℕ) (s s' : ToolItem)
    → Ordered.lookup k e.tool_calls ≡ some s
    → s.done ≡ false
    → s'.done ≡ true
    → s'.output_index ≡ s.output_index
    → ascends 0 e.tool_calls ≡ true
    → Closed b b i s'.output_index e (write_all (tool_ended e k s') (tool_end s'))
unfolding write_all write adds dones added_in done_in open_at
end_tool-Closed b i e k s s' found live over same sorted = record {
  next = refl;
  added = omega (arith, added_of-write_all i (tool_ended e k s') (tool_end s'));
  done = omega (arith, done_of-write_all i (tool_ended e k s') (tool_end s'));
  was_open =
      ground (arith, found, live, over, same, total-insert (open_at i) 0 k s' e.tool_calls sorted);
  output = ground arith;
}

pub end_tool-IsBalanced :
    (b : Bool) (i : ℕ) (e : Encoder) (ev : StreamEvent) (s : ToolItem)
    → Ordered.lookup ev.index e.tool_calls ≡ some s
    → IsBalanced b i e
    → IsBalanced b i (end_tool e ev s)
unfolding end_tool
end_tool-IsBalanced b i e ev s found g =
    if_elim (IsBalanced b i) s.done (λ _. g)
      (λ live.
        Closed-IsBalanced b b i s.output_index e _
          (end_tool-Closed b i e ev.index s (ended_tool s ev) found live (unfold ended_tool in refl)
            (unfold ended_tool in refl) g.sorted)
          (unfold write_all write in
            ascends-insert 0 ev.index (ended_tool s ev) e.tool_calls (omega arith) g.sorted)
          (unfold write_all write in refl) g)

module _ (decimal : ℕ → Text) where
  open_tool-IsBalanced :
      (b : Bool) (i : ℕ) (e : Encoder) (ev : StreamEvent)
      → Ordered.lookup ev.index e.tool_calls ≡ none
      → IsBalanced b i e
      → IsBalanced b i (open_tool decimal e ev)
  unfolding open_tool write adds dones reserve open_at
  open_tool-IsBalanced b i e ev unknown g =
      Opened-IsBalanced b i e _
        (record {
          next = refl;
          added = omega (
            arith,
            added_of-snoc i e.sequence
                (item_added e.next_output_index
                  (call_item (new_tool decimal e ev) (text "in_progress")))
                e.out,
          );
          done = omega (
            arith,
            done_of-snoc i e.sequence
                (item_added e.next_output_index
                  (call_item (new_tool decimal e ev) (text "in_progress")))
                e.out,
          );
          now_open = ground (
            arith,
            unknown,
            total-insert (open_at i) 0 ev.index (new_tool decimal e ev) e.tool_calls g.sorted,
          );
          output = refl;
        })
        (ascends-insert 0 ev.index (new_tool decimal e ev) e.tool_calls (omega arith) g.sorted) refl
        g

  pub write_tool_start-IsBalanced :
      (b : Bool) (i : ℕ) (e : Encoder) (ev : StreamEvent)
      → IsBalanced b i e
      → IsBalanced b i (write_tool_start decimal e ev)
  unfolding write_tool_start
  write_tool_start-IsBalanced b i e ev g =
      option_elim (IsBalanced b i) (Ordered.lookup ev.index e.tool_calls)
        (λ unknown.
          open_tool-IsBalanced b i (close_reasoning e) ev
            (unfold close_reasoning write_all write in ground (arith, unknown))
            (close_reasoning-IsBalanced b i e g))
        (λ s found.
          replace_call b i e ev.index s (fill_tool s ev) found (unfold fill_tool open_at in refl) g)

  ensure_tool-IsBalanced :
      (b : Bool) (i : ℕ) (e : Encoder) (ev : StreamEvent)
      → IsBalanced b i e
      → IsBalanced b i (ensure_tool decimal e ev)
  unfolding ensure_tool
  ensure_tool-IsBalanced b i e ev g =
      option_elim (IsBalanced b i) (Ordered.lookup ev.index e.tool_calls)
        (λ unknown. write_tool_start-IsBalanced b i e ev g) (λ s found. g)

  pub write_tool_delta-IsBalanced :
      (b : Bool) (i : ℕ) (e : Encoder) (ev : StreamEvent)
      → IsBalanced b i e
      → IsBalanced b i (write_tool_delta decimal e ev)
  unfolding write_tool_delta
  write_tool_delta-IsBalanced b i e ev g =
      let e' = ensure_tool decimal e (delta_start ev) in
      let g' = ensure_tool-IsBalanced b i e (delta_start ev) g in
      option_elim (IsBalanced b i) (Ordered.lookup ev.index e'.tool_calls) (λ unknown. g')
        (λ s found. extend_tool-IsBalanced b i e' ev.index ev.delta s found g')

  pub write_tool_done-IsBalanced :
      (b : Bool) (i : ℕ) (e : Encoder) (ev : StreamEvent)
      → IsBalanced b i e
      → IsBalanced b i (write_tool_done decimal e ev)
  unfolding write_tool_done
  write_tool_done-IsBalanced b i e ev g =
      let e' = ensure_tool decimal e ev in
      let g' = ensure_tool-IsBalanced b i e ev g in
      option_elim (IsBalanced b i) (Ordered.lookup ev.index e'.tool_calls) (λ unknown. g')
        (λ s found. end_tool-IsBalanced b i e' ev s found g')
