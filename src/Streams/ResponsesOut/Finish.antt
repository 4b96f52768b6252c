-- ===== src/Streams/ResponsesOut/Finish.antt =====
-- internal/stream_convert.go, `responsesStreamEncoder.finish`: every item is done once.
use buzzhive.Base.{
  ℕ, ◌≡◌, refl, ◌∙◌, inl, inr, ltb, List, [], ◌∷◌, Bool, true, false, Option, none, some, Text,
  text, text_eq, nat_eq, ◌==◌, if◌then◌else◌, arith, if_elim, option_elim, Bool-cases,
}
use buzzhive.Base.Ordered
use buzzhive.Base.Ordered.{
  total, measure, ascends, member, lookup_missing, lookup-insert, total_zero,
}
use buzzhive.Canonical.{StreamEvent, CanonicalUsage, is_zero}
use buzzhive.Protocols.Responses.{ResponsesResponse}
use buzzhive.Streams.ResponsesOut.{
  completed, incomplete, ToolItem, Encoder, write, write_all, close_reasoning, text_ended, text_end,
  end_text, ensure_tool, ended_tool, end_tool, write_tool_done, done_event, end_known, end_tools,
  close_all, complete, finish,
}
use buzzhive.Streams.ResponsesOut.Items.{
  one, adds, dones, added_of, done_of, held, added_of-snoc, done_of-snoc, added_in, done_in,
  added_of-write_all, done_of-write_all, open_at, IsBalanced, Closed, Closed-IsBalanced,
}
use buzzhive.Streams.ResponsesOut.Steps.{close_reasoning-IsBalanced, same_items}
use buzzhive.Streams.ResponsesOut.Calls.{write_tool_done-IsBalanced}

end_text-Closed :
    (i : ℕ) (e : Encoder) (status : Text)
    → e.text_open ≡ true
    → Closed true false i e.text_index e (write_all (text_ended e status) (text_end e status))
unfolding write_all write adds dones added_in done_in
end_text-Closed i e status open_ = record {
  next = refl;
  added = ground (arith, added_of-write_all i (text_ended e status) (text_end e status));
  done = ground (arith, done_of-write_all i (text_ended e status) (text_end e status));
  was_open = ground (arith, open_);
  output = ground arith;
}

-- The text is not counted once it has ended.
end_text-IsBalanced :
    (i : ℕ) (e : Encoder) (status : Text)
    → IsBalanced true i e
    → IsBalanced false i (end_text e status)
unfolding end_text
end_text-IsBalanced i e status g =
    if_elim (IsBalanced false i) e.text_open
      (λ open_.
        Closed-IsBalanced true false i e.text_index e _ (end_text-Closed i e status open_)
          (unfold write_all write in g.sorted) (unfold write_all write in refl) g)
      (λ shut. record {
        added = g.added;
        balance = ground (arith, g.balance, shut);
        kept = g.kept;
        sorted = g.sorted;
        unfinished = g.unfinished;
      })

live : ToolItem → ℕ
live s = if s.done then 0 else 1

module _ (decimal : ℕ → Text) where
  end_known-IsBalanced :
      (b : Bool) (i : ℕ) (e : Encoder) (k : ℕ)
      → IsBalanced b i e
      → IsBalanced b i (end_known decimal e k)
  unfolding end_known
  end_known-IsBalanced b i e k g =
      option_elim (IsBalanced b i) (Ordered.lookup k e.tool_calls) (λ unknown. g)
        (λ s found.
          if_elim (IsBalanced b i) s.done (λ _. g)
            (λ _. write_tool_done-IsBalanced decimal b i e (done_event k s) g))

  end_tools-IsBalanced :
      (b : Bool) (i : ℕ) (e : Encoder) (ks : List ℕ)
      → IsBalanced b i e
      → IsBalanced b i (end_tools decimal e ks)
  unfolding end_tools
  end_tools-IsBalanced b i e [] g = g
  end_tools-IsBalanced b i e (k ∷ ks) g =
      end_tools-IsBalanced b i (end_known decimal e k) ks (end_known-IsBalanced b i e k g)

  ensure_tool_known :
      (e : Encoder) (ev : StreamEvent) (s : ToolItem)
      → Ordered.lookup ev.index e.tool_calls ≡ some s
      → ensure_tool decimal e ev ≡ e
  unfolding ensure_tool
  ensure_tool_known e ev s found =
      option_elim (λ (x : Encoder). x ≡ e) (Ordered.lookup ev.index e.tool_calls)
        (λ unknown. absurd (cc)) (λ _ _. refl)

  write_tool_done_known :
      (e : Encoder) (ev : StreamEvent) (s : ToolItem)
      → Ordered.lookup ev.index e.tool_calls ≡ some s
      → write_tool_done decimal e ev ≡ end_tool e ev s
  unfolding write_tool_done
  write_tool_done_known e ev s found =
      let same = ensure_tool_known e ev s found in
      option_elim (λ (x : Encoder). x ≡ end_tool e ev s)
        (Ordered.lookup ev.index (ensure_tool decimal e ev).tool_calls) (λ unknown. absurd (cc))
        (λ t also. cc)

  end_tool-live :
      (e : Encoder) (ev : StreamEvent) (s : ToolItem) (j : ℕ)
      → s.done ≡ false
      → measure live (Ordered.lookup j (end_tool e ev s).tool_calls)
        ≡ (if ev.index == j then 0 else measure live (Ordered.lookup j e.tool_calls))
  unfolding end_tool ended_tool write_all write live
  end_tool-live e ev s j on =
      ground (arith, on, lookup-insert ev.index j (ended_tool s ev) e.tool_calls)

  end_tool-reasoning_open :
      (e : Encoder) (ev : StreamEvent) (s : ToolItem)
      → (end_tool e ev s).reasoning_open ≡ e.reasoning_open
  unfolding end_tool write_all write
  end_tool-reasoning_open e ev s = ground arith

  not_live :
      (e : Encoder) (k j : ℕ) (s : ToolItem)
      → Ordered.lookup k e.tool_calls ≡ some s
      → s.done ≡ true
      → measure live (Ordered.lookup j e.tool_calls)
        ≡ (if k == j then 0 else measure live (Ordered.lookup j e.tool_calls))
  unfolding live
  not_live e k j s found over = elim (Bool-cases (k == j)) [
    | inl here ↦ let same : k ≡ j = ground (arith, here) in rw (here, ← same, found, over) refl
    | inr there ↦ rw there refl
  ]

  end_known-live :
      (e : Encoder) (k j : ℕ)
      → measure live (Ordered.lookup j (end_known decimal e k).tool_calls)
        ≡ (if k == j then 0 else measure live (Ordered.lookup j e.tool_calls))
  unfolding end_known
  end_known-live e k j =
      option_elim
        (λ (x : Encoder).
          measure live (Ordered.lookup j x.tool_calls)
          ≡ (if k == j then 0 else measure live (Ordered.lookup j e.tool_calls)))
        (Ordered.lookup k e.tool_calls) (λ unknown. ground (arith, unknown))
        (λ s found.
          if_elim
            (λ (x : Encoder).
              measure live (Ordered.lookup j x.tool_calls)
              ≡ (if k == j then 0 else measure live (Ordered.lookup j e.tool_calls)))
            s.done (λ over. not_live e k j s found over)
            (λ on.
              rw (write_tool_done_known e (done_event k s) s found)
                (end_tool-live e (done_event k s) s j on)))

  end_known-reasoning_open :
      (e : Encoder) (k : ℕ) → (end_known decimal e k).reasoning_open ≡ e.reasoning_open
  unfolding end_known
  end_known-reasoning_open e k =
      option_elim (λ (x : Encoder). x.reasoning_open ≡ e.reasoning_open)
        (Ordered.lookup k e.tool_calls) (λ _. refl)
        (λ s found.
          if_elim (λ (x : Encoder). x.reasoning_open ≡ e.reasoning_open) s.done (λ _. refl)
            (λ on.
              rw (write_tool_done_known e (done_event k s) s found)
                (end_tool-reasoning_open e (done_event k s) s)))

  end_tools-live :
      (e : Encoder) (ks : List ℕ) (j : ℕ)
      → measure live (Ordered.lookup j (end_tools decimal e ks).tool_calls)
        ≡ (if member j ks then 0 else measure live (Ordered.lookup j e.tool_calls))
  unfolding end_tools member
  end_tools-live e [] j = refl
  end_tools-live e (k ∷ ks) j =
      ground (arith, end_tools-live (end_known decimal e k) ks j, end_known-live e k j)

  end_tools-reasoning_open :
      (e : Encoder) (ks : List ℕ) → (end_tools decimal e ks).reasoning_open ≡ e.reasoning_open
  unfolding end_tools
  end_tools-reasoning_open e [] = refl
  end_tools-reasoning_open e (k ∷ ks) =
      end_tools-reasoning_open (end_known decimal e k) ks ∙ end_known-reasoning_open e k

-- Every index that was reserved has its item added once, done once and in the output; no other has one.
pub record IsWhole (i : ℕ) (e : Encoder) : Type 0 where
  pub added : added_of i e.out ≡ one (ltb i e.next_output_index)
  pub done : done_of i e.out ≡ added_of i e.out
  pub kept : one (held (e.output i)) ≡ added_of i e.out

IsBalanced-IsWhole :
    (i : ℕ) (e : Encoder)
    → e.reasoning_open ≡ false
    → total (open_at i) e.tool_calls ≡ 0
    → IsBalanced false i e
    → IsWhole i e
IsBalanced-IsWhole i e shut none_left g = record {
  added = g.added;
  done = ground (arith, g.balance, shut, none_left);
  kept = ground (arith, g.kept, g.balance, shut, none_left);
}

measure-live : (i : ℕ) (s : Option ToolItem) → measure live s ≡ 0 → measure (open_at i) s ≡ 0
unfolding live open_at
measure-live i none h = refl
measure-live i (some s) h = ground (arith, h)

close_reasoning-reasoning_open : (e : Encoder) → (close_reasoning e).reasoning_open ≡ false
unfolding close_reasoning write_all write
close_reasoning-reasoning_open e = ground arith

end_text-reasoning_open :
    (e : Encoder) (status : Text) → (end_text e status).reasoning_open ≡ e.reasoning_open
unfolding end_text write_all write
end_text-reasoning_open e status = ground arith

pub complete-IsWhole :
    (i : ℕ) (e : Encoder) (resp : ResponsesResponse) → IsWhole i e → IsWhole i (complete e resp)
unfolding complete write adds dones
complete-IsWhole i e resp w =
    let v = if resp.status == text "incomplete" then incomplete resp else completed resp in
    record {
      added = ground (arith, added_of-snoc i e.sequence v e.out, w.added);
      done =
          ground
            (arith, added_of-snoc i e.sequence v e.out, done_of-snoc i e.sequence v e.out, w.done);
      kept = ground (arith, added_of-snoc i e.sequence v e.out, w.kept);
    }

pub used_usage :
    (i : ℕ) (e : Encoder) (u : CanonicalUsage)
    → IsBalanced true i e
    → IsBalanced true i (if is_zero u then e else record e { usage = u })
used_usage i e u g =
    if_elim (IsBalanced true i) (is_zero u) (λ _. g)
      (λ _. same_items true i e _ g refl refl refl refl g.sorted refl)

module _ (decimal : ℕ → Text) where
  pub close_all-IsWhole :
      (i : ℕ) (e : Encoder) (status : Text)
      → IsBalanced true i e
      → IsWhole i (close_all decimal e status)
  unfolding close_all
  close_all-IsWhole i e status g =
      let e' = end_text (close_reasoning e) status in
      let g' =
        end_text-IsBalanced i (close_reasoning e) status (close_reasoning-IsBalanced true i e g) in
      let ks = Ordered.keys e'.tool_calls in
      let h = end_tools-IsBalanced decimal false i e' ks g' in
      IsBalanced-IsWhole i (end_tools decimal e' ks)
        (end_tools-reasoning_open decimal e' ks
          ∙ end_text-reasoning_open (close_reasoning e) status
          ∙ close_reasoning-reasoning_open e)
        (total_zero (open_at i) 0 _ h.sorted (λ k. measure-live i _ (all_over e' k))) h
    where
      all_over :
          (e' : Encoder) (k : ℕ)
          → measure live
              (Ordered.lookup k (end_tools decimal e' (Ordered.keys e'.tool_calls)).tool_calls)
            ≡ 0
      all_over e' k = ground (
        arith,
        end_tools-live decimal e' (Ordered.keys e'.tool_calls) k,
        lookup_missing k e'.tool_calls,
      )

  pub finish-IsWhole :
      (i : ℕ) (e : Encoder) (status reason : Text) (u : CanonicalUsage)
      → IsBalanced true i e
      → IsWhole i (finish decimal e status reason u)
  unfolding finish
  finish-IsWhole i e status reason u g =
      if_elim (IsWhole i) e.finished (λ over. absurd (ground (arith, over, g.unfinished)))
        (λ _. complete-IsWhole i _ _ (close_all-IsWhole i _ _ (used_usage i e u g)))
