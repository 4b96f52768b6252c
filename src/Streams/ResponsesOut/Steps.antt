-- ===== src/Streams/ResponsesOut/Steps.antt =====
-- internal/stream_convert.go, `responsesStreamEncoder`: each event but the last keeps the items balanced.
use buzzhive.Base.{
  ℕ, ◌≡◌, refl, ◌∙◌, [], Bool, true, false, ◌&&◌, Text, text_eq, nat_eq, ◌==◌, if◌then◌else◌, arith,
  if_elim,
}
use buzzhive.Base.Ordered.{ascends}
use buzzhive.Canonical.{StreamEvent}
use buzzhive.Streams.ResponsesOut.{
  output_text_delta, output_refusal_delta, Encoder, write, write_all, close_reasoning,
  reasoning_ended, reasoning_end, reserve, open_text, text_begun, text_begin, ensure_text,
  open_reasoning, reasoning_begun, reasoning_begin, ensure_reasoning, add_reasoning,
  write_reasoning_delta, write_text_delta,
}
use buzzhive.Streams.ResponsesOut.Items.{
  adds, dones, added_in, done_in, added_of-write_all, done_of-write_all, opens, IsBalanced,
  write-IsBalanced, Opened, Opened-IsBalanced, Closed, Closed-IsBalanced,
}

close_reasoning-Closed :
    (b : Bool) (i : ℕ) (e : Encoder)
    → e.reasoning_open ≡ true
    → Closed b b i e.reasoning_index e (write_all (reasoning_ended e) (reasoning_end e))
unfolding write_all write adds dones added_in done_in
close_reasoning-Closed b i e open_ = record {
  next = refl;
  added = omega (arith, added_of-write_all i (reasoning_ended e) (reasoning_end e));
  done = omega (arith, done_of-write_all i (reasoning_ended e) (reasoning_end e));
  was_open = ground (arith, open_);
  output = ground arith;
}

pub close_reasoning-IsBalanced :
    (b : Bool) (i : ℕ) (e : Encoder) → IsBalanced b i e → IsBalanced b i (close_reasoning e)
unfolding close_reasoning
close_reasoning-IsBalanced b i e g =
    if_elim (IsBalanced b i) e.reasoning_open
      (λ open_.
        Closed-IsBalanced b b i e.reasoning_index e _ (close_reasoning-Closed b i e open_)
          (unfold write_all write in g.sorted) (unfold write_all write in refl) g)
      (λ _. g)

open_text-Opened :
    (i : ℕ) (e : Encoder) (refusal : Bool)
    → e.text_open ≡ false
    → Opened true i e (open_text e refusal)
unfolding open_text write_all write adds dones added_in done_in reserve
open_text-Opened i e refusal shut = record {
  next = refl;
  added = omega (arith, added_of-write_all i (text_begun e refusal) (text_begin e refusal));
  done = omega (arith, done_of-write_all i (text_begun e refusal) (text_begin e refusal));
  now_open = ground (arith, shut);
  output = refl;
}

ensure_text-IsBalanced :
    (i : ℕ) (e : Encoder) (refusal : Bool)
    → IsBalanced true i e
    → IsBalanced true i (ensure_text e refusal)
unfolding ensure_text
ensure_text-IsBalanced i e refusal g =
    if_elim (IsBalanced true i) e.text_open (λ _. g)
      (λ shut.
        let c = close_reasoning-IsBalanced true i e g in
        Opened-IsBalanced true i (close_reasoning e) _
          (open_text-Opened i (close_reasoning e) refusal
            (unfold close_reasoning write_all write in ground (arith, shut)))
          (unfold open_text write_all write reserve in c.sorted)
          (unfold open_text write_all write reserve in refl) c)

open_reasoning-Opened :
    (b : Bool) (i : ℕ) (e : Encoder) → e.reasoning_open ≡ false → Opened b i e (open_reasoning e)
unfolding open_reasoning write_all write adds dones added_in done_in reserve
open_reasoning-Opened b i e shut = record {
  next = refl;
  added = omega (arith, added_of-write_all i (reasoning_begun e) (reasoning_begin e));
  done = omega (arith, done_of-write_all i (reasoning_begun e) (reasoning_begin e));
  now_open = ground (arith, shut);
  output = refl;
}

ensure_reasoning-IsBalanced :
    (b : Bool) (i : ℕ) (e : Encoder) → IsBalanced b i e → IsBalanced b i (ensure_reasoning e)
unfolding ensure_reasoning
ensure_reasoning-IsBalanced b i e g =
    if_elim (IsBalanced b i) e.reasoning_open (λ _. g)
      (λ shut.
        Opened-IsBalanced b i e _ (open_reasoning-Opened b i e shut)
          (unfold open_reasoning write_all write reserve in g.sorted)
          (unfold open_reasoning write_all write reserve in refl) g)

-- A change of fields that the balance does not read.
pub same_items :
    (b : Bool) (i : ℕ) (e e' : Encoder)
    → IsBalanced b i e
    → e'.out ≡ e.out
    → e'.next_output_index ≡ e.next_output_index
    → opens b i e' ≡ opens b i e
    → e'.output i ≡ e.output i
    → ascends 0 e'.tool_calls ≡ true
    → e'.finished ≡ e.finished
    → IsBalanced b i e'
same_items b i e e' g o n p q s f = record {
  added = rw (o, n) g.added;
  balance = rw (o, p) g.balance;
  kept = rw (o, q) g.kept;
  sorted = s;
  unfinished = f ∙ g.unfinished;
}

add_reasoning-IsBalanced :
    (b : Bool) (i : ℕ) (e : Encoder) (delta : Text)
    → IsBalanced b i e
    → IsBalanced b i (add_reasoning e delta)
unfolding add_reasoning adds dones
add_reasoning-IsBalanced b i e delta g =
    if_elim (IsBalanced b i) (delta == []) (λ _. g)
      (λ _.
        write-IsBalanced b i _ _ refl refl (same_items b i e _ g refl refl refl refl g.sorted refl))

pub write_reasoning_delta-IsBalanced :
    (b : Bool) (i : ℕ) (e : Encoder) (ev : StreamEvent)
    → IsBalanced b i e
    → IsBalanced b i (write_reasoning_delta e ev)
unfolding write_reasoning_delta
write_reasoning_delta-IsBalanced b i e ev g =
    if_elim (IsBalanced b i) (ev.delta == [] && ev.signature == []) (λ _. g)
      (λ _.
        let a = add_reasoning-IsBalanced b i _ ev.delta (ensure_reasoning-IsBalanced b i e g) in
        same_items b i _ _ a refl refl refl refl a.sorted refl)

delta_adds :
    (i j : ℕ) (id delta : Text) (refusal : Bool)
    → adds i (if refusal then output_refusal_delta id j delta else output_text_delta id j delta)
      ≡ false
unfolding adds
delta_adds i j id delta refusal = ground arith

delta_dones :
    (i j : ℕ) (id delta : Text) (refusal : Bool)
    → dones i (if refusal then output_refusal_delta id j delta else output_text_delta id j delta)
      ≡ false
unfolding dones
delta_dones i j id delta refusal = ground arith

pub write_text_delta-IsBalanced :
    (i : ℕ) (e : Encoder) (delta : Text) (refusal : Bool)
    → IsBalanced true i e
    → IsBalanced true i (write_text_delta e delta refusal)
unfolding write_text_delta
write_text_delta-IsBalanced i e delta refusal g =
    let a = ensure_text-IsBalanced i e refusal g in
    if_elim (IsBalanced true i) (delta == []) (λ _. g)
      (λ _.
        write-IsBalanced true i _ _ (delta_adds i _ _ _ _) (delta_dones i _ _ _ _)
          (same_items true i _ _ a refl refl refl refl a.sorted refl))
