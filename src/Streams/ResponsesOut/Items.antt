-- ===== src/Streams/ResponsesOut/Items.antt =====
-- internal/stream_convert.go, `responsesStreamEncoder`: the items of the output, each of which is added and
-- done.
use buzzhive.Base.{
  ℕ, ◌+◌, ◌≡◌, sym, ap, ◌∙◌, inl, inr, ltb, ◌++◌, List, [], ◌∷◌, Bool, true, false, ◌&&◌, Option,
  none, some, text_eq, nat_eq, ◌==◌, if◌then◌else◌, arith, Bool-cases,
}
use buzzhive.Base.Ordered.{total, ascends}
use buzzhive.Streams.ResponsesOut.{
  Value, item_added, item_done, ToolItem, Encoder, write, write_all,
}

abbrev pub one : Bool → ℕ
one b = if b then 1 else 0

unfoldable pub adds : ℕ → Value → Bool
adds i (item_added j item) = j == i
adds i _ = false

unfoldable pub dones : ℕ → Value → Bool
dones i (item_done j item) = j == i
dones i _ = false

-- How often the output adds the item with the index, and how often it is done.
unfoldable pub added_of : ℕ → List (ℕ × Value) → ℕ
added_of i [] = 0
added_of i ((n, v) ∷ out) = one (adds i v) + added_of i out

unfoldable pub done_of : ℕ → List (ℕ × Value) → ℕ
done_of i [] = 0
done_of i ((n, v) ∷ out) = one (dones i v) + done_of i out

pub added_of-snoc :
    (i n : ℕ) (v : Value) (out : List (ℕ × Value))
    → added_of i (out ++ (n, v) ∷ []) ≡ added_of i out + one (adds i v)
unfolding added_of
added_of-snoc i n v [] = omega arith
added_of-snoc i n v ((m, w) ∷ out) = omega (arith, added_of-snoc i n v out)

pub done_of-snoc :
    (i n : ℕ) (v : Value) (out : List (ℕ × Value))
    → done_of i (out ++ (n, v) ∷ []) ≡ done_of i out + one (dones i v)
unfolding done_of
done_of-snoc i n v [] = omega arith
done_of-snoc i n v ((m, w) ∷ out) = omega (arith, done_of-snoc i n v out)

unfoldable pub open_at : ℕ → ToolItem → ℕ
open_at i s = if s.done then 0 else one (s.output_index == i)

abbrev pub held {ℓ} : {A : Type ℓ} → Option A → Bool
held none = false
held (some a) = true

-- How many open items have the index; the text counts only if asked for.
abbrev pub opens : Bool → ℕ → Encoder → ℕ
opens b i e =
    one (b && (e.text_open && e.text_index == i))
    + one (e.reasoning_open && e.reasoning_index == i)
    + total (open_at i) e.tool_calls

-- Before the end, for one index: it was added once if it is reserved; then it is open, or it is done once and in the output.
pub record IsBalanced (b : Bool) (i : ℕ) (e : Encoder) : Type 0 where
  pub added : added_of i e.out ≡ one (ltb i e.next_output_index)
  pub balance : done_of i e.out + opens b i e ≡ added_of i e.out
  pub kept : one (held (e.output i)) ≡ done_of i e.out
  pub sorted : ascends 0 e.tool_calls ≡ true
  pub unfinished : e.finished ≡ false

pub write-IsBalanced :
    (b : Bool) (i : ℕ) (e : Encoder) (v : Value)
    → adds i v ≡ false
    → dones i v ≡ false
    → IsBalanced b i e
    → IsBalanced b i (write e v)
unfolding write
write-IsBalanced b i e v h k g = record {
  added = ground (arith, added_of-snoc i e.sequence v e.out, g.added);
  balance =
      ground
        (arith, added_of-snoc i e.sequence v e.out, done_of-snoc i e.sequence v e.out, g.balance);
  kept = ground (arith, done_of-snoc i e.sequence v e.out, g.kept);
  sorted = g.sorted;
  unfinished = g.unfinished;
}

unfoldable pub added_in : ℕ → List Value → ℕ
added_in i [] = 0
added_in i (v ∷ vs) = one (adds i v) + added_in i vs

unfoldable pub done_in : ℕ → List Value → ℕ
done_in i [] = 0
done_in i (v ∷ vs) = one (dones i v) + done_in i vs

pub added_of-write_all :
    (i : ℕ) (e : Encoder) (vs : List Value)
    → added_of i (write_all e vs).out ≡ added_of i e.out + added_in i vs
unfolding write_all write added_in
added_of-write_all i e [] = omega arith
added_of-write_all i e (v ∷ vs) =
    omega (arith, added_of-write_all i (write e v) vs, added_of-snoc i e.sequence v e.out)

pub done_of-write_all :
    (i : ℕ) (e : Encoder) (vs : List Value)
    → done_of i (write_all e vs).out ≡ done_of i e.out + done_in i vs
unfolding write_all write done_in
done_of-write_all i e [] = omega arith
done_of-write_all i e (v ∷ vs) =
    omega (arith, done_of-write_all i (write e v) vs, done_of-snoc i e.sequence v e.out)

-- An item is reserved, added and opened.
pub record Opened (b : Bool) (i : ℕ) (e e' : Encoder) : Type 0 where
  pub next : e'.next_output_index ≡ e.next_output_index + 1
  pub added : added_of i e'.out ≡ added_of i e.out + one (e.next_output_index == i)
  pub done : done_of i e'.out ≡ done_of i e.out
  pub now_open : opens b i e' ≡ opens b i e + one (e.next_output_index == i)
  pub output : e'.output i ≡ e.output i

pub Opened-IsBalanced :
    (b : Bool) (i : ℕ) (e e' : Encoder)
    → Opened b i e e'
    → ascends 0 e'.tool_calls ≡ true
    → e'.finished ≡ e.finished
    → IsBalanced b i e
    → IsBalanced b i e'
Opened-IsBalanced b i e e' o s f g = record {
  added = ground (arith, o.added, o.next, g.added);
  balance = omega (arith, o.added, o.done, o.now_open, g.balance);
  kept = ap (λ x. one (held x)) o.output ∙ g.kept ∙ sym o.done;
  sorted = s;
  unfinished = f ∙ g.unfinished;
}

-- An open item is done, and stands in the output.
pub record Closed (b c : Bool) (i j : ℕ) (e e' : Encoder) : Type 0 where
  pub next : e'.next_output_index ≡ e.next_output_index
  pub added : added_of i e'.out ≡ added_of i e.out
  pub done : done_of i e'.out ≡ done_of i e.out + one (j == i)
  pub was_open : opens c i e' + one (j == i) ≡ opens b i e
  pub output : one (held (e'.output i)) ≡ (if j == i then 1 else one (held (e.output i)))

pub Closed-IsBalanced :
    (b c : Bool) (i j : ℕ) (e e' : Encoder)
    → Closed b c i j e e'
    → ascends 0 e'.tool_calls ≡ true
    → e'.finished ≡ e.finished
    → IsBalanced b i e
    → IsBalanced c i e'
Closed-IsBalanced b c i j e e' d s f g = record {
  added = ground (arith, d.added, d.next, g.added);
  balance = omega (arith, d.added, d.done, d.was_open, g.balance);
  kept = elim (Bool-cases (j == i)) [
    | inl here ↦ ground (arith, d.output, d.done, d.was_open, g.balance, g.added, here)
    | inr there ↦ ground (arith, d.output, d.done, g.kept, there)
  ];
  sorted = s;
  unfinished = f ∙ g.unfinished;
}
