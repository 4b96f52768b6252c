-- ===== src/Streams/Tools/History.antt =====
-- internal/stream_convert.go, `canonicalStreamToolTracker`: what any history of its calls says of a tool
-- call.
use buzzhive.Base.{
  ℕ, ◌+◌, ◌≡◌, ◌≢◌, refl, ap, subst, ◌∙◌, inl, inr, List, [], ◌∷◌, ◌++◌, Bool, true, false, ◌||◌,
  Option, none, some, text_eq, nat_eq, ◌==◌, if◌then◌else◌, arith, Bool-cases,
}
use buzzhive.Canonical.{StreamEvent, event_of, tool_call_done}
use buzzhive.Streams.Tools.{
  ToolState, Tracker, new_tracker, fill, ensure, start, delta, done, and_then, done_each, done_all,
}

pub data Call : Type 0 where
  starts : StreamEvent → Call
  extends : StreamEvent → Call
  ends : StreamEvent → Call
  ends_all : Call

-- A call, and the events that it gives out.
unfoldable pub step : Tracker → Call → Tracker × List StreamEvent
step t (starts e) = let (t', out) = start t e in (t', and_then out [])
step t (extends e) = let (t', out) = delta t e in (t', out ∷ [])
step t (ends e) = let (t', out) = done t e in (t', and_then out [])
step t ends_all = done_all t

unfoldable pub run : Tracker → List Call → Tracker × List StreamEvent
run t [] = (t, [])
run t (c ∷ cs) = let (t', out) = step t c in let (t'', rest) = run t' cs in (t'', out ++ rest)

abbrev pub is_done : Option ToolState → Bool
is_done none = false
is_done (some s) = s.done

abbrev pub is_known : Option ToolState → Bool
is_known none = false
is_known (some s) = true

unfoldable pub is_end_of : ℕ → StreamEvent → Bool
is_end_of i e = elim e.type [ tool_call_done ↦ e.index == i | _ ↦ false ]

-- How many times the end of the tool call with the index was given out.
unfoldable pub ends_of : ℕ → List StreamEvent → ℕ
ends_of i [] = 0
ends_of i (e ∷ es) = let rest = ends_of i es in if is_end_of i e then rest + 1 else rest

ends_of-append :
    (i : ℕ) (xs ys : List StreamEvent) → ends_of i (xs ++ ys) ≡ ends_of i xs + ends_of i ys
unfolding ends_of
ends_of-append i [] ys = omega arith
ends_of-append i (x ∷ xs) ys = ground (arith, ends_of-append i xs ys)

unfoldable pub listed : ℕ → List ℕ → Bool
listed i [] = false
listed i (j ∷ js) = j == i || listed i js

-- A state stands under its own index.
abbrev pub fits : ℕ → Option ToolState → Bool
fits i none = true
fits i (some s) = s.index == i

-- Each state stands under its own index, and `order` lists the indices that are known.
pub record IsFiled (t : Tracker) : Type 0 where
  pub own_index : (i : ℕ) → fits i (t.by_index i) ≡ true
  pub in_order : (i : ℕ) → listed i t.order ≡ is_known (t.by_index i)

abbrev one : Bool → ℕ
one b = if b then 1 else 0

-- What a call does to the state of one index: how often it gives out the end.
pub record Counts (t : Tracker) (t' : Tracker) (out : List StreamEvent) (i : ℕ) : Type 0 where
  pub balance : ends_of i out + one (is_done (t.by_index i)) ≡ one (is_done (t'.by_index i))
  pub kept : is_known (t.by_index i) ≡ true → is_known (t'.by_index i) ≡ true

start-Counts :
    (t : Tracker) (e : StreamEvent) (i : ℕ) → Counts t (start t e).0 (and_then (start t e).1 []) i
unfolding start ensure fill ends_of is_end_of
start-Counts t e i = ground arith

delta-Counts :
    (t : Tracker) (e : StreamEvent) (i : ℕ) → Counts t (delta t e).0 ((delta t e).1 ∷ []) i
unfolding delta ensure fill ends_of is_end_of
delta-Counts t e i = ground arith

done-Counts :
    (t : Tracker) (e : StreamEvent) (i : ℕ)
    → fits e.index (t.by_index e.index) ≡ true
    → Counts t (done t e).0 (and_then (done t e).1 []) i
unfolding done ensure fill ends_of is_end_of
done-Counts t e i own = ground arith

listed-append : (i : ℕ) (js ks : List ℕ) → listed i (js ++ ks) ≡ (listed i js || listed i ks)
unfolding listed
listed-append i [] ks = refl
listed-append i (j ∷ js) ks = ground (arith, listed-append i js ks)

start-IsFiled : (t : Tracker) (e : StreamEvent) → IsFiled t → IsFiled (start t e).0
unfolding start ensure fill listed
start-IsFiled t e f = record {
  own_index = λ i. ground (arith, f.own_index i, f.own_index e.index);
  in_order = λ i. ground (arith, f.in_order i, listed-append i t.order (e.index ∷ []));
}

delta-IsFiled : (t : Tracker) (e : StreamEvent) → IsFiled t → IsFiled (delta t e).0
unfolding delta ensure fill listed
delta-IsFiled t e f = record {
  own_index = λ i. ground (arith, f.own_index i, f.own_index e.index);
  in_order = λ i. ground (arith, f.in_order i, listed-append i t.order (e.index ∷ []));
}

done-IsFiled : (t : Tracker) (e : StreamEvent) → IsFiled t → IsFiled (done t e).0
unfolding done ensure fill listed
done-IsFiled t e f = record {
  own_index = λ i. ground (arith, f.own_index i, f.own_index e.index);
  in_order = λ i. ground (arith, f.in_order i, listed-append i t.order (e.index ∷ []));
}

and_then-append :
    (out : Option StreamEvent) (es : List StreamEvent) → and_then out es ≡ and_then out [] ++ es
and_then-append none es = refl
and_then-append (some e) es = refl

Counts-trans :
    (t t' t'' : Tracker) (xs ys : List StreamEvent) (i : ℕ)
    → Counts t t' xs i
    → Counts t' t'' ys i
    → Counts t t'' (xs ++ ys) i
Counts-trans t t' t'' xs ys i a b = record {
  balance = omega (arith, ends_of-append i xs ys, a.balance, b.balance);
  kept = λ h. b.kept (a.kept h);
}

done_is_done : (t : Tracker) (e : StreamEvent) → is_done ((done t e).0.by_index e.index) ≡ true
unfolding done ensure
done_is_done t e = ground arith

done_each-IsFiled : (t : Tracker) (is : List ℕ) → IsFiled t → IsFiled (done_each t is).0
unfolding done_each
done_each-IsFiled t [] f = f
done_each-IsFiled t (j ∷ is) f =
    let e = record (event_of tool_call_done) { index = j } in
    done_each-IsFiled (done t e).0 is (done-IsFiled t e f)

done_each-Counts :
    (t : Tracker) (is : List ℕ) (i : ℕ)
    → IsFiled t
    → Counts t (done_each t is).0 (done_each t is).1 i
unfolding done_each ends_of
done_each-Counts t [] i f = record { balance = ground arith; kept = λ h. h }
done_each-Counts t (j ∷ is) i f =
    let e = record (event_of tool_call_done) { index = j } in
    let (t', out) = done t e in
    let here = done-Counts t e i (f.own_index e.index) in
    let there = done_each-Counts t' is i (done-IsFiled t e f) in
    rw (and_then-append out (done_each t' is).1)
      (Counts-trans t t' (done_each t' is).0 (and_then out []) (done_each t' is).1 i here there)

-- An end that was given out stays so.
done_stays :
    (t t' : Tracker) (out : List StreamEvent) (i : ℕ)
    → Counts t t' out i
    → is_done (t.by_index i) ≡ true
    → is_done (t'.by_index i) ≡ true
done_stays t t' out i c h = elim (Bool-cases (is_done (t'.by_index i))) [
  | inl kept ↦ kept
  | inr lost ↦ absurd (ground (arith, c.balance))
]

done_each_ends :
    (t : Tracker) (is : List ℕ) (i : ℕ)
    → IsFiled t
    → listed i is ≡ true
    → is_done ((done_each t is).0.by_index i) ≡ true
unfolding done_each listed
done_each_ends t [] i f h = absurd (cc)
done_each_ends t (j ∷ is) i f h =
    let e = record (event_of tool_call_done) { index = j } in
    let t' = (done t e).0 in
    let f' = done-IsFiled t e f in
    elim (Bool-cases (j == i)) [
      | inl here ↦
          let same : j ≡ i = ground arith in
          done_stays t' (done_each t' is).0 (done_each t' is).1 i (done_each-Counts t' is i f')
            (subst (λ k. is_done (t'.by_index k) ≡ true) same (done_is_done t e))
      | inr there ↦ done_each_ends t' is i f' (ground arith)
    ]

done_leaves :
    (t : Tracker) (e : StreamEvent) (i : ℕ) → e.index ≢ i → (done t e).0.by_index i ≡ t.by_index i
unfolding done ensure
done_leaves t e i h = ground arith

done_each_leaves :
    (t : Tracker) (is : List ℕ) (i : ℕ)
    → listed i is ≡ false
    → (done_each t is).0.by_index i ≡ t.by_index i
unfolding done_each listed
done_each_leaves t [] i h = refl
done_each_leaves t (j ∷ is) i h =
    let e = record (event_of tool_call_done) { index = j } in
    let apart : j ≢ i = λ same. ground arith in
    done_each_leaves (done t e).0 is i (ground arith) ∙ done_leaves t e i apart

step-IsFiled : (t : Tracker) (c : Call) → IsFiled t → IsFiled (step t c).0
unfolding step done_all
step-IsFiled t (starts e) f = start-IsFiled t e f
step-IsFiled t (extends e) f = delta-IsFiled t e f
step-IsFiled t (ends e) f = done-IsFiled t e f
step-IsFiled t ends_all f = done_each-IsFiled t t.order f

step-Counts : (t : Tracker) (c : Call) (i : ℕ) → IsFiled t → Counts t (step t c).0 (step t c).1 i
unfolding step done_all
step-Counts t (starts e) i f = start-Counts t e i
step-Counts t (extends e) i f = delta-Counts t e i
step-Counts t (ends e) i f = done-Counts t e i (f.own_index e.index)
step-Counts t ends_all i f = done_each-Counts t t.order i f

run-IsFiled : (t : Tracker) (cs : List Call) → IsFiled t → IsFiled (run t cs).0
unfolding run
run-IsFiled t [] f = f
run-IsFiled t (c ∷ cs) f = run-IsFiled (step t c).0 cs (step-IsFiled t c f)

run-Counts :
    (t : Tracker) (cs : List Call) (i : ℕ) → IsFiled t → Counts t (run t cs).0 (run t cs).1 i
unfolding run ends_of
run-Counts t [] i f = record { balance = omega arith; kept = λ h. h }
run-Counts t (c ∷ cs) i f =
    let (t', out) = step t c in
    Counts-trans t t' (run t' cs).0 out (run t' cs).1 i (step-Counts t c i f)
      (run-Counts t' cs i (step-IsFiled t c f))

new_tracker-IsFiled : IsFiled new_tracker
unfolding listed
new_tracker-IsFiled = record { own_index = λ i. refl; in_order = λ i. refl }

-- Whether the calls name an index.
unfoldable pub names : ℕ → List Call → Bool
names i [] = false
names i (starts e ∷ cs) = e.index == i || names i cs
names i (extends e ∷ cs) = e.index == i || names i cs
names i (ends e ∷ cs) = e.index == i || names i cs
names i (ends_all ∷ cs) = names i cs

start-is_known :
    (t : Tracker) (e : StreamEvent) (i : ℕ)
    → is_known ((start t e).0.by_index i) ≡ (e.index == i || is_known (t.by_index i))
unfolding start ensure
start-is_known t e i = ground arith

delta-is_known :
    (t : Tracker) (e : StreamEvent) (i : ℕ)
    → is_known ((delta t e).0.by_index i) ≡ (e.index == i || is_known (t.by_index i))
unfolding delta ensure
delta-is_known t e i = ground arith

done-is_known :
    (t : Tracker) (e : StreamEvent) (i : ℕ)
    → is_known ((done t e).0.by_index i) ≡ (e.index == i || is_known (t.by_index i))
unfolding done ensure
done-is_known t e i = ground arith

done_each-is_known :
    (t : Tracker) (is : List ℕ) (i : ℕ)
    → is_known ((done_each t is).0.by_index i) ≡ (listed i is || is_known (t.by_index i))
unfolding done_each listed
done_each-is_known t [] i = refl
done_each-is_known t (j ∷ is) i =
    let e = record (event_of tool_call_done) { index = j } in
    ground (arith, done_each-is_known (done t e).0 is i, done-is_known t e i)

done_all-is_known :
    (t : Tracker) (i : ℕ)
    → IsFiled t
    → is_known ((done_all t).0.by_index i) ≡ is_known (t.by_index i)
unfolding done_all
done_all-is_known t i f = ground (arith, done_each-is_known t t.order i, f.in_order i)

-- The tracker knows an index exactly if a call named it.
run-is_known :
    (t : Tracker) (cs : List Call) (i : ℕ)
    → IsFiled t
    → is_known ((run t cs).0.by_index i) ≡ (names i cs || is_known (t.by_index i))
unfolding run names step
run-is_known t [] i f = refl
run-is_known t (starts e ∷ cs) i f =
    ground (arith, run-is_known (start t e).0 cs i (start-IsFiled t e f), start-is_known t e i)
run-is_known t (extends e ∷ cs) i f =
    ground (arith, run-is_known (delta t e).0 cs i (delta-IsFiled t e f), delta-is_known t e i)
run-is_known t (ends e ∷ cs) i f =
    ground (arith, run-is_known (done t e).0 cs i (done-IsFiled t e f), done-is_known t e i)
run-is_known t (ends_all ∷ cs) i f =
    ground
      (arith, run-is_known (done_all t).0 cs i (step-IsFiled t ends_all f), done_all-is_known t i f)

ended_if_known :
    (cs : List Call) (i : ℕ)
    → let history = run new_tracker cs in
      ends_of i (history.1 ++ (done_all history.0).1) ≡ one (is_known (history.0.by_index i))
unfolding done_all
ended_if_known cs i =
    let history = run new_tracker cs in
    let t = history.0 in
    let filed = run-IsFiled new_tracker cs new_tracker-IsFiled in
    let before = run-Counts new_tracker cs i new_tracker-IsFiled in
    let after = done_each-Counts t t.order i filed in
    let ended = done_each_ends t t.order i filed in
    let split = ends_of-append i history.1 (done_each t t.order).1 in
    elim (Bool-cases (is_known (t.by_index i))) [
      | inl known ↦
          let last = ended (filed.in_order i ∙ known) in
          ground (arith, split, before.balance, after.balance, last, known)
      | inr unknown ↦
          let same = done_each_leaves t t.order i (filed.in_order i ∙ unknown) in
          ground (arith, split, before.balance, after.balance, unknown, same)
    ]

-- Whatever the calls on a new tracker, once `doneAll` follows them the end of each tool call was given out
-- exactly once if the calls named its index, and never if they did not.
pub ends_once :
    (cs : List Call) (i : ℕ)
    → let history = run new_tracker cs in
      ends_of i (history.1 ++ (done_all history.0).1) ≡ one (names i cs)
ends_once cs i =
    ended_if_known cs i ∙ ap one (run-is_known new_tracker cs i new_tracker-IsFiled ∙ never cs i)
  where
    never : (cs : List Call) (i : ℕ) → (names i cs || false) ≡ names i cs
    never cs i = ground arith
