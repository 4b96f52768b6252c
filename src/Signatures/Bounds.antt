-- ===== src/Signatures/Bounds.antt =====
-- internal/tool_signatures.go: how large the table of signatures gets.
use buzzhive.Base.{
  ℕ, zero, suc, ◌≤◌, ◌<◌, ◌≡◌, ◌⊎◌, refl, ◌∙◌, inl, inr, List, [], ◌∷◌, Option, some, Text, text_eq,
  ◌==◌, ltb, arith, Bool-cases, Option-cases, length, length-filter_le,
}
use buzzhive.Base.Eq.{bytes_beq_iff}
use buzzhive.Types.{AuthToken}
use buzzhive.Signatures.{
  Entry, ToolCall, lookup, drop_key, put, purge, oldest_from, trim_from, trim, new_entry,
  max_tool_signature_entries, scope, remember_calls, remember_tool_signatures, tool_signature,
}

pub length-drop_key_le : (key : Text) (xs : List Entry) → length (drop_key key xs) ≤ length xs
unfolding drop_key
length-drop_key_le key [] = omega arith
length-drop_key_le key (x ∷ xs) = ground (arith, length-drop_key_le key xs)

lookup_head : (x : Entry) (xs : List Entry) → lookup x.key (x ∷ xs) ≡ some x
unfolding lookup
lookup_head x xs = ground (arith, bytes_beq_iff x.key x.key)

drop_shorter :
    (key : Text) (xs : List Entry) {y : Entry}
    → lookup key xs ≡ some y
    → length (drop_key key xs) < length xs
unfolding drop_key lookup
drop_shorter key [] h = absurd (ground arith)
drop_shorter key (x ∷ xs) {y = y} h = elim (Bool-cases (x.key == key)) [
  | inl here ↦ ground (arith, length-drop_key_le key xs)
  | inr there ↦
      let later : lookup key xs ≡ some y = ground arith in ground (arith, drop_shorter key xs later)
]

lookup-tail :
    (key : Text) (x : Entry) (xs : List Entry) {y : Entry}
    → lookup key xs ≡ some y
    → (z : Entry) × (lookup key (x ∷ xs) ≡ some z)
unfolding lookup
lookup-tail key x xs {y = y} h = elim (Bool-cases (x.key == key)) [
  | inl here ↦ (x, ground arith)
  | inr there ↦ (y, ground arith)
]

-- The oldest entry is the one at hand, or its key stands in the rest.
oldest_found :
    (best : Entry) (xs : List Entry)
    → (oldest_from best xs ≡ best) ⊎ ((y : Entry) × (lookup (oldest_from best xs).key xs ≡ some y))
unfolding oldest_from
oldest_found best [] = inl refl
oldest_found best (x ∷ xs) = elim (Bool-cases (ltb x.updated_at best.updated_at)) [
  | inl older ↦
      let same : oldest_from best (x ∷ xs) ≡ oldest_from x xs = rw older refl in
      elim (oldest_found x xs) [
        | inl itself ↦ inr (x, rw (same ∙ itself) (lookup_head x xs))
        | inr (y, found) ↦ inr (
          (lookup-tail (oldest_from x xs).key x xs found).0,
          rw same (lookup-tail (oldest_from x xs).key x xs found).1,
        )
      ]
  | inr younger ↦
      let same : oldest_from best (x ∷ xs) ≡ oldest_from best xs = rw younger refl in
      elim (oldest_found best xs) [
        | inl itself ↦ inl (same ∙ itself)
        | inr (y, found) ↦ inr (
          (lookup-tail (oldest_from best xs).key x xs found).0,
          rw same (lookup-tail (oldest_from best xs).key x xs found).1,
        )
      ]
]

drop-oldest :
    (best : Entry) (xs : List Entry)
    → length (drop_key (oldest_from best xs).key (best ∷ xs)) ≤ length xs
drop-oldest best xs =
    let all = best ∷ xs in
    elim (oldest_found best xs) [
      | inl itself ↦
          let here : lookup (oldest_from best xs).key all ≡ some best =
            rw itself (lookup_head best xs) in
          omega (arith, drop_shorter (oldest_from best xs).key all here)
      | inr (y, found) ↦
          let (z, there) = lookup-tail (oldest_from best xs).key best xs found in
          omega (arith, drop_shorter (oldest_from best xs).key all there)
    ]

trim_from_bounded :
    (fuel : ℕ) (xs : List Entry)
    → length xs ≤ fuel
    → length (trim_from fuel xs) ≤ max_tool_signature_entries
unfolding trim_from
trim_from_bounded zero [] h = omega arith
trim_from_bounded zero (x ∷ xs) h = absurd (omega arith)
trim_from_bounded (suc fuel) [] h = omega arith
trim_from_bounded (suc fuel) (x ∷ xs) h =
    let shorter : length (drop_key (oldest_from x xs).key (x ∷ xs)) ≤ fuel =
      omega (arith, drop-oldest x xs) in
    let rest = trim_from_bounded fuel (drop_key (oldest_from x xs).key (x ∷ xs)) shorter in
    elim (Bool-cases (ltb max_tool_signature_entries (length (x ∷ xs)))) [
      | inl over ↦ rw over rest
      | inr fits ↦ rw fits (ground arith)
    ]

trim_bounded : (xs : List Entry) → length (trim xs) ≤ max_tool_signature_entries
unfolding trim
trim_bounded xs = trim_from_bounded (length xs) xs (omega arith)

pub trim_same : (xs : List Entry) → length xs ≤ max_tool_signature_entries → trim xs ≡ xs
unfolding trim trim_from
trim_same [] h = refl
trim_same (x ∷ xs) h = ground arith

-- Looking a signature up, with any answer of the shared cache, leaves a table of at most 4096 entries
-- at 4096 entries at most.
pub tool_signature_bounded :
    (key : Text) (now : ℕ) (shared : Option Text) (xs : List Entry)
    → length xs ≤ max_tool_signature_entries
    → length (tool_signature key now shared xs).0 ≤ max_tool_signature_entries
unfolding tool_signature purge
tool_signature_bounded key now shared xs h =
    let kept = length-filter_le (λ (x : Entry). ltb now x.expires_at) xs in
    elim (Option-cases (lookup key (purge now xs))) [
      | inl absent ↦ elim (Option-cases shared) [
        | inl silent ↦ ground (arith, kept, absent, silent)
        | inr (signature, heard) ↦
            let bound = trim_bounded (put (new_entry key signature now) (purge now xs)) in
            ground (arith, kept, absent, heard, bound)
      ]
      | inr (y, found) ↦ ground (arith, kept, found)
    ]

module _ (normal_json : Text → Option Text) (format : ℕ → Text) where
  -- Remembering the calls of an answer leaves a table of at most 4096 entries at 4096 entries at most.
  pub remember_bounded :
      (user : AuthToken) (model : Text) (now : ℕ) (calls : List ToolCall) (xs : List Entry)
      → length xs ≤ max_tool_signature_entries
      → length (remember_tool_signatures normal_json format user model now calls xs)
        ≤ max_tool_signature_entries
  unfolding remember_tool_signatures
  remember_bounded user model now [] xs h = h
  remember_bounded user model now (call ∷ calls) xs h = trim_bounded (
      remember_calls normal_json format (scope normal_json format user model) now (call ∷ calls)
        (purge now xs))
