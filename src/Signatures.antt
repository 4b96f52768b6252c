-- ===== src/Signatures.antt =====
-- internal/tool_signatures.go: the signatures of tool calls that a later request of the same user and model
-- gets back. Each critical section under `toolSigMu` is a function; the JSON round trip of
-- `normalizeToolSignatureArgs` is the parameter `normal_json`, `none` where it fails. The table of Go is
-- a list of entries with distinct keys, in the order in which `range` visits them.
pub mod Bounds
pub mod Recall
use buzzhive.Base.{
  ℕ, zero, suc, ◌+◌, ◌-◌, ◌*◌, ◌++◌, List, [], ◌∷◌, Bool, true, false, not, ◌&&◌, Option, none,
  some, Text, text, text_eq, nat_eq, ◌==◌, ltb, leb, if◌then◌else◌, length, filter,
}
use buzzhive.Base.Bytes.{trim_space}
use buzzhive.Types.{AuthToken, hour}
use buzzhive.Routing.{route_session_storage_key}

abbrev pub tool_signature_ttl : ℕ
tool_signature_ttl = 24 * hour

abbrev pub max_tool_signature_entries : ℕ
max_tool_signature_entries = 4096

pub record Entry : Type 0 where
  pub key : Text
  pub signature : Text
  pub expires_at : ℕ
  pub updated_at : ℕ

abbrev pub new_entry : Text → Text → ℕ → Entry
new_entry key signature now = record {
  key = key;
  signature = signature;
  expires_at = now + tool_signature_ttl;
  updated_at = now;
}

unfoldable pub lookup : Text → List Entry → Option Entry
lookup key [] = none
lookup key (x ∷ xs) = if x.key == key then some x else lookup key xs

unfoldable pub drop_key : Text → List Entry → List Entry
drop_key key [] = []
drop_key key (x ∷ xs) = let rest = drop_key key xs in if x.key == key then rest else x ∷ rest

-- `m[key] = entry`.
unfoldable pub put : Entry → List Entry → List Entry
unfolding drop_key
put entry xs = entry ∷ drop_key entry.key xs

-- `purgeExpiredToolSignatures`.
unfoldable pub purge : ℕ → List Entry → List Entry
purge now xs = filter (λ x. ltb now x.expires_at) xs

-- The loop of `trimToolSignatures` over the entries: the first of those that were updated first.
unfoldable pub oldest_from : Entry → List Entry → Entry
oldest_from best [] = best
oldest_from best (x ∷ xs) = oldest_from (if ltb x.updated_at best.updated_at then x else best) xs

-- `trimToolSignatures`; the fuel is the number of entries.
unfoldable pub trim_from : ℕ → List Entry → List Entry
trim_from zero xs = xs
trim_from (suc fuel) [] = []
trim_from (suc fuel) (x ∷ xs) =
    let rest = trim_from fuel (drop_key (oldest_from x xs).key (x ∷ xs)) in
    if ltb max_tool_signature_entries (length (x ∷ xs)) then rest else x ∷ xs

unfoldable pub trim : List Entry → List Entry
unfolding trim_from
trim xs = trim_from (length xs) xs

pub record ToolCall : Type 0 where
  pub id : Text
  pub name : Text
  pub arguments : Text
  pub signature : Text

module _ (normal_json : Text → Option Text) (format : ℕ → Text) where
  unfoldable pub normalize_args : Text → Text
  normalize_args raw =
      let trimmed = trim_space raw in
      if trimmed == []
      then text "{}"
      else elim (normal_json trimmed) [ none ↦ trimmed | some normal ↦ normal ]

  unfoldable pub id_key : Text → Text
  id_key id = text "id:" ++ trim_space id

  unfoldable pub function_key : Text → Text → Text
  unfolding normalize_args
  function_key name args = text "fn:" ++ trim_space name ++ text ":" ++ normalize_args args

  unfoldable pub scope : AuthToken → Text → Text
  scope user model = route_session_storage_key format user (trim_space model) ++ text "::"

  -- The round of `rememberToolSignatures` for a call.
  unfoldable pub remember_call : Text → ℕ → ToolCall → List Entry → List Entry
  unfolding put id_key function_key
  remember_call sc now call xs =
      let id = trim_space call.id in
      let name = trim_space call.name in
      let ys = if id == [] then xs else put (new_entry (sc ++ id_key id) call.signature now) xs in
      let zs =
        if name == []
        then ys
        else put (new_entry (sc ++ function_key name call.arguments) call.signature now) ys in
      if call.signature == [] then xs else zs

  unfoldable pub remember_calls : Text → ℕ → List ToolCall → List Entry → List Entry
  remember_calls sc now [] xs = xs
  remember_calls sc now (call ∷ calls) xs =
      remember_calls sc now calls (remember_call sc now call xs)

  unfoldable pub remember_tool_signatures :
      AuthToken → Text → ℕ → List ToolCall → List Entry → List Entry
  unfolding purge trim scope
  remember_tool_signatures user model now [] xs = xs
  remember_tool_signatures user model now (call ∷ calls) xs =
      trim (remember_calls (scope user model) now (call ∷ calls) (purge now xs))

-- `toolSignature`: `shared` is what the shared cache says, `none` for an error. The empty text is no
-- signature.
unfoldable pub tool_signature : Text → ℕ → Option Text → List Entry → List Entry × Text
unfolding purge lookup put trim
tool_signature key now shared xs =
    let kept = purge now xs in
    elim (lookup key kept) [
      | some entry ↦ (kept, entry.signature)
      | none ↦ elim shared [
        | none ↦ (kept, [])
        | some signature ↦
            if signature == []
            then (kept, [])
            else (trim (put (new_entry key signature now) kept), signature)
      ]
    ]
