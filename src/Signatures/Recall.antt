-- ===== src/Signatures/Recall.antt =====
-- internal/tool_signatures.go: what the table of signatures gives out, and until when.
use buzzhive.Base.{
  ℕ, suc, ◌+◌, ◌≤◌, ◌<◌, ◌≡◌, ◌≢◌, refl, sym, subst, ap, ◌∙◌, inl, inr, List, [], ◌∷◌, ◌++◌, Bool,
  true, ◌&&◌, ◌⊎◌, Option, none, some, Text, text_eq, ◌==◌, ltb, arith, Bool-cases, option_elim,
  if_elim, Option-cases, get_elem?, length, length-filter_le, if◌then◌else◌,
}
use buzzhive.Base.Eq.{bytes_beq_iff}
use buzzhive.Base.Bytes.{trim_space}
use buzzhive.Types.{AuthToken}
use buzzhive.Signatures.{
  Entry, ToolCall, lookup, drop_key, put, purge, trim, new_entry, max_tool_signature_entries,
  tool_signature_ttl, scope, id_key, function_key, remember_call, remember_calls,
  remember_tool_signatures, tool_signature,
}
use buzzhive.Signatures.Bounds.{length-drop_key_le, trim_same}

lookup-filter :
    (key : Text) (now : ℕ) (xs : List Entry) {y : Entry}
    → lookup key (purge now xs) ≡ some y
    → (i : ℕ) × (get_elem? xs i ≡ some y) × (y.key ≡ key) × (now < y.expires_at)
unfolding lookup purge
lookup-filter key now [] h = absurd (ground arith)
lookup-filter key now (x ∷ xs) {y = y} h = elim (Bool-cases (ltb now x.expires_at)) [
  | inl live ↦ elim (Bool-cases (x.key == key)) [
    | inl here ↦
        let same : x ≡ y = ground arith in
        (
          0,
          ap some same,
          sym (ap (λ (e : Entry). e.key) same) ∙ ground (arith, bytes_beq_iff x.key key),
          subst (λ (e : Entry). now < e.expires_at) same (ground arith),
        )
    | inr there ↦
        let later : lookup key (purge now xs) ≡ some y = ground arith in
        let (i, at, named, live_) = lookup-filter key now xs later in (suc i, at, named, live_)
  ]
  | inr dead ↦
      let later : lookup key (purge now xs) ≡ some y = ground arith in
      let (i, at, named, live_) = lookup-filter key now xs later in (suc i, at, named, live_)
]

tool_signature_hit :
    (key : Text) (now : ℕ) (shared : Option Text) (xs : List Entry) {y : Entry}
    → lookup key (purge now xs) ≡ some y
    → (tool_signature key now shared xs).1 ≡ y.signature
unfolding tool_signature
tool_signature_hit key now shared xs found = rw (found, tool_signature) refl

length-purge_le : (now : ℕ) (xs : List Entry) → length (purge now xs) ≤ length xs
unfolding purge
length-purge_le now xs = length-filter_le (λ (x : Entry). ltb now x.expires_at) xs

-- A signature that is given out without the shared cache is one of the table's, under the key, and not
-- expired.
pub tool_signature_live :
    (key : Text) (now : ℕ) (xs : List Entry)
    → (tool_signature key now none xs).1 ≢ []
    → (i : ℕ) × (y : Entry) × (get_elem? xs i ≡ some y)
      × (y.key ≡ key)
      × (now < y.expires_at)
      × ((tool_signature key now none xs).1 ≡ y.signature)
unfolding tool_signature
tool_signature_live key now xs given = elim (Option-cases (lookup key (purge now xs))) [
  | inl absent ↦ absurd (given (rw (absent, tool_signature) refl))
  | inr (y, found) ↦
      let (i, at, named, live) = lookup-filter key now xs found in
      (i, y, at, named, live, rw (found, tool_signature) refl)
]

lookup-drop_key :
    (key other : Text) (xs : List Entry)
    → other ≢ key
    → lookup key (drop_key other xs) ≡ lookup key xs
unfolding lookup drop_key
lookup-drop_key key other [] h = refl
lookup-drop_key key other (x ∷ xs) h =
    ground
      (arith, lookup-drop_key key other xs h, bytes_beq_iff x.key key, bytes_beq_iff x.key other)

-- The table has the signature under the key, up to an instant.
abbrev Holds : Text → ℕ → Text → List Entry → Type 0
Holds key end signature xs =
    (y : Entry) × (lookup key xs ≡ some y) × (y.signature ≡ signature) × (y.expires_at ≡ end)

put-Holds_head :
    (entry : Entry) (xs : List Entry)
    → Holds entry.key entry.expires_at entry.signature (put entry xs)
unfolding lookup put
put-Holds_head entry xs = (entry, ground (arith, bytes_beq_iff entry.key entry.key), refl, refl)

put-Holds_apart :
    (key : Text) (end : ℕ) (signature : Text) (entry : Entry) (xs : List Entry)
    → entry.key ≢ key
    → Holds key end signature xs
    → Holds key end signature (put entry xs)
unfolding lookup put
put-Holds_apart key end signature entry xs apart (y, found, same, until) = (
  y,
  ground (arith, found, lookup-drop_key key entry.key xs apart, bytes_beq_iff entry.key key),
  same,
  until,
)

put-Holds :
    (key : Text) (entry : Entry) (xs : List Entry)
    → Holds key entry.expires_at entry.signature xs
    → Holds key entry.expires_at entry.signature (put entry xs)
put-Holds key entry xs h = elim (Bool-cases (entry.key == key)) [
  | inl here ↦
      let same : entry.key ≡ key = ground (arith, here, bytes_beq_iff entry.key key) in
      subst (λ k. Holds k entry.expires_at entry.signature (put entry xs)) same
        (put-Holds_head entry xs)
  | inr there ↦
      put-Holds_apart key entry.expires_at entry.signature entry xs
        (λ e. ground (arith, there, bytes_beq_iff entry.key key)) h
]

purge-Holds :
    (key : Text) (end now : ℕ) (signature : Text) (xs : List Entry)
    → now < end
    → Holds key end signature xs
    → Holds key end signature (purge now xs)
unfolding lookup purge
purge-Holds key end now signature [] soon (y, found, same, until) = absurd (ground (arith, found))
purge-Holds key end now signature (x ∷ xs) soon (y, found, same, until) =
    elim (Bool-cases (x.key == key)) [
      | inl here ↦
          let it : x ≡ y = ground arith in
          let live : now < x.expires_at =
            omega (arith, soon, until, ap (λ (e : Entry). e.expires_at) it) in
          (y, ground (arith, here, it, live), same, until)
      | inr there ↦
          let (z, kept, same', until') =
            purge-Holds key end now signature xs soon
              (y, ground (arith, found, there), same, until) in
          (z, ground (arith, there, kept), same', until')
    ]

-- A look-up: the key, the instant and the answer of the shared cache.
abbrev pub LookUp : Type 0
LookUp = Text × ℕ × Option Text

unfoldable pub look_up_all : List LookUp → List Entry → List Entry
look_up_all [] xs = xs
look_up_all ((key, now, shared) ∷ more) xs = look_up_all more (tool_signature key now shared xs).0

unfoldable pub all_before : ℕ → List LookUp → Bool
all_before end [] = true
all_before end ((key, now, shared) ∷ more) = ltb now end && all_before end more

length-put_le : (entry : Entry) (xs : List Entry) → length (put entry xs) ≤ length xs + 1
unfolding put
length-put_le entry xs = omega (arith, length-drop_key_le entry.key xs)

-- A look-up leaves what is not expired, and may add what the shared cache knows under a key that is missing.
tool_signature_cases :
    (key : Text) (now : ℕ) (shared : Option Text) (xs : List Entry)
    → ((tool_signature key now shared xs).0 ≡ purge now xs)
      ⊎ ((signature : Text) × (lookup key (purge now xs) ≡ none)
          × ((tool_signature key now shared xs).0
              ≡ trim (put (new_entry key signature now) (purge now xs))))
unfolding tool_signature
tool_signature_cases key now shared xs =
    option_elim Stays (lookup key (purge now xs))
      (λ missing.
        option_elim Stays shared (λ _. inl refl)
          (λ signature _.
            if_elim Stays (signature == []) (λ _. inl refl) (λ _. inr (signature, missing, refl))))
      (λ y found. inl refl)
  where
    Stays : List Entry × Text → Type 0
    Stays r =
        (r.0 ≡ purge now xs)
        ⊎ ((signature : Text) × (lookup key (purge now xs) ≡ none)
            × (r.0 ≡ trim (put (new_entry key signature now) (purge now xs))))

length-tool_signature_le :
    (key : Text) (now : ℕ) (shared : Option Text) (xs : List Entry)
    → length xs + 1 ≤ max_tool_signature_entries
    → length (tool_signature key now shared xs).0 ≤ length xs + 1
length-tool_signature_le key now shared xs room =
    let fewer = length-purge_le now xs in
    elim (tool_signature_cases key now shared xs) [
      | inl same ↦ omega (arith, fewer, ap (λ (t : List Entry). length t) same)
      | inr (signature, missing, added) ↦
          let table = put (new_entry key signature now) (purge now xs) in
          let more : length table ≤ length xs + 1 =
            omega (arith, fewer, length-put_le (new_entry key signature now) (purge now xs)) in
          omega (
            arith,
            more,
            ap (λ (t : List Entry). length t) (added ∙ trim_same table (omega (arith, more, room))),
          )
    ]

tool_signature-Holds :
    (held : Text) (end : ℕ) (signature : Text) (key : Text) (now : ℕ) (shared : Option Text)
    (xs : List Entry)
    → now < end
    → length xs + 1 ≤ max_tool_signature_entries
    → Holds held end signature xs
    → Holds held end signature (tool_signature key now shared xs).0
tool_signature-Holds held end signature key now shared xs soon room h =
    let kept = purge-Holds held end now signature xs soon h in
    elim (tool_signature_cases key now shared xs) [
      | inl same ↦ rw same kept
      | inr (given, missing, added) ↦
          let entry = new_entry key given now in
          let table = put entry (purge now xs) in
          let fits : length table ≤ max_tool_signature_entries =
            omega (arith, room, length-purge_le now xs, length-put_le entry (purge now xs)) in
          let apart : key ≢ held =
            λ same. absurd (cc (missing, kept.1, ap (λ k. lookup k (purge now xs)) same)) in
          rw (added ∙ trim_same table fits)
            (put-Holds_apart held end signature entry (purge now xs) apart kept)
    ]

look_up_all-Holds :
    (held : Text) (end : ℕ) (signature : Text) (more : List LookUp) (xs : List Entry)
    → all_before end more ≡ true
    → length xs + length more ≤ max_tool_signature_entries
    → Holds held end signature xs
    → Holds held end signature (look_up_all more xs)
unfolding look_up_all all_before
look_up_all-Holds held end signature [] xs soon room h = h
look_up_all-Holds held end signature ((key, now, shared) ∷ more) xs soon room h =
    look_up_all-Holds held end signature more (tool_signature key now shared xs).0 (ground arith)
      (omega (arith, length-tool_signature_le key now shared xs (omega arith)))
      (tool_signature-Holds held end signature key now shared xs (ground arith) (omega arith) h)

module _ (normal_json : Text → Option Text) (format : ℕ → Text) where
  remember_call_lem :
      (sc : Text) (now : ℕ) (call : ToolCall) (xs : List Entry)
      → trim_space call.id ≢ []
      → call.signature ≢ []
      → remember_call normal_json format sc now call xs ≡ (
          let base =
            put
              (new_entry (sc ++ id_key normal_json format (trim_space call.id)) call.signature now)
              xs in
          if trim_space call.name == []
          then base
          else put
              (new_entry
                (sc ++ function_key normal_json format (trim_space call.name) call.arguments)
                call.signature
                now)
              base)
  unfolding remember_call
  remember_call_lem sc now call xs named signed =
      ground (arith, bytes_beq_iff (trim_space call.id) [], bytes_beq_iff call.signature [])

  length-remember_call_le :
      (sc : Text) (now : ℕ) (call : ToolCall) (xs : List Entry)
      → trim_space call.id ≢ []
      → call.signature ≢ []
      → length (remember_call normal_json format sc now call xs) ≤ length xs + 2
  length-remember_call_le sc now call xs named signed =
      let base =
        put (new_entry (sc ++ id_key normal_json format (trim_space call.id)) call.signature now)
          xs in
      let extra =
        new_entry (sc ++ function_key normal_json format (trim_space call.name) call.arguments)
          call.signature now in
      rw (remember_call_lem sc now call xs named signed)
        (elim (Bool-cases (trim_space call.name == [])) [
          | inl nameless ↦ rw nameless (
              omega (
                arith,
                length-put_le
                    (new_entry (sc ++ id_key normal_json format (trim_space call.id)) call.signature
                      now)
                    xs,
              ))
          | inr known ↦ rw known (
              omega (
                arith,
                length-put_le
                    (new_entry (sc ++ id_key normal_json format (trim_space call.id)) call.signature
                      now)
                    xs,
                length-put_le extra base,
              ))
        ])

  remember_call-Holds :
      (sc : Text) (now : ℕ) (call : ToolCall) (xs : List Entry)
      → trim_space call.id ≢ []
      → call.signature ≢ []
      → Holds
          (sc ++ id_key normal_json format (trim_space call.id))
          (now + tool_signature_ttl)
          call.signature
          (remember_call normal_json format sc now call xs)
  remember_call-Holds sc now call xs named signed =
      let key = sc ++ id_key normal_json format (trim_space call.id) in
      let entry = new_entry key call.signature now in
      let extra =
        new_entry (sc ++ function_key normal_json format (trim_space call.name) call.arguments)
          call.signature now in
      let given = put-Holds_head entry xs in
      subst (Holds key (now + tool_signature_ttl) call.signature)
        (sym (remember_call_lem sc now call xs named signed))
        (elim (Bool-cases (trim_space call.name == [])) [
          | inl nameless ↦ rw nameless given
          | inr known ↦ rw known (put-Holds key extra (put entry xs) given)
        ])

  -- The signature of a call with an identifier is given back under that identifier, for the user and model
  -- that it was remembered for, at any instant before 24 hours are over, whatever look-ups before their end
  -- come in between and whatever the shared cache answers; if the entries of the table before and the look-ups
  -- in between are 4094 at most, and no other signature is remembered.
  pub remembered_signature :
      (user : AuthToken) (model : Text) (now later : ℕ) (call : ToolCall) (shared : Option Text)
      (xs : List Entry) (between : List LookUp)
      → trim_space call.id ≢ []
      → call.signature ≢ []
      → all_before (now + tool_signature_ttl) between ≡ true
      → later < now + tool_signature_ttl
      → length xs + 2 + length between ≤ max_tool_signature_entries
      → (tool_signature
          (scope normal_json format user model ++ id_key normal_json format (trim_space call.id))
          later
          shared
          (look_up_all between
            (remember_tool_signatures normal_json format user model now (call ∷ []) xs))).1
        ≡ call.signature
  unfolding remember_tool_signatures remember_calls
  remembered_signature user model now later call shared xs between named signed before soon room =
      let sc = scope normal_json format user model in
      let key = sc ++ id_key normal_json format (trim_space call.id) in
      let end = now + tool_signature_ttl in
      let kept = purge now xs in
      let table = remember_call normal_json format sc now call kept in
      let fewer : length kept ≤ length xs = length-purge_le now xs in
      let few : length table ≤ length kept + 2 =
        length-remember_call_le sc now call kept named signed in
      let fits : length table ≤ max_tool_signature_entries = omega arith in
      let held =
        look_up_all-Holds key end call.signature between table before (omega arith)
          (remember_call-Holds sc now call kept named signed) in
      let (y, found, same, _) =
        purge-Holds key end later call.signature (look_up_all between table) soon held in
      rw (trim_same table fits)
        (tool_signature_hit key later shared (look_up_all between table) found ∙ same)
