-- ===== src/Keys/Selection.antt =====
-- internal/key_state.go, `NextFor`: the scan over indices modulo the number of keys is a search in the
-- rotation of the keys.
use mathlib.Core.List.{append_assoc, append-nil}
use native.Mathlib.Nat.{mod-eq_of_lt, add-mod_left}
use buzzhive.Base.{
  ℕ, zero, suc, ◌+◌, ◌%◌, ◌≤◌, ◌<◌, ◌≡◌, refl, sym, ap, ◌∙◌, ◌++◌, List, [], ◌∷◌, Bool, true, false,
  not, ◌&&◌, Option, none, some, Text, inl, inr, ◌⊎◌, subst, Option-cases, length, get_elem?, take,
  drop, find, length-append, length-take, length-drop, take-append-drop, arith, if◌then◌else◌,
}
use buzzhive.Types.{ApiKey, RouteTarget}
use buzzhive.Keys.{
  KeyState, cooldown_key, key_matches_target, is_cooling, advance, try_key, next_from, next_for,
}
use buzzhive.Keys.Invariant.{IsValid, try_key_inv}

-- A key that a request may use: in scope of the target, and with no cooldown that is not over.
unfoldable pub eligible : KeyState → Text → RouteTarget → ℕ → ApiKey → Bool
eligible k model target now key =
    key_matches_target key target
    && not (is_cooling (k.exhausted (cooldown_key model key.name)) now)

-- The keys from the cursor on, and then those before it.
unfoldable pub rotation : KeyState → List ApiKey
rotation k = drop k.next k.keys ++ take k.next k.keys

pub try_key_lem :
    (k : KeyState) (model : Text) (target : RouteTarget) (now idx : ℕ) (key : ApiKey)
    → get_elem? k.keys idx ≡ some key
    → try_key k model target now idx
      ≡ (if eligible k model target now key then some (advance k model key idx, key) else none)
unfolding try_key eligible
try_key_lem k model target now idx key h = ground arith

get_elem?-middle :
    {A : Type 0} (xs : List A) (y : A) (zs : List A) → get_elem? (xs ++ y ∷ zs) (length xs) ≡ some y
get_elem?-middle [] y zs = refl
get_elem?-middle (x ∷ xs) y zs = get_elem?-middle xs y zs

abbrev or_else : {A : Type 0} → Option A → Option A → Option A
or_else none b = b
or_else (some a) b = some a

find-append :
    {A : Type 0} (test : A → Bool) (xs ys : List A)
    → find test (xs ++ ys) ≡ or_else (find test xs) (find test ys)
find-append test [] ys = refl
find-append test (x ∷ xs) ys = ground (arith, find-append test xs ys)

pub find-none :
    {A : Type 0} (test : A → Bool) (xs : List A) (i : ℕ) (x : A)
    → find test xs ≡ none
    → get_elem? xs i ≡ some x
    → test x ≡ false
find-none test [] i x e h = cc
find-none test (y ∷ xs) zero x e h = ground arith
find-none test (y ∷ xs) (suc i) x e h = ground (arith, find-none test xs i x)

module _ (k : KeyState) (model : Text) (target : RouteTarget) (now : ℕ) where
  -- The rounds that run over a stretch of the keys search that stretch.
  place_of :
      (before : List ApiKey) (key : ApiKey) (rest : List ApiKey) (i : ℕ)
      → k.keys ≡ before ++ key ∷ rest
      → (k.next + i) % length k.keys ≡ length before
      → try_key k model target now ((k.next + i) % length k.keys) ≡ (
          if eligible k model target now key
          then some (advance k model key ((k.next + i) % length k.keys), key)
          else none)
  place_of before key rest i e at =
      try_key_lem k model target now _ key
        (rw at (ap (λ xs. get_elem? xs (length before)) e ∙ get_elem?-middle before key rest))

  modulo : (i j : ℕ) → i ≡ j → (k.next + i) % length k.keys ≡ (k.next + j) % length k.keys
  modulo i j e = ap (λ t. (k.next + t) % length k.keys) e

  scan_stretch :
      (before stretch after : List ApiKey) (i more : ℕ)
      → k.keys ≡ before ++ (stretch ++ after)
      → ((j : ℕ) → j < length stretch → (k.next + (i + j)) % length k.keys ≡ length before + j)
      → (next_from (length stretch + more) i k model target now).1
        ≡ or_else
            (find (eligible k model target now) stretch)
            (next_from more (i + length stretch) k model target now).1
  unfolding next_from
  scan_stretch before [] after i more e place =
      let left : 0 + more ≡ more = omega arith in
      let right : i + 0 ≡ i = omega arith in rw (left, right)
  scan_stretch before (key ∷ stretch) after i more e place =
      let left : suc (length stretch) + more ≡ suc (length stretch + more) = omega arith in
      let right : i + suc (length stretch) ≡ i + 1 + length stretch = omega arith in
      let at : (k.next + i) % length k.keys ≡ length before =
        omega (arith, place 0 (omega arith), modulo (i + 0) i (omega arith)) in
      let here = place_of before key (stretch ++ after) i e at in
      let later =
        scan_stretch (before ++ key ∷ []) stretch after (i + 1) more
          (e ∙ sym (append_assoc before (key ∷ []) (stretch ++ after)))
          (λ j h. omega (
            arith,
            place (suc j) (omega arith),
            modulo (i + suc j) (i + 1 + j) (omega arith),
            length-append before (key ∷ []),
          )) in
      rw (left, right) (ground (arith, here, later))

  next_le : IsValid k → k.next ≤ length k.keys
  next_le v = ground arith

  from_cursor :
      IsValid k
      → (j : ℕ) → j < length (drop k.next k.keys)
      → (k.next + (0 + j)) % length k.keys ≡ length (take k.next k.keys) + j
  from_cursor v j h =
      let ahead : k.next + (0 + j) < length k.keys =
        omega (arith, next_le v, length-drop k.next k.keys) in
      omega (arith, next_le v, mod-eq_of_lt ahead, length-take k.next k.keys)

  from_start :
      IsValid k
      → (j : ℕ) → j < length (take k.next k.keys)
      → (k.next + (length (drop k.next k.keys) + j)) % length k.keys ≡ 0 + j
  from_start v j h =
      let wrapped : k.next + (length (drop k.next k.keys) + j) ≡ length k.keys + j =
        omega (arith, next_le v, length-drop k.next k.keys) in
      let short : j < length k.keys = omega (arith, next_le v, length-take k.next k.keys) in
      ap (λ t. t % length k.keys) wrapped
      ∙ add-mod_left (length k.keys) j
      ∙ mod-eq_of_lt short
      ∙ omega arith

  -- From a valid state the scan returns the first eligible key of the rotation, which starts at the
  -- cursor; it returns nothing exactly when no key of the rotation is eligible.
  pub next_for-find :
      IsValid k → (next_for k model target now).1 ≡ find (eligible k model target now) (rotation k)
  unfolding next_for rotation next_from
  next_for-find v =
      let front = take k.next k.keys in
      let back = drop k.next k.keys in
      let parts = sym (take-append-drop k.next k.keys) in
      let total : length k.keys ≡ length back + (length front + 0) =
        omega (arith, ap length parts, length-append front back) in
      let first =
        scan_stretch front back [] 0 (length front + 0)
          (parts ∙ ap (◌++◌ front) (sym (append-nil back))) (from_cursor v) in
      let second = scan_stretch [] front back (length back) 0 parts (from_start v) in
      rw (ap (λ n. (next_from n 0 k model target now).1) total)
        (ground (arith, first, second, find-append (eligible k model target now) back front))

  -- What a selection did: the state and the key that it returned.
  pub data Selected : KeyState × Option ApiKey → Type 0 where
    nothing :
        ((i : ℕ) (key : ApiKey)
          → get_elem? k.keys i ≡ some key
          → eligible k model target now key ≡ false)
        → Selected (k, none)
    chosen :
        (i : ℕ) (key : ApiKey)
        → get_elem? k.keys i ≡ some key
        → eligible k model target now key ≡ true
        → Selected (advance k model key i, some key)

  scan_outcome :
      (rounds i : ℕ)
      → let r = next_from rounds i k model target now in
        (r ≡ (k, none))
        ⊎ ((idx : ℕ) × (key : ApiKey) × (get_elem? k.keys idx ≡ some key)
            × (eligible k model target now key ≡ true)
            × (r ≡ (advance k model key idx, some key)))
  unfolding next_from eligible
  scan_outcome zero i = inl refl
  scan_outcome (suc rounds) i =
      let at = (k.next + i) % length k.keys in
      elim (Option-cases (try_key k model target now at)) [
        | inl e ↦ rw (e, next_from) (scan_outcome rounds (i + 1))
        | inr ((k', key), e) ↦
            let found = try_key_inv k model target now at e in
            inr
              (at, key, found.0, ground (arith, found.1, found.2), rw (e, next_from) (rw (found.3)))
      ]

  -- A call from a valid state either leaves the state as it was, and then no key is eligible, or
  -- returns an eligible key, moves the cursor behind it and drops its own cooldown, if it had one.
  pub next_for-Selected : IsValid k → Selected (next_for k model target now)
  unfolding next_for rotation
  next_for-Selected v = elim (scan_outcome (length k.keys) 0) [
    | inl e ↦ subst Selected (sym e) (
        nothing λ i key h.
          let searched = sym (next_for-find v) ∙ ap (λ (r : KeyState × Option ApiKey). r.1) e in
          let test = eligible k model target now in
          let apart = find-append test (drop k.next k.keys) (take k.next k.keys) in
          let whole = find-append test (take k.next k.keys) (drop k.next k.keys) in
          let all : find test k.keys ≡ none =
            ap (find test) (sym (take-append-drop k.next k.keys))
            ∙ ground (arith, searched, apart, whole) in
          find-none test k.keys i key all h)
    | inr (i, key, at, good, e) ↦ subst Selected (sym e) (chosen i key at good)
  ]
