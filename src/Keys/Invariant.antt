-- ===== src/Keys/Invariant.antt =====
-- internal/key_state.go: what holds of the key state between two calls.
use buzzhive.Base.{
  ℕ, ◌+◌, ◌%◌, ◌≤◌, ◌<◌, ◌≡◌, refl, List, [], ◌∷◌, Bool, Map, Option, some, Text, text_eq, ◌==◌,
  if◌then◌else◌, inl, inr, Bool-cases, Option-cases, length, filter, sym, subst, ap, ◌∙◌, not, true,
  false, ltb, arith, get_elem?, zero, suc,
}
use native.Mathlib.Nat.{mod-lt}
use buzzhive.Base.Maps.{delete, delete_if}
use buzzhive.Base.Eq.{bytes_beq_iff}
use buzzhive.Base.Bytes.{clip, trim_space, length-clip_le, length-trim_space_le}
use buzzhive.Types.{ApiKey, KeyError, RouteTarget}
use buzzhive.Keys.{
  KeyState, cooldown_key, key_matches_target, is_cooling, advance, same_api_key, try_key, next_from,
  next_for, mark_exhausted_until, mark_redis_exhausted, mark_error, remove, clear_error,
  mark_healthy, flush, replace, snapshot_exhausted,
}

-- An error is filed under the model and the key that it names, with a message of 500 bytes at most.
pub record IsFiled (errors : Text → Option KeyError) : Type 0 where
  pub filed :
      (id : Text) (e : KeyError)
      → errors id ≡ some e
      → (id ≡ cooldown_key e.model e.key) × (length e.message ≤ 500)

pub record IsValid (k : KeyState) : Type 0 where
  pub in_range : 0 < length k.keys → k.next < length k.keys
  pub at_rest : length k.keys ≡ 0 → k.next ≡ 0
  pub errors_filed : IsFiled k.errors

-- The calls of the methods that change the state.
pub data Call : Type 0 where
  selects : Text → RouteTarget → ℕ → Call
  exhausts : Text → ApiKey → ℕ → ℕ → Call
  exhausts_shared : Text → ApiKey → ℕ → Bool → ℕ → Call
  fails : Text → ApiKey → ℕ → Text → ℕ → Call
  removes : ApiKey → Call
  clears : ApiKey → Call
  heals : Text → ApiKey → Call
  flushes : Call
  replaces : List ApiKey → Call
  snapshots : ℕ → Call

unfoldable pub step : KeyState → Call → KeyState
step k (selects model target now) = (next_for k model target now).0
step k (exhausts model key now jitter) = (mark_exhausted_until k model key now jitter).0
step k (exhausts_shared model key expires_at rpd now) =
    mark_redis_exhausted k model key expires_at rpd now
step k (fails model key status message now) = mark_error k model key status message now
step k (removes key) = remove k key
step k (clears key) = clear_error k key
step k (heals model key) = mark_healthy k model key
step k flushes = flush k
step k (replaces keys) = replace k keys
step k (snapshots now) = (snapshot_exhausted k now).0

unfoldable pub run : KeyState → List Call → KeyState
run k [] = k
run k (c ∷ cs) = run (step k c) cs

-- A selection keeps everything but the cursor and the cooldowns.
pub record Advanced (k k' : KeyState) : Type 0 where
  pub same_keys : k'.keys ≡ k.keys
  pub same_hits : k'.cooldown_hits ≡ k.cooldown_hits
  pub same_rpd : k'.rpd_cooldown ≡ k.rpd_cooldown
  pub same_cooldown : k'.cooldown ≡ k.cooldown
  pub same_errors : k'.errors ≡ k.errors
  pub next_ok : (k.next < length k.keys → k'.next < length k'.keys)
  pub next_rest : length k.keys ≡ 0 → k'.next ≡ k.next

get_elem?_lt : {A : Type 0} (xs : List A) (i : ℕ) {x : A} → get_elem? xs i ≡ some x → i < length xs
get_elem?_lt [] i h = cc
get_elem?_lt (x ∷ xs) zero h = omega arith
get_elem?_lt (x ∷ xs) (suc i) h = omega (arith, get_elem?_lt xs i h)

advance-Advanced :
    (k : KeyState) (model : Text) (key : ApiKey) (idx : ℕ)
    → idx < length k.keys
    → Advanced k (advance k model key idx)
advance-Advanced k model key idx h = record {
  same_keys = refl;
  same_hits = refl;
  same_rpd = refl;
  same_cooldown = refl;
  same_errors = refl;
  next_ok = λ _. mod-lt (idx + 1) (omega arith);
  next_rest = λ e. absurd (omega arith);
}

-- A round that selects found the key at its place, in scope of the target and not cooling.
pub try_key_inv :
    (k : KeyState) (model : Text) (target : RouteTarget) (now idx : ℕ) {k' : KeyState}
    {key : ApiKey}
    → try_key k model target now idx ≡ some (k', key)
    → (get_elem? k.keys idx ≡ some key)
      × (key_matches_target key target ≡ true)
      × (is_cooling (k.exhausted (cooldown_key model key.name)) now ≡ false)
      × (k' ≡ advance k model key idx)
unfolding try_key
try_key_inv k model target now idx h = ground arith

try_key-Advanced :
    (k : KeyState) (model : Text) (target : RouteTarget) (now idx : ℕ) {k' : KeyState}
    {key : ApiKey}
    → try_key k model target now idx ≡ some (k', key)
    → Advanced k k'
try_key-Advanced k model target now idx {key = key} h =
    let found = try_key_inv k model target now idx h in
    subst (Advanced k) (sym found.3)
      (advance-Advanced k model key idx (get_elem?_lt k.keys idx found.0))

pub next_from-Advanced :
    (rounds i : ℕ) (k : KeyState) (model : Text) (target : RouteTarget) (now : ℕ)
    → Advanced k (next_from rounds i k model target now).0
unfolding next_from
next_from-Advanced zero i k model target now = ground arith
next_from-Advanced (suc rounds) i k model target now =
    elim (Option-cases (try_key k model target now ((k.next + i) % length k.keys))) [
      | inl e ↦ rw (e, next_from) (next_from-Advanced rounds (i + 1) k model target now)
      | inr ((k', key), e) ↦ rw (e, next_from) (try_key-Advanced k model target now _ e)
    ]

select-IsValid :
    (k : KeyState) (model : Text) (target : RouteTarget) (now : ℕ)
    → IsValid k
    → IsValid (next_for k model target now).0
unfolding next_for
select-IsValid k model target now v =
    let a = next_from-Advanced (length k.keys) 0 k model target now in
    let same = ap length a.same_keys in
    record {
      in_range = λ h. a.next_ok (v.in_range (omega arith));
      at_rest = λ h. a.next_rest (omega arith) ∙ v.at_rest (omega arith);
      errors_filed = subst IsFiled (sym a.same_errors) v.errors_filed;
    }

-- A call that leaves the rotation alone.
of-IsValid :
    (k k' : KeyState)
    → k'.keys ≡ k.keys
    → k'.next ≡ k.next
    → IsFiled k'.errors
    → IsValid k
    → IsValid k'
of-IsValid k k' same_keys same_next filed v =
    let same = ap length same_keys in
    record {
      in_range = λ h. omega (arith, v.in_range (omega arith));
      at_rest = λ h. omega (arith, v.at_rest (omega arith));
      errors_filed = filed;
    }

IsFiled-insert :
    (errors : Text → Option KeyError) (model key message : Text) (status at : ℕ)
    → length message ≤ 500
    → IsFiled errors
    → IsFiled (λ j.
      if cooldown_key model key == j
      then some
          (record { key = key; model = model; status = status; message = message; updated_at = at })
      else errors j)
IsFiled-insert errors model key message status at short f = record {
  filed = λ id e h. ground (arith, bytes_beq_iff (cooldown_key model key) id, f.filed id e);
}

IsFiled-delete :
    (errors : Map Text KeyError) (id : Text) → IsFiled errors → IsFiled (delete id errors)
IsFiled-delete errors id f = record { filed = λ j e h. ground (arith, f.filed j e) }

IsFiled-delete_if :
    (errors : Map Text KeyError) (test : Text → KeyError → Bool)
    → IsFiled errors
    → IsFiled (delete_if test errors)
IsFiled-delete_if errors test f = record { filed = λ j e h. ground (arith, f.filed j e) }

pub exhaust_fields :
    (k : KeyState) (model : Text) (key : ApiKey) (now jitter : ℕ)
    → let k' = (mark_exhausted_until k model key now jitter).0 in
      (k'.keys ≡ k.keys)
      × (k'.next ≡ k.next)
      × (k'.errors ≡ delete (cooldown_key model key.name) k.errors)
unfolding mark_exhausted_until
exhaust_fields k model key now jitter = ground arith

pub exhaust-IsValid :
    (k : KeyState) (model : Text) (key : ApiKey) (now jitter : ℕ)
    → IsValid k
    → IsValid (mark_exhausted_until k model key now jitter).0
exhaust-IsValid k model key now jitter v =
    let same = exhaust_fields k model key now jitter in
    of-IsValid k _ same.0 same.1
      (subst IsFiled (sym same.2) (IsFiled-delete k.errors _ v.errors_filed)) v

share-IsValid :
    (k : KeyState) (model : Text) (key : ApiKey) (expires_at : ℕ) (rpd : Bool) (now : ℕ)
    → IsValid k
    → IsValid (mark_redis_exhausted k model key expires_at rpd now)
unfolding mark_redis_exhausted
share-IsValid k model key expires_at rpd now v = elim (Bool-cases (ltb expires_at now)) [
  | inl late ↦ rw late v
  | inr ahead ↦ rw ahead (of-IsValid k _ refl refl (IsFiled-delete k.errors _ v.errors_filed) v)
]

fail-IsValid :
    (k : KeyState) (model : Text) (key : ApiKey) (status : ℕ) (message : Text) (now : ℕ)
    → IsValid k
    → IsValid (mark_error k model key status message now)
unfolding mark_error
fail-IsValid k model key status message now v =
    of-IsValid k _ refl refl
      (IsFiled-insert k.errors model key.name (trim_space (clip 500 message)) status _
        (omega (arith, length-trim_space_le (clip 500 message), length-clip_le 500 message))
        v.errors_filed)
      v

pub remove-IsValid : (k : KeyState) (key : ApiKey) → IsValid k → IsValid (remove k key)
unfolding remove
remove-IsValid k key v =
    let left = filter (λ item. not (same_api_key item key)) k.keys in
    record {
      in_range = λ h. ground (arith, mod-lt k.next {m = length left});
      at_rest = λ h. ground arith;
      errors_filed = v.errors_filed;
    }

pub step-IsValid : (k : KeyState) (c : Call) → IsValid k → IsValid (step k c)
unfolding step clear_error mark_healthy flush replace snapshot_exhausted
step-IsValid k (selects model target now) v = select-IsValid k model target now v
step-IsValid k (exhausts model key now jitter) v = exhaust-IsValid k model key now jitter v
step-IsValid k (exhausts_shared model key expires_at rpd now) v =
    share-IsValid k model key expires_at rpd now v
step-IsValid k (fails model key status message now) v =
    fail-IsValid k model key status message now v
step-IsValid k (removes key) v = remove-IsValid k key v
step-IsValid k (clears key) v =
    of-IsValid k _ refl refl (IsFiled-delete_if k.errors _ v.errors_filed) v
step-IsValid k (heals model key) v =
    of-IsValid k _ refl refl (IsFiled-delete_if k.errors _ v.errors_filed) v
step-IsValid k flushes v = of-IsValid k _ refl refl v.errors_filed v
step-IsValid k (replaces keys) v = record {
  in_range = λ h. h;
  at_rest = λ _. refl;
  errors_filed = record { filed = λ id e h. cc };
}
step-IsValid k (snapshots now) v = of-IsValid k _ refl refl v.errors_filed v

-- After any history of calls from a valid state, the cursor is the place of a key (0 if there is no
-- key), and each error is filed under its own model and key with a message of at most 500 bytes.
pub run-IsValid : (k : KeyState) (calls : List Call) → IsValid k → IsValid (run k calls)
unfolding run
run-IsValid k [] v = v
run-IsValid k (c ∷ calls) v = run-IsValid (step k c) calls (step-IsValid k c v)
