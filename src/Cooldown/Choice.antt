-- ===== src/Cooldown/Choice.antt =====
-- internal/key_cooldown.go, `nextProviderKey`: the loop ends, takes only keys that nobody rests, and
-- gives up only if each key rests.
use buzzhive.Base.{
  ℕ, zero, suc, ◌%◌, ◌≤◌, ◌<◌, ◌≡◌, refl, sym, ap, subst, ◌∙◌, ◌⊎◌, inl, inr, List, [], ◌∷◌, Bool,
  true, false, Option, none, some, Text, text_eq, nat_eq, length, get_elem?, filter, ◌≢◌, arith,
  Bool-cases, Option-cases,
}
use buzzhive.Base.Eq.{bytes_beq_iff}
use buzzhive.Types.{ApiKey, RouteTarget, second}
use buzzhive.Cache.{key_cooldown}
use buzzhive.Keys.{KeyState, cooldown_key, is_cooling, next_for, advance, mark_redis_exhausted}
use buzzhive.Keys.Invariant.{IsValid, selects, exhausts_shared, step, step-IsValid}
use buzzhive.Keys.Selection.{eligible, Selected, nothing, chosen, next_for-Selected}
use buzzhive.Cooldown.{Environment, next_provider_key, redis_key_cooldown}

filter_mono :
    {A : Type 0} (p q : A → Bool) (xs : List A)
    → ((y : A) → q y ≡ true → p y ≡ true)
    → length (filter q xs) ≤ length (filter p xs)
filter_mono p q [] sub = omega arith
filter_mono p q (y ∷ xs) sub = ground (arith, filter_mono p q xs sub, sub y)

filter_strict :
    {A : Type 0} (p q : A → Bool) (xs : List A) (i : ℕ) (x : A)
    → ((y : A) → q y ≡ true → p y ≡ true)
    → get_elem? xs i ≡ some x
    → p x ≡ true
    → q x ≡ false
    → length (filter q xs) < length (filter p xs)
filter_strict p q [] i x sub at h g = cc
filter_strict p q (y ∷ xs) zero x sub at h g = ground (arith, filter_mono p q xs sub)
filter_strict p q (y ∷ xs) (suc i) x sub at h g =
    ground (arith, filter_strict p q xs i x sub at h g, sub y)

module _ (k : KeyState) (model : Text) (target : RouteTarget) (now : ℕ) where
  next_for_cases :
      IsValid k
      → ((next_for k model target now ≡ (k, none))
          × ((i : ℕ) (key : ApiKey)
              → get_elem? k.keys i ≡ some key
              → eligible k model target now key ≡ false))
        ⊎ ((i : ℕ) × (key : ApiKey) × (get_elem? k.keys i ≡ some key)
            × (eligible k model target now key ≡ true)
            × (next_for k model target now ≡ (advance k model key i, some key)))
  next_for_cases v = cases (next_for-Selected k model target now v)
    where
      cases :
          {r : KeyState × Option ApiKey}
          → Selected k model target now r
          → ((r ≡ (k, none))
              × ((i : ℕ) (key : ApiKey)
                  → get_elem? k.keys i ≡ some key
                  → eligible k model target now key ≡ false))
            ⊎ ((i : ℕ) × (key : ApiKey) × (get_elem? k.keys i ≡ some key)
                × (eligible k model target now key ≡ true)
                × (r ≡ (advance k model key i, some key)))
      cases (nothing all) = inl (refl, all)
      cases (chosen i key at good) = inr (i, key, at, good, refl)

  -- The state after a key turned out to rest for other processes.
  passed_over : ApiKey → ℕ → ℕ → Bool → KeyState
  passed_over key i expires_at rpd =
      mark_redis_exhausted (advance k model key i) model key expires_at rpd now

  module _ (key : ApiKey) (i expires_at : ℕ) (rpd : Bool) (ahead : now < expires_at) where
    passed_over-keys : (passed_over key i expires_at rpd).keys ≡ k.keys
    unfolding passed_over mark_redis_exhausted
    passed_over-keys = ground arith

    passed_over-rests : eligible (passed_over key i expires_at rpd) model target now key ≡ false
    unfolding passed_over mark_redis_exhausted eligible is_cooling
    passed_over-rests =
        ground (arith, bytes_beq_iff (cooldown_key model key.name) (cooldown_key model key.name))

    -- Who is eligible afterwards was so before.
    passed_over-sub :
        (y : ApiKey)
        → eligible (passed_over key i expires_at rpd) model target now y ≡ true
        → eligible k model target now y ≡ true
    unfolding passed_over mark_redis_exhausted eligible is_cooling
    passed_over-sub y h = ground arith

    -- And who is not any more goes by the same entry.
    passed_over-mate :
        (y : ApiKey)
        → eligible k model target now y ≡ true
        → eligible (passed_over key i expires_at rpd) model target now y ≡ false
        → cooldown_key model key.name ≡ cooldown_key model y.name
    unfolding passed_over mark_redis_exhausted eligible is_cooling
    passed_over-mate y h g =
        ground (arith, bytes_beq_iff (cooldown_key model key.name) (cooldown_key model y.name))

  passed_over-IsValid :
      (key : ApiKey) (i expires_at : ℕ) (rpd : Bool)
      → IsValid (advance k model key i)
      → IsValid (passed_over key i expires_at rpd)
  unfolding passed_over step
  passed_over-IsValid key i expires_at rpd v =
      step-IsValid (advance k model key i) (exhausts_shared model key expires_at rpd now) v

  selected-IsValid : IsValid k → IsValid (next_for k model target now).0
  unfolding step
  selected-IsValid v = step-IsValid k (selects model target now) v

-- How many keys this process would use.
unfoldable pub usable : KeyState → Text → RouteTarget → ℕ → ℕ
usable k model target now = length (filter (eligible k model target now) k.keys)

-- What a shared cooldown says: it is over at a whole second, and not before now.
module _ (e : Environment) where
  open e use {redis, hash, enabled}

  shared_rest_ahead :
      (st : redis.State) (target : RouteTarget) (key : ApiKey) (now : ℕ) {expires_at : ℕ}
      {rpd : Bool}
      → redis_key_cooldown e st target key now ≡ some (expires_at, rpd)
      → now % second ≢ 0
      → now < expires_at
  unfolding redis_key_cooldown key_cooldown
  shared_rest_ahead st target key now h off = ground arith

  module _ (st : redis.State) (model : Text) (target : RouteTarget) (now : ℕ)
      (off : now % second ≢ 0) where
    usable_falls :
        (k : KeyState) (i : ℕ) (key : ApiKey) (expires_at : ℕ) (rpd : Bool)
        → now < expires_at
        → get_elem? k.keys i ≡ some key
        → eligible k model target now key ≡ true
        → usable (passed_over k model target now key i expires_at rpd) model target now
          < usable k model target now
    unfolding usable
    usable_falls k i key expires_at rpd ahead at good =
        let left = passed_over k model target now key i expires_at rpd in
        omega (
          arith,
          ap (λ keys. length (filter (eligible left model target now) keys))
              (passed_over-keys k model target now key i expires_at rpd ahead),
          filter_strict (eligible k model target now) (eligible left model target now) k.keys i key
              (passed_over-sub k model target now key i expires_at rpd ahead) at good
              (passed_over-rests k model target now key i expires_at rpd ahead),
        )

    -- A round finds no key, takes one that the shared cache does not rest, or passes one over.
    data Round (k : KeyState) (fuel : ℕ) : Type 0 where
      gives_up :
          ((i : ℕ) (key : ApiKey)
            → get_elem? k.keys i ≡ some key
            → eligible k model target now key ≡ false)
          → next_provider_key e (suc fuel) k st model target now ≡ some (k, none)
          → Round k fuel
      takes :
          (i : ℕ) (key : ApiKey)
          → get_elem? k.keys i ≡ some key
          → eligible k model target now key ≡ true
          → redis_key_cooldown e st target key now ≡ none
          → next_provider_key e (suc fuel) k st model target now
            ≡ some (advance k model key i, some key)
          → IsValid (advance k model key i)
          → Round k fuel
      passes :
          (i : ℕ) (key : ApiKey) (expires_at : ℕ) (rpd : Bool)
          → get_elem? k.keys i ≡ some key
          → eligible k model target now key ≡ true
          → redis_key_cooldown e st target key now ≡ some (expires_at, rpd)
          → next_provider_key e (suc fuel) k st model target now
            ≡ next_provider_key e fuel
                (passed_over k model target now key i expires_at rpd)
                st
                model
                target
                now
          → IsValid (passed_over k model target now key i expires_at rpd)
          → Round k fuel

    round : (k : KeyState) (fuel : ℕ) → IsValid k → Round k fuel
    unfolding next_provider_key passed_over
    round k fuel v = elim (next_for_cases k model target now v) [
      | inl (picked, all) ↦ gives_up all (rw (picked, next_provider_key) (rw picked))
      | inr (i, key, at, good, picked) ↦
          let v' : IsValid (advance k model key i) =
            subst (λ (r : KeyState × Option ApiKey). IsValid r.0) picked
              (selected-IsValid k model target now v) in
          elim (Option-cases (redis_key_cooldown e st target key now)) [
            | inl free ↦
                takes i key at good free (rw (picked, next_provider_key) (rw free (rw picked))) v'
            | inr ((expires_at, rpd), rests) ↦
                passes i key expires_at rpd at good rests
                  (rw (picked, next_provider_key) (rw rests (rw picked)))
                  (passed_over-IsValid k model target now key i expires_at rpd v')
          ]
    ]

    -- At an instant that is no whole second, from a valid state, and with fuel for one round more than
    -- keys are eligible, the loop ends, in a valid state.
    pub next_provider_key_total :
        (fuel : ℕ) (k : KeyState)
        → IsValid k
        → usable k model target now < fuel
        → (k' : KeyState) × (r : Option ApiKey) × (next_provider_key e fuel k st model target now
            ≡ some (k', r))
          × IsValid k'
    next_provider_key_total zero k v h = elim h [ ]
    next_provider_key_total (suc fuel) k v h = elim (round k fuel v) [
      | gives_up _ e ↦ (k, none, e, v)
      | takes i key _ _ _ e v' ↦ (advance k model key i, some key, e, v')
      | passes i key expires_at rpd at good rests e v' ↦
          let ahead = shared_rest_ahead st target key now rests off in
          let less = usable_falls k i key expires_at rpd ahead at good in
          let (k', r, f, v'') =
            next_provider_key_total fuel (passed_over k model target now key i expires_at rpd) v'
              (omega arith) in
          (k', r, e ∙ f, v'')
    ]

    -- At an instant that is no whole second and from a valid state, a key that the loop returns is one of
    -- the state's, for the target, with no cooldown here or in the shared cache.
    pub next_provider_key_sound :
        (fuel : ℕ) (k : KeyState) {k' : KeyState} {key : ApiKey}
        → IsValid k
        → next_provider_key e fuel k st model target now ≡ some (k', some key)
        → (i : ℕ) × (get_elem? k.keys i ≡ some key)
          × (eligible k model target now key ≡ true)
          × (redis_key_cooldown e st target key now ≡ none)
    unfolding next_provider_key
    next_provider_key_sound zero k v h = cc
    next_provider_key_sound (suc fuel) k {key = key} v h = elim (round k fuel v) [
      | gives_up _ e ↦ cc
      | takes i x at good free e v' ↦
          (i, ground (arith, e, h), ground (arith, e, h), ground (arith, e, h))
      | passes i x expires_at rpd at good rests e v' ↦
          let ahead = shared_rest_ahead st target x now rests off in
          let left = passed_over k model target now x i expires_at rpd in
          let (j, at', good', free) = next_provider_key_sound fuel left v' (sym e ∙ h) in
          (
            j,
            ap (λ keys. get_elem? keys j)
                  (sym (passed_over-keys k model target now x i expires_at rpd ahead))
                ∙ at',
            passed_over-sub k model target now x i expires_at rpd ahead key good',
            free,
          )
    ]

    -- If at an instant that is no whole second the loop returns no key from a valid state, each key of the
    -- state that this process would use has the cooldown entry of a key that is one of the state's too,
    -- that this process would use, and that the shared cache rests.
    pub next_provider_key_exhausted :
        (fuel : ℕ) (k : KeyState) {k' : KeyState} (i : ℕ) (y : ApiKey)
        → IsValid k
        → next_provider_key e fuel k st model target now ≡ some (k', none)
        → get_elem? k.keys i ≡ some y
        → eligible k model target now y ≡ true
        → (j : ℕ) × (x : ApiKey) × (rest : ℕ × Bool) × (get_elem? k.keys j ≡ some x)
          × (eligible k model target now x ≡ true)
          × (cooldown_key model x.name ≡ cooldown_key model y.name)
          × (redis_key_cooldown e st target x now ≡ some rest)
    unfolding next_provider_key
    next_provider_key_exhausted zero k i y v h at good = cc
    next_provider_key_exhausted (suc fuel) k i y v h at good = elim (round k fuel v) [
      | gives_up all _ ↦ cc (all i y at)
      | takes j x _ _ _ e v' ↦ absurd (cc)
      | passes j x expires_at rpd found usable_ rests e v' ↦
          let ahead = shared_rest_ahead st target x now rests off in
          let left = passed_over k model target now x j expires_at rpd in
          let same_keys = passed_over-keys k model target now x j expires_at rpd ahead in
          elim (Bool-cases (eligible left model target now y)) [
            | inl still ↦
                let (l, z, rest, listed, free, mate, resting) =
                  next_provider_key_exhausted fuel left i y v' (sym e ∙ h)
                    (ap (λ keys. get_elem? keys i) same_keys ∙ at) still in
                (
                  l,
                  z,
                  rest,
                  ap (λ keys. get_elem? keys l) (sym same_keys) ∙ listed,
                  passed_over-sub k model target now x j expires_at rpd ahead z free,
                  mate,
                  resting,
                )
            | inr gone ↦ (
              j,
              x,
              (expires_at, rpd),
              found,
              usable_,
              passed_over-mate k model target now x j expires_at rpd ahead y good gone,
              rests,
            )
          ]
    ]
