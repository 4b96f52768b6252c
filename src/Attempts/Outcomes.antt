-- ===== src/Attempts/Outcomes.antt =====
-- internal/provider.go: the loops of a request end, with the key state still valid.
use buzzhive.Base.{
  ℕ, zero, suc, ◌+◌, ◌-◌, ◌%◌, ◌<◌, ◌≡◌, refl, subst, inl, inr, List, [], ◌∷◌, ◌++◌, Bool, true,
  ◌||◌, Option, none, some, Text, ◌==◌, nat_eq, text_eq, leb, length, length-filter_le, arith,
  Bool-cases, Option-cases, ◌≢◌, if◌then◌else◌,
}
use buzzhive.Types.{ApiKey, RouteTarget, second, cooldown_model}
use buzzhive.Keys
use buzzhive.Keys.{KeyState}
use buzzhive.Keys.Invariant.{
  IsValid, exhausts, exhausts_shared, fails, removes, heals, snapshots, step, step-IsValid,
}
use buzzhive.Keys.Selection.{eligible}
use buzzhive.Cache.{mark_key_exhausted}
use buzzhive.Cooldown.{
  Response, Reply, broken, answered, Environment, World, mark_provider_key_exhausted,
  mark_provider_key_healthy, key_cooldown_storage_key,
}
use buzzhive.Cooldown.Choice.{usable, next_provider_key_total}
use buzzhive.Attempts.Bounds.{Verdict-cases}
use buzzhive.Attempts.{
  Attempted, Note, all_keys_cooling, Verdict, retry, done, judge, record_failure, note_error,
  refresh, disable_api_key, disables, drained, failure, or_last, no_provider, attempt_loop,
  attempt_limit, do_provider_attempt_loop, target_loop,
}

module _ (e : Environment) where
  open e use {redis, hash, enabled, clock, jitter, forward, disable_fails}

  exhausted-IsValid :
      (w : World e) (model : Text) (target : RouteTarget) (key : ApiKey) (now delay : ℕ)
      → IsValid w.keys
      → IsValid (mark_provider_key_exhausted e w model target key now delay).keys
  unfolding mark_provider_key_exhausted step
  exhausted-IsValid w model target key now delay v =
      let v₁ = step-IsValid w.keys (exhausts model key now delay) v in
      let k = (Keys.mark_exhausted_until w.keys model key now delay).0 in
      let answer =
        mark_key_exhausted redis hash enabled w.shared (key_cooldown_storage_key e target key)
          k.cooldown k.rpd_cooldown now in
      elim (Option-cases answer.1) [
        | inl failed ↦
            rw (failed, mark_provider_key_exhausted)
              (step-IsValid k
                (exhausts_shared model key (Keys.mark_exhausted_until w.keys model key now delay).1
                  (Keys.mark_exhausted_until w.keys model key now delay).2 now)
                v₁)
        | inr ((expires_at, rpd), given) ↦
            rw (given, mark_provider_key_exhausted)
              (step-IsValid k (exhausts_shared model key expires_at rpd now) v₁)
      ]

  disabled-IsValid :
      (w : World e) (key : ApiKey) (refused : Bool)
      → IsValid w.keys
      → IsValid (disable_api_key e w key refused).keys
  unfolding disable_api_key step
  disabled-IsValid w key refused v = ground (arith, step-IsValid w.keys (removes key) v)

  refresh-IsValid : (w : World e) (now : ℕ) → IsValid w.keys → IsValid (refresh e w now).keys
  unfolding refresh step
  refresh-IsValid w now v = step-IsValid w.keys (snapshots now) v

  noted-IsValid :
      (w : World e) (model : Text) (key : ApiKey) (status : ℕ) (message : Text) (now : ℕ)
      → IsValid w.keys
      → IsValid (note_error e w model key status message now).keys
  unfolding note_error step
  noted-IsValid w model key status message now v =
      step-IsValid w.keys (fails model key status message now) v

  failure-IsValid :
      (w : World e) (model : Text) (target : RouteTarget) (key : ApiKey) (i : ℕ) (resp : Response)
      → IsValid w.keys
      → IsValid (record_failure e w model target key i resp).keys
  unfolding record_failure
  failure-IsValid w model target key i resp v =
      let noted = noted-IsValid w model key resp.status resp.body (clock i) v in
      elim (Bool-cases (resp.status == 429)) [
        | inl limited ↦ rw limited (exhausted-IsValid w model target key (clock i) (jitter i) v)
        | inr other ↦ rw other (elim (Bool-cases (disables e resp)) [
          | inl bad ↦ rw bad (
              disabled-IsValid (note_error e w model key resp.status resp.body (clock i)) key
                (disable_fails key i) noted)
          | inr good ↦ rw good noted
        ])
      ]

  healthy-IsValid :
      (w : World e) (model : Text) (target : RouteTarget) (key : ApiKey)
      → IsValid w.keys
      → IsValid (mark_provider_key_healthy e w model target key).keys
  unfolding mark_provider_key_healthy step
  healthy-IsValid w model target key v = step-IsValid w.keys (heals model key) v

  world_of : Verdict e → World e
  world_of (retry w _ _) = w
  world_of (done w _) = w

  judge-IsValid :
      (w : World e) (model public : Text) (target : RouteTarget) (key : ApiKey) (i : ℕ)
      (reply : Reply)
      → IsValid w.keys
      → IsValid (world_of (judge e w model public target key i reply)).keys
  unfolding judge world_of
  judge-IsValid w model public target key i (broken message) v =
      refresh-IsValid (note_error e w model key 0 message (clock i)) (clock i)
        (noted-IsValid w model key 0 message (clock i) v)
  judge-IsValid w model public target key i (answered resp) v =
      let failed =
        refresh-IsValid (record_failure e w model target key i (drained resp)) (clock i)
          (failure-IsValid w model target key i (drained resp) v) in
      let healthy =
        refresh-IsValid (mark_provider_key_healthy e w model target key) (clock i)
          (healthy-IsValid w model target key v) in
      ground (arith, failed, healthy)

  usable_le :
      (k : KeyState) (model : Text) (target : RouteTarget) (now : ℕ)
      → usable k model target now < suc (length k.keys)
  unfolding usable
  usable_le k model target now =
      omega (arith, length-filter_le (eligible k model target now) k.keys)

  module _ (off : (i : ℕ) → clock i % second ≢ 0) where
    attempt_loop_total :
        (left attempts base : ℕ) (model public : Text) (target : RouteTarget) (w : World e)
        (last : Option Response) (key : Option ApiKey) (chain : List Note)
        → IsValid w.keys
        → (w' : World e) × (r : Attempted) × (attempt_loop e left attempts base model public target
              w last key chain
            ≡ some (w', r))
          × IsValid w'.keys
    unfolding attempt_loop world_of
    attempt_loop_total zero attempts base model public target w last key chain v =
        (w, failure target last key attempts chain, refl, v)
    attempt_loop_total (suc left) attempts base model public target w last key chain v =
        let i = base + attempts in
        let now = clock i in
        let (k, picked, e₁, v₁) =
          next_provider_key_total e w.shared model target now (off i) (suc (length w.keys.keys))
            w.keys v (usable_le w.keys model target now) in
        let w₁ = record w { keys = k } in
        elim (Option-cases picked) [
          | inl nobody ↦ (
            w₁,
            failure target last key attempts (chain ++ all_keys_cooling model ∷ []),
            rw (e₁, attempt_loop) (rw nobody refl),
            v₁,
          )
          | inr (key', e₂) ↦
              let reply = forward target key' i in
              let v₂ = judge-IsValid w₁ model public target key' i reply v₁ in
              let verdict = judge e w₁ model public target key' i reply in
              elim (Verdict-cases e verdict) [
                | inl (next, answer, note, e₃) ↦
                    let v₃ : IsValid next.keys =
                      subst (λ (x : Verdict e). IsValid (world_of x).keys) e₃ v₂ in
                    let (w', r, f, v') =
                      attempt_loop_total left (attempts + 1) base model public target next
                        (or_last answer last) (some key') (chain ++ note ∷ []) v₃ in
                    (w', r, rw (e₁, attempt_loop) (rw e₂ (rw e₃ f)), v')
                | inr (next, resp, e₃) ↦ (
                  next,
                  record {
                    response = some resp;
                    key = some key';
                    target = target;
                    attempts = attempts + 1;
                    chain = chain;
                    succeeded = true;
                  },
                  rw (e₁, attempt_loop) (rw e₂ (rw e₃ refl)),
                  subst (λ (x : Verdict e). IsValid (world_of x).keys) e₃ v₂,
                )
              ]
        ]

    provider_total :
        (configured requested base : ℕ) (public : Text) (target : RouteTarget) (w : World e)
        → IsValid w.keys
        → (w' : World e) × (r : Attempted) × (do_provider_attempt_loop e configured requested base
              public target w
            ≡ some (w', r))
          × IsValid w'.keys
    unfolding do_provider_attempt_loop
    provider_total configured requested base public target w v =
        let model = if cooldown_model target == [] then public else cooldown_model target in
        let limit = attempt_limit configured requested (Keys.available_for w.keys target) in
        elim (Bool-cases (e.has_provider target)) [
          | inl known ↦
              let (w', r, f, v') =
                attempt_loop_total limit 0 base model public target w none none [] v in
              (w', r, rw known f, v')
          | inr unknown ↦ (w, no_provider target, rw unknown refl, v)
        ]

    -- If no reading of the clock falls on a whole second, the loop over the targets ends with a result from
    -- any valid key state, and leaves the key state valid.
    pub target_loop_total :
        (configured limit : ℕ) (public : Text) (targets : List RouteTarget) (w : World e)
        (attempts : ℕ) (chain : List Note) (combined : Option Attempted)
        → IsValid w.keys
        → (w' : World e) × (attempts' : ℕ) × (chain' : List Note) × (combined' : Option Attempted)
          × (target_loop e configured limit public targets w attempts chain combined
              ≡ some (w', attempts', chain', combined'))
          × IsValid w'.keys
    unfolding target_loop
    target_loop_total configured limit public [] w attempts chain combined v =
        (w, attempts, chain, combined, refl, v)
    target_loop_total configured limit public (target ∷ targets) w attempts chain combined v =
        elim (Bool-cases (leb limit attempts)) [
          | inl over ↦ (w, attempts, chain, combined, rw over refl, v)
          | inr more ↦
              let (w₁, r, f, v₁) =
                provider_total configured (limit - attempts) attempts public target w v in
              let attempts₁ = attempts + r.attempts in
              let chain₁ = chain ++ r.chain in
              let whole = record r { attempts = attempts₁; chain = chain₁ } in
              elim (Bool-cases (r.succeeded || leb limit attempts₁)) [
                | inl ends ↦ (w₁, attempts₁, chain₁, some whole, rw more (rw f (rw ends refl)), v₁)
                | inr goes ↦
                    let (w', attempts', chain', combined', g, v') =
                      target_loop_total configured limit public targets w₁ attempts₁ chain₁
                        (some whole) v₁ in
                    (w', attempts', chain', combined', rw more (rw f (rw goes g)), v')
              ]
        ]
