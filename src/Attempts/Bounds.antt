-- ===== src/Attempts/Bounds.antt =====
-- internal/provider.go, `doProviderAttemptLoop` and `doProviderTargetLoop`: how many attempts a request
-- makes, and that the loops end.
use buzzhive.Base.{
  ℕ, zero, suc, ◌+◌, ◌-◌, ◌≤◌, ◌<◌, ◌≡◌, refl, inl, inr, List, [], ◌∷◌, ◌++◌, true, false, ◌||◌,
  Option, none, some, Text, ◌==◌, nat_eq, text_eq, leb, length, arith, Bool-cases, Option-cases,
  ◌⊎◌, ◌≢◌, if◌then◌else◌,
}
use buzzhive.Types.{ApiKey, RouteTarget, cooldown_model}
use buzzhive.Keys
use buzzhive.Keys.{KeyState}
use buzzhive.Cooldown.{Response, Reply, broken, answered, Environment, World, next_provider_key}
use buzzhive.Attempts.{
  Attempted, Note, should_retry, Verdict, retry, done, judge, should_disable_api_key, disables,
  or_last, attempt_loop, attempt_limit, do_provider_attempt_loop, target_loop,
}

module _ (e : Environment) where
  open e use {clock, forward}

  pub Verdict-cases :
      (v : Verdict e)
      → ((next : World e) × (answer : Option Response) × (note : Note) × (v
            ≡ retry next answer note))
        ⊎ ((next : World e) × (resp : Response) × (v ≡ done next resp))
  Verdict-cases (retry next answer note) = inl (next, answer, note, refl)
  Verdict-cases (done next resp) = inr (next, resp, refl)

  judge_done :
      (w : World e) (model public : Text) (target : RouteTarget) (key : ApiKey) (i : ℕ)
      (reply : Reply) {next : World e} {resp : Response}
      → judge e w model public target key i reply ≡ done next resp
      → (should_retry resp.status ≡ false) × (disables e resp ≡ false)
  unfolding judge
  judge_done w model public target key i (broken message) h = cc
  judge_done w model public target key i (answered resp) h = ground arith

  -- What a round of the loop does.
  attempt_round :
      (left attempts base : ℕ) (model public : Text) (target : RouteTarget) (w : World e)
      (last : Option Response) (key : Option ApiKey) (chain : List Note) {w' : World e}
      {r : Attempted}
      → attempt_loop e (suc left) attempts base model public target w last key chain ≡ some (w', r)
      → ((r.attempts ≡ attempts) × (r.succeeded ≡ false))
        ⊎ ((resp : Response) × (r.attempts ≡ attempts + 1)
            × (r.succeeded ≡ true)
            × (r.response ≡ some resp)
            × (should_retry resp.status ≡ false)
            × (disables e resp ≡ false))
        ⊎ ((next : World e) × (last' : Option Response) × (key' : Option ApiKey) × (chain' : List
              Note)
            × (attempt_loop e left (attempts + 1) base model public target next last' key' chain'
                ≡ some (w', r)))
  unfolding attempt_loop
  attempt_round left attempts base model public target w last key chain h =
      let i = base + attempts in
      let pick =
        next_provider_key e (suc (length w.keys.keys)) w.keys w.shared model target (clock i) in
      elim (Option-cases pick) [
        | inl stuck ↦ absurd (ground (arith, stuck))
        | inr ((k, picked), e₁) ↦
            let w₁ = record w { keys = k } in
            elim (Option-cases picked) [
              | inl nobody ↦ inl (ground (arith, e₁), ground (arith, e₁))
              | inr (key', e₂) ↦
                  let verdict = judge e w₁ model public target key' i (forward target key' i) in
                  elim (Verdict-cases verdict) [
                    | inl (next, answer, note, e₃) ↦ inr (
                        inr (
                          next,
                          or_last answer last,
                          some key',
                          chain ++ note ∷ [],
                          ground (arith, e₁, e₂, e₃, h),
                        ))
                    | inr (next, resp, e₃) ↦
                        let fine =
                          judge_done w₁ model public target key' i (forward target key' i) e₃ in
                        inr (
                          inl (
                            resp,
                            ground (arith, e₁, e₂, e₃, h),
                            ground (arith, e₁, e₂, e₃, h),
                            ground (arith, e₁, e₂, e₃, h),
                            fine.0,
                            fine.1,
                          ))
                  ]
            ]
      ]

  attempts_bounded :
      (left attempts base : ℕ) (model public : Text) (target : RouteTarget) (w : World e)
      (last : Option Response) (key : Option ApiKey) (chain : List Note) {w' : World e}
      {r : Attempted}
      → attempt_loop e left attempts base model public target w last key chain ≡ some (w', r)
      → (attempts ≤ r.attempts) × (r.attempts ≤ attempts + left)
  unfolding attempt_loop
  attempts_bounded zero attempts base model public target w last key chain h =
      (ground arith, ground arith)
  attempts_bounded (suc left) attempts base model public target w last key chain h =
      elim (attempt_round left attempts base model public target w last key chain h) [
        | inl (same, _) ↦ (omega arith, omega arith)
        | inr (inl (_, more, _, _, _, _)) ↦ (omega arith, omega arith)
        | inr (inr (next, last', key', chain', h')) ↦
            let rest =
              attempts_bounded left (attempts + 1) base model public target next last' key' chain'
                h' in
            (omega (arith, rest.0), omega (arith, rest.1))
      ]

  loop_success :
      (left attempts base : ℕ) (model public : Text) (target : RouteTarget) (w : World e)
      (last : Option Response) (key : Option ApiKey) (chain : List Note) {w' : World e}
      {r : Attempted}
      → attempt_loop e left attempts base model public target w last key chain ≡ some (w', r)
      → r.succeeded ≡ true
      → (resp : Response) × (r.response ≡ some resp)
        × (should_retry resp.status ≡ false)
        × (disables e resp ≡ false)
  unfolding attempt_loop
  loop_success zero attempts base model public target w last key chain h s = absurd (ground arith)
  loop_success (suc left) attempts base model public target w last key chain h s =
      elim (attempt_round left attempts base model public target w last key chain h) [
        | inl (_, failed) ↦ absurd (cc)
        | inr (inl (resp, _, _, given, kept, able)) ↦ (resp, given, kept, able)
        | inr (inr (next, last', key', chain', h')) ↦
            loop_success left (attempts + 1) base model public target next last' key' chain' h' s
      ]

  attempt_limit_le :
      (configured requested key_count : ℕ)
      → 0 < requested
      → attempt_limit configured requested key_count ≤ requested
  unfolding attempt_limit
  attempt_limit_le configured requested key_count h = ground arith

  provider_attempts_le :
      (configured requested base : ℕ) (public : Text) (target : RouteTarget) (w : World e)
      {w' : World e} {r : Attempted}
      → 0 < requested
      → do_provider_attempt_loop e configured requested base public target w ≡ some (w', r)
      → r.attempts ≤ requested
  unfolding do_provider_attempt_loop
  provider_attempts_le configured requested base public target w positive h =
      let model = if cooldown_model target == [] then public else cooldown_model target in
      let limit = attempt_limit configured requested (Keys.available_for w.keys target) in
      elim (Bool-cases (e.has_provider target)) [
        | inl known ↦ omega (
          arith,
          attempts_bounded limit 0 base model public target w none none [] (rw known at h),
          attempt_limit_le configured requested (Keys.available_for w.keys target) positive,
        )
        | inr unknown ↦ ground arith
      ]

  -- An attempt loop that succeeds answers with a status below 500 other than 401, 403 and 429.
  pub attempt_success :
      (configured requested base : ℕ) (public : Text) (target : RouteTarget) (w : World e)
      {w' : World e} {r : Attempted}
      → do_provider_attempt_loop e configured requested base public target w ≡ some (w', r)
      → r.succeeded ≡ true
      → (resp : Response) × (r.response ≡ some resp)
        × (resp.status < 500)
        × (resp.status ≢ 429)
        × (resp.status ≢ 401)
        × (resp.status ≢ 403)
  unfolding do_provider_attempt_loop disables should_disable_api_key
  attempt_success configured requested base public target w h s =
      let model = if cooldown_model target == [] then public else cooldown_model target in
      let limit = attempt_limit configured requested (Keys.available_for w.keys target) in
      elim (Bool-cases (e.has_provider target)) [
        | inl known ↦
            let (resp, given, kept, able) =
              loop_success limit 0 base model public target w none none [] (rw known at h) s in
            (resp, given, ground arith, ground arith, ground arith, ground arith)
        | inr unknown ↦ absurd (ground arith)
      ]

  -- However many targets there are, the attempts of a request that starts within the limit do not go
  -- down, and add up to no more than the limit.
  pub target_loop_bounded :
      (configured limit : ℕ) (public : Text) (targets : List RouteTarget) (w : World e)
      (attempts : ℕ) (chain : List Note) (combined : Option Attempted) {w' : World e}
      {attempts' : ℕ} {chain' : List Note} {combined' : Option Attempted}
      → attempts ≤ limit
      → target_loop e configured limit public targets w attempts chain combined
        ≡ some (w', attempts', chain', combined')
      → (attempts ≤ attempts') × (attempts' ≤ limit)
  unfolding target_loop
  target_loop_bounded configured limit public [] w attempts chain combined low h =
      (ground arith, ground arith)
  target_loop_bounded configured limit public (target ∷ targets) w attempts chain combined {w' = w'}
        {attempts' = attempts'} {chain' = chain'} {combined' = combined'} low h =
      let tried =
        do_provider_attempt_loop e configured (limit - attempts) attempts public target w in
      elim (Bool-cases (leb limit attempts)) [
        | inl over ↦ (ground arith, ground arith)
        | inr open_ ↦ elim (Option-cases tried) [
          | inl stuck ↦ absurd (ground arith)
          | inr ((w₁, r), e₁) ↦
              let few =
                provider_attempts_le configured (limit - attempts) attempts public target w
                  (ground arith) e₁ in
              elim (Bool-cases (r.succeeded || leb limit (attempts + r.attempts))) [
                | inl over ↦ (ground arith, ground arith)
                | inr more ↦
                    let whole = record r {
                      attempts = attempts + r.attempts;
                      chain = chain ++ r.chain;
                    } in
                    let later : target_loop e configured limit public targets w₁
                          (attempts + r.attempts) (chain ++ r.chain) (some whole)
                        ≡ some (w', attempts', chain', combined') =
                      ground (arith, e₁, more, h) in
                    let rest =
                      target_loop_bounded configured limit public targets w₁ (attempts + r.attempts)
                        (chain ++ r.chain) (some whole) (ground arith) later in
                    (omega (arith, rest.0), rest.1)
              ]
        ]
      ]
