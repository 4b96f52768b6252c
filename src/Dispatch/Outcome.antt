-- ===== src/Dispatch/Outcome.antt =====
-- internal/provider.go, `doProviderTargetLoop`: every request is answered, and a route that answers is
-- kept.
use buzzhive.Base.{
  ℕ, ◌+◌, ◌-◌, ◌%◌, ◌++◌, ◌≤◌, ◌<◌, ◌≡◌, ◌≢◌, refl, ap, ◌∙◌, inl, inr, List, [], ◌∷◌, true, false,
  ◌||◌, Option, none, some, Text, nat_eq, text_eq, ◌==◌, leb, arith, Bool-cases, Option-cases,
  if◌then◌else◌, get_or, get_elem?,
}
use buzzhive.Types.{RouteTarget, RouteSession, second}
use buzzhive.Keys.Invariant.{IsValid}
use buzzhive.Cooldown.{Response, Environment, World}
use buzzhive.Routing.{
  Router, zero_target, route_session_ttl, remember_route_session, prefer_route_session_target,
}
use buzzhive.Routing.Sessions.{Agrees, remembered_first}
use buzzhive.Attempts.{Note, Attempted, do_provider_attempt_loop, target_loop}
use buzzhive.Attempts.Bounds.{attempt_success, target_loop_bounded}
use buzzhive.Attempts.Outcomes.{target_loop_total}
use buzzhive.Dispatch.{no_answer, whole_result, settle, do_provider_target_loop}

module _ (e : Environment) where
  open e use {clock}

  -- A success of the loop over the targets has an answer, below 500.
  target_loop_answered :
      (configured limit : ℕ) (public : Text) (targets : List RouteTarget) (w : World e)
      (attempts : ℕ) (chain : List Note) (combined : Option Attempted) {w' : World e}
      {attempts' : ℕ} {chain' : List Note} {r : Attempted}
      → ((c : Attempted) → combined ≡ some c → c.succeeded ≡ false)
      → target_loop e configured limit public targets w attempts chain combined
        ≡ some (w', attempts', chain', some r)
      → r.succeeded ≡ true
      → (resp : Response) × (r.response ≡ some resp) × (resp.status < 500)
  unfolding target_loop
  target_loop_answered configured limit public [] w attempts chain combined {r = r} fresh h s =
      absurd (ground (arith, fresh r))
  target_loop_answered configured limit public (target ∷ targets) w attempts chain combined
        {w' = w'} {attempts' = attempts'} {chain' = chain'} {r = r} fresh h s =
      let tried =
        do_provider_attempt_loop e configured (limit - attempts) attempts public target w in
      elim (Bool-cases (leb limit attempts)) [
        | inl over ↦ absurd (ground (arith, fresh r))
        | inr open_ ↦ elim (Option-cases tried) [
          | inl stuck ↦ absurd (ground arith)
          | inr ((w₁, r₁), e₁) ↦
              let whole = record r₁ {
                attempts = attempts + r₁.attempts;
                chain = chain ++ r₁.chain;
              } in
              elim (Bool-cases (r₁.succeeded || leb limit (attempts + r₁.attempts))) [
                | inl over ↦
                    let good : r₁.succeeded ≡ true = ground arith in
                    let (resp, given, low, _, _, _) =
                      attempt_success e configured (limit - attempts) attempts public target w e₁
                        good in
                    (resp, ground arith, low)
                | inr more ↦
                    let later : target_loop e configured limit public targets w₁
                          (attempts + r₁.attempts) (chain ++ r₁.chain) (some whole)
                        ≡ some (w', attempts', chain', some r) =
                      ground (arith, e₁, more, h) in
                    target_loop_answered configured limit public targets w₁ (attempts + r₁.attempts)
                      (chain ++ r₁.chain) (some whole) (λ c same. ground arith) later s
              ]
        ]
      ]

  whole_result_answered :
      (attempts : ℕ) (chain : List Note) (combined : Option Attempted)
      → ((c : Attempted)
          → combined ≡ some c
          → c.succeeded ≡ true
          → (resp : Response) × (c.response ≡ some resp) × (resp.status < 500))
      → (resp : Response) × ((whole_result attempts chain combined).response ≡ some resp)
  unfolding whole_result
  whole_result_answered attempts chain none h = (no_answer, refl)
  whole_result_answered attempts chain (some c) h = elim (Bool-cases c.succeeded) [
    | inl good ↦ let (resp, given, _) = h c refl good in (resp, ground arith)
    | inr bad ↦ elim (Option-cases c.response) [
      | inl nothing ↦ (no_answer, ground arith)
      | inr (resp, given) ↦ (resp, ground arith)
    ]
  ]

  whole_result_attempts :
      (attempts : ℕ) (chain : List Note) (combined : Option Attempted)
      → (whole_result attempts chain combined).attempts ≡ attempts
  unfolding whole_result
  whole_result_attempts attempts chain none = refl
  whole_result_attempts attempts chain (some c) = refl

  module _ (off : (i : ℕ) → clock i % second ≢ 0) where
    -- If no reading of the clock falls on a whole second, every request with valid keys ends with an answer,
    -- after no more attempts than are configured (one if that is 0), and leaves the key state valid.
    pub request_answered :
        (configured : ℕ) (public key : Text) (targets : List RouteTarget)
        (shared : Option RouteSession) (r : Router) (w : World e) (now later : ℕ)
        → IsValid w.keys
        → (r' : Router) × (w' : World e) × (result : Attempted) × (resp : Response)
          × (do_provider_target_loop e configured public key targets shared r w now later
              ≡ some (r', w', result))
          × (result.response ≡ some resp)
          × (result.attempts ≤ (if configured == 0 then 1 else configured))
          × IsValid w'.keys
    unfolding do_provider_target_loop
    request_answered configured public key targets shared r w now later v =
        let limit = if configured == 0 then 1 else configured in
        let routed = prefer_route_session_target r shared key targets now in
        let (w', attempts, chain, combined, ends, v') =
          target_loop_total e off configured limit public routed.1 w 0 [] none v in
        let (resp, given) = whole_result_answered attempts chain combined (λ c same good.
          target_loop_answered configured limit public routed.1 w 0 [] none
            (λ d absent. absurd (ground arith))
            (ends ∙ ap (λ x. some (w', attempts, chain, x)) same) good) in
        let few =
          target_loop_bounded e configured limit public routed.1 w 0 [] none (omega arith) ends in
        (
          settle routed.0 key (whole_result attempts chain combined) later,
          w',
          whole_result attempts chain combined,
          resp,
          rw (ends, do_provider_target_loop) refl,
          given,
          rw (whole_result_attempts attempts chain combined) few.1,
          v',
        )

  settle_remembers :
      (r : Router) (key : Text) (result : Attempted) (now : ℕ) (resp : Response)
      → result.succeeded ≡ true
      → result.response ≡ some resp
      → resp.status < 400
      → settle r key result now ≡ remember_route_session r key result.target now
  unfolding settle
  settle_remembers r key result now resp good given low = ground arith

  request_settles :
      (configured : ℕ) (public key : Text) (targets : List RouteTarget)
      (shared : Option RouteSession) (r : Router) (w : World e) (now later : ℕ) {r' : Router}
      {w' : World e} {result : Attempted}
      → do_provider_target_loop e configured public key targets shared r w now later
        ≡ some (r', w', result)
      → r' ≡ settle (prefer_route_session_target r shared key targets now).0 key result later
  unfolding do_provider_target_loop
  request_settles configured public key targets shared r w now later h =
      let limit = if configured == 0 then 1 else configured in
      let routed = prefer_route_session_target r shared key targets now in
      elim (Option-cases (target_loop e configured limit public routed.1 w 0 [] none)) [
        | inl stuck ↦ absurd (ground (arith, stuck))
        | inr ((w', attempts, chain, combined), ends) ↦ ground (arith, ends)
      ]

  -- After a request that a target with an identifier answered below 400, the next request of the session
  -- that has this target among its targets tries a target of that identifier first, up to half an hour
  -- later, whether the shared cache then answers nothing or a session of the same route.
  pub request_sticks :
      (configured : ℕ) (public key : Text) (targets : List RouteTarget)
      (shared : Option RouteSession) (r : Router) (w : World e) (now later : ℕ) {r' : Router}
      {w' : World e} {result : Attempted} (resp : Response) (others : List RouteTarget) (j next : ℕ)
      (again : Option RouteSession)
      → do_provider_target_loop e configured public key targets shared r w now later
        ≡ some (r', w', result)
      → result.succeeded ≡ true
      → result.response ≡ some resp
      → resp.status < 400
      → result.target.id ≢ 0
      → get_elem? others j ≡ some result.target
      → next ≤ later + route_session_ttl
      → Agrees again result.target
      → (get_or (prefer_route_session_target r' again key others next).1 0 zero_target).id
        ≡ result.target.id
  request_sticks configured public key targets shared r w now later {result = result} resp others j
        next again h good given low real listed soon agrees =
      let r₁ = (prefer_route_session_target r shared key targets now).0 in
      let kept =
        request_settles configured public key targets shared r w now later h
        ∙ settle_remembers r₁ key result later resp good given low in
      ap (λ x. (get_or (prefer_route_session_target x again key others next).1 0 zero_target).id)
        kept
      ∙ remembered_first r₁ again key result.target others j later next agrees real listed soon
