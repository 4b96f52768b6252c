-- ===== src/Dispatch.antt =====
-- internal/provider.go, `doProviderTargetLoop`: a whole request, from the session that prefers a target
-- to the answer that is sent back.
pub mod Outcome
use buzzhive.Base.{
  ℕ, zero, suc, List, [], ◌∷◌, Bool, true, false, ◌&&◌, Option, none, some, Text, nat_eq, ◌==◌, ltb,
  if◌then◌else◌,
}
use buzzhive.Types.{ApiKey, RouteTarget, RouteSession}
use buzzhive.Cooldown.{Response, Environment, World}
use buzzhive.Routing.{Router, zero_target, remember_route_session, prefer_route_session_target}
use buzzhive.Attempts.{Note, Attempted, target_loop}

abbrev pub no_answer : Response
no_answer = record { status = 429; body = [] }

-- The result that is sent: 429 where no attempt has left an answer.
unfoldable pub whole_result : ℕ → List Note → Option Attempted → Attempted
whole_result attempts chain none = record {
  response = some no_answer;
  key = none;
  target = zero_target;
  attempts = attempts;
  chain = chain;
  succeeded = false;
}
whole_result attempts chain (some result) = record result {
  response =
      if result.succeeded
      then result.response
      else elim result.response [ none ↦ some no_answer | some resp ↦ some resp ];
  attempts = attempts;
  chain = chain;
}

-- What a success says of the session: a route that answered below 400 is kept.
unfoldable pub settle : Router → Text → Attempted → ℕ → Router
settle r key result now = elim result.response [
  | none ↦ r
  | some resp ↦
      if result.succeeded && ltb resp.status 400
      then remember_route_session r key result.target now
      else r
]

module _ (e : Environment) where
  -- `key` is the storage key of the session and `shared` what Redis says of it; `now` is when it is asked,
  -- `later` when the route is remembered.
  unfoldable pub do_provider_target_loop :
      ℕ
      → Text
      → Text
      → List RouteTarget
      → Option RouteSession
      → Router
      → World e
      → ℕ
      → ℕ
      → Option (Router × World e × Attempted)
  do_provider_target_loop configured public key targets shared r w now later =
      let limit = if configured == 0 then 1 else configured in
      let (r', ordered) = prefer_route_session_target r shared key targets now in
      elim (target_loop e configured limit public ordered w 0 [] none) [
        | none ↦ none
        | some (w', attempts, chain, combined) ↦
            let result = whole_result attempts chain combined in
            some (settle r' key result later, w', result)
      ]
