-- ===== src/Routing/Affinity.antt =====
-- internal/route_session.go with internal/runtime_cache.go: a route that one process remembers, as another
-- process finds it in Redis.
use buzzhive.Base.{
  ℕ, ◌+◌, ◌*◌, ◌/◌, ◌≤◌, ◌≡◌, ◌≢◌, refl, List, [], ◌∷◌, true, Option, none, some, Text, get_or,
  get_elem?, arith,
}
use buzzhive.Types.{RouteTarget, RouteSession, second}
use buzzhive.Shared.{
  Redis, Lookup, hit, miss, error, present, shared_route_session, set_route_session,
  delete_shared_session,
}
use buzzhive.Shared.Sessions.{shared_session_round_trip}
use buzzhive.Routing.{
  SessionCall, sets_session, deletes_session, Router, zero_target, route_session, new_session,
  remember_route_session, prefer_route_session_target, route_session_ttl,
}
use buzzhive.Routing.Sessions.{found_first}

-- What `routeSession` makes of a look-up in the shared cache.
abbrev pub answer_of : Lookup RouteSession → Option RouteSession
answer_of (hit session) = some session
answer_of miss = none
answer_of error = none

module _ (redis : Redis) (hash : Text → Text) where
  -- The newest of the calls on the shared cache, as Redis takes it; `none` where it fails.
  unfoldable pub tell : redis.State → ℕ → List SessionCall → Option redis.State
  tell st now [] = some st
  tell st now (sets_session key session ∷ calls) =
      set_route_session redis hash true st now key session
  tell st now (deletes_session key ∷ calls) = delete_shared_session redis hash true st now key

  module _
      (keeps : (st st' : redis.State) (now later ttl : ℕ) (key : Text) (session : RouteSession)
        → redis.set_session st now key session ttl ≡ some st'
        → later ≤ now + ttl
        → redis.get_session st' later key ≡ present session) where
    -- Redis gives back, for its time to live, what was set. Then if Redis takes the session that one process
    -- writes when it remembers a target with an identifier, a request in any process that has this target
    -- among its targets, and asks Redis no later than the last whole second of the half hour from then,
    -- tries a target of that identifier first.
    pub remembered_by_redis :
        (st st' : redis.State) (r other : Router) (key : Text) (t : RouteTarget)
        (targets : List RouteTarget) (j now later : ℕ)
        → t.id ≢ 0
        → get_elem? targets j ≡ some t
        → tell st now (remember_route_session r key t now).told ≡ some st'
        → later ≤ (now + route_session_ttl) / second * second
        → let shared = answer_of (shared_route_session redis hash true st' later key).1 in
          (get_or (prefer_route_session_target other shared key targets later).1 0 zero_target).id
          ≡ t.id
    remembered_by_redis st st' r other key t targets j now later live at taken early =
        let session = new_session t now in
        let written : set_route_session redis hash true st now key session ≡ some st' =
          unfold tell remember_route_session in ground (arith, live, taken) in
        let read =
          shared_session_round_trip redis hash keeps st st' now later key session (omega arith)
            written early in
        let kept : RouteSession = record session {
          expires_at = session.expires_at / second * second;
        } in
        rw read (
          found_first other (some kept) key t targets j later kept live at
            (unfold route_session in refl) refl)
