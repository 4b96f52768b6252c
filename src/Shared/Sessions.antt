-- ===== src/Shared/Sessions.antt =====
-- internal/runtime_cache.go: what another process reads of a route session that was written.
use buzzhive.Base.{ℕ, ◌-◌, ◌+◌, ◌*◌, ◌/◌, ◌≤◌, ◌<◌, ◌≡◌, true, some, Text, arith}
use buzzhive.Types.{RouteSession, second}
use buzzhive.Shared.{
  present, hit, Redis, route_session_key, shared_route_session, set_route_session,
}

module _ (redis : Redis) (hash : Text → Text)
    (keeps : (st st' : redis.State) (now later ttl : ℕ) (key : Text) (session : RouteSession)
      → redis.set_session st now key session ttl ≡ some st'
      → later ≤ now + ttl
      → redis.get_session st' later key ≡ present session) where
  -- Redis gives back, for its time to live, what was set. Then a route session that was written before its
  -- end is read as the same route, with its end cut to whole seconds, up to that end.
  pub shared_session_round_trip :
      (st st' : redis.State) (now later : ℕ) (key : Text) (session : RouteSession)
      → now < session.expires_at
      → set_route_session redis hash true st now key session ≡ some st'
      → later ≤ session.expires_at / second * second
      → (shared_route_session redis hash true st' later key).1
        ≡ hit (record session { expires_at = session.expires_at / second * second })
  unfolding set_route_session shared_route_session
  shared_session_round_trip st st' now later key session live written soon =
      let kept : RouteSession = record session {
        expires_at = session.expires_at / second * second;
      } in
      let stored : redis.set_session st now (route_session_key redis hash true key) kept
            (session.expires_at - now)
          ≡ some st' =
        ground arith in
      let read =
        keeps st st' now later (session.expires_at - now) (route_session_key redis hash true key)
          kept stored (omega arith) in
      ground (arith, read)
