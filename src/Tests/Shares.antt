-- ===== src/Tests/Shares.antt =====
-- A route session in a Redis that keeps a table.
use buzzhive.Base.{
  ℕ, ◌+◌, ◌*◌, ◌/◌, ◌≤◌, ◌≡◌, refl, List, [], ◌∷◌, get_or, Option, some, none, true, Text, text,
  text_eq, arith, ltb, if◌then◌else◌,
}
use buzzhive.Base.Eq.{bytes_beq_iff}
use buzzhive.Base.Maps
use buzzhive.Types.{RouteTarget, RouteSession, second, minute}
use buzzhive.Shared.{Answer, absent, present, hit, Redis, shared_route_session, set_route_session}
use buzzhive.Shared.Sessions.{shared_session_round_trip}
use buzzhive.Routing.{zero_target, new_session, remember_route_session, prefer_route_session_target}
use buzzhive.Routing.Affinity.{answer_of, tell, remembered_by_redis}
use buzzhive.Tests.Samples.{target_of, router, now}

abbrev read : Option (RouteSession × ℕ) → ℕ → Answer RouteSession
read none time = absent
read (some (session, until)) time = if ltb until time then absent else present session

abbrev table_redis : Redis
table_redis = record {
  State = Text → Option (RouteSession × ℕ);
  get_session = λ st time k. read (st k) time;
  set_session = λ st time k session ttl. some (Maps.insert k (session, time + ttl) st);
  get_text = λ st time k. absent;
  set_text = λ st time k signature ttl. some st;
  del = λ st time k. some (Maps.delete k st);
}

table_keeps :
    (st st' : Text → Option (RouteSession × ℕ)) (time later ttl : ℕ) (k : Text)
    (session : RouteSession)
    → table_redis.set_session st time k session ttl ≡ some st'
    → later ≤ time + ttl
    → table_redis.get_session st' later k ≡ present session
table_keeps st st' time later ttl k session h soon = ground (arith, bytes_beq_iff k k)

abbrev half_hour : RouteSession
half_hour = record { model_route_id = 3; expires_at = now + 30 * minute }

abbrev no_sessions : Text → Option (RouteSession × ℕ)
no_sessions = Maps.empty

abbrev written : Text → Option (RouteSession × ℕ)
written =
    Maps.get_or (set_route_session table_redis (λ t. t) true no_sessions now (text "s") half_hour)
      no_sessions

writes :
    set_route_session table_redis (λ t. t) true no_sessions now (text "s") half_hour ≡ some written
unfolding set_route_session
writes = refl

shared_session_round_trip_example :
    (shared_route_session table_redis (λ t. t) true written (now + minute) (text "s")).1
    ≡ hit (record half_hour { expires_at = half_hour.expires_at / second * second })
shared_session_round_trip_example =
    shared_session_round_trip table_redis (λ t. t) table_keeps no_sessions written now
      (now + minute) (text "s") half_hour (omega arith) writes (omega arith)

-- The route that one process remembers is the first that another one tries.
abbrev second_route : RouteTarget
second_route = target_of 2 (text "round_robin") 1

abbrev both_routes : List RouteTarget
both_routes = target_of 1 (text "round_robin") 1 ∷ second_route ∷ []

abbrev after_telling : Text → Option (RouteSession × ℕ)
after_telling =
    Maps.get_or
      (set_route_session table_redis (λ t. t) true no_sessions now (text "s")
        (new_session second_route now))
      no_sessions

telling :
    tell table_redis
      (λ t. t)
      no_sessions
      now
      (remember_route_session router (text "s") second_route now).told
    ≡ some after_telling
unfolding tell remember_route_session set_route_session
telling = refl

remembered_by_redis_example :
    let shared =
      answer_of
        (shared_route_session table_redis
          (λ t. t)
          true
          after_telling
          (now + minute)
          (text "s")).1 in
    (get_or
      (prefer_route_session_target router shared (text "s") both_routes (now + minute)).1
      0
      zero_target).id
    ≡ 2
remembered_by_redis_example =
    remembered_by_redis table_redis (λ t. t) table_keeps no_sessions after_telling router router
      (text "s") second_route both_routes 1 now (now + minute) (omega arith) refl telling
      (omega arith)
