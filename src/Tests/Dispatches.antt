-- ===== src/Tests/Dispatches.antt =====
-- A whole request for one target with two keys.
use buzzhive.Base.{
  ◌+◌, ◌≤◌, [], ◌∷◌, true, some, none, ◌≡◌, ◌≢◌, refl, sym, ap, get_elem?, arith, nat_eq, text,
  get_or,
}
use buzzhive.Base.Eq.{bytes_beq}
use buzzhive.Base.Maps
use buzzhive.Types.{RouteTarget, minute, cooldown_model}
use buzzhive.Keys.{
  is_cooling, key_matches_target, try_key, next_from, next_for, available_for, mark_exhausted_until,
  next_cooldown, mark_redis_exhausted, mark_healthy, snapshot_exhausted,
}
use buzzhive.Keys.Invariant.{IsValid}
use buzzhive.Cache.{
  read_reply, key_cooldown_key, key_cooldown, store_exhausted, mark_key_exhausted,
  delete_key_cooldown, key_cooldown_retention,
}
use buzzhive.Cooldown.{
  Response, World, string_id, key_cooldown_storage_key, redis_key_cooldown, next_provider_key,
  mark_provider_key_exhausted, mark_provider_key_healthy,
}
use buzzhive.Attempts.{
  no_provider, Attempted, drained, attempt_limit, refresh, disables, record_failure, judge_response,
  judge, attempt_loop, do_provider_attempt_loop, target_loop, should_disable_api_key,
}
use buzzhive.Routing.{Router, zero_target, prefer_route_session_target}
use buzzhive.Dispatch.{whole_result, do_provider_target_loop}
use buzzhive.Dispatch.Outcome.{request_answered, request_sticks}
use buzzhive.Tests.Samples.{
  target, model, from_first-IsValid, upstream, off_second, now, world, router,
}

request_answered_example :
    (r' : Router) × (w' : World upstream) × (result : Attempted) × (resp : Response)
    × (do_provider_target_loop upstream 3 model (text "s") (target ∷ []) none router world now now
        ≡ some (r', w', result))
    × (result.response ≡ some resp)
    × (result.attempts ≤ 3)
    × IsValid w'.keys
request_answered_example =
    request_answered upstream off_second 3 model (text "s") (target ∷ []) none router world now now
      from_first-IsValid

abbrev served : Router × World upstream × Attempted
served =
    Maps.get_or
      (do_provider_target_loop upstream 3 model (text "s") (target ∷ []) none router world now now)
      (router, world, no_provider target)

abbrev fine : Response
fine = record { status = 200; body = [] }

abbrev Served : Type 0
Served =
    (do_provider_target_loop upstream 3 model (text "s") (target ∷ []) none router world now now
      ≡ some (served.0, served.1, served.2))
    × (served.2.succeeded ≡ true)
    × (served.2.response ≡ some fine)
    × (served.2.target ≡ target)

serves : Served
unfolding do_provider_target_loop whole_result target_loop do_provider_attempt_loop attempt_loop
    attempt_limit cooldown_model available_for judge judge_response drained disables
    should_disable_api_key record_failure refresh snapshot_exhausted mark_provider_key_exhausted
    mark_provider_key_healthy mark_healthy mark_exhausted_until next_cooldown mark_key_exhausted
    store_exhausted delete_key_cooldown key_cooldown_retention next_provider_key next_for next_from
    try_key key_matches_target is_cooling mark_redis_exhausted redis_key_cooldown
    key_cooldown_storage_key string_id key_cooldown key_cooldown_key read_reply bytes_beq
    prefer_route_session_target
serves = (refl, refl, refl, refl)

served_real : served.2.target.id ≢ 0
served_real h =
    let same : served.2.target.id ≡ 1 = ap (λ (t : RouteTarget). t.id) serves.3 in omega arith

served_listed : get_elem? (zero_target ∷ target ∷ []) 1 ≡ some served.2.target
served_listed = sym (ap some serves.3)

request_sticks_example :
    (get_or
      (prefer_route_session_target served.0 none
        (text "s")
        (zero_target ∷ target ∷ [])
        (now + minute)).1
      0
      zero_target).id
    ≡ served.2.target.id
request_sticks_example =
    request_sticks upstream 3 model (text "s") (target ∷ []) none router world now now fine
      (zero_target ∷ target ∷ []) 1 (now + minute) none serves.0 serves.1 serves.2 (omega arith)
      served_real served_listed (omega arith) (λ session found. cc)
