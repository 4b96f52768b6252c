-- ===== src/Tests/Requests.antt =====
-- Requests of one target with two keys, of which the first is out of quota.
use buzzhive.Base.{
  ℕ, ◌+◌, ◌≤◌, ◌<◌, [], ◌∷◌, List, Bool, true, false, some, none, Option, ◌≡◌, ◌≢◌, refl, arith,
  nat_eq, text_eq, Text, get_elem?,
}
use buzzhive.Base.Eq.{bytes_beq}
use buzzhive.Base.Maps
use buzzhive.Types.{ApiKey, cooldown_model}
use buzzhive.Keys.{
  KeyState, cooldown_key, is_cooling, key_matches_target, try_key, next_from, next_for,
  available_for, mark_exhausted_until, next_cooldown, mark_redis_exhausted, mark_healthy,
  snapshot_exhausted,
}
use buzzhive.Keys.Invariant.{IsValid}
use buzzhive.Keys.Selection.{eligible}
use buzzhive.Cache.{
  CooldownValue, read_reply, key_cooldown_key, key_cooldown, store_exhausted, mark_key_exhausted,
  delete_key_cooldown, key_cooldown_retention,
}
use buzzhive.Cooldown.{
  Response, World, string_id, key_cooldown_storage_key, redis_key_cooldown, next_provider_key,
  mark_provider_key_exhausted, mark_provider_key_healthy,
}
use buzzhive.Cooldown.Choice.{
  usable, next_provider_key_total, next_provider_key_sound, next_provider_key_exhausted,
}
use buzzhive.Attempts.{
  no_provider, Attempted, Note, drained, attempt_limit, refresh, disables, record_failure,
  judge_response, judge, attempt_loop, do_provider_attempt_loop, target_loop,
  should_disable_api_key,
}
use buzzhive.Attempts.Bounds.{attempt_success, target_loop_bounded}
use buzzhive.Tests.Samples.{
  first_key, second_key, target, model, from_first, from_first-IsValid, upstream, off_second,
  no_cooldowns, now, world,
}

two_usable : usable from_first model target now ≡ 2
unfolding usable eligible key_matches_target is_cooling bytes_beq
two_usable = refl

next_provider_key_total_example :
    (k' : KeyState) × (r : Option ApiKey) × (next_provider_key upstream 3 from_first no_cooldowns
        model target now
      ≡ some (k', r))
    × IsValid k'
next_provider_key_total_example =
    next_provider_key_total upstream no_cooldowns model target now (off_second 0) 3 from_first
      from_first-IsValid (omega (arith, two_usable))

-- The shared cache rests the first key until the second 20.
abbrev first_rests : Text → Option (CooldownValue × ℕ)
first_rests =
    Maps.insert
      (key_cooldown_key upstream.redis upstream.hash upstream.enabled
        (key_cooldown_storage_key upstream target first_key))
      (record { expires_at = 20; rpd_like = false; hits = 1 }, now + now) no_cooldowns

abbrev chosen_state : KeyState
chosen_state =
    (Maps.get_or (next_provider_key upstream 3 from_first first_rests model target now)
      (from_first, none)).0

second_chosen :
    next_provider_key upstream 3 from_first first_rests model target now
    ≡ some (chosen_state, some second_key)
unfolding next_provider_key next_for next_from try_key key_matches_target is_cooling
    mark_redis_exhausted redis_key_cooldown key_cooldown_storage_key string_id key_cooldown
    key_cooldown_key read_reply bytes_beq
second_chosen = refl

next_provider_key_sound_example :
    (i : ℕ) × (get_elem? from_first.keys i ≡ some second_key)
    × (eligible from_first model target now second_key ≡ true)
    × (redis_key_cooldown upstream first_rests target second_key now ≡ none)
next_provider_key_sound_example =
    next_provider_key_sound upstream first_rests model target now (off_second 0) 3 from_first
      from_first-IsValid second_chosen

abbrev both_rest : Text → Option (CooldownValue × ℕ)
both_rest =
    Maps.insert
      (key_cooldown_key upstream.redis upstream.hash upstream.enabled
        (key_cooldown_storage_key upstream target second_key))
      (record { expires_at = 20; rpd_like = true; hits = 2 }, now + now) first_rests

abbrev resting_state : KeyState
resting_state =
    (Maps.get_or (next_provider_key upstream 3 from_first both_rest model target now)
      (from_first, none)).0

none_chosen :
    next_provider_key upstream 3 from_first both_rest model target now ≡ some (resting_state, none)
unfolding next_provider_key next_for next_from try_key key_matches_target is_cooling
    mark_redis_exhausted redis_key_cooldown key_cooldown_storage_key string_id key_cooldown
    key_cooldown_key read_reply bytes_beq
none_chosen = refl

second_eligible : eligible from_first model target now second_key ≡ true
unfolding eligible key_matches_target is_cooling bytes_beq
second_eligible = refl

next_provider_key_exhausted_example :
    (j : ℕ) × (x : ApiKey) × (rest : ℕ × Bool) × (get_elem? from_first.keys j ≡ some x)
    × (eligible from_first model target now x ≡ true)
    × (cooldown_key model x.name ≡ cooldown_key model second_key.name)
    × (redis_key_cooldown upstream both_rest target x now ≡ some rest)
next_provider_key_exhausted_example =
    next_provider_key_exhausted upstream both_rest model target now (off_second 0) 3 from_first 1
      second_key from_first-IsValid none_chosen refl second_eligible

abbrev finished : World upstream × ℕ × List Note × Option Attempted
finished =
    Maps.get_or (target_loop upstream 3 4 model (target ∷ []) world 0 [] none) (world, 0, [], none)

finishes :
    target_loop upstream 3 4 model (target ∷ []) world 0 [] none
    ≡ some (finished.0, 2, finished.2, finished.3)
unfolding target_loop do_provider_attempt_loop attempt_loop attempt_limit cooldown_model
    available_for judge judge_response drained disables should_disable_api_key record_failure
    refresh snapshot_exhausted mark_provider_key_exhausted mark_provider_key_healthy mark_healthy
    mark_exhausted_until next_cooldown mark_key_exhausted store_exhausted delete_key_cooldown
    key_cooldown_retention next_provider_key next_for next_from try_key key_matches_target
    is_cooling mark_redis_exhausted redis_key_cooldown key_cooldown_storage_key string_id
    key_cooldown key_cooldown_key read_reply bytes_beq
finishes = refl

target_loop_bounded_example : (0 ≤ 2) × (2 ≤ 4)
target_loop_bounded_example =
    target_loop_bounded upstream 3 4 model (target ∷ []) world 0 [] none (omega arith) finishes

abbrev answered_attempt : World upstream × Attempted
answered_attempt =
    Maps.get_or (do_provider_attempt_loop upstream 3 4 0 model target world)
      (world, no_provider target)

answers :
    do_provider_attempt_loop upstream 3 4 0 model target world
    ≡ some (answered_attempt.0, answered_attempt.1)
unfolding do_provider_attempt_loop attempt_loop attempt_limit cooldown_model available_for judge
    judge_response drained disables should_disable_api_key record_failure refresh snapshot_exhausted
    mark_provider_key_exhausted mark_provider_key_healthy mark_healthy mark_exhausted_until
    next_cooldown mark_key_exhausted store_exhausted delete_key_cooldown key_cooldown_retention
    next_provider_key next_for next_from try_key key_matches_target is_cooling mark_redis_exhausted
    redis_key_cooldown key_cooldown_storage_key string_id key_cooldown key_cooldown_key read_reply
    bytes_beq
answers = refl

succeeds : answered_attempt.1.succeeded ≡ true
unfolding do_provider_attempt_loop attempt_loop attempt_limit cooldown_model available_for judge
    judge_response drained disables should_disable_api_key record_failure refresh snapshot_exhausted
    mark_provider_key_exhausted mark_provider_key_healthy mark_healthy mark_exhausted_until
    next_cooldown mark_key_exhausted store_exhausted delete_key_cooldown key_cooldown_retention
    next_provider_key next_for next_from try_key key_matches_target is_cooling mark_redis_exhausted
    redis_key_cooldown key_cooldown_storage_key string_id key_cooldown key_cooldown_key read_reply
    bytes_beq
succeeds = refl

attempt_success_example :
    (resp : Response) × (answered_attempt.1.response ≡ some resp)
    × (resp.status < 500)
    × (resp.status ≢ 429)
    × (resp.status ≢ 401)
    × (resp.status ≢ 403)
attempt_success_example = attempt_success upstream 3 4 0 model target world answers succeeds
