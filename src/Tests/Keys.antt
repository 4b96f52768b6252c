-- ===== src/Tests/Keys.antt =====
-- The rotation of two keys.
use buzzhive.Base.{
  ◌<◌, ◌+◌, ◌*◌, List, [], ◌∷◌, true, false, some, text_eq, nat_eq, ◌≡◌, ◌≢◌, refl, find, arith,
}
use buzzhive.Base.Bytes.{has_suffix}
use buzzhive.Base.Eq.{bytes_beq}
use buzzhive.Types.{millisecond, second, minute}
use buzzhive.Keys.{
  cooldown_key, key_matches_target, is_cooling, try_key, next_from, next_for, next_cooldown,
  mark_exhausted_until, same_api_key, remove, mark_healthy, snapshot_exhausted,
}
use buzzhive.Keys.Invariant.{
  IsValid, Call, selects, exhausts, removes, heals, snapshots, step, run, run-IsValid,
}
use buzzhive.Keys.Selection.{eligible, rotation, next_for-find}
use buzzhive.Keys.Cooldowns.{
  forgets, keeps_rest, all_keep_rest, exhausted_again, resting_not_selected, removed_not_selected,
  long_rest,
}
use buzzhive.Tests.Samples.{first_key, second_key, target, model, two_keys, two_keys-IsValid, now}

next_for-find_example :
    (next_for two_keys model target now).1
    ≡ find (eligible two_keys model target now) (rotation two_keys)
next_for-find_example = next_for-find two_keys model target now two_keys-IsValid

run-IsValid_example : IsValid (
    run two_keys
      (exhausts model second_key now 3 ∷ removes second_key ∷ selects model target now ∷ []))
run-IsValid_example =
    run-IsValid two_keys
      (exhausts model second_key now 3 ∷ removes second_key ∷ selects model target now ∷ [])
      two_keys-IsValid

exhausted_again_example :
    let r =
      mark_exhausted_until
        (run
          (mark_exhausted_until two_keys model first_key now 3).0
          (selects model target now ∷ []))
        model
        first_key
        (now + minute)
        4 in
    (r.1 ≡ (now + minute) + (long_rest two_keys + 4 * millisecond))
    × (r.2 ≡ true)
    × (r.0.exhausted (cooldown_key model first_key.name) ≡ some r.1)
    × (r.0.rpd_like (cooldown_key model first_key.name) ≡ some true)
unfolding forgets
exhausted_again_example =
    exhausted_again two_keys model first_key now 3 (selects model target now ∷ []) (now + minute) 4
      (refl, record {})

-- What happens while the first key rests.
abbrev meanwhile : List Call
meanwhile =
    selects model target (now + millisecond)
    ∷ exhausts model second_key (now + millisecond) 1
    ∷ heals model second_key
    ∷ snapshots (now + millisecond)
    ∷ []

second_selected :
    (next_for
      (run (mark_exhausted_until two_keys model first_key now 3).0 meanwhile)
      model
      target
      (now + second)).1
    ≡ some second_key
unfolding run step mark_healthy snapshot_exhausted next_for next_from try_key key_matches_target
    is_cooling mark_exhausted_until next_cooldown bytes_beq
second_selected = refl

rest_kept :
    all_keep_rest
      (cooldown_key model first_key.name)
      (mark_exhausted_until two_keys model first_key now 3).1
      meanwhile
    ≡ true
unfolding all_keep_rest keeps_rest mark_exhausted_until next_cooldown bytes_beq
rest_kept = refl

rests : now + second < (mark_exhausted_until two_keys model first_key now 3).1
unfolding mark_exhausted_until next_cooldown
rests = omega arith

resting_not_selected_example : second_key.name ≢ first_key.name
resting_not_selected_example =
    resting_not_selected two_keys model first_key now 3 meanwhile target (now + second)
      two_keys-IsValid rest_kept rests second_selected

first_left :
    (next_for (run (remove two_keys second_key) (selects model target now ∷ [])) model target now).1
    ≡ some first_key
unfolding next_for next_from try_key key_matches_target is_cooling run step remove has_suffix
    bytes_beq
first_left = refl

removed_not_selected_example : same_api_key first_key second_key ≡ false
removed_not_selected_example =
    removed_not_selected two_keys second_key (selects model target now ∷ []) model target now
      two_keys-IsValid (refl, record {}) first_left
