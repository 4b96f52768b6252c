-- ===== src/Tests/Routes.antt =====
-- The order of two or three targets.
use buzzhive.Base.{
  ◌+◌, [], ◌∷◌, List, none, text, text_eq, nat_eq, ◌≡◌, ◌≢◌, refl, arith, get_or, length, Perm,
}
use buzzhive.Types.{RouteTarget, minute}
use buzzhive.Routing.{zero_target, remember_route_session, prefer_route_session_target}
use buzzhive.Routing.Rotation.{heads, round_robin_fair}
use buzzhive.Routing.Weights.{led_by, ids, total_weight, weight_of, weighted_fair}
use buzzhive.Routing.Sessions.{remembered_first}
use buzzhive.Tests.Samples.{target_of, model, router, now}

abbrev weighted_targets : List RouteTarget
weighted_targets = target_of 1 (text "weighted") 2 ∷ target_of 2 (text "weighted") 0 ∷ []

abbrev plain_targets : List RouteTarget
plain_targets = target_of 1 (text "round_robin") 1 ∷ target_of 2 (text "round_robin") 1 ∷ []

weighted_fair_example :
    led_by 1 (ids (heads (total_weight weighted_targets) router model weighted_targets))
    ≡ weight_of 1 weighted_targets
weighted_fair_example = weighted_fair model weighted_targets (omega arith) refl router 1

not_weighted : text "round_robin" ≢ text "weighted"
not_weighted h = cc

round_robin_fair_example :
    Perm (heads (length plain_targets) router model plain_targets) plain_targets
round_robin_fair_example = round_robin_fair model plain_targets (omega arith) not_weighted router

remembered_first_example :
    (get_or
      (prefer_route_session_target
        (remember_route_session router model (target_of 2 (text "round_robin") 1) now)
        none
        model
        plain_targets
        (now + minute)).1
      0
      zero_target).id
    ≡ 2
remembered_first_example =
    remembered_first router none model (target_of 2 (text "round_robin") 1) plain_targets 1 now
      (now + minute) (λ session found. cc) (omega arith) refl (omega arith)
