-- ===== src/Routing/Weights.antt =====
-- internal/provider.go, `rotateWeightedRouteTargets`: each route leads as many requests as its weight.
use mathlib.Core.List.{map-append}
use native.Mathlib.Nat.{mod-lt}
use buzzhive.Base.{
  ℕ, zero, suc, ◌+◌, ◌%◌, ◌≤◌, ◌<◌, ◌≡◌, refl, sym, ap, ap₂, ◌∙◌, ◌++◌, List, [], ◌∷◌, map, some,
  Text, text, text_eq, nat_eq, ◌==◌, inl, inr, Bool-cases, length, get_or, take, drop, replicate,
  length-append, length-replicate, take-append-drop, arith, if◌then◌else◌, dec_lt, ◌-◌,
}
use buzzhive.Base.Eq.{bytes_beq_iff}
use buzzhive.Types.{RouteTarget}
use buzzhive.Routing.{
  Router, zero_target, advance_counter, clamp_weight, expand_weighted_targets, index_of,
  rotate_weighted_route_targets, rotate_route_targets,
}
use buzzhive.Routing.Rotation.{
  visits, visits-all, visits-mod, heads, head-drop, counter, counter-advance,
}

clamp_weight_bounds : (w : ℕ) → (1 ≤ clamp_weight w) × (clamp_weight w ≤ 100)
clamp_weight_bounds w = ground arith

length-expand_ge : (ts : List RouteTarget) → length ts ≤ length (expand_weighted_targets ts)
unfolding expand_weighted_targets
length-expand_ge [] = omega arith
length-expand_ge (t ∷ ts) = omega (
  arith,
  length-append (replicate (clamp_weight t.weight) t) (expand_weighted_targets ts),
  length-replicate (clamp_weight t.weight) t,
  clamp_weight_bounds t.weight,
  length-expand_ge ts,
)

-- A target that is listed is found under its identifier.
abbrev Listed : List RouteTarget → RouteTarget → Type 0
Listed ts t =
    (i : ℕ) × (index_of t.id ts ≡ some i) × (i < length ts) × ((get_or ts i zero_target).id ≡ t.id)

Listed-head : (t : RouteTarget) (ts : List RouteTarget) → Listed (t ∷ ts) t
unfolding index_of
Listed-head t ts = (0, ground arith, omega arith, refl)

Listed-tail :
    (u : RouteTarget) (ts : List RouteTarget) (t : RouteTarget) → Listed ts t → Listed (u ∷ ts) t
unfolding index_of
Listed-tail u ts t (i, at, low, same) = elim (Bool-cases (u.id == t.id)) [
  | inl hit ↦ (0, ground arith, omega arith, ground arith)
  | inr miss ↦ (suc i, ground arith, omega arith, same)
]

get_or-replicate :
    (n : ℕ) (t : RouteTarget) (rest : List RouteTarget) (i : ℕ)
    → i < n
    → get_or (replicate n t ++ rest) i zero_target ≡ t
get_or-replicate zero t rest i h = elim h [ ]
get_or-replicate (suc n) t rest zero h = refl
get_or-replicate (suc n) t rest (suc i) h = get_or-replicate n t rest i (omega arith)

get_or-replicate_past :
    (n : ℕ) (t : RouteTarget) (rest : List RouteTarget) (i : ℕ)
    → get_or (replicate n t ++ rest) (n + i) zero_target ≡ get_or rest i zero_target
get_or-replicate_past zero t rest i =
    let same : 0 + i ≡ i = omega arith in ap (λ k. get_or rest k zero_target) same
get_or-replicate_past (suc n) t rest i =
    let same : suc n + i ≡ suc (n + i) = omega arith in rw same (get_or-replicate_past n t rest i)

expand-Listed :
    (ts : List RouteTarget) (i : ℕ)
    → i < length (expand_weighted_targets ts)
    → Listed ts (get_or (expand_weighted_targets ts) i zero_target)
unfolding expand_weighted_targets
expand-Listed [] i h = elim h [ ]
expand-Listed (t ∷ ts) i h = elim (dec_lt i (clamp_weight t.weight)) [
  | yes early ↦
      rw (get_or-replicate (clamp_weight t.weight) t (expand_weighted_targets ts) i early)
        (Listed-head t ts)
  | no late ↦
      let n = clamp_weight t.weight in
      let past : i ≡ n + (i - n) = omega arith in
      let low : i - n < length (expand_weighted_targets ts) =
        omega (
          arith,
          length-append (replicate n t) (expand_weighted_targets ts),
          length-replicate n t,
        ) in
      rw
        (ap (λ k. get_or (replicate n t ++ expand_weighted_targets ts) k zero_target) past
          ∙ get_or-replicate_past n t (expand_weighted_targets ts) (i - n))
        (Listed-tail t ts (get_or (expand_weighted_targets ts) (i - n) zero_target)
          (expand-Listed ts (i - n) low))
]

abbrev pub ids : List RouteTarget → List ℕ
ids = map (λ t. t.id)

-- An independent account of the weights.
unfoldable pub total_weight : List RouteTarget → ℕ
total_weight [] = 0
total_weight (t ∷ ts) = clamp_weight t.weight + total_weight ts

unfoldable pub weight_of : ℕ → List RouteTarget → ℕ
weight_of id [] = 0
weight_of id (t ∷ ts) = (if t.id == id then clamp_weight t.weight else 0) + weight_of id ts

unfoldable pub led_by : ℕ → List ℕ → ℕ
led_by id [] = 0
led_by id (leader ∷ later) = let rest = led_by id later in if leader == id then rest + 1 else rest

led_by-append :
    (id : ℕ) (early late : List ℕ) → led_by id (early ++ late) ≡ led_by id early + led_by id late
unfolding led_by
led_by-append id [] late = omega arith
led_by-append id (leader ∷ early) late = ground (arith, led_by-append id early late)

led_by-replicate :
    (a n : ℕ) (t : RouteTarget) → led_by a (ids (replicate n t)) ≡ (if t.id == a then n else 0)
unfolding led_by
led_by-replicate a zero t = ground arith
led_by-replicate a (suc n) t = ground (arith, led_by-replicate a n t)

led_by-expand :
    (a : ℕ) (ts : List RouteTarget) → led_by a (ids (expand_weighted_targets ts)) ≡ weight_of a ts
unfolding expand_weighted_targets weight_of led_by
led_by-expand a [] = refl
led_by-expand a (t ∷ ts) =
    let first = replicate (clamp_weight t.weight) t in
    omega (
      arith,
      ap (led_by a) (map-append (λ (u : RouteTarget). u.id) first (expand_weighted_targets ts)),
      led_by-append a (ids first) (ids (expand_weighted_targets ts)),
      led_by-replicate a (clamp_weight t.weight) t,
      led_by-expand a ts,
    )

led_by-rotate :
    (a c : ℕ) (ts : List RouteTarget) → led_by a (ids (drop c ts ++ take c ts)) ≡ led_by a (ids ts)
led_by-rotate a c ts = omega (
  arith,
  ap (led_by a) (map-append (λ (u : RouteTarget). u.id) (drop c ts) (take c ts)),
  ap (led_by a) (map-append (λ (u : RouteTarget). u.id) (take c ts) (drop c ts)),
  ap (λ us. led_by a (ids us)) (take-append-drop c ts),
  led_by-append a (ids (take c ts)) (ids (drop c ts)),
  led_by-append a (ids (drop c ts)) (ids (take c ts)),
)

length-expand : (ts : List RouteTarget) → length (expand_weighted_targets ts) ≡ total_weight ts
unfolding expand_weighted_targets total_weight
length-expand [] = refl
length-expand (t ∷ ts) = omega (
  arith,
  length-append (replicate (clamp_weight t.weight) t) (expand_weighted_targets ts),
  length-replicate (clamp_weight t.weight) t,
  length-expand ts,
)

module _ (model : Text) (targets : List RouteTarget) (many : 1 < length targets)
    (weighted : (get_or targets 0 zero_target).selection_policy ≡ text "weighted") where
  weighted_step :
      (r : Router)
      → rotate_route_targets r model targets ≡ rotate_weighted_route_targets r model targets
  unfolding rotate_route_targets
  weighted_step r =
      ground
        (arith, bytes_beq_iff (get_or targets 0 zero_target).selection_policy (text "weighted"))

  weighted_head :
      (r : Router)
      → (get_or (rotate_weighted_route_targets r model targets).1 0 zero_target).id
        ≡ (get_or
            (expand_weighted_targets targets)
            (counter r model % length (expand_weighted_targets targets))
            zero_target).id
  unfolding rotate_weighted_route_targets advance_counter counter
  weighted_head r =
      let start = counter r model % length (expand_weighted_targets targets) in
      let (i, at, low, same) =
        expand-Listed targets start (mod-lt _ (omega (arith, length-expand_ge targets))) in
      rw at (ap (λ (t : RouteTarget). t.id) (head-drop i targets (take i targets) low) ∙ same)

  weighted_counter :
      (r : Router)
      → (rotate_weighted_route_targets r model targets).0
        ≡ (advance_counter r model (length (expand_weighted_targets targets))).0
  unfolding rotate_weighted_route_targets
  weighted_counter r = refl

  heads-visits :
      (n : ℕ) (r : Router)
      → ids (heads n r model targets)
        ≡ ids (visits (expand_weighted_targets targets) zero_target n (counter r model))
  unfolding heads visits
  heads-visits zero r = refl
  heads-visits (suc n) r =
      let weighted = expand_weighted_targets targets in
      rw (weighted_step r) (
        ap₂ ◌∷◌ (weighted_head r) (
          rw (weighted_counter r) (heads-visits n (advance_counter r model (length weighted)).0)
          ∙ ap (λ c. ids (visits weighted zero_target n c))
              (counter-advance r model (length weighted))))

  -- For two targets or more, the first with the weighted policy: of as many consecutive requests as the
  -- weights add up to (a weight of 0 counts as 1, one above 100
  -- as 100), each identifier leads exactly as many as the weights of its targets add up to, wherever
  -- the counter stood.
  pub weighted_fair :
      (r : Router) (id : ℕ)
      → led_by id (ids (heads (total_weight targets) r model targets)) ≡ weight_of id targets
  weighted_fair r id =
      let all = expand_weighted_targets targets in
      let c = counter r model % length all in
      let low : c < length all = mod-lt _ (omega (arith, length-expand_ge targets)) in
      ap (λ n. led_by id (ids (heads n r model targets))) (sym (length-expand targets))
      ∙ ap (led_by id) (
          heads-visits (length all) r
          ∙ ap ids (
              visits-mod all zero_target (length all) (counter r model)
              ∙ visits-all all zero_target c low))
      ∙ led_by-rotate id c all
      ∙ led_by-expand id targets
