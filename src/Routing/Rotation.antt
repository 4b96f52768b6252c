-- ===== src/Routing/Rotation.antt =====
-- internal/provider.go, `rotateRouteTargets`: the counter of a model visits the places of a list in
-- turn, so consecutive requests start with each target once.
use mathlib.Core.List.{perm_append_comm}
use mathlib.Core.List.Perm
use native.Mathlib.Nat.{mod-eq_of_lt, mod-lt, mod_self, mod-mod}
use native.Mathlib.Numerals.{add-one}
use buzzhive.Base.{
  ℕ, zero, suc, ◌+◌, ◌-◌, ◌%◌, ◌≤◌, ◌<◌, ◌≡◌, refl, sym, ap, ap₂, subst, ◌∙◌, ◌++◌, List, [], ◌∷◌,
  Text, text, text_eq, length, get_or, take, drop, length-drop, take-append-drop, arith, Perm, ◌≢◌,
}
use buzzhive.Base.Maps
use buzzhive.Base.Eq.{bytes_beq_iff}
use buzzhive.Types.{RouteTarget}
use buzzhive.Routing.{Router, zero_target, rotate_at, advance_counter, rotate_route_targets}

module _ {A : Type 0} (xs : List A) (d : A) where
  -- What `n` steps of a counter that starts at `c` see.
  unfoldable pub visits : ℕ → ℕ → List A
  visits zero c = []
  visits (suc n) c = get_or xs (c % length xs) d ∷ visits n ((c % length xs + 1) % length xs)

  take-drop_step :
      (n c : ℕ) (ys : List A)
      → c < length ys
      → take (suc n) (drop c ys) ≡ get_or ys c d ∷ take n (drop (suc c) ys)
  take-drop_step n c [] h = elim h [ ]
  take-drop_step n zero (y ∷ ys) h = refl
  take-drop_step n (suc c) (y ∷ ys) h = take-drop_step n c ys (omega arith)

  visits-suc :
      (n c : ℕ) {at next : ℕ}
      → c % length xs ≡ at
      → (at + 1) % length xs ≡ next
      → visits (suc n) c ≡ get_or xs at d ∷ visits n next
  unfolding visits
  visits-suc n c e f = rw (← f, ← e)

  -- Up to the end of the list the counter sees the next elements.
  visits-ahead : (n c : ℕ) → c < length xs → c + n ≤ length xs → visits n c ≡ take n (drop c xs)
  unfolding visits
  visits-ahead zero c l h = refl
  visits-ahead (suc zero) c l h =
      visits-suc 0 c (mod-eq_of_lt l) refl ∙ sym (take-drop_step 0 c xs l)
  visits-ahead (suc (suc n)) c l h =
      let next : (c + 1) % length xs ≡ suc c =
        ap (λ t. t % length xs) (add-one c) ∙ mod-eq_of_lt (omega arith) in
      visits-suc (suc n) c (mod-eq_of_lt l) next
      ∙ ap (◌∷◌ (get_or xs c d)) (visits-ahead (suc n) (suc c) (omega arith) (omega arith))
      ∙ sym (take-drop_step (suc n) c xs l)

  visits-append :
      (m n c : ℕ) → c < length xs → c + m ≡ length xs → visits (m + n) c ≡ visits m c ++ visits n 0
  unfolding visits
  visits-append zero n c l h = absurd (omega arith)
  visits-append (suc zero) n c l h =
      let next : (c + 1) % length xs ≡ 0 = ap (λ t. t % length xs) h ∙ mod_self (length xs) in
      let wrap = λ (k : ℕ). visits-suc k c (mod-eq_of_lt l) next in
      let sum : 1 + n ≡ suc n = omega arith in
      ap (λ k. visits k c) sum ∙ wrap n ∙ sym (ap (λ v. v ++ visits n 0) (wrap 0))
  visits-append (suc (suc m)) n c l h =
      let next : (c + 1) % length xs ≡ suc c =
        ap (λ t. t % length xs) (add-one c) ∙ mod-eq_of_lt (omega arith) in
      let walk = λ (k : ℕ). visits-suc k c (mod-eq_of_lt l) next in
      let sum : suc (suc m) + n ≡ suc (suc m + n) = omega arith in
      ap (λ k. visits k c) sum
      ∙ walk (suc m + n)
      ∙ ap (◌∷◌ (get_or xs c d)) (visits-append (suc m) n (suc c) (omega arith) (omega arith))
      ∙ sym (ap (λ v. v ++ visits n 0) (walk (suc m)))

  take_all : (n : ℕ) (ys : List A) → length ys ≤ n → take n ys ≡ ys
  take_all zero [] h = refl
  take_all zero (y ∷ ys) h = absurd (omega arith)
  take_all (suc n) [] h = refl
  take_all (suc n) (y ∷ ys) h = ap (◌∷◌ y) (take_all n ys (omega arith))

  -- Only the counter modulo the length matters.
  pub visits-mod : (n c : ℕ) → visits n c ≡ visits n (c % length xs)
  unfolding visits
  visits-mod zero c = refl
  visits-mod (suc n) c = rw (mod-mod c (length xs))

  -- As many steps as there are elements see each once, from the counter on.
  pub visits-all : (c : ℕ) → c < length xs → visits (length xs) c ≡ drop c xs ++ take c xs
  visits-all c l =
      let ahead = length xs - c in
      let parts : length xs ≡ ahead + c = omega arith in
      ap (λ n. visits n c) parts
      ∙ visits-append ahead c c l (omega arith)
      ∙ ap₂ ◌++◌
          (visits-ahead ahead c l (omega arith)
            ∙ take_all ahead (drop c xs) (omega (arith, length-drop c xs)))
          (visits-ahead c 0 (omega arith) (omega arith))

-- The counter's state, and what a request sees of it.
unfoldable pub counter : Router → Text → ℕ
counter r model = Maps.get_or (r.route_next model) 0

-- The targets that `n` requests for a model start with.
unfoldable pub heads : ℕ → Router → Text → List RouteTarget → List RouteTarget
heads zero r model targets = []
heads (suc n) r model targets =
    let (r', out) = rotate_route_targets r model targets in
    get_or out 0 zero_target ∷ heads n r' model targets

pub head-drop :
    (start : ℕ) (targets rest : List RouteTarget)
    → start < length targets
    → get_or (drop start targets ++ rest) 0 zero_target ≡ get_or targets start zero_target
head-drop start [] rest h = elim h [ ]
head-drop zero (t ∷ ts) rest h = refl
head-drop (suc start) (t ∷ ts) rest h = head-drop start ts rest (omega arith)

pub rotate_at-perm :
    (start : ℕ) (targets : List RouteTarget) → Perm (rotate_at start targets) targets
rotate_at-perm start targets =
    Perm.trans (perm_append_comm (drop start targets) (take start targets))
      (subst (λ ts. Perm ts targets) (sym (take-append-drop start targets)) (Perm.refl targets))

pub counter-advance :
    (r : Router) (model : Text) (count : ℕ)
    → counter (advance_counter r model count).0 model ≡ (counter r model % count + 1) % count
unfolding counter advance_counter
counter-advance r model count = ground (arith, bytes_beq_iff model model)

module _ (model : Text) (targets : List RouteTarget) (many : 1 < length targets)
    (plain : (get_or targets 0 zero_target).selection_policy ≢ text "weighted") where
  plain_step :
      (r : Router)
      → rotate_route_targets r model targets ≡ (
        (advance_counter r model (length targets)).0,
        rotate_at (counter r model % length targets) targets,
      )
  unfolding rotate_route_targets counter advance_counter
  plain_step r =
      ground
        (arith, bytes_beq_iff (get_or targets 0 zero_target).selection_policy (text "weighted"))

  heads-visits :
      (n : ℕ) (r : Router)
      → heads n r model targets ≡ visits targets zero_target n (counter r model)
  unfolding heads visits
  heads-visits zero r = refl
  heads-visits (suc n) r = rw (plain_step r) (
      ap₂ ◌∷◌ (head-drop (counter r model % length targets) targets _ (mod-lt _ (omega arith))) (
        heads-visits n (advance_counter r model (length targets)).0
        ∙ ap (visits targets zero_target n) (counter-advance r model (length targets))))

  -- Of as many consecutive requests as a model has targets (two at least, the first without the weighted policy), each target is
  -- the first of one, wherever the counter stood.
  pub round_robin_fair : (r : Router) → Perm (heads (length targets) r model targets) targets
  round_robin_fair r =
      let c = counter r model % length targets in
      subst (λ ts. Perm ts targets)
        (sym (
          heads-visits (length targets) r
          ∙ visits-mod targets zero_target (length targets) (counter r model)
          ∙ visits-all targets zero_target c (mod-lt _ (omega arith))))
        (rotate_at-perm c targets)
