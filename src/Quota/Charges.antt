-- ===== src/Quota/Charges.antt =====
-- internal/store_usage.go, `InsertUsageBatch`: the lifetime reserve pays what a week is over its limit.
use buzzhive.Base.{
  ℕ, ◌+◌, ◌-◌, ◌≤◌, ◌≡◌, ap, ◌∙◌, List, [], ◌∷◌, Bool, true, not, ◌&&◌, ◌||◌, some, nat_eq, ◌==◌,
  arith, if◌then◌else◌,
}
use buzzhive.Quota.{User, Store, Charge, quota_overage, charge_lifetime, charge, charge_all}

-- What the records bill to the user.
unfoldable pub billed : ℕ → List Charge → ℕ
billed user [] = 0
billed user (c ∷ cs) =
    let rest = billed user cs in if c.user_id == user then c.microcredits + rest else rest

-- The records of the user are of one period, with one weekly limit and the reserve behind it.
unfoldable pub one_week : ℕ → ℕ → ℕ → List Charge → Bool
one_week user start limit [] = true
one_week user start limit (c ∷ cs) =
    (not (c.user_id == user)
      || (c.period_start == start && (c.weekly_limit == limit && c.uses_lifetime)))
    && one_week user start limit cs

-- The user after the week's usage went from `before` to `after`.
abbrev pub spend : ℕ → ℕ → ℕ → User → User
spend limit before after u = record u {
  lifetime_used = u.lifetime_used + ((after - limit) - (before - limit));
}

module _ (user start limit : ℕ) (real_user : 1 ≤ user) (real_start : 1 ≤ start) where
  charge_usage :
      (s : Store) (c : Charge)
      → one_week user start limit (c ∷ []) ≡ true
      → (charge s c).usage user start ≡ s.usage user start + billed user (c ∷ [])
  unfolding charge charge_lifetime one_week billed
  charge_usage s c h = ground arith

  charge-user :
      (s : Store) (c : Charge) (u : User)
      → one_week user start limit (c ∷ []) ≡ true
      → s.users user ≡ some u
      → (charge s c).users user
        ≡ some (spend limit (s.usage user start) (s.usage user start + billed user (c ∷ [])) u)
  unfolding charge charge_lifetime one_week billed quota_overage
  charge-user s c u h known = ground arith

  overage_split :
      (a b c : ℕ)
      → a ≤ b
      → b ≤ c
      → ((b - limit) - (a - limit)) + ((c - limit) - (b - limit)) ≡ (c - limit) - (a - limit)
  overage_split a b c h k = ground arith

  overage_same : (a : ℕ) → ((a + 0) - limit) - (a - limit) ≡ 0
  overage_same a = omega arith

  one_week-cons :
      (c : Charge) (cs : List Charge)
      → one_week user start limit (c ∷ cs) ≡ true
      → (one_week user start limit (c ∷ []) ≡ true) × (one_week user start limit cs ≡ true)
  unfolding one_week
  one_week-cons c cs h = ground arith

  billed-cons :
      (c : Charge) (cs : List Charge) → billed user (c ∷ cs) ≡ billed user (c ∷ []) + billed user cs
  unfolding billed
  billed-cons c cs = ground arith

  spend-spend :
      (a b c : ℕ) (u : User)
      → a ≤ b
      → b ≤ c
      → spend limit b c (spend limit a b u) ≡ spend limit a c u
  spend-spend a b c u h k =
      ap (λ used. record u { lifetime_used = used }) (omega (arith, overage_split a b c h k))

  pub charge_all_usage :
      (s : Store) (cs : List Charge)
      → one_week user start limit cs ≡ true
      → (charge_all s cs).usage user start ≡ s.usage user start + billed user cs
  unfolding charge_all billed
  charge_all_usage s [] h = omega arith
  charge_all_usage s (c ∷ cs) h =
      let (head, tail) = one_week-cons c cs h in
      omega (arith, charge_all_usage (charge s c) cs tail, charge_usage s c head, billed-cons c cs)

  -- A batch in which the records of a known user have one week (not the zero time) and one limit and use the
  -- reserve, with any records of other users: the user's lifetime use grows by exactly what the week's usage
  -- is over the limit after the batch and was not before.
  pub charge_all_lifetime :
      (s : Store) (cs : List Charge) (u : User)
      → one_week user start limit cs ≡ true
      → s.users user ≡ some u
      → (charge_all s cs).users user
        ≡ some (spend limit (s.usage user start) (s.usage user start + billed user cs) u)
  unfolding charge_all billed
  charge_all_lifetime s [] u h known =
      let same : u ≡ spend limit (s.usage user start) (s.usage user start + 0) u =
        ap (λ used. record u { lifetime_used = used })
          (omega (arith, overage_same (s.usage user start))) in
      known ∙ ap some same
  charge_all_lifetime s (c ∷ cs) u h known =
      let (head, tail) = one_week-cons c cs h in
      let a = s.usage user start in
      let b = a + billed user (c ∷ []) in
      let now : (charge s c).usage user start ≡ b = charge_usage s c head in
      let u' = spend limit a b u in
      let total : b + billed user cs ≡ a + billed user (c ∷ cs) = omega (arith, billed-cons c cs) in
      let rest = charge_all_lifetime (charge s c) cs u' tail (charge-user s c u head known) in
      rest
      ∙ ap (λ n. some (spend limit n (n + billed user cs) u')) now
      ∙ ap some (spend-spend a b (b + billed user cs) u (omega arith) (omega arith))
      ∙ ap (λ n. some (spend limit a n u)) total
