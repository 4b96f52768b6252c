-- ===== src/Tests/Quotas.antt =====
-- A user with one weekly credit and a reserve of one.
use buzzhive.Base.{
  ℕ, ◌+◌, ◌*◌, ◌-◌, ◌%◌, ◌≤◌, ◌<◌, [], ◌∷◌, List, true, some, none, ◌≡◌, ◌⊎◌, ◌↔◌, refl, arith,
  nat_eq, ◌==◌, if◌then◌else◌,
}
use buzzhive.Quota.{
  User, Store, Charge, period, credit_microcredits, weekly_quota_period, quota_overage, charge_all,
  enforce_user_quota, admitted, quota_exceeded, reset_user_quota,
}
use buzzhive.Quota.Periods.{week_contains, week_unique}
use buzzhive.Quota.Charges.{one_week, billed, spend, charge_all_lifetime}
use buzzhive.Quota.Gate.{enforce_user_quota_iff, spent_out, reset_reopens}
use buzzhive.Tests.Samples.{token}

abbrev user : User
user = record {
  weekly_quota_credits = 1;
  lifetime_quota_credits = 1;
  lifetime_used = 0;
  quota_anchor_at = 5;
}

abbrev pub store : Store
store = record { users = λ i. if i == 7 then some user else none; usage = λ i p. 0 }

abbrev bill : ℕ → ℕ → Charge
bill id amount = record {
  user_id = id;
  microcredits = amount;
  weekly_limit = 1_000_000;
  uses_lifetime = true;
  period_start = 5;
}

abbrev pub bills : List Charge
bills = bill 7 800_000 ∷ bill 8 500_000 ∷ bill 7 1_300_000 ∷ []

week_contains_example :
    ((weekly_quota_period 5 100).0 ≤ 100)
    × (100 < (weekly_quota_period 5 100).1)
    × ((weekly_quota_period 5 100).1 ≡ (weekly_quota_period 5 100).0 + period)
    × (5 ≤ (weekly_quota_period 5 100).0)
    × (((weekly_quota_period 5 100).0 - 5) % period ≡ 0)
week_contains_example = week_contains 5 100 (omega arith) (omega arith)

week_unique_example : weekly_quota_period 5 200 ≡ weekly_quota_period 5 100
unfolding weekly_quota_period
week_unique_example =
    week_unique 5 100 200 (omega arith) (omega arith) (omega arith) (omega arith) (omega arith)
      (omega arith)

charge_all_lifetime_example :
    (charge_all store bills).users 7
    ≡ some (spend 1_000_000 (store.usage 7 5) (store.usage 7 5 + billed 7 bills) user)
unfolding one_week
charge_all_lifetime_example =
    charge_all_lifetime 7 5 1_000_000 (omega arith) (omega arith) store bills user refl refl

enforce_user_quota_iff_example :
    ((enforce_user_quota store token 100 ≡ admitted)
      ⊎ (enforce_user_quota store token 100 ≡ quota_exceeded))
    × ((enforce_user_quota store token 100 ≡ admitted) ↔ (
        ((user.weekly_quota_credits ≡ 0) × (user.lifetime_quota_credits ≡ 0))
        ⊎ (store.usage token.user_id (weekly_quota_period user.quota_anchor_at 100).0
            < user.weekly_quota_credits * credit_microcredits)
        ⊎ (user.lifetime_used < user.lifetime_quota_credits * credit_microcredits)))
enforce_user_quota_iff_example =
    enforce_user_quota_iff store token user 100 refl (omega arith) refl refl

spent_out_example : enforce_user_quota (charge_all store bills) token 100 ≡ quota_exceeded
unfolding weekly_quota_period one_week billed quota_overage
spent_out_example =
    spent_out store token user 100 1_000_000 bills refl (omega arith) (omega arith) (omega arith)
      refl refl (omega arith) (omega arith)

reset_reopens_example : enforce_user_quota (reset_user_quota store 7 50).0 token 100 ≡ admitted
reset_reopens_example =
    reset_reopens store token user 50 100 refl (omega arith) (omega arith) refl (omega arith)
      (omega arith)
