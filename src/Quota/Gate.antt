-- ===== src/Quota/Gate.antt =====
-- internal/quota.go, `enforceUserQuota`: who is let through.
use buzzhive.Base.{List, ℕ, ◌+◌, ◌-◌, ◌*◌, ◌≤◌, ◌<◌, ◌≡◌, ◌⊎◌, ◌↔◌, true, some, arith, nat_eq}
use buzzhive.Types.{AuthToken}
use buzzhive.Quota.Charges.{one_week, billed, spend, charge_all_usage, charge_all_lifetime}
use buzzhive.Quota.{
  User, Store, admitted, quota_exceeded, credit_microcredits, period, Charge, charge_all, status_of,
  user_quota_status, enforce_user_quota, weekly_quota_period, reset_user_quota,
}

week_start : (at now : ℕ) → at ≤ now → now < at + period → (weekly_quota_period at now).0 ≡ at
unfolding weekly_quota_period
week_start at now from to = ground arith

-- For a user whose token carries the credits of the row: the request is let through exactly when both
-- quotas are 0 (no limit), or this week's usage is under the weekly limit, or the reserve is not used up;
-- otherwise it is refused as exceeded.
pub enforce_user_quota_iff :
    (s : Store) (token : AuthToken) (u : User) (now : ℕ)
    → s.users token.user_id ≡ some u
    → 1 ≤ token.user_id
    → token.weekly_quota_credits ≡ u.weekly_quota_credits
    → token.lifetime_quota_credits ≡ u.lifetime_quota_credits
    → ((enforce_user_quota s token now ≡ admitted)
        ⊎ (enforce_user_quota s token now ≡ quota_exceeded))
      × ((enforce_user_quota s token now ≡ admitted) ↔ (
          ((u.weekly_quota_credits ≡ 0) × (u.lifetime_quota_credits ≡ 0))
          ⊎ (s.usage token.user_id (weekly_quota_period u.quota_anchor_at now).0
              < u.weekly_quota_credits * credit_microcredits)
          ⊎ (u.lifetime_used < u.lifetime_quota_credits * credit_microcredits)))
unfolding enforce_user_quota user_quota_status status_of
enforce_user_quota_iff s token u now known real weekly lifetime = (ground arith, ground arith)

enforce_user_quota_exceeded :
    (s : Store) (token : AuthToken) (u : User) (now : ℕ)
    → s.users token.user_id ≡ some u
    → 1 ≤ token.user_id
    → 1 ≤ token.weekly_quota_credits + token.lifetime_quota_credits
    → u.weekly_quota_credits * credit_microcredits
      ≤ s.usage token.user_id (weekly_quota_period u.quota_anchor_at now).0
    → u.lifetime_quota_credits * credit_microcredits ≤ u.lifetime_used
    → enforce_user_quota s token now ≡ quota_exceeded
unfolding enforce_user_quota user_quota_status status_of
enforce_user_quota_exceeded s token u now known real limited week reserve = ground arith

-- After a batch that fills a known user's current week to its limit, and the reserve with what is over the
-- limit, a request of the user at that instant is refused as exceeded, if the token carries a weekly or a
-- lifetime quota, the week does not start at the zero time, and the batch's records of the user are all
-- of that week, with its limit and the reserve behind it.
pub spent_out :
    (s : Store) (token : AuthToken) (u : User) (now limit : ℕ) (cs : List Charge)
    → s.users token.user_id ≡ some u
    → 1 ≤ token.user_id
    → 1 ≤ token.weekly_quota_credits + token.lifetime_quota_credits
    → 1 ≤ (weekly_quota_period u.quota_anchor_at now).0
    → limit ≡ u.weekly_quota_credits * credit_microcredits
    → one_week token.user_id (weekly_quota_period u.quota_anchor_at now).0 limit cs ≡ true
    → limit
      ≤ s.usage token.user_id (weekly_quota_period u.quota_anchor_at now).0
        + billed token.user_id cs
    → u.lifetime_quota_credits * credit_microcredits
        + (s.usage token.user_id (weekly_quota_period u.quota_anchor_at now).0 - limit)
      ≤ u.lifetime_used
        + (s.usage token.user_id (weekly_quota_period u.quota_anchor_at now).0
            + billed token.user_id cs
            - limit)
    → enforce_user_quota (charge_all s cs) token now ≡ quota_exceeded
spent_out s token u now limit cs known real limited real_start is_limit uniform week reserve =
    let start = (weekly_quota_period u.quota_anchor_at now).0 in
    let before = s.usage token.user_id start in
    let after = before + billed token.user_id cs in
    enforce_user_quota_exceeded (charge_all s cs) token (spend limit before after u) now
      (charge_all_lifetime token.user_id start limit real real_start s cs u uniform known) real
      limited
      (omega (arith, charge_all_usage token.user_id start limit real real_start s cs uniform))
      (ground arith)

-- When a user with a weekly quota is reset, and no usage is on record for a week that begins at the
-- instant of the reset, every request in the seven days from the reset is let through until something is
-- charged.
pub reset_reopens :
    (s : Store) (token : AuthToken) (u : User) (at now : ℕ)
    → s.users token.user_id ≡ some u
    → 1 ≤ token.user_id
    → 1 ≤ u.weekly_quota_credits
    → s.usage token.user_id at ≡ 0
    → at ≤ now
    → now < at + period
    → enforce_user_quota (reset_user_quota s token.user_id at).0 token now ≡ admitted
unfolding enforce_user_quota user_quota_status status_of reset_user_quota
reset_reopens s token u at now known real limited fresh from to =
    let start : (weekly_quota_period at now).0 ≡ at = week_start at now from to in
    ground (arith, start)
