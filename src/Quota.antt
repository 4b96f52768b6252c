-- ===== src/Quota.antt =====
-- internal/store_quota.go, internal/quota.go and the quota part of internal/store_usage.go: weekly
-- credits with a lifetime reserve behind them. The columns of `users` and `user_quota_usage` that the
-- queries name are the state; instants are nanoseconds.
pub mod Periods
pub mod Charges
pub mod Gate
pub mod Batch
use buzzhive.Base.{
  ℕ, zero, suc, ◌+◌, ◌-◌, ◌*◌, ◌/◌, ◌%◌, ◌++◌, List, [], ◌∷◌, Bool, true, false, not, ◌&&◌, ◌||◌,
  Option, none, some, Text, Map, text_eq, nat_eq, ◌==◌, ltb, leb, if◌then◌else◌, length, min,
}
use buzzhive.Base.Maps
use buzzhive.Base.Maps.{insert}
use buzzhive.Types.{AuthToken, hour}

abbrev pub credit_microcredits : ℕ
credit_microcredits = 1_000_000

abbrev pub max_int64 : ℕ
max_int64 = 9_223_372_036_854_775_807

abbrev pub max_quota_credits : ℕ
max_quota_credits = max_int64 / credit_microcredits

abbrev pub period : ℕ
period = 7 * (24 * hour)

-- The start and the end of the week of `at`, counted from the anchor. `at.Sub(anchor)` is a
-- `time.Duration`, which does not go beyond the greatest int64.
unfoldable pub weekly_quota_period : ℕ → ℕ → ℕ × ℕ
weekly_quota_period anchor at =
    let start = anchor + min (at - anchor) max_int64 / period * period in
    if ltb at anchor then (anchor, anchor + period) else (start, start + period)

-- A row of `users`.
pub record User : Type 0 where
  pub weekly_quota_credits : ℕ
  pub lifetime_quota_credits : ℕ
  pub lifetime_used : ℕ
  pub quota_anchor_at : ℕ

pub record Store : Type 0 where
  pub users : Map ℕ User
  pub usage : ℕ → ℕ → ℕ  -- by user and start of the period, 0 where there is no row

pub record UserQuotaStatus : Type 0 where
  pub weekly_used : ℕ
  pub weekly_remaining : ℕ
  pub lifetime_used : ℕ
  pub lifetime_remaining : ℕ
  pub period_start : ℕ
  pub period_end : ℕ
  pub unlimited : Bool

-- `UserQuotaStatus` with the row at hand. `weekly_used` is no more than the limit, so the first
-- difference is exact; a negative second one is made 0.
unfoldable pub status_of : Store → ℕ → User → ℕ → UserQuotaStatus
status_of s user_id u at =
    let (start, end) = weekly_quota_period u.quota_anchor_at at in
    let weekly_limit = u.weekly_quota_credits * credit_microcredits in
    let weekly_used = min (s.usage user_id start) weekly_limit in
    let lifetime_limit = u.lifetime_quota_credits * credit_microcredits in
    record {
      weekly_used = weekly_used;
      weekly_remaining = weekly_limit - weekly_used;
      lifetime_used = u.lifetime_used;
      lifetime_remaining = lifetime_limit - u.lifetime_used;
      period_start = start;
      period_end = end;
      unlimited = u.weekly_quota_credits == 0 && u.lifetime_quota_credits == 0;
    }

unfoldable pub user_quota_status : Store → ℕ → ℕ → Option UserQuotaStatus
unfolding status_of
user_quota_status s user_id at = elim (s.users user_id) [
  | none ↦ none
  | some u ↦ some (status_of s user_id u at)
]

pub data Verdict : Type 0 where
  admitted quota_error quota_exceeded : Verdict

-- `enforceUserQuota`; `token` holds the credits as the session read them.
unfoldable pub enforce_user_quota : Store → AuthToken → ℕ → Verdict
enforce_user_quota s token now =
    if token.user_id == 0 || (token.weekly_quota_credits == 0 && token.lifetime_quota_credits == 0)
    then admitted
    else elim (user_quota_status s token.user_id now) [
      | none ↦ quota_error
      | some status ↦
          if status.weekly_remaining == 0 && status.lifetime_remaining == 0
          then quota_exceeded
          else admitted
    ]

pub record Charge : Type 0 where
  pub user_id : ℕ
  pub microcredits : ℕ
  pub weekly_limit : ℕ
  pub uses_lifetime : Bool
  pub period_start : ℕ  -- 0 is the zero time

unfoldable pub quota_overage : ℕ → ℕ → ℕ
quota_overage used limit = if leb used limit then 0 else used - limit

abbrev pub add_usage : (ℕ → ℕ → ℕ) → ℕ → ℕ → ℕ → ℕ → ℕ → ℕ
add_usage usage user_id start amount i p =
    if user_id == i && start == p then usage i p + amount else usage i p

abbrev pub add_lifetime : Map ℕ User → ℕ → ℕ → Map ℕ User
add_lifetime users user_id amount i = elim (users i) [
  | none ↦ none
  | some u ↦
      some (if user_id == i then record u { lifetime_used = u.lifetime_used + amount } else u)
]

unfoldable pub charge_lifetime : Store → Charge → ℕ → Store
unfolding quota_overage
charge_lifetime s c used =
    let previous = used - c.microcredits in
    let amount = quota_overage used c.weekly_limit - quota_overage previous c.weekly_limit in
    if c.uses_lifetime && not (amount == 0)
    then record s { users = add_lifetime s.users c.user_id amount }
    else s

abbrev pub is_charged : Charge → Bool
is_charged c = not (c.user_id == 0) && (not (c.microcredits == 0) && not (c.period_start == 0))

-- What `InsertUsageBatch` does to the quota tables for one record.
unfoldable pub charge : Store → Charge → Store
unfolding charge_lifetime
charge s c =
    let usage = add_usage s.usage c.user_id c.period_start c.microcredits in
    if is_charged c
    then charge_lifetime (record s { usage = usage }) c (usage c.user_id c.period_start)
    else s

-- The records of a batch, in order.
unfoldable pub charge_all : Store → List Charge → Store
charge_all s [] = s
charge_all s (c ∷ cs) = charge_all (charge s c) cs

abbrev pub set_anchor : ℕ → User → User
set_anchor at u = record u { quota_anchor_at = at }

-- `ResetUserQuota`: the flag says whether the user is there; `at` is not the zero time.
unfoldable pub reset_user_quota : Store → ℕ → ℕ → Store × Bool
reset_user_quota s user_id at = if user_id == 0 then (s, false) else elim (s.users user_id) [
  | none ↦ (s, false)
  | some u ↦ (record s { users = insert user_id (set_anchor at u) s.users }, true)
]

-- `ResetWeeklyQuotas`, without the number of rows.
unfoldable pub reset_weekly_quotas : Store → ℕ → Store
reset_weekly_quotas s at = record s {
  users = λ i. elim (s.users i) [
    | none ↦ none
    | some u ↦ some (if ltb 0 u.weekly_quota_credits then set_anchor at u else u)
  ];
}
