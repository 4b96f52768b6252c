-- ===== src/Quota/Periods.antt =====
-- internal/store_quota.go, `weeklyQuotaPeriod`: the weeks counted from the anchor.
use buzzhive.Base.{ℕ, ◌+◌, ◌-◌, ◌*◌, ◌/◌, ◌%◌, ◌≤◌, ◌<◌, ◌≡◌, ap₂, arith}
use buzzhive.Quota.{max_int64, period, weekly_quota_period}

-- From the anchor on, and while the time since is an int64 of nanoseconds (292 years), the week of an instant contains the instant, lasts seven days, starts no earlier
-- than the anchor and a whole number of weeks after it.
pub week_contains :
    (anchor at : ℕ)
    → anchor ≤ at
    → at - anchor ≤ max_int64
    → ((weekly_quota_period anchor at).0 ≤ at)
      × (at < (weekly_quota_period anchor at).1)
      × ((weekly_quota_period anchor at).1 ≡ (weekly_quota_period anchor at).0 + period)
      × (anchor ≤ (weekly_quota_period anchor at).0)
      × (((weekly_quota_period anchor at).0 - anchor) % period ≡ 0)
unfolding weekly_quota_period
week_contains anchor at h near =
    (ground arith, ground arith, ground arith, ground arith, ground arith)

from_anchor :
    (anchor at : ℕ)
    → anchor ≤ at
    → at - anchor ≤ max_int64
    → (weekly_quota_period anchor at).0 ≡ anchor + (at - anchor) / period * period
unfolding weekly_quota_period
from_anchor anchor at h near = ground arith

end_of :
    (anchor at : ℕ) → (weekly_quota_period anchor at).1 ≡ (weekly_quota_period anchor at).0 + period
unfolding weekly_quota_period
end_of anchor at = ground arith

-- An instant in the week of another, both from the anchor on and no more than an int64 of nanoseconds
-- after it, has the same week: the weeks do not overlap.
pub week_unique :
    (anchor at other : ℕ)
    → anchor ≤ at
    → anchor ≤ other
    → at - anchor ≤ max_int64
    → other - anchor ≤ max_int64
    → (weekly_quota_period anchor at).0 ≤ other
    → other < (weekly_quota_period anchor at).1
    → weekly_quota_period anchor other ≡ weekly_quota_period anchor at
week_unique anchor at other h k near close low high =
    let same : (weekly_quota_period anchor other).0 ≡ (weekly_quota_period anchor at).0 =
      omega
        (arith, from_anchor anchor at h near, from_anchor anchor other k close, end_of anchor at) in
    ap₂ (λ a b. (a, b)) same (omega (arith, end_of anchor at, end_of anchor other))
