-- ===== src/Quota/Batch.antt =====
-- internal/store_usage.go, `InsertUsageBatch`: one transaction of a database, which is a parameter. Of the
-- rows of the log and of the statistics only the calls and their failures are modelled, with the quota part
-- of a record.
pub mod Atomic
pub mod Success
use buzzhive.Base.{
  ℕ, zero, suc, ◌-◌, List, [], ◌∷◌, Bool, true, false, not, ◌&&◌, Option, none, some, nat_eq, ◌==◌,
  if◌then◌else◌,
}
use buzzhive.Quota.{Charge, is_charged, quota_overage}

-- `database/sql`, with its statements by what they do; `none` is an error.
pub record Database : Type 1 where
  pub State : Type 0
  pub begin : State → Option State
  pub prepare : State → ℕ → Option State
  pub insert_log : State → Charge → Option State
  pub add_hourly : State → Charge → Option State
  pub add_daily : State → Charge → Option State
  pub add_weekly : State → Charge → Option (State × ℕ)  -- with the usage of the week afterwards
  pub add_to_lifetime : State → ℕ → ℕ → Option State  -- the user and the amount
  pub rollback : State → State
  pub commit : State → State × Bool

-- Where the statements so far have led, or the state in which one failed.
pub data Progress (S : Type 0) : Type 0 where
  reached : S → Progress S
  broke : S → Progress S

module _ {S : Type 0} where
  unfoldable pub exec : S → Option S → Progress S
  exec st none = broke st
  exec st (some st') = reached st'

  unfoldable pub and_then : Progress S → (S → Progress S) → Progress S
  and_then (reached st) next = next st
  and_then (broke st) next = broke st

module _ (db : Database) where
  open db use {
    State, begin, prepare, insert_log, add_hourly, add_daily, add_weekly, add_to_lifetime, rollback,
    commit,
  }

  -- The statements from the `i`-th on, `count` of them.
  unfoldable pub prepare_from : ℕ → ℕ → State → Progress State
  unfolding exec and_then
  prepare_from zero i st = reached st
  prepare_from (suc count) i st =
      and_then (exec st (prepare st i)) (λ st'. prepare_from count (suc i) st')

  unfoldable pub insert_lifetime : Charge → ℕ → State → Progress State
  unfolding quota_overage exec
  insert_lifetime c used st =
      let previous = used - c.microcredits in
      let amount = quota_overage used c.weekly_limit - quota_overage previous c.weekly_limit in
      if c.uses_lifetime && not (amount == 0)
      then exec st (add_to_lifetime st c.user_id amount)
      else reached st

  unfoldable pub insert_quota : Charge → State → Progress State
  unfolding insert_lifetime
  insert_quota c st =
      if is_charged c
      then elim (add_weekly st c) [
        | none ↦ broke st
        | some (st', used) ↦ insert_lifetime c used st'
      ]
      else reached st

  -- The round of the loop for a record.
  unfoldable pub insert_record : Charge → State → Progress State
  unfolding exec and_then insert_quota
  insert_record c st = and_then (exec st (insert_log st c)) (λ st₁.
      and_then (exec st₁ (add_hourly st₁ c))
        (λ st₂. and_then (exec st₂ (add_daily st₂ c)) (λ st₃. insert_quota c st₃)))

  unfoldable pub insert_records : List Charge → State → Progress State
  unfolding and_then insert_record
  insert_records [] st = reached st
  insert_records (c ∷ cs) st = and_then (insert_record c st) (λ st'. insert_records cs st')

  -- From where the transaction has begun.
  unfoldable pub finish_batch : Progress State → State × Bool
  finish_batch (reached st) = commit st
  finish_batch (broke st) = (rollback st, false)

  -- The flag says whether there was no error. Five statements are prepared.
  unfoldable pub insert_usage_batch : State → List Charge → State × Bool
  unfolding prepare_from insert_records and_then finish_batch
  insert_usage_batch st [] = (st, true)
  insert_usage_batch st (c ∷ cs) = elim (begin st) [
    | none ↦ (st, false)
    | some st' ↦
        finish_batch (and_then (prepare_from 5 0 st') (λ st''. insert_records (c ∷ cs) st''))
  ]
