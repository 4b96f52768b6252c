-- ===== src/Tests/Batches.antt =====
-- A database whose statements work as long as `allowed` says of what is left.
use buzzhive.Base.{ℕ, zero, suc, ◌≡◌, ◌≢◌, refl, sym, ap, Bool, true, false, Option, none, some}
use buzzhive.Quota.{Store, Charge, charge_all, add_lifetime}
use buzzhive.Quota.Batch.{Database, insert_usage_batch}
use buzzhive.Quota.Batch.Atomic.{Transactions, charge_week}
use buzzhive.Quota.Batch.Success.{Works, insert_usage_batch_charges}
use buzzhive.Tests.Quotas.{store, bills}

record Tables : Type 0 where
  committed : Store
  working : Store
  is_open : Bool
  left : ℕ

unfoldable step : ℕ → Tables → Store → Option Tables
step zero st w = none
step (suc n) st w = some (record st { working = w; is_open = true; left = n })

abbrev working_or_none : Store → Option Tables → Store
working_or_none w o = elim o [ none ↦ w | some st ↦ st.working ]

abbrev committed_or_none : Store → Option Tables → Store
committed_or_none w o = elim o [ none ↦ w | some st ↦ st.committed ]

step_lem :
    (n : ℕ) (st st' : Tables) (w : Store)
    → step n st w ≡ some st'
    → (st'.committed ≡ st.committed) × (st'.working ≡ w)
unfolding step
step_lem zero st st' w done = cc
step_lem (suc n) st st' w done =
    (sym (ap (committed_or_none w) done), sym (ap (working_or_none w) done))

unfoldable weekly : Store → Charge → Option Tables → Option (Tables × ℕ)
weekly w c none = none
weekly w c (some st) = some (st, (charge_week w c).usage c.user_id c.period_start)

weekly_lem :
    (w : Store) (c : Charge) (o : Option Tables) (st' : Tables) (used : ℕ)
    → weekly w c o ≡ some (st', used)
    → (o ≡ some st') × (used ≡ (charge_week w c).usage c.user_id c.period_start)
unfolding weekly
weekly_lem w c none st' used done = cc
weekly_lem w c (some st) st' used done = (cc, cc)

abbrev database : (ℕ → ℕ) → Database
database allowed = record {
  State = Tables;
  begin = λ st. step (allowed st.left) st st.committed;
  prepare = λ st i. step (allowed st.left) st st.working;
  insert_log = λ st c. step (allowed st.left) st st.working;
  add_hourly = λ st c. step (allowed st.left) st st.working;
  add_daily = λ st c. step (allowed st.left) st st.working;
  add_weekly = λ st c. weekly st.working c (step (allowed st.left) st (charge_week st.working c));
  add_to_lifetime = λ st user amount.
      step (allowed st.left) st
        (record st.working { users = add_lifetime st.working.users user amount });
  rollback = λ st. record st { is_open = false };
  commit = λ st. (record st { committed = st.working; is_open = false }, true);
}

abbrev transactions : (allowed : ℕ → ℕ) → Transactions (database allowed)
transactions allowed = record {
  seen = λ st. st.committed;
  inside = λ st. st.working;
  is_open = λ st. st.is_open;
  begins = λ st st' done. step_lem (allowed st.left) st st' st.committed done;
  prepares = λ st st' i done. step_lem (allowed st.left) st st' st.working done;
  logs = λ st st' c done. step_lem (allowed st.left) st st' st.working done;
  adds_hourly = λ st st' c done. step_lem (allowed st.left) st st' st.working done;
  adds_daily = λ st st' c done. step_lem (allowed st.left) st st' st.working done;
  adds_weekly = λ st st' c used done.
      let returned =
        weekly_lem st.working c (step (allowed st.left) st (charge_week st.working c)) st' used
          done in
      let stepped = step_lem (allowed st.left) st st' (charge_week st.working c) returned.0 in
      (stepped.0, stepped.1, returned.1);
  adds_lifetime = λ st st' user amount done.
      step_lem (allowed st.left) st st'
        (record st.working { users = add_lifetime st.working.users user amount }) done;
  rolls_back = λ st. (refl, refl);
  commits = λ st. (refl, refl);
}

abbrev tables : Tables
tables = record { committed = store; working = store; is_open = false; left = 25 }

abbrev limited : ℕ → ℕ
limited n = n

step_works : (n : ℕ) (st : Tables) (w : Store) → step (suc n) st w ≢ none
unfolding step
step_works n st w = λ failed. cc

weekly_works : (w : Store) (c : Charge) (o : Option Tables) → o ≢ none → weekly w c o ≢ none
unfolding weekly
weekly_works w c none no_error = absurd (no_error refl)
weekly_works w c (some st) no_error = λ failed. cc

abbrev works : Works (database suc)
works = record {
  begins = λ st. step_works st.left st st.committed;
  prepares = λ st i. step_works st.left st st.working;
  logs = λ st c. step_works st.left st st.working;
  adds_hourly = λ st c. step_works st.left st st.working;
  adds_daily = λ st c. step_works st.left st st.working;
  adds_weekly =
      λ st c. weekly_works st.working c _ (step_works st.left st (charge_week st.working c));
  adds_lifetime = λ st user amount. step_works st.left st _;
  commits = λ st. refl;
}

insert_usage_batch_charges_example :
    ((insert_usage_batch (database suc) tables bills).1 ≡ true)
    × ((insert_usage_batch (database suc) tables bills).0.committed ≡ charge_all store bills)
insert_usage_batch_charges_example =
    insert_usage_batch_charges (database suc) (transactions suc) tables bills works refl
