-- ===== src/Quota/Batch/Success.antt =====
-- internal/store_usage.go, `InsertUsageBatch` where the database works.
use buzzhive.Base.{
  ℕ, zero, suc, ◌≡◌, ◌≢◌, refl, ap, ◌∙◌, List, [], ◌∷◌, Bool, true, false, Option, none, some,
  nat_eq, if◌then◌else◌,
}
use buzzhive.Quota.{Charge, is_charged, charge_all}
use buzzhive.Quota.Batch.{
  Database, Progress, reached, broke, exec, and_then, prepare_from, insert_lifetime, insert_quota,
  insert_record, insert_records, finish_batch, insert_usage_batch,
}
use buzzhive.Quota.Batch.Atomic.{Transactions, insert_usage_batch_atomic}

-- No call of the database returns an error.
pub record Works (db : Database) : Type 0 where
  pub begins : (st : db.State) → db.begin st ≢ none
  pub prepares : (st : db.State) (i : ℕ) → db.prepare st i ≢ none
  pub logs : (st : db.State) (c : Charge) → db.insert_log st c ≢ none
  pub adds_hourly : (st : db.State) (c : Charge) → db.add_hourly st c ≢ none
  pub adds_daily : (st : db.State) (c : Charge) → db.add_daily st c ≢ none
  pub adds_weekly : (st : db.State) (c : Charge) → db.add_weekly st c ≢ none
  pub adds_lifetime : (st : db.State) (user amount : ℕ) → db.add_to_lifetime st user amount ≢ none
  pub commits : (st : db.State) → (db.commit st).1 ≡ true

module _ (db : Database) (works : Works db) where
  open db use {State}

  has_reached : Progress State → Bool
  has_reached (reached st) = true
  has_reached (broke st) = false

  exec-has_reached :
      (st : State) (done : Option State) → done ≢ none → has_reached (exec st done) ≡ true
  unfolding exec has_reached
  exec-has_reached st none no_error = absurd (no_error refl)
  exec-has_reached st (some st') no_error = refl

  and_then-has_reached :
      (p : Progress State) (next : State → Progress State)
      → has_reached p ≡ true
      → ((st : State) → has_reached (next st) ≡ true)
      → has_reached (and_then p next) ≡ true
  unfolding and_then has_reached
  and_then-has_reached (reached st) next before after = after st
  and_then-has_reached (broke st) next before after = before

  prepare_from-has_reached :
      (count i : ℕ) (st : State) → has_reached (prepare_from db count i st) ≡ true
  prepare_from-has_reached zero i st = unfold prepare_from has_reached in refl
  prepare_from-has_reached (suc count) i st =
      next (λ st'. prepare_from-has_reached count (suc i) st')
    where
      next :
          ((st' : State) → has_reached (prepare_from db count (suc i) st') ≡ true)
          → has_reached (prepare_from db (suc count) i st) ≡ true
      next rest =
          unfold prepare_from in
          and_then-has_reached _ _ (exec-has_reached st (db.prepare st i) (works.prepares st i))
            rest

  branch-has_reached :
      (b : Bool) (p : Progress State) (st : State)
      → has_reached p ≡ true
      → has_reached (if b then p else reached st) ≡ true
  unfolding has_reached
  branch-has_reached true p st done = done
  branch-has_reached false p st done = refl

  insert_lifetime-has_reached :
      (c : Charge) (used : ℕ) (st : State) → has_reached (insert_lifetime db c used st) ≡ true
  insert_lifetime-has_reached c used st =
      unfold insert_lifetime in
      branch-has_reached _ _ st (exec-has_reached st _ (works.adds_lifetime st c.user_id _))

  add_weekly-has_reached :
      (c : Charge) (st : State) (done : Option (State × ℕ))
      → done ≢ none
      → has_reached (elim done as (λ _. Progress State) [
        | none ↦ broke st
        | some (st', used) ↦ insert_lifetime db c used st'
      ])
        ≡ true
  add_weekly-has_reached c st none no_error = absurd (no_error refl)
  add_weekly-has_reached c st (some (st', used)) no_error = insert_lifetime-has_reached c used st'

  insert_record-has_reached : (c : Charge) (st : State) → has_reached (insert_record db c st) ≡ true
  insert_record-has_reached c st =
      unfold insert_record insert_quota in
      and_then-has_reached _ _ (exec-has_reached st _ (works.logs st c)) (λ st₁.
        and_then-has_reached _ _ (exec-has_reached st₁ _ (works.adds_hourly st₁ c)) (λ st₂.
          and_then-has_reached _ _ (exec-has_reached st₂ _ (works.adds_daily st₂ c)) (λ st₃.
            branch-has_reached (is_charged c) _ st₃
              (add_weekly-has_reached c st₃ (db.add_weekly st₃ c) (works.adds_weekly st₃ c)))))

  insert_records-has_reached :
      (cs : List Charge) (st : State) → has_reached (insert_records db cs st) ≡ true
  insert_records-has_reached [] st = unfold insert_records has_reached in refl
  insert_records-has_reached (c ∷ cs) st = next (λ st'. insert_records-has_reached cs st')
    where
      next :
          ((st' : State) → has_reached (insert_records db cs st') ≡ true)
          → has_reached (insert_records db (c ∷ cs) st) ≡ true
      next rest =
          unfold insert_records in and_then-has_reached _ _ (insert_record-has_reached c st) rest

  finish_batch_reached : (p : Progress State) → has_reached p ≡ true → (finish_batch db p).1 ≡ true
  unfolding finish_batch has_reached
  finish_batch_reached (reached st) done = works.commits st
  finish_batch_reached (broke st) done = done

  begun_reached :
      (st : State) (cs : List Charge) (begun : Option State)
      → begun ≢ none
      → (elim begun as (λ _. State × Bool) [
        | none ↦ (st, false)
        | some st' ↦
            finish_batch db (and_then (prepare_from db 5 0 st') (λ st''. insert_records db cs st''))
      ]).1
        ≡ true
  begun_reached st cs none no_error = absurd (no_error refl)
  begun_reached st cs (some st') no_error = finish_batch_reached _ (
      and_then-has_reached _ _ (prepare_from-has_reached 5 0 st')
        (λ st''. insert_records-has_reached cs st''))

  reports_none : (st : State) (cs : List Charge) → (insert_usage_batch db st cs).1 ≡ true
  reports_none st [] = unfold insert_usage_batch in refl
  reports_none st (c ∷ cs) =
      unfold insert_usage_batch in begun_reached st (c ∷ cs) (db.begin st) (works.begins st)

-- When no call of the database returns an error, on a database that keeps the laws of transactions, of which
-- none is open, `InsertUsageBatch` reports no error, and everyone sees every record of the batch charged.
pub insert_usage_batch_charges :
    (db : Database) (laws : Transactions db) (st : db.State) (cs : List Charge)
    → Works db
    → laws.is_open st ≡ false
    → ((insert_usage_batch db st cs).1 ≡ true)
      × (laws.seen (insert_usage_batch db st cs).0 ≡ charge_all (laws.seen st) cs)
insert_usage_batch_charges db laws st cs works closed =
    let no_error = reports_none db works st cs in
    let all_or_nothing = insert_usage_batch_atomic db laws st cs closed in
    (
      no_error,
      all_or_nothing.0
          ∙ ap (λ (b : Bool). if b then charge_all (laws.seen st) cs else laws.seen st) no_error,
    )
