-- ===== src/Quota/Batch/Atomic.antt =====
-- internal/store_usage.go, `InsertUsageBatch`: all of a batch is charged, or nothing, and no transaction stays
-- open.
use buzzhive.Base.{
  ℕ, zero, suc, ◌-◌, ◌≡◌, refl, ap, subst, ◌∙◌, List, [], ◌∷◌, Bool, true, false, not, ◌&&◌, Option,
  none, some, nat_eq, ◌==◌, if◌then◌else◌,
}
use buzzhive.Quota.{
  Store, Charge, is_charged, quota_overage, add_usage, add_lifetime, charge_lifetime, charge,
  charge_all,
}
use buzzhive.Quota.Batch.{
  Database, Progress, reached, broke, exec, and_then, prepare_from, insert_lifetime, insert_quota,
  insert_record, insert_records, finish_batch, insert_usage_batch,
}

abbrev pub charge_week : Store → Charge → Store
charge_week s c = record s { usage = add_usage s.usage c.user_id c.period_start c.microcredits }

-- What is relied on of the database: what everyone sees, what the open transaction sees, and whether one is
-- open. Until a commit goes through, a transaction changes only what itself sees.
pub record Transactions (db : Database) : Type 0 where
  pub seen : db.State → Store
  pub inside : db.State → Store
  pub is_open : db.State → Bool
  pub begins :
      (st st' : db.State) → db.begin st ≡ some st' → (seen st' ≡ seen st) × (inside st' ≡ seen st)
  pub prepares :
      (st st' : db.State) (i : ℕ)
      → db.prepare st i ≡ some st'
      → (seen st' ≡ seen st) × (inside st' ≡ inside st)
  pub logs :
      (st st' : db.State) (c : Charge)
      → db.insert_log st c ≡ some st'
      → (seen st' ≡ seen st) × (inside st' ≡ inside st)
  pub adds_hourly :
      (st st' : db.State) (c : Charge)
      → db.add_hourly st c ≡ some st'
      → (seen st' ≡ seen st) × (inside st' ≡ inside st)
  pub adds_daily :
      (st st' : db.State) (c : Charge)
      → db.add_daily st c ≡ some st'
      → (seen st' ≡ seen st) × (inside st' ≡ inside st)
  pub adds_weekly :
      (st st' : db.State) (c : Charge) (used : ℕ)
      → db.add_weekly st c ≡ some (st', used)
      → (seen st' ≡ seen st)
        × (inside st' ≡ charge_week (inside st) c)
        × (used ≡ (charge_week (inside st) c).usage c.user_id c.period_start)
  pub adds_lifetime :
      (st st' : db.State) (user amount : ℕ)
      → db.add_to_lifetime st user amount ≡ some st'
      → (seen st' ≡ seen st)
        × (inside st' ≡ record (inside st) { users = add_lifetime (inside st).users user amount })
  pub rolls_back :
      (st : db.State) → (seen (db.rollback st) ≡ seen st) × (is_open (db.rollback st) ≡ false)
  pub commits :
      (st : db.State)
      → (seen (db.commit st).0 ≡ (if (db.commit st).1 then inside st else seen st))
        × (is_open (db.commit st).0 ≡ false)

module _ (db : Database) (laws : Transactions db) where
  open db use {State}
  open laws use {seen, inside, is_open}

  -- Others see the store as it was; the transaction sees `w`, unless a statement failed.
  record Inside (s w : Store) (st : State) : Type 0 where
    outside : seen st ≡ s
    here : inside st ≡ w

  IsAt : Store → Store → Progress State → Type 0
  IsAt s w (reached st) = Inside s w st
  IsAt s w (broke st) = seen st ≡ s

  exec-IsAt :
      (s w : Store) (st : State) (done : Option State)
      → seen st ≡ s
      → ((st' : State) → done ≡ some st' → Inside s w st')
      → IsAt s w (exec st done)
  unfolding exec IsAt
  exec-IsAt s w st none before after = before
  exec-IsAt s w st (some st') before after = after st' refl

  and_then-IsAt :
      (s w w' : Store) (p : Progress State) (next : State → Progress State)
      → IsAt s w p
      → ((st : State) → Inside s w st → IsAt s w' (next st))
      → IsAt s w' (and_then p next)
  unfolding and_then IsAt
  and_then-IsAt s w w' (reached st) next before after = after st before
  and_then-IsAt s w w' (broke st) next before after = before

  -- A statement that leaves the quota tables alone.
  leaves :
      {s w : Store} {st st' : State}
      → Inside s w st
      → (seen st' ≡ seen st) × (inside st' ≡ inside st)
      → Inside s w st'
  leaves at same = record { outside = same.0 ∙ at.outside; here = same.1 ∙ at.here }

  prepare_from-IsAt :
      (s w : Store) (count i : ℕ) (st : State)
      → Inside s w st
      → IsAt s w (prepare_from db count i st)
  prepare_from-IsAt s w zero i st at = unfold prepare_from IsAt in at
  prepare_from-IsAt s w (suc count) i st at =
      let rest =
        λ (st' : State) (at' : Inside s w st'). prepare_from-IsAt s w count (suc i) st' at' in
      next rest
    where
      next :
          ((st' : State) → Inside s w st' → IsAt s w (prepare_from db count (suc i) st'))
          → IsAt s w (prepare_from db (suc count) i st)
      next rest =
          unfold prepare_from in
          and_then-IsAt s w w _ _
            (exec-IsAt s w st (db.prepare st i) at.outside
              (λ st' done. leaves at (laws.prepares st st' i done)))
            rest

  -- Either branch of a test, each with what it makes of the store.
  branch-IsAt :
      (s w w' : Store) (b : Bool) (p q : Progress State)
      → IsAt s w' p
      → IsAt s w q
      → IsAt s (if b then w' else w) (if b then p else q)
  branch-IsAt s w w' true p q yes_ no_ = yes_
  branch-IsAt s w w' false p q yes_ no_ = no_

  insert_lifetime-IsAt :
      (s w : Store) (c : Charge) (used : ℕ) (st : State)
      → Inside s w st
      → IsAt s (charge_lifetime w c used) (insert_lifetime db c used st)
  insert_lifetime-IsAt s w c used st at =
      let amount =
        quota_overage used c.weekly_limit - quota_overage (used - c.microcredits) c.weekly_limit in
      let w' : Store = record w { users = add_lifetime w.users c.user_id amount } in
      let paid : IsAt s w' (exec st (db.add_to_lifetime st c.user_id amount)) =
        exec-IsAt s w' st (db.add_to_lifetime st c.user_id amount) at.outside (λ st' done. record {
          outside = (laws.adds_lifetime st st' c.user_id amount done).0 ∙ at.outside;
          here =
              (laws.adds_lifetime st st' c.user_id amount done).1
              ∙ ap (λ (x : Store). record x { users = add_lifetime x.users c.user_id amount })
                  at.here;
        }) in
      let nothing : IsAt s w (reached st) = unfold IsAt in at in
      unfold insert_lifetime charge_lifetime in
      branch-IsAt s w w' (c.uses_lifetime && not (amount == 0)) _ _ paid nothing

  -- The week is charged; the lifetime comes next, with the usage the database has returned.
  add_weekly-IsAt :
      (s w : Store) (c : Charge) (st : State) (done : Option (State × ℕ))
      → Inside s w st
      → db.add_weekly st c ≡ done
      → IsAt s
          (charge_lifetime (charge_week w c) c ((charge_week w c).usage c.user_id c.period_start))
          (elim done as (λ _. Progress State) [
            | none ↦ broke st
            | some (st', used) ↦ insert_lifetime db c used st'
          ])
  add_weekly-IsAt s w c st none at done = unfold IsAt in at.outside
  add_weekly-IsAt s w c st (some (st', used)) at done =
      let law = laws.adds_weekly st st' c used done in
      let week : inside st' ≡ charge_week w c =
        law.1 ∙ ap (λ (x : Store). charge_week x c) at.here in
      let returned : used ≡ (charge_week w c).usage c.user_id c.period_start =
        law.2 ∙ ap (λ (x : Store). (charge_week x c).usage c.user_id c.period_start) at.here in
      subst
        (λ (n : ℕ). IsAt s (charge_lifetime (charge_week w c) c n) (insert_lifetime db c used st'))
        returned
        (insert_lifetime-IsAt s (charge_week w c) c used st'
          (record { outside = law.0 ∙ at.outside; here = week }))

  insert_quota-IsAt :
      (s w : Store) (c : Charge) (st : State)
      → Inside s w st
      → IsAt s (charge w c) (insert_quota db c st)
  insert_quota-IsAt s w c st at =
      let w₁ = charge_week w c in
      let nothing : IsAt s w (reached st) = unfold IsAt in at in
      unfold insert_quota charge in
      branch-IsAt s w (charge_lifetime w₁ c (w₁.usage c.user_id c.period_start)) (is_charged c) _ _
        (add_weekly-IsAt s w c st (db.add_weekly st c) at refl) nothing

  insert_record-IsAt :
      (s w : Store) (c : Charge) (st : State)
      → Inside s w st
      → IsAt s (charge w c) (insert_record db c st)
  insert_record-IsAt s w c st at =
      unfold insert_record in
      and_then-IsAt s w (charge w c) _ _
        (exec-IsAt s w st _ at.outside (λ st' done. leaves at (laws.logs st st' c done)))
        (λ st₁ at₁.
          and_then-IsAt s w (charge w c) _ _
            (exec-IsAt s w st₁ _ at₁.outside
              (λ st' done. leaves at₁ (laws.adds_hourly st₁ st' c done)))
            (λ st₂ at₂.
              and_then-IsAt s w (charge w c) _ _
                (exec-IsAt s w st₂ _ at₂.outside
                  (λ st' done. leaves at₂ (laws.adds_daily st₂ st' c done)))
                (λ st₃ at₃. insert_quota-IsAt s w c st₃ at₃)))

  insert_records-IsAt :
      (s w : Store) (cs : List Charge) (st : State)
      → Inside s w st
      → IsAt s (charge_all w cs) (insert_records db cs st)
  insert_records-IsAt s w [] st at = unfold insert_records charge_all IsAt in at
  insert_records-IsAt s w (c ∷ cs) st at =
      next (λ st' at'. insert_records-IsAt s (charge w c) cs st' at')
    where
      next :
          ((st' : State)
            → Inside s (charge w c) st'
            → IsAt s (charge_all (charge w c) cs) (insert_records db cs st'))
          → IsAt s (charge_all w (c ∷ cs)) (insert_records db (c ∷ cs) st)
      next rest =
          unfold insert_records charge_all in
          and_then-IsAt s (charge w c) (charge_all (charge w c) cs) _ _
            (insert_record-IsAt s w c st at) rest

  -- What a batch may leave behind: with `true` the store `w`, with `false` the store `s`; nothing is open.
  abbrev Ends : Store → Store → State × Bool → Type 0
  Ends s w r = (seen r.0 ≡ (if r.1 then w else s)) × (is_open r.0 ≡ false)

  if-same :
      {A : Type 0} (b : Bool) {x x' y y' : A}
      → x ≡ x'
      → y ≡ y'
      → (if b then x else y) ≡ (if b then x' else y')
  if-same true p q = p
  if-same false p q = q

  finish_batch-Ends : (s w : Store) (p : Progress State) → IsAt s w p → Ends s w (finish_batch db p)
  finish_batch-Ends s w (reached st) at =
      let at' : Inside s w st = unfold IsAt in at in
      unfold finish_batch in
      ((laws.commits st).0 ∙ if-same (db.commit st).1 at'.here at'.outside, (laws.commits st).1)
  finish_batch-Ends s w (broke st) at =
      unfold finish_batch IsAt in ((laws.rolls_back st).0 ∙ at, (laws.rolls_back st).1)

  begun-Ends :
      (st : State) (c : Charge) (cs : List Charge) (begun : Option State)
      → is_open st ≡ false
      → db.begin st ≡ begun
      → Ends (seen st) (charge_all (seen st) (c ∷ cs)) (elim begun as (λ _. State × Bool) [
        | none ↦ (st, false)
        | some st' ↦
            finish_batch db
              (and_then (prepare_from db 5 0 st') (λ st''. insert_records db (c ∷ cs) st''))
      ])
  begun-Ends st c cs none closed begun = (refl, closed)
  begun-Ends st c cs (some st') closed begun =
      let law = laws.begins st st' begun in
      let s = seen st in
      finish_batch-Ends s (charge_all s (c ∷ cs)) _ (
        and_then-IsAt s s (charge_all s (c ∷ cs)) _ _
          (prepare_from-IsAt s s 5 0 st' (record { outside = law.0; here = law.1 }))
          (λ st'' at. insert_records-IsAt s s (c ∷ cs) st'' at))

pub insert_usage_batch_atomic :
    (db : Database) (laws : Transactions db) (st : db.State) (cs : List Charge)
    → laws.is_open st ≡ false
    → let r = insert_usage_batch db st cs in
      (laws.seen r.0 ≡ (if r.1 then charge_all (laws.seen st) cs else laws.seen st))
      × (laws.is_open r.0 ≡ false)
insert_usage_batch_atomic db laws st [] closed =
    unfold insert_usage_batch charge_all in (refl, closed)
insert_usage_batch_atomic db laws st (c ∷ cs) closed =
    unfold insert_usage_batch in begun-Ends db laws st c cs (db.begin st) closed refl
