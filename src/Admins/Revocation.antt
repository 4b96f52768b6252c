-- ===== src/Admins/Revocation.antt =====
-- internal/runtime_cache.go: what a session that is found says, and what a revocation ends.
use buzzhive.Base.{
  ℕ, ◌+◌, ◌-◌, ◌≤◌, ◌<◌, ◌≡◌, ◌⊎◌, ◌∙◌, refl, ap, inl, inr, List, [], ◌∷◌, ◌++◌, Bool, true, none,
  some, Text, arith, Option-cases, nat_eq, map,
}
use buzzhive.Admins.{
  admin_session_ttl, SessionValue, Reply, missing, failed, corrupt, value, Command, delete_keys,
  set_revoked, Redis, Session, found, session_key, session_key_from_hash, user_sessions_key,
  revoked_key, register_legacy, check_revoked, read_session, admin_session, revoke_admin_sessions,
}

-- When a session of Redis counts as issued.
abbrev pub issue_time : SessionValue → ℕ
issue_time v = elim v.issued_at [ none ↦ v.expires_at - admin_session_ttl | some issued ↦ issued ]

module _ (redis : Redis) (hash : Text → Text) (format : ℕ → Text) (enabled : Bool) where
  open redis use {State, get_session, get_revoked, pipeline}

  Reply-cases :
      {A : Type 0} (r : Reply A)
      → ((a : A) × (r ≡ value a)) ⊎ (r ≡ missing) ⊎ (r ≡ failed) ⊎ (r ≡ corrupt)
  Reply-cases (value a) = inl (a, refl)
  Reply-cases missing = inr (inl refl)
  Reply-cases failed = inr (inr (inl refl))
  Reply-cases corrupt = inr (inr (inr refl))

  check_given :
      (st : State) (now : ℕ) (token : Text) (v : SessionValue) (time : ℕ) (given : State × Session)
      {st' : State} {user issued expires : ℕ}
      → check_revoked redis hash format enabled st now token v time given
        ≡ (st', found user issued expires)
      → given ≡ (st', found user issued expires)
  unfolding check_revoked
  check_given st now token v time given h =
      elim (Reply-cases (get_revoked st now (revoked_key redis hash format enabled v.user_id))) [
        | inl (at, e) ↦ ground (arith, e)
        | inr (inl e) ↦ ground (arith, e)
        | inr (inr (inl e)) ↦ ground (arith, e)
        | inr (inr (inr e)) ↦ ground (arith, e)
      ]

  check_after :
      (st : State) (now : ℕ) (token : Text) (v : SessionValue) (time at : ℕ)
      (given : State × Session) {st' : State} {user issued expires : ℕ}
      → check_revoked redis hash format enabled st now token v time given
        ≡ (st', found user issued expires)
      → get_revoked st now (revoked_key redis hash format enabled v.user_id) ≡ value at
      → at < time
  unfolding check_revoked
  check_after st now token v time at given h e = ground (arith, e)

  legacy_found :
      (st : State) (now : ℕ) (token : Text) (v : SessionValue) (time : ℕ) {st' : State}
      {user issued expires : ℕ}
      → register_legacy redis hash format enabled st now token v time
        ≡ (st', found user issued expires)
      → (v.user_id ≡ user) × (time ≡ issued)
  unfolding register_legacy
  legacy_found st now token v time h = (ground arith, ground arith)

  -- Past the first tests, a session is checked against revocations with its issue time.
  read_checked :
      (st : State) (now : ℕ) (token : Text) (v : SessionValue) {st' : State}
      {user issued expires : ℕ}
      → read_session redis hash format enabled st now token v ≡ (st', found user issued expires)
      → (given : State × Session) × (check_revoked redis hash format enabled st now token v
            (issue_time v)
            given
          ≡ (st', found user issued expires))
        × (v.valid ≡ true)
        × (now ≤ v.expires_at)
        × (v.user_id ≡ user)
        × (issue_time v ≡ issued)
  unfolding read_session register_legacy check_revoked
  read_checked st now token v {st' = st'} {user = user} {issued = issued} {expires = expires} h =
      elim (Option-cases v.issued_at) [
        | inl legacy ↦
            let start = v.expires_at - admin_session_ttl in
            let given = register_legacy redis hash format enabled st now token v start in
            let checked : check_revoked redis hash format enabled st now token v start given
                ≡ (st', found user issued expires) =
              ground (arith, legacy) in
            let same =
              legacy_found st now token v start (check_given st now token v start given checked) in
            (given, rw legacy checked, ground arith, ground arith, same.0, rw legacy same.1)
        | inr (time, dated) ↦
            let given : State × Session = (st, found v.user_id time v.expires_at) in
            let checked : check_revoked redis hash format enabled st now token v time given
                ≡ (st', found user issued expires) =
              ground (arith, dated) in
            let same = check_given st now token v time given checked in
            (
              given,
              rw dated checked,
              ground arith,
              ground arith,
              ground arith,
              rw dated (ground arith),
            )
      ]

  session_read :
      (st : State) (now : ℕ) (token : Text) {st' : State} {user issued expires : ℕ}
      → admin_session redis hash format enabled st now token ≡ (st', found user issued expires)
      → (v : SessionValue) × (get_session st now (session_key redis hash format enabled token)
          ≡ value v)
        × (read_session redis hash format enabled st now token v ≡ (st', found user issued expires))
  unfolding admin_session
  session_read st now token h =
      elim (Reply-cases (get_session st now (session_key redis hash format enabled token))) [
        | inl (v, e) ↦ (v, e, ground (arith, e))
        | inr (inl e) ↦ absurd (ground (arith, e))
        | inr (inr (inl e)) ↦ absurd (ground (arith, e))
        | inr (inr (inr e)) ↦ absurd (ground (arith, e))
      ]

  -- A session that is found stands in Redis under the hash of its token; its user is valid and its end not
  -- past, and the user and the issue time are those that Redis says.
  pub admin_session_sound :
      (st : State) (now : ℕ) (token : Text) {st' : State} {user issued expires : ℕ}
      → admin_session redis hash format enabled st now token ≡ (st', found user issued expires)
      → (v : SessionValue) × (get_session st now (session_key redis hash format enabled token)
          ≡ value v)
        × (v.valid ≡ true)
        × (now ≤ v.expires_at)
        × (v.user_id ≡ user)
        × (issue_time v ≡ issued)
  admin_session_sound st now token h =
      let (v, e, read) = session_read st now token h in
      let (given, checked, fine, live, same, dated) = read_checked st now token v read in
      (v, e, fine, live, same, dated)

  found_after :
      (st : State) (now : ℕ) (token : Text) (at : ℕ) {st' : State} {user issued expires : ℕ}
      → admin_session redis hash format enabled st now token ≡ (st', found user issued expires)
      → get_revoked st now (revoked_key redis hash format enabled user) ≡ value at
      → at < issued
  found_after st now token at {user = user} h revoked =
      let (v, e, read) = session_read st now token h in
      let (given, checked, fine, live, same, dated) = read_checked st now token v read in
      let late =
        check_after st now token v (issue_time v) at given checked
          (ap (λ u. get_revoked st now (revoked_key redis hash format enabled u)) same ∙ revoked) in
      omega (arith, late, dated)

  module _
      (keeps : (st st' : State) (now later at ttl : ℕ) (key : Text) (cmds : List Command)
        → pipeline st now (cmds ++ set_revoked key at ttl ∷ []) ≡ some st'
        → later ≤ now + ttl
        → get_revoked st' later key ≡ value at) where
    -- Redis gives back, for its time to live, what the last command of a pipeline has set. Then, for seven
    -- days after the sessions of a user were revoked, a session of this user that is found in the state
    -- that the revocation left was issued after it, whether or not the user's index had listed it.
    pub revoked_not_found :
        (st st₁ : State) (now later : ℕ) (token : Text) {st' : State} {user issued expires : ℕ}
        → enabled ≡ true
        → revoke_admin_sessions redis hash format enabled st now user ≡ some st₁
        → later ≤ now + admin_session_ttl
        → admin_session redis hash format enabled st₁ later token ≡ (st', found user issued expires)
        → now < issued
    unfolding revoke_admin_sessions
    revoked_not_found st st₁ now later token {user = user} on revoked soon h =
        elim (Option-cases
          (redis.members st now (user_sessions_key redis hash format enabled user))) [
            | inl unread ↦ absurd (ground (arith, unread))
            | inr (hashes, listed) ↦
                let cmds =
                  delete_keys (
                    map (session_key_from_hash redis hash format enabled) hashes
                    ++ user_sessions_key redis hash format enabled user ∷ [])
                  ∷ [] in
                let done_ : pipeline st now (
                      cmds
                      ++ set_revoked (revoked_key redis hash format enabled user) now
                          admin_session_ttl
                        ∷ [])
                    ≡ some st₁ =
                  ground (arith, listed) in
                found_after st₁ later token now h (
                  keeps st st₁ now later now admin_session_ttl
                    (revoked_key redis hash format enabled user) cmds done_ soon)
          ]
