-- ===== src/Admins.antt =====
-- internal/runtime_cache.go: the admin sessions that the processes share through Redis, and their
-- revocation. Redis is a parameter: its answers to GET and SMEMBERS, and a pipeline of commands that
-- succeeds or fails as a whole. Values are the decoded JSON; `corrupt` is one that does not decode or whose
-- times do not parse (only this code writes them). `SessionUser` is kept as the user's identifier and validity.
pub mod Revocation
use buzzhive.Base.{
  ℕ, ◌+◌, ◌-◌, ◌*◌, ◌/◌, ◌++◌, List, [], ◌∷◌, map, Bool, true, false, not, ◌||◌, ◌&&◌, Option, none,
  some, Text, text, nat_eq, ◌==◌, ltb, leb, if◌then◌else◌,
}
use buzzhive.Types.{second, hour}

abbrev pub admin_session_ttl : ℕ
admin_session_ttl = 7 * (24 * hour)

pub record SessionValue : Type 0 where
  pub user_id : ℕ
  pub valid : Bool
  pub issued_at : Option ℕ  -- none in a session written before the field existed
  pub expires_at : ℕ

pub data Reply (A : Type 0) : Type 0 where
  missing failed corrupt : Reply A
  value : A → Reply A

pub data Command : Type 0 where
  set_session : Text → SessionValue → ℕ → Command
  add_member : Text → Text → Command
  expire : Text → ℕ → Command
  delete_keys : List Text → Command
  set_revoked : Text → ℕ → ℕ → Command

pub record Redis : Type 1 where
  pub State : Type 0
  pub get_session : State → ℕ → Text → Reply SessionValue
  pub get_revoked : State → ℕ → Text → Reply ℕ
  pub members : State → ℕ → Text → Option (List Text)
  pub pipeline : State → ℕ → List Command → Option State

pub data Session : Type 0 where
  found : ℕ → ℕ → ℕ → Session  -- the user, when it was issued, when it ends
  miss error : Session

module _ (redis : Redis) (hash : Text → Text) (format : ℕ → Text) (enabled : Bool) where
  open redis use {State, get_session, get_revoked, members, pipeline}

  unfoldable pub session_key_from_hash : Text → Text
  session_key_from_hash h = text "buzz:admin-session:" ++ h

  unfoldable pub session_key : Text → Text
  unfolding session_key_from_hash
  session_key token = session_key_from_hash (hash token)

  unfoldable pub user_sessions_key : ℕ → Text
  user_sessions_key user_id = text "buzz:admin-user-sessions:" ++ format user_id

  unfoldable pub revoked_key : ℕ → Text
  revoked_key user_id = text "buzz:admin-sessions-revoked:" ++ format user_id

  -- The error of a deletion is dropped where a session is read.
  unfoldable pub delete_admin_session : State → ℕ → Text → State
  delete_admin_session st now token =
      elim (pipeline st now (delete_keys (session_key token ∷ []) ∷ [])) [
        | none ↦ st
        | some st' ↦ if enabled then st' else st
      ]

  -- Registers a session that has no issue time under its user.
  unfoldable pub register_legacy : State → ℕ → Text → SessionValue → ℕ → State × Session
  register_legacy st now token v issued =
      elim (pipeline st now (
        add_member (user_sessions_key v.user_id) (hash token)
        ∷ expire (user_sessions_key v.user_id) admin_session_ttl
        ∷ [])) [ none ↦ (st, error) | some st' ↦ (st', found v.user_id issued v.expires_at) ]

  -- What follows the tests on validity and end: the test on revocation.
  unfoldable pub check_revoked :
      State → ℕ → Text → SessionValue → ℕ → State × Session → State × Session
  check_revoked st now token v issued given = elim (get_revoked st now (revoked_key v.user_id)) [
    | missing ↦ given
    | failed ↦ (st, error)
    | corrupt ↦ (st, error)
    | value revoked_at ↦
        if leb issued revoked_at then (delete_admin_session st now token, miss) else given
  ]

  unfoldable pub read_session : State → ℕ → Text → SessionValue → State × Session
  read_session st now token v =
      if not v.valid || ltb v.expires_at now
      then (delete_admin_session st now token, miss)
      else elim v.issued_at [
        | some issued ↦
            check_revoked st now token v issued (st, found v.user_id issued v.expires_at)
        | none ↦
            let issued = v.expires_at - admin_session_ttl in
            check_revoked st now token v issued (register_legacy st now token v issued)
      ]

  unfoldable pub admin_session : State → ℕ → Text → State × Session
  admin_session st now token =
      if not enabled then (st, miss) else elim (get_session st now (session_key token)) [
        | missing ↦ (st, miss)
        | failed ↦ (st, error)
        | corrupt ↦ (st, error)
        | value v ↦ read_session st now token v
      ]

  -- `SetAdminSession` of a session with an issue time (0 is none); `none` is an error.
  unfoldable pub set_admin_session : State → ℕ → Text → ℕ → Bool → ℕ → ℕ → Option State
  set_admin_session st now token user_id valid issued_at expires_at =
      let issued = if issued_at == 0 then now else issued_at in
      let v : SessionValue = record {
        user_id = user_id;
        valid = valid;
        issued_at = some issued;
        expires_at = expires_at / second * second;
      } in
      let h = hash token in
      if not enabled
      then some st
      else if leb expires_at now
      then pipeline st now (delete_keys (session_key token ∷ []) ∷ [])
      else pipeline st now (
          set_session (session_key_from_hash h) v (expires_at - now)
          ∷ add_member (user_sessions_key user_id) h
          ∷ expire (user_sessions_key user_id) admin_session_ttl
          ∷ [])

  unfoldable pub revoke_admin_sessions : State → ℕ → ℕ → Option State
  revoke_admin_sessions st now user_id =
      if not enabled then some st else elim (members st now (user_sessions_key user_id)) [
        | none ↦ none
        | some hashes ↦ pipeline st now (
            delete_keys (map session_key_from_hash hashes ++ user_sessions_key user_id ∷ [])
            ∷ set_revoked (revoked_key user_id) now admin_session_ttl
            ∷ [])
      ]
