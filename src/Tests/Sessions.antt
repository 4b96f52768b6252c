-- ===== src/Tests/Sessions.antt =====
-- An admin session in a Redis that keeps one table of sessions and one of revocations.
use buzzhive.Base.{
  ℕ, ◌+◌, ◌≤◌, ◌<◌, ◌≡◌, refl, [], ◌∷◌, ◌++◌, List, true, Option, some, none, Text, text, text_eq,
  nat_eq, ◌==◌, arith, ltb, if◌then◌else◌,
}
use buzzhive.Base.Eq.{bytes_beq, bytes_beq_iff}
use buzzhive.Base.Maps
use buzzhive.Base.Maps.{insert}
use buzzhive.Types.{minute}
use buzzhive.Admins.{
  admin_session_ttl, SessionValue, Reply, missing, value, Command, set_session, add_member, expire,
  delete_keys, set_revoked, Redis, found, session_key_from_hash, session_key, user_sessions_key,
  revoked_key, check_revoked, read_session, admin_session, revoke_admin_sessions,
}
use buzzhive.Tests.Samples.{now, upstream}
use buzzhive.Admins.Revocation.{issue_time, admin_session_sound, revoked_not_found}

-- A text is kept with the instant at which it goes.
pub record Tables : Type 0 where
  pub sessions : Text → Option (SessionValue × ℕ)
  pub revoked : Text → Option (ℕ × ℕ)
  pub index : Text → List Text

abbrev run_command : Tables → ℕ → Command → Tables
run_command s time (set_session key v ttl) = record s {
  sessions = insert key (v, time + ttl) s.sessions;
}
run_command s time (add_member key member) = record s {
  index = λ k. if key == k then member ∷ s.index k else s.index k;
}
run_command s time (expire key ttl) = s
run_command s time (delete_keys []) = s
run_command s time (delete_keys (key ∷ keys)) =
    run_command (record s { sessions = Maps.delete key s.sessions }) time (delete_keys keys)
run_command s time (set_revoked key at ttl) = record s {
  revoked = insert key (at, time + ttl) s.revoked;
}

abbrev run_commands : Tables → ℕ → List Command → Tables
run_commands s time [] = s
run_commands s time (c ∷ cs) = run_commands (run_command s time c) time cs

abbrev read : {A : Type 0} → Option (A × ℕ) → ℕ → Reply A
read none time = missing
read (some (v, until)) time = if ltb until time then missing else value v

abbrev tables_redis : Redis
tables_redis = record {
  State = Tables;
  get_session = λ s time key. read (s.sessions key) time;
  get_revoked = λ s time key. read (s.revoked key) time;
  members = λ s time key. some (s.index key);
  pipeline = λ s time cmds. some (run_commands s time cmds);
}

last_kept :
    (s : Tables) (time at ttl : ℕ) (key : Text) (cmds : List Command)
    → (run_commands s time (cmds ++ set_revoked key at ttl ∷ [])).revoked key
      ≡ some (at, time + ttl)
last_kept s time at ttl key [] = ground (arith, bytes_beq_iff key key)
last_kept s time at ttl key (c ∷ cmds) = last_kept (run_command s time c) time at ttl key cmds

tables_keep :
    (s s' : Tables) (time later at ttl : ℕ) (key : Text) (cmds : List Command)
    → tables_redis.pipeline s time (cmds ++ set_revoked key at ttl ∷ []) ≡ some s'
    → later ≤ time + ttl
    → tables_redis.get_revoked s' later key ≡ value at
tables_keep s s' time later at ttl key cmds h soon =
    ground (arith, last_kept s time at ttl key cmds)

-- Issued by a process whose clock is a minute ahead, and not in the index of its user.
abbrev ahead : SessionValue
ahead = record {
  user_id = 7;
  valid = true;
  issued_at = some (now + minute);
  expires_at = now + admin_session_ttl;
}

abbrev token_key : Text
token_key = session_key tables_redis (λ t. t) upstream.format true (text "t")

abbrev tables : Tables
tables = record {
  sessions = insert token_key (ahead, now + admin_session_ttl) Maps.empty;
  revoked = Maps.empty;
  index = λ k. [];
}

abbrev revoked_tables : Tables
revoked_tables =
    Maps.get_or (revoke_admin_sessions tables_redis (λ t. t) upstream.format true tables now 7)
      tables

revokes :
    revoke_admin_sessions tables_redis (λ t. t) upstream.format true tables now 7
    ≡ some revoked_tables
unfolding revoke_admin_sessions
revokes = refl

finds :
    admin_session tables_redis
      (λ t. t)
      upstream.format
      true
      revoked_tables
      (now + minute + minute)
      (text "t")
    ≡ (revoked_tables, found 7 (now + minute) (now + admin_session_ttl))
unfolding revoke_admin_sessions admin_session read_session check_revoked session_key
    session_key_from_hash user_sessions_key revoked_key bytes_beq
finds = refl

admin_session_sound_example :
    (v : SessionValue) × (tables_redis.get_session revoked_tables (now + minute + minute) token_key
      ≡ value v)
    × (v.valid ≡ true)
    × (now + minute + minute ≤ v.expires_at)
    × (v.user_id ≡ 7)
    × (issue_time v ≡ now + minute)
admin_session_sound_example =
    admin_session_sound tables_redis (λ t. t) upstream.format true revoked_tables
      (now + minute + minute) (text "t") finds

revoked_not_found_example : now < now + minute
revoked_not_found_example =
    revoked_not_found tables_redis (λ t. t) upstream.format true tables_keep tables revoked_tables
      now (now + minute + minute) (text "t") refl revokes (omega arith) finds
