-- ===== src/Shared.antt =====
-- internal/runtime_cache.go: route sessions and tool signatures that the processes share through Redis,
-- which is a parameter: its answers, and whether a SET or a DEL goes through.
pub mod Sessions
use buzzhive.Base.{
  ℕ, ◌-◌, ◌*◌, ◌/◌, ◌++◌, Bool, not, Option, none, some, Text, text, ltb, leb, if◌then◌else◌,
}
use buzzhive.Types.{RouteSession, second}

-- An answer to GET; `corrupt` is a value that does not decode (only this code writes them).
pub data Answer (A : Type 0) : Type 0 where
  absent failed corrupt : Answer A
  present : A → Answer A

-- The result of a look-up: a hit, `errRuntimeCacheMiss`, or another error.
pub data Lookup (A : Type 0) : Type 0 where
  hit : A → Lookup A
  miss error : Lookup A

pub record Redis : Type 1 where
  pub State : Type 0
  pub get_session : State → ℕ → Text → Answer RouteSession
  pub set_session : State → ℕ → Text → RouteSession → ℕ → Option State
  pub get_text : State → ℕ → Text → Answer Text
  pub set_text : State → ℕ → Text → Text → ℕ → Option State
  pub del : State → ℕ → Text → Option State

module _ (redis : Redis) (hash : Text → Text) (enabled : Bool) where
  open redis use {State, get_session, set_session, get_text, set_text, del}

  unfoldable pub route_session_key : Text → Text
  route_session_key key = text "buzz:route-session:" ++ hash key

  unfoldable pub delete_shared_session : State → ℕ → Text → Option State
  delete_shared_session st now key =
      let deleted = del st now (route_session_key key) in if not enabled then some st else deleted

  unfoldable pub shared_route_session : State → ℕ → Text → State × Lookup RouteSession
  shared_route_session st now key =
      if not enabled then (st, miss) else elim (get_session st now (route_session_key key)) [
        | absent ↦ (st, miss)
        | failed ↦ (st, error)
        | corrupt ↦ (st, error)
        | present session ↦
            if ltb session.expires_at now
            then elim (delete_shared_session st now key) [
              | none ↦ (st, miss)
              | some st' ↦ (st', miss)
            ]
            else (st, hit session)
      ]

  -- The time is written in whole seconds.
  unfoldable pub set_route_session : State → ℕ → Text → RouteSession → Option State
  set_route_session st now key session =
      let written : RouteSession = record session {
        expires_at = session.expires_at / second * second;
      } in
      let stored = set_session st now (route_session_key key) written (session.expires_at - now) in
      if not enabled
      then some st
      else if leb session.expires_at now
      then delete_shared_session st now key
      else stored

  unfoldable pub tool_signature_cache_key : Text → Text
  tool_signature_cache_key key = text "buzz:tool-signature:" ++ hash key

  unfoldable pub shared_tool_signature : State → ℕ → Text → Lookup Text
  shared_tool_signature st now key =
      if not enabled then miss else elim (get_text st now (tool_signature_cache_key key)) [
        | absent ↦ miss
        | failed ↦ error
        | corrupt ↦ error
        | present signature ↦ hit signature
      ]

  unfoldable pub set_tool_signature : State → ℕ → Text → Text → ℕ → Option State
  set_tool_signature st now key signature ttl =
      let stored = set_text st now (tool_signature_cache_key key) signature ttl in
      if not enabled then some st else stored
