-- ===== src/Cache.antt =====
-- internal/runtime_cache.go: the cooldowns that the processes share through Redis. Redis is a
-- parameter: a state, and the answers of GET, SET and DEL at a time. A stored value is the JSON text of
-- a `keyCooldownCacheValue`; `corrupt` is one that `json.Unmarshal` refuses (only this code writes
-- these values, so their time is one that `time.Parse` reads).
use buzzhive.Base.{
  ℕ, ◌+◌, ◌*◌, ◌/◌, ◌++◌, Bool, false, not, ◌||◌, Option, none, some, Text, text, nat_eq, ◌==◌, ltb,
  leb, if◌then◌else◌,
}
use buzzhive.Types.{second, minute, hour}

pub record CooldownValue : Type 0 where
  pub expires_at : ℕ  -- RFC 3339, whole seconds
  pub rpd_like : Bool
  pub hits : ℕ

pub data Reply : Type 0 where
  missing failed corrupt : Reply
  value : CooldownValue → Reply

pub record Redis : Type 1 where
  pub State : Type 0
  pub get : State → ℕ → Text → Reply
  pub set : State → ℕ → Text → CooldownValue → ℕ → Option State
  pub del : State → Text → State

-- `KeyCooldown`: a hit, `errRuntimeCacheMiss`, or another error.
pub data Lookup : Type 0 where
  hit : ℕ → Bool → Lookup
  miss error : Lookup

unfoldable pub key_cooldown_retention : ℕ → ℕ → ℕ
key_cooldown_retention cooldown rpd_cooldown =
    (if ltb rpd_cooldown cooldown then cooldown else rpd_cooldown) + 5 * minute

abbrev pub hits_of : Reply → ℕ
hits_of (value v) = v.hits
hits_of _ = 0

abbrev pub rpd_of : Reply → Bool
rpd_of (value v) = v.rpd_like
rpd_of _ = false

unfoldable pub read_reply : Reply → ℕ → Lookup
read_reply missing now = miss
read_reply failed now = error
read_reply corrupt now = error
read_reply (value v) now =
    if ltb (v.expires_at * second) now then miss else hit (v.expires_at * second) v.rpd_like

-- `hash` is `sessionHash`, the hexadecimal SHA-256 of a text.
module _ (redis : Redis) (hash : Text → Text) (enabled : Bool) where
  open redis use {State, get, set, del}

  unfoldable pub key_cooldown_key : Text → Text
  key_cooldown_key key = text "buzz:key-cooldown:" ++ hash key

  unfoldable pub key_cooldown : State → Text → ℕ → Lookup
  unfolding key_cooldown_key read_reply
  key_cooldown st key now =
      if not enabled then miss else read_reply (get st now (key_cooldown_key key)) now

  -- What `MarkKeyExhausted` does once GET has answered; `none` is an error, and `Format` drops the
  -- part of the expiry below a second in what is stored, not in what is returned.
  unfoldable pub store_exhausted : State → Text → ℕ → ℕ → ℕ → Reply → State × Option (ℕ × Bool)
  unfolding key_cooldown_key key_cooldown_retention
  store_exhausted st key cooldown rpd_cooldown now failed = (st, none)
  store_exhausted st key cooldown rpd_cooldown now reply =
      let hits = hits_of reply + 1 in
      let rpd = rpd_of reply || leb 2 hits in
      let next = if rpd then rpd_cooldown else cooldown in
      let stored : CooldownValue = record {
        expires_at = (now + next) / second;
        rpd_like = rpd;
        hits = hits;
      } in
      let retention = key_cooldown_retention next rpd_cooldown in
      elim (set st now (key_cooldown_key key) stored retention) [
        | none ↦ (st, none)
        | some st' ↦ (st', some (now + next, rpd))
      ]

  unfoldable pub mark_key_exhausted : State → Text → ℕ → ℕ → ℕ → State × Option (ℕ × Bool)
  unfolding key_cooldown_key store_exhausted
  mark_key_exhausted st key cooldown rpd_cooldown now =
      if not enabled
      then (st, none)
      else store_exhausted st key (if cooldown == 0 then minute else cooldown)
          (if rpd_cooldown == 0 then hour else rpd_cooldown) now (get st now (key_cooldown_key key))

  unfoldable pub delete_key_cooldown : State → Text → State
  unfolding key_cooldown_key
  delete_key_cooldown st key = if not enabled then st else del st (key_cooldown_key key)
