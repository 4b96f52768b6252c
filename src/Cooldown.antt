-- ===== src/Cooldown.antt =====
-- internal/key_cooldown.go: a key is taken if neither this process nor the shared cache rests it, and
-- what an answer says of a key is told to both.
pub mod Choice
use buzzhive.Base.{
  ℕ, zero, suc, ◌+◌, ◌-◌, ◌*◌, ◌++◌, List, [], ◌∷◌, Bool, true, false, not, ◌&&◌, ◌||◌, Option,
  none, some, Text, text, text_eq, nat_eq, ◌==◌, ltb, leb, if◌then◌else◌, length,
}
use buzzhive.Types.{ApiKey, RouteTarget}
use buzzhive.Cache.{
  Redis, Lookup, hit, miss, error, key_cooldown, mark_key_exhausted, delete_key_cooldown,
}
use buzzhive.Keys
use buzzhive.Keys.{KeyState}

pub record Response : Type 0 where
  pub status : ℕ
  pub body : Text

-- What the upstream did with one request: `Forward` failed, or it answered.
pub data Reply : Type 0 where
  broken : Text → Reply
  answered : Response → Reply

-- What a request meets outside the program: Redis and `sessionHash` (the hexadecimal SHA-256),
-- `strconv.FormatInt`, `parseUpstreamError` (which reads the JSON of a body), and, for its `i`-th
-- attempt, the clock, the jitter of `mathrand.Intn(500)`, the upstream's answer and whether the store
-- fails to disable a key.
pub record Environment : Type 1 where
  pub redis : Redis
  pub hash : Text → Text
  pub enabled : Bool
  pub format : ℕ → Text
  pub parse : Text → Text × Text
  pub clock : ℕ → ℕ
  pub jitter : ℕ → ℕ
  pub forward : RouteTarget → ApiKey → ℕ → Reply
  pub disable_fails : ApiKey → ℕ → Bool
  pub has_provider : RouteTarget → Bool

module _ (e : Environment) where
  open e use {redis, hash, enabled, format}
  open redis use {State}

  pub record World : Type 0 where
    pub keys : KeyState
    pub shared : State
    pub disabled : List ApiKey  -- by `DisableProviderKey`, newest first

  unfoldable pub string_id : ℕ → Text → Text
  string_id id fallback = if not (id == 0) then format id else fallback

  unfoldable pub key_cooldown_storage_key : RouteTarget → ApiKey → Text
  unfolding string_id
  key_cooldown_storage_key target key =
      let provider = string_id target.provider_id target.provider_name in
      let provider' =
        if provider == [] then string_id key.provider_id key.provider_name else provider in
      let key_id = string_id key.provider_key_id key.name in
      let key_id' = if key_id == [] then string_id key.id key.name else key_id in
      provider' ++ text "::" ++ target.upstream_model ++ text "::" ++ key_id'

  -- `redisKeyCooldown`: any error counts as no cooldown.
  unfoldable pub redis_key_cooldown : State → RouteTarget → ApiKey → ℕ → Option (ℕ × Bool)
  redis_key_cooldown st target key now =
      elim (key_cooldown redis hash enabled st (key_cooldown_storage_key target key) now) [
        | hit expires_at rpd ↦ some (expires_at, rpd)
        | miss ↦ none
        | error ↦ none
      ]

  -- The loop of `nextProviderKey`; `none` is a round too many for the fuel.
  unfoldable pub next_provider_key :
      ℕ → KeyState → State → Text → RouteTarget → ℕ → Option (KeyState × Option ApiKey)
  next_provider_key zero k st model target now = none
  next_provider_key (suc fuel) k st model target now =
      let (k', picked) = Keys.next_for k model target now in
      elim picked [
        | none ↦ some (k', none)
        | some key ↦ elim (redis_key_cooldown st target key now) [
          | none ↦ some (k', some key)
          | some (expires_at, rpd) ↦
              next_provider_key fuel (Keys.mark_redis_exhausted k' model key expires_at rpd now) st
                model target now
        ]
      ]

  -- `markProviderKeyExhausted`.
  unfoldable pub mark_provider_key_exhausted : World → Text → RouteTarget → ApiKey → ℕ → ℕ → World
  mark_provider_key_exhausted w model target key now delay =
      let (k, local_expires, local_rpd) = Keys.mark_exhausted_until w.keys model key now delay in
      let (st, answer) =
        mark_key_exhausted redis hash enabled w.shared (key_cooldown_storage_key target key)
          k.cooldown k.rpd_cooldown now in
      elim answer [
        | none ↦ record w {
          keys = Keys.mark_redis_exhausted k model key local_expires local_rpd now;
          shared = st;
        }
        | some (expires_at, rpd) ↦ record w {
          keys = Keys.mark_redis_exhausted k model key expires_at rpd now;
          shared = st;
        }
      ]

  unfoldable pub mark_provider_key_healthy : World → Text → RouteTarget → ApiKey → World
  mark_provider_key_healthy w model target key = record w {
    keys = Keys.mark_healthy w.keys model key;
    shared = delete_key_cooldown redis hash enabled w.shared (key_cooldown_storage_key target key);
  }
