-- ===== src/Keys.antt =====
-- internal/key_state.go: the provider keys in rotation and their cooldowns. Each method holds the
-- mutex throughout, so a method is a function of the state; the clock and the jitter of
-- `mathrand.Intn(500)` are arguments. A nil map and an empty one are the same function.
pub mod Invariant
pub mod Selection
pub mod Cooldowns
use buzzhive.Base.{
  ℕ, zero, suc, ◌+◌, ◌*◌, ◌/◌, ◌%◌, ◌++◌, List, [], ◌∷◌, Bool, true, false, not, ◌&&◌, ◌||◌, Option,
  none, some, Text, text, text_eq, nat_eq, ◌==◌, Map, ltb, leb, if◌then◌else◌, length, get_elem?,
  filter,
}
use buzzhive.Base.Maps.{empty, get_or, insert, delete, delete_if}
use buzzhive.Base.Bytes.{clip, has_suffix, trim_space}
use buzzhive.Types.{ApiKey, KeyError, RouteTarget, millisecond, second, hour}

pub record KeyState : Type 0 where
  pub keys : List ApiKey
  pub next : ℕ
  pub cooldown : ℕ
  pub rpd_cooldown : ℕ
  pub exhausted : Map Text ℕ
  pub cooldown_hits : Map Text ℕ
  pub rpd_like : Map Text Bool
  pub errors : Map Text KeyError

abbrev pub cooldown_key : Text → Text → Text
cooldown_key model key_name = model ++ (text "::" ++ key_name)

unfoldable pub key_matches_target : ApiKey → RouteTarget → Bool
key_matches_target key target =
    if not (target.provider_name == [])
      && not (key.provider_name == [])
      && not (key.provider_name == target.provider_name)
    then false
    else if not (target.provider_id == 0)
        && not (key.provider_id == 0)
        && not (key.provider_id == target.provider_id)
    then false
    else true

-- `cooling && now.Before(expires)`.
unfoldable pub is_cooling : Option ℕ → ℕ → Bool
is_cooling none now = false
is_cooling (some expires) now = ltb now expires

-- What a selection writes: an entry that is over goes, and the cursor moves past the key.
abbrev pub advance : KeyState → Text → ApiKey → ℕ → KeyState
advance k model key idx = record k {
  exhausted = delete (cooldown_key model key.name) k.exhausted;
  next = (idx + 1) % length k.keys;
}

-- One round of the loop of `NextFor`; `none` is `continue`.
unfoldable pub try_key : KeyState → Text → RouteTarget → ℕ → ℕ → Option (KeyState × ApiKey)
try_key k model target now idx = elim (get_elem? k.keys idx) [
  | none ↦ none
  | some key ↦
      if not (key_matches_target key target)
      then none
      else if is_cooling (k.exhausted (cooldown_key model key.name)) now
      then none
      else some (advance k model key idx, key)
]

-- The rounds from `i` on, `rounds` of them.
unfoldable pub next_from : ℕ → ℕ → KeyState → Text → RouteTarget → ℕ → KeyState × Option ApiKey
next_from zero i k model target now = (k, none)
next_from (suc rounds) i k model target now =
    elim (try_key k model target now ((k.next + i) % length k.keys)) [
      | some (k', key) ↦ (k', some key)
      | none ↦ next_from rounds (i + 1) k model target now
    ]

unfoldable pub next_for : KeyState → Text → RouteTarget → ℕ → KeyState × Option ApiKey
next_for k model target now = next_from (length k.keys) 0 k model target now

unfoldable pub available_for : KeyState → RouteTarget → ℕ
available_for k target = length (filter (λ key. key_matches_target key target) k.keys)

-- `cooldown <= 0` of a duration that is no less than 0.
unfoldable pub next_cooldown : KeyState → Text → ℕ → ℕ → KeyState × ℕ × Bool
next_cooldown k id now jitter =
    let hits = get_or (k.cooldown_hits id) 0 + 1 in
    let k' = record k { cooldown_hits = insert id hits k.cooldown_hits } in
    let escalated = if k.rpd_cooldown == 0 then hour else k.rpd_cooldown in
    if leb 2 hits
    then (k', now + (escalated + jitter * millisecond), true)
    else (k', now + (k.cooldown + jitter * millisecond), false)

unfoldable pub mark_exhausted_until : KeyState → Text → ApiKey → ℕ → ℕ → KeyState × ℕ × Bool
unfolding next_cooldown
mark_exhausted_until k model key now jitter =
    let id = cooldown_key model key.name in
    let (k', expires_at, rpd) = next_cooldown k id now jitter in
    (
      record k' {
        exhausted = insert id expires_at k'.exhausted;
        rpd_like = if rpd then insert id true k'.rpd_like else k'.rpd_like;
        errors = delete id k'.errors;
      },
      expires_at,
      rpd,
    )

unfoldable pub mark_redis_exhausted : KeyState → Text → ApiKey → ℕ → Bool → ℕ → KeyState
mark_redis_exhausted k model key expires_at rpd now =
    let id = cooldown_key model key.name in
    if ltb expires_at now then k else record k {
      exhausted = insert id expires_at k.exhausted;
      rpd_like = if rpd then insert id true k.rpd_like else k.rpd_like;
      errors = delete id k.errors;
    }

unfoldable pub mark_error : KeyState → Text → ApiKey → ℕ → Text → ℕ → KeyState
mark_error k model key status message now =
    let shown = clip 500 message in
    record k {
      errors =
          insert (cooldown_key model key.name)
            (record {
              key = key.name;
              model = model;
              status = status;
              message = trim_space shown;
              updated_at = now / second;
            })
            k.errors;
    }

abbrev pub same_api_key : ApiKey → ApiKey → Bool
same_api_key a b =
    if not (a.provider_key_id == 0) && not (b.provider_key_id == 0)
    then a.provider_key_id == b.provider_key_id
    else a.id == b.id

-- The cursor after some keys have gone.
abbrev pub clamp_next : ℕ → ℕ → ℕ
clamp_next next count = if count == 0 then 0 else if leb count next then next % count else next

unfoldable pub remove : KeyState → ApiKey → KeyState
remove k key =
    let left = filter (λ item. not (same_api_key item key)) k.keys in
    let suffix = text "::" ++ key.name in
    record k {
      keys = left;
      next = clamp_next k.next (length left);
      exhausted = delete_if (λ item _. has_suffix item suffix) k.exhausted;
      cooldown_hits = delete_if (λ item _. has_suffix item suffix) k.cooldown_hits;
      rpd_like = delete_if (λ item _. has_suffix item suffix) k.rpd_like;
    }

unfoldable pub clear_error : KeyState → ApiKey → KeyState
clear_error k key = record k { errors = delete_if (λ _ item. item.key == key.name) k.errors }

unfoldable pub mark_healthy : KeyState → Text → ApiKey → KeyState
mark_healthy k model key =
    let id = cooldown_key model key.name in
    record k {
      exhausted = delete id k.exhausted;
      cooldown_hits = delete id k.cooldown_hits;
      rpd_like = delete id k.rpd_like;
      errors = delete_if (λ _ item. item.key == key.name) k.errors;
    }

unfoldable pub flush : KeyState → KeyState
flush k = record k { exhausted = empty; cooldown_hits = empty; rpd_like = empty }

unfoldable pub replace : KeyState → List ApiKey → KeyState
replace k keys = record k {
  keys = keys;
  next = 0;
  exhausted = empty;
  cooldown_hits = empty;
  rpd_like = empty;
  errors = empty;
}

-- The snapshot drops the entries that are over; what it shows are whole seconds.
unfoldable pub snapshot_exhausted : KeyState → ℕ → KeyState × Map Text ℕ
snapshot_exhausted k now =
    let live = delete_if (λ _ expires. ltb expires now) k.exhausted in
    (
      record k { exhausted = live },
      λ id. elim (live id) [ none ↦ none | some expires ↦ some (expires / second) ],
    )

unfoldable pub snapshot_errors : KeyState → Map Text KeyError
snapshot_errors k = k.errors

unfoldable pub snapshot_rpd_like : KeyState → Map Text Bool
snapshot_rpd_like k = delete_if (λ _ value. not value) k.rpd_like
