-- ===== src/Tests/Samples.antt =====
-- Inputs of the tests: two keys of one provider, two targets, and a Redis that keeps its entries in a
-- map.
use buzzhive.Base.{
  ℕ, ◌+◌, ◌*◌, ◌%◌, [], ◌∷◌, true, false, Option, none, some, Text, text, text_eq, ltb,
  if◌then◌else◌, ◌≢◌, arith,
}
use buzzhive.Base.Maps
use buzzhive.Types.{ApiKey, RouteTarget, AuthToken, second, minute}
use buzzhive.Keys.{KeyState}
use buzzhive.Keys.Invariant.{IsValid}
use buzzhive.Cache.{CooldownValue, Redis, missing, value}
use buzzhive.Cooldown.{answered, Environment, World}
use buzzhive.Routing.{Router}

abbrev pub key_of : ℕ → Text → ApiKey
key_of id name = record {
  id = id;
  provider_id = 1;
  provider_name = text "openai";
  provider_key_id = id;
  name = name;
  key = text "sk";
  enabled = true;
}

abbrev pub first_key : ApiKey
first_key = key_of 1 (text "a")

abbrev pub second_key : ApiKey
second_key = key_of 2 (text "b")

abbrev pub target_of : ℕ → Text → ℕ → RouteTarget
target_of id policy weight = record {
  id = id;
  selection_policy = policy;
  max_output_tokens = 0;
  provider_id = 1;
  provider_name = text "openai";
  provider_type = text "openai";
  route_protocol = text "openai";
  upstream_model = text "m";
  weight = weight;
}

abbrev pub model : Text
model = text "m"

abbrev pub target : RouteTarget
target = target_of 1 (text "round_robin") 1

abbrev pub two_keys : KeyState
two_keys = record {
  keys = first_key ∷ second_key ∷ [];
  next = 1;
  cooldown = minute;
  rpd_cooldown = 0;
  exhausted = Maps.empty;
  cooldown_hits = Maps.empty;
  rpd_like = Maps.empty;
  errors = Maps.empty;
}

pub two_keys-IsValid : IsValid two_keys
two_keys-IsValid = record {
  in_range = λ _. omega arith;
  at_rest = λ h. ground arith;
  errors_filed = record { filed = λ id e h. ground arith };
}

-- An entry is gone after its time to live.
abbrev pub map_redis : Redis
map_redis = record {
  State = Text → Option (CooldownValue × ℕ);
  get = λ st now key. elim (st key) [
    | none ↦ missing
    | some (v, until) ↦ if ltb until now then missing else value v
  ];
  set = λ st now key v ttl. some (Maps.insert key (v, now + ttl) st);
  del = λ st key. Maps.delete key st;
}

-- The first key is answered with 429, and the second with 200.
abbrev pub upstream : Environment
upstream = record {
  redis = map_redis;
  hash = λ t. t;
  enabled = true;
  format = λ n. (48 + n % 10) ∷ [];
  parse = λ body. ([], body);
  clock = λ i. (10 + i) * second + 1;
  jitter = λ i. i % 500;
  forward = λ t key i. answered (record { status = if ltb key.id 2 then 429 else 200; body = [] });
  disable_fails = λ key i. false;
  has_provider = λ t. true;
}

pub off_second : (i : ℕ) → ((10 + i) * second + 1) % second ≢ 0
off_second i h = omega arith

abbrev pub no_cooldowns : Text → Option (CooldownValue × ℕ)
no_cooldowns = Maps.empty

-- Both keys, with the cursor at the first.
abbrev pub from_first : KeyState
from_first = record two_keys { next = 0 }

pub from_first-IsValid : IsValid from_first
from_first-IsValid = record {
  in_range = λ _. omega arith;
  at_rest = λ h. ground arith;
  errors_filed = record { filed = λ id e h. ground arith };
}

abbrev pub world : World upstream
world = record { keys = from_first; shared = no_cooldowns; disabled = [] }

abbrev pub now : ℕ
now = 10 * second + 1

abbrev pub router : Router
router = record { route_next = Maps.empty; route_sessions = Maps.empty; told = [] }

abbrev pub token : AuthToken
token = record {
  id = 1;
  user_id = 7;
  user_name = text "u";
  name = text "k";
  weekly_quota_credits = 1;
  lifetime_quota_credits = 1;
  quota_anchor = 1;
}
