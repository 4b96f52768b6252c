-- ===== src/Types.antt =====
-- internal/types.go and internal/store_types.go: the records that the components share.
-- Identifiers are database serials, 0 where there is none; an instant is a number of nanoseconds, and
-- so is a duration. Fields that only the admin pages show are left out.
use buzzhive.Base.{ℕ, ◌++◌, Bool, Text, text, text_eq, ◌==◌, if◌then◌else◌, []}

pub record ApiKey : Type 0 where
  pub id : ℕ
  pub provider_id : ℕ
  pub provider_name : Text
  pub provider_key_id : ℕ
  pub name : Text
  pub key : Text
  pub enabled : Bool

pub record KeyError : Type 0 where
  pub key : Text
  pub model : Text
  pub status : ℕ
  pub message : Text
  pub updated_at : ℕ  -- RFC 3339, whole seconds

-- The quota rates of a target are left out.
pub record RouteTarget : Type 0 where
  pub id : ℕ
  pub selection_policy : Text
  pub max_output_tokens : ℕ
  pub provider_id : ℕ
  pub provider_name : Text
  pub provider_type : Text
  pub route_protocol : Text
  pub upstream_model : Text
  pub weight : ℕ

pub record AuthToken : Type 0 where
  pub id : ℕ
  pub user_id : ℕ
  pub user_name : Text
  pub name : Text
  pub weekly_quota_credits : ℕ
  pub lifetime_quota_credits : ℕ
  pub quota_anchor : ℕ  -- 0 is the zero time

pub record RouteSession : Type 0 where
  pub model_route_id : ℕ
  pub expires_at : ℕ

abbrev pub millisecond : ℕ
millisecond = 1_000_000

abbrev pub second : ℕ
second = 1_000_000_000

abbrev pub minute : ℕ
minute = 60_000_000_000

abbrev pub hour : ℕ
hour = 3_600_000_000_000

-- `RouteTarget.CooldownModel`.
unfoldable pub cooldown_model : RouteTarget → Text
cooldown_model t =
    if t.provider_name == []
    then t.upstream_model
    else t.provider_name ++ text ":" ++ t.upstream_model
