-- ===== src/Canonical.antt =====
-- internal/protocol/canonical.go: the form in which an answer of any provider is held between two
-- protocols. Texts are bytes, counts and places are in ℕ; `Extensions` is left out, since no stream reads
-- it. A pointer to an error is an `Option`.
use buzzhive.Base.{ℕ, Bool, ◌&&◌, Option, none, List, [], Text, nat_eq, ◌==◌}

pub record CanonicalUsage : Type 0 where
  pub prompt_tokens : ℕ
  pub completion_tokens : ℕ
  pub total_tokens : ℕ
  pub cached_tokens : ℕ
  pub reasoning_tokens : ℕ

abbrev pub no_usage : CanonicalUsage
no_usage = record {
  prompt_tokens = 0;
  completion_tokens = 0;
  total_tokens = 0;
  cached_tokens = 0;
  reasoning_tokens = 0;
}

-- `CanonicalUsage.IsZero`.
unfoldable pub is_zero : CanonicalUsage → Bool
is_zero u =
    u.prompt_tokens == 0
    && (u.completion_tokens == 0
        && (u.total_tokens == 0 && (u.cached_tokens == 0 && u.reasoning_tokens == 0)))

-- The result of a call that may fail with a message.
pub data Fallible {ℓ} (A : Type ℓ) : Type ℓ where
  good : A → Fallible A
  bad : Text → Fallible A

-- A part of a message; raw JSON is text.
pub record CanonicalPart : Type 0 where
  pub type : Text
  pub content : Text  -- `Text`
  pub mime_type : Text
  pub payload : Text  -- `Data`
  pub tool_call_id : Text
  pub name : Text
  pub arguments : Text
  pub response : Text
  pub signature : Text

-- The Go literal that gives a type and leaves every other field empty.
abbrev pub part_of : Text → CanonicalPart
part_of type = record {
  type = type;
  content = [];
  mime_type = [];
  payload = [];
  tool_call_id = [];
  name = [];
  arguments = [];
  response = [];
  signature = [];
}

pub record CanonicalToolCall : Type 0 where
  pub id : Text
  pub name : Text
  pub arguments : Text
  pub signature : Text

pub record CanonicalResponse : Type 0 where
  pub id : Text
  pub created : ℕ
  pub model : Text
  pub role : Text
  pub status : Text
  pub body : Text  -- `Text`
  pub refusal : Text
  pub reasoning : Text
  pub signature : Text
  pub tool_calls : List CanonicalToolCall
  pub finish_reason : Text
  pub usage : CanonicalUsage

pub data EventType : Type 0 where
  response_start : EventType
  message_start : EventType
  text_delta : EventType
  refusal_delta : EventType
  reasoning_delta : EventType
  tool_call_start : EventType
  tool_arguments_delta : EventType
  tool_call_done : EventType
  usage_report : EventType  -- `CanonicalStreamUsage`
  response_done : EventType
  stream_error : EventType  -- `CanonicalStreamError`

pub record StreamErrorData : Type 0 where
  pub code : Text
  pub message : Text

pub record StreamEvent : Type 0 where
  pub type : EventType
  pub id : Text
  pub created : ℕ
  pub model : Text
  pub role : Text
  pub index : ℕ
  pub call_id : Text
  pub name : Text
  pub delta : Text
  pub arguments : Text
  pub signature : Text
  pub status : Text
  pub finish_reason : Text
  pub usage : CanonicalUsage
  pub error : Option StreamErrorData

-- The Go literal that gives a type and leaves every other field at its zero value.
abbrev pub event_of : EventType → StreamEvent
event_of type = record {
  type = type;
  id = [];
  created = 0;
  model = [];
  role = [];
  index = 0;
  call_id = [];
  name = [];
  delta = [];
  arguments = [];
  signature = [];
  status = [];
  finish_reason = [];
  usage = no_usage;
  error = none;
}
