-- ===== src/Streams/Read.antt =====
-- internal/stream_convert.go: what the readers of a provider's stream share. `bufio.Scanner` is an input: the
-- lines that it gives, and what its `Err` says once the loop over them is left.
pub mod Clean
use buzzhive.Base.{
  ◌≡◌, List, [], ◌∷◌, ◌++◌, Bool, true, false, ◌&&◌, ◌||◌, not, arith, Option, none, some, Text,
  text, text_eq, ◌==◌, if◌then◌else◌,
}
use buzzhive.Base.Bytes.{trim_space, has_prefix, trim_prefix}
use buzzhive.Canonical.{CanonicalUsage, StreamEvent, event_of, stream_error}

pub record Scan : Type 0 where
  pub lines : List Text
  pub error : Option Text

-- The events passed to `onEvent`, in their order, and the two values returned.
pub record ReadResult : Type 0 where
  pub events : List StreamEvent
  pub usage : CanonicalUsage
  pub error : Option Text

-- What the body of a loop over the lines does with the state: next line, `break` or `return`.
pub data Flow {ℓ} (S : Type ℓ) : Type ℓ where
  go : S → Flow S
  leave : S → Flow S
  fail : S → Text → Flow S

unfoldable pub each_line {ℓ} : {S : Type ℓ} → (S → Text → Flow S) → S → List Text → Flow S
each_line body s [] = go s
each_line body s (line ∷ lines) = elim (body s line) [
  | go s' ↦ each_line body s' lines
  | leave s' ↦ leave s'
  | fail s' message ↦ fail s' message
]

-- The payload of a line, where it has one, the closing `DONE` included.
unfoldable pub sse_payload : Text → Option Text
sse_payload raw =
    let line = trim_space raw in
    if line == [] || not (has_prefix line (text "data:"))
    then none
    else some (trim_space (trim_prefix line (text "data:")))

-- How a reader ends once its loop is over: what failed in reading, then what the stream itself reported,
-- then an end that came too early.
unfoldable pub read_end : Option Text → Text → Option Text → Bool → Option Text
read_end (some message) prefix reported terminated = some (prefix ++ message)
read_end none prefix (some message) terminated = some message
read_end none prefix none terminated = if terminated then none else some (text "unexpected EOF")

-- `firstNonEmptyStreamValue`.
unfoldable pub first_non_empty : List Text → Text
first_non_empty [] = []
first_non_empty (v ∷ vs) = let rest = first_non_empty vs in if v == [] then rest else v

abbrev pub error_event : Text → Text → StreamEvent
error_event code message = record (event_of stream_error) {
  error = some (record { code = code; message = message });
}

-- `canonicalStreamReadError`.
unfoldable pub read_error : Text → StreamEvent
read_error message = error_event (text "upstream_stream_error") message

-- An event that reports an error carries what failed; a strict reader reports none.
abbrev pub is_clean : Bool → StreamEvent → Bool
is_clean strict ev = elim ev.type [
  | stream_error ↦ elim ev.error [ none ↦ false | some err ↦ not strict ]
  | _ ↦ true
]

abbrev pub all_clean : Bool → List StreamEvent → Bool
all_clean strict [] = true
all_clean strict (ev ∷ evs) = is_clean strict ev && all_clean strict evs

abbrev pub is_none {ℓ} : {A : Type ℓ} → Option A → Bool
is_none none = true
is_none (some a) = false
