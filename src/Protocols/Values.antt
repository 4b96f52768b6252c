-- ===== src/Protocols/Values.antt =====
-- internal/protocol: what the conversions of several protocols share.
use buzzhive.Base.{List, [], ◌∷◌, Bool, Text, text_eq, ◌==◌, if◌then◌else◌}
use buzzhive.Base.Bytes.{trim_space}

abbrev pub is_blank : Text → Bool
is_blank value = trim_space value == []

-- `firstNonEmpty` of internal/protocol/openai_responses.go: white space counts as empty.
unfoldable pub first_non_blank : List Text → Text
first_non_blank [] = []
first_non_blank (v ∷ vs) = let rest = first_non_blank vs in if is_blank v then rest else v
