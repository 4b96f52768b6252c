-- ===== src/Errors.antt =====
-- internal/protocol_errors.go: how an error is named in each protocol, and which status a code in a stream
-- stands for.
pub mod Names
use buzzhive.Base.{
  ℕ, ◌+◌, ◌&&◌, leb, List, [], ◌∷◌, Bool, true, false, ◌||◌, Text, text, text_eq, nat_eq, ◌==◌,
  if◌then◌else◌,
}
use buzzhive.Base.Bytes.{contains, trim_space}

unfoldable pub is_one_of : Text → List Text → Bool
is_one_of code [] = false
is_one_of code (c ∷ cs) = code == c || is_one_of code cs

abbrev pub anthropic_codes : List Text
anthropic_codes =
    text "invalid_request_error"
    ∷ text "authentication_error"
    ∷ text "permission_error"
    ∷ text "not_found_error"
    ∷ text "request_too_large"
    ∷ text "rate_limit_error"
    ∷ text "api_error"
    ∷ text "overloaded_error"
    ∷ []

unfoldable pub anthropic_status_type : ℕ → Text
anthropic_status_type status =
    if status == 400 || (status == 405 || status == 422)
    then text "invalid_request_error"
    else if status == 401
    then text "authentication_error"
    else if status == 403
    then text "permission_error"
    else if status == 404
    then text "not_found_error"
    else if status == 413
    then text "request_too_large"
    else if status == 429
    then text "rate_limit_error"
    else if status == 529
    then text "overloaded_error"
    else text "api_error"

unfoldable pub anthropic_error_type : ℕ → Text → Text
unfolding anthropic_status_type is_one_of
anthropic_error_type status code =
    if is_one_of code anthropic_codes then code else anthropic_status_type status

unfoldable pub gemini_error_status : ℕ → Text
gemini_error_status status =
    if status == 400 || (status == 405 || status == 422)
    then text "INVALID_ARGUMENT"
    else if status == 401
    then text "UNAUTHENTICATED"
    else if status == 403
    then text "PERMISSION_DENIED"
    else if status == 404
    then text "NOT_FOUND"
    else if status == 409
    then text "ALREADY_EXISTS"
    else if status == 429
    then text "RESOURCE_EXHAUSTED"
    else if status == 408 || status == 504
    then text "DEADLINE_EXCEEDED"
    else if status == 503
    then text "UNAVAILABLE"
    else text "INTERNAL"

unfoldable pub status_of_value : Text → ℕ
status_of_value value =
    if contains value (text "rate")
      || (contains value (text "resource_exhausted") || value == text "429")
    then 429
    else if contains value (text "unauth")
        || (contains value (text "authentication")
            || (contains value (text "api_key") || value == text "401"))
    then 401
    else if contains value (text "permission") || value == text "403"
    then 403
    else if contains value (text "not_found") || value == text "404"
    then 404
    else if contains value (text "invalid") || value == text "400"
    then 400
    else if contains value (text "timeout")
        || (contains value (text "deadline") || (value == text "408" || value == text "504"))
    then 504
    else if contains value (text "unavailable")
        || (contains value (text "overload") || (value == text "503" || value == text "529"))
    then 503
    else 500

abbrev pub lower_byte : ℕ → ℕ
lower_byte c = if leb b'A' c && leb c b'Z' then c + 32 else c

-- `strings.ToLower` as a search for ASCII text sees it: ASCII letters, and the two other letters whose
-- small letters are ASCII (U+0130 and U+212A). Bytes of other characters stay, none is ASCII.
unfoldable pub to_lower : Text → Text
to_lower [] = []
to_lower (a ∷ []) = lower_byte a ∷ []
to_lower (a ∷ b ∷ []) =
    if a == 0xc4 && b == 0xb0 then b'i' ∷ [] else lower_byte a ∷ lower_byte b ∷ []
to_lower (a ∷ b ∷ c ∷ s) =
    let three = to_lower s in
    let two = to_lower (c ∷ s) in
    let one = to_lower (b ∷ c ∷ s) in
    if a == 0xc4 && b == 0xb0
    then b'i' ∷ two
    else if a == 0xe2 && (b == 0x84 && c == 0xaa)
    then b'k' ∷ three
    else lower_byte a ∷ one

unfoldable pub canonical_stream_error_http_status : Text → ℕ
unfolding status_of_value
canonical_stream_error_http_status code = status_of_value (to_lower (trim_space code))
