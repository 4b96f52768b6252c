-- ===== src/Errors/Names.antt =====
-- internal/protocol_errors.go: a status that is named in a protocol, and read back from the name.
use buzzhive.Base.{ℕ, ◌≡◌, refl, text, ◌==◌, nat_eq, ◌||◌, if◌then◌else◌, arith}
use buzzhive.Base.Eq.{bytes_beq}
use buzzhive.Base.Bytes.{
  contains, has_prefix, trim_space, strip, leading_space, trailing_space, ascii_space, wide_space,
}
use buzzhive.Errors.{
  anthropic_status_type, anthropic_error_type, gemini_error_status, is_one_of, to_lower,
  status_of_value, canonical_stream_error_http_status,
}

anthropic_readings :
    (canonical_stream_error_http_status (text "invalid_request_error") ≡ 400)
    × (canonical_stream_error_http_status (text "authentication_error") ≡ 401)
    × (canonical_stream_error_http_status (text "permission_error") ≡ 403)
    × (canonical_stream_error_http_status (text "not_found_error") ≡ 404)
    × (canonical_stream_error_http_status (text "request_too_large") ≡ 500)
    × (canonical_stream_error_http_status (text "rate_limit_error") ≡ 429)
    × (canonical_stream_error_http_status (text "overloaded_error") ≡ 503)
    × (canonical_stream_error_http_status (text "api_error") ≡ 500)
unfolding status_of_value contains has_prefix bytes_beq canonical_stream_error_http_status to_lower
    trim_space strip leading_space trailing_space ascii_space wide_space
anthropic_readings = (refl, refl, refl, refl, refl, refl, refl, refl)

-- An error that is named for an Anthropic client by its status alone and read back keeps its status, but
-- that 405 and 422 become 400, 529 becomes 503, and any other but 400, 401, 403, 404 and 429 becomes 500.
pub anthropic_round_trip :
    (status : ℕ)
    → canonical_stream_error_http_status (anthropic_error_type status (text "upstream_error")) ≡ (
        if status == 400 || (status == 405 || status == 422)
        then 400
        else if status == 401
        then 401
        else if status == 403
        then 403
        else if status == 404
        then 404
        else if status == 429
        then 429
        else if status == 529
        then 503
        else 500)
unfolding anthropic_error_type anthropic_status_type is_one_of bytes_beq
anthropic_round_trip status = ground (
  arith, anthropic_readings.0, anthropic_readings.1, anthropic_readings.2, anthropic_readings.3,
  anthropic_readings.4, anthropic_readings.5, anthropic_readings.6, anthropic_readings.7,
)

gemini_readings :
    (canonical_stream_error_http_status (text "INVALID_ARGUMENT") ≡ 400)
    × (canonical_stream_error_http_status (text "UNAUTHENTICATED") ≡ 401)
    × (canonical_stream_error_http_status (text "PERMISSION_DENIED") ≡ 403)
    × (canonical_stream_error_http_status (text "NOT_FOUND") ≡ 404)
    × (canonical_stream_error_http_status (text "ALREADY_EXISTS") ≡ 500)
    × (canonical_stream_error_http_status (text "RESOURCE_EXHAUSTED") ≡ 429)
    × (canonical_stream_error_http_status (text "DEADLINE_EXCEEDED") ≡ 504)
    × (canonical_stream_error_http_status (text "UNAVAILABLE") ≡ 503)
    × (canonical_stream_error_http_status (text "INTERNAL") ≡ 500)
unfolding status_of_value contains has_prefix bytes_beq canonical_stream_error_http_status to_lower
    trim_space strip leading_space trailing_space ascii_space wide_space
gemini_readings = (refl, refl, refl, refl, refl, refl, refl, refl, refl)

-- A status that is named for a Gemini client and read back keeps its value, but that 405 and 422 become
-- 400, 408 becomes 504, and any other but 400, 401, 403, 404, 429, 503 and 504 becomes 500 (409 too).
pub gemini_round_trip :
    (status : ℕ)
    → canonical_stream_error_http_status (gemini_error_status status) ≡ (
        if status == 400 || (status == 405 || status == 422)
        then 400
        else if status == 401
        then 401
        else if status == 403
        then 403
        else if status == 404
        then 404
        else if status == 429
        then 429
        else if status == 408 || status == 504
        then 504
        else if status == 503
        then 503
        else 500)
unfolding gemini_error_status
gemini_round_trip status = ground (
  arith, gemini_readings.0, gemini_readings.1, gemini_readings.2, gemini_readings.3,
  gemini_readings.4, gemini_readings.5, gemini_readings.6, gemini_readings.7, gemini_readings.8,
)
