-- ===== src/Tests/Names.antt =====
-- Errors with the status 429.
use buzzhive.Base.{◌≡◌}
use buzzhive.Errors.{gemini_error_status, canonical_stream_error_http_status}
use buzzhive.Errors.Names.{gemini_round_trip}

gemini_round_trip_example : canonical_stream_error_http_status (gemini_error_status 429) ≡ 429
gemini_round_trip_example = gemini_round_trip 429
