-- ===== src/Streams.antt =====
-- internal/stream_convert.go: a provider's stream is read as canonical events, and these are written in
-- the protocol of the client. `fmt.Fprintf` and the flush of `writeSSEJSON` are left out: an encoder's
-- output is the list of the values that it writes, in order.
pub mod Read
pub mod Tools
pub mod ReadChat
pub mod ReadAnthropic
pub mod ReadGemini
pub mod ReadResponses
pub mod AnthropicOut
pub mod ChatOut
pub mod GeminiOut
pub mod ResponsesOut
pub mod Convert
