-- ===== src/Protocols.antt =====
-- internal/protocol: an answer in the form of a provider's own protocol, to and from the canonical form.
pub mod Values
pub mod OpenaiChat
pub mod Anthropic
pub mod Gemini
pub mod Responses
