-- ===== src/Tests.antt =====
-- Concrete inputs, and each theorem applied to some of them.
mod Batches
mod Samples
mod Keys
mod Routes
mod Requests
mod Dispatches
mod Quotas
mod Signs
mod Streams
mod Codecs
mod Sessions
mod Names
mod Shares
