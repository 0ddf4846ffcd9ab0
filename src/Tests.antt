-- ===== src/Tests.antt =====
-- Runs on concrete inputs, and each theorem of the results at an input that meets its hypotheses.
mod Breaker
mod Client
mod Limiter
mod Jobs
mod Agent
mod Cache
mod Auth
mod Retry
mod Releases
mod Process
mod Idempotency
mod Blobs
mod Transactions
mod Batching
mod DeadLetters
mod Watermark
mod Schema
mod Streams
mod Chunked
mod Monitor
mod Traffic
mod Retrieval
mod Builds
mod Shapes
mod Secrets
mod Leakage
