-- ===== src/Tests.antt =====
-- The theorems at concrete rows.
mod Data
mod Training
mod Weights
mod Scheduler
mod Roots
mod Audit
mod Auth
mod Login
mod Users
mod Outbox
mod Idempotency
mod RateLimit
