-- ===== src/RateLimit.antt =====
-- backend/app/rate_limit.py.
pub mod Limiter
pub mod Rules
pub mod Buckets
pub mod Budget
pub mod Windows
pub mod Retry
pub mod Requests
pub mod Routes
pub mod Admission
