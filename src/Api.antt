-- ===== src/Api.antt =====
-- internal/api: who may ask the HTTP API, and how often.
pub mod Auth
pub mod RateLimit
