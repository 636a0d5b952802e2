-- ===== src/Api.antt =====
-- internal/api: what guards the handlers.
pub mod RateLimit
