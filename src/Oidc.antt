-- ===== src/Oidc.antt =====
-- internal/oidc: who an identity of a provider is here.
pub mod Groups
