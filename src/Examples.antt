-- ===== src/Examples.antt =====
-- Runs of the models on concrete inputs, and the theorems at such inputs.
mod Api
mod Auth
mod Catalog
mod Authz
mod Oidc
mod Pipeline
mod Policy
mod Query
mod Secrets
mod Setup
