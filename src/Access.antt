-- ===== src/Access.antt =====
-- internal/domain/access/policy.go: allow-list rules over providers and model globs, and the one rule
-- by which the gateway admits a request for a model.
pub mod Glob
pub mod Rule
pub mod Policy
