-- ===== src/Gateway.antt =====
-- The proxied listener (internal/infra/gateway): which credentials a request presents, and the gate
-- that every proxied request passes.
pub mod Credentials
pub mod Gate
pub mod Catalog
pub mod Extract
pub mod Routes
pub mod Budget
pub mod Drain
