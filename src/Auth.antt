-- ===== src/Auth.antt =====
-- Signing in with a password: the per-address throttle (internal/app/auth/throttle.go) over its
-- counter (internal/infra/postgres/loginattempts/loginattempts.go), and the service that opens,
-- resolves and ends sessions and changes passwords (internal/app/auth/auth.go).
pub mod Throttle
pub mod Repo
pub mod Session
pub mod Password
