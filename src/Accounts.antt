-- ===== src/Accounts.antt =====
-- Accounts: the administrator's service (internal/app/adminusers/adminusers.go), sign-in through an
-- identity provider (internal/app/auth/oidc.go), the way back in from the shell
-- (internal/app/recovery/recovery.go) and the first start (internal/app/bootstrap.go).
pub mod Repo
pub mod Temporary
pub mod Provision
pub mod Admin
pub mod Recovery
pub mod Bootstrap
pub mod Oidc
