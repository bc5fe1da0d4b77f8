-- ===== src/Accounts/Temporary.antt =====
-- `ResetPassword` and `DrawTemporaryPassword` (internal/app/temporary_password.go). The text that is
-- drawn and the derivation are parameters, and each may fail.
pub mod Reset
use llm_proxy_backend.Prelude.{ℕ, ◌+◌, ◌*◌, true, some}
use llm_proxy_backend.Prelude.Text.{Text}
use llm_proxy_backend.Store.{Op, call, return, ◌>>=◌, ◌>>◌}
use llm_proxy_backend.Auth.Repo.{set_password, set_must_change_password}
use llm_proxy_backend.Accounts.Repo.{delete_by_user}

-- Seventy-two hours, in nanoseconds.
abbrev pub temporary_password_ttl : ℕ
temporary_password_ttl = 72 * 3600 * 1000000000

pub record TemporaryPassword : Type 0 where
  pub password : Text
  pub expires_at : ℕ

module _ (hash_password : Text → Text) where
  unfoldable pub draw_temporary_password : Text → ℕ → Op (TemporaryPassword × Text)
  draw_temporary_password drawn now = do
    secret ← call (return drawn)
    hash ← call (return (hash_password secret))
    return (record { password = secret; expires_at = now + temporary_password_ttl }, hash)

  unfoldable pub reset_password : Text → ℕ → ℕ → Op TemporaryPassword
  reset_password drawn id now = do
    (temp, hash) ← draw_temporary_password drawn now
    set_must_change_password id true
    set_password id hash (some temp.expires_at)
    delete_by_user id
    return temp
