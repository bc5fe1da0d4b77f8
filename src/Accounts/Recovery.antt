-- ===== src/Accounts/Recovery.antt =====
-- `Service` (internal/app/recovery/recovery.go): an operator's way back in from the shell.
pub mod Sound
use llm_proxy_backend.Prelude.{
  ℕ, Bool, true, false, ◌&&◌, not, none, some, [], ◌∷◌, any, keep, map, ◌==◌, if◌then◌else◌,
}
use llm_proxy_backend.Prelude.Text.{Text, trim_space}
use llm_proxy_backend.Identity.{User, Status, is_human, is_admin, is_active, can_sign_in}
use llm_proxy_backend.Store.{
  Op, ok, err, not_found, not_local, blocked, call, return, require, read_clock, ◌>>=◌, ◌>>◌,
}
use llm_proxy_backend.Store.Tables.{
  AuditEvent, Action, user_update, user_password_reset, Detail, of_unblock, of_expiry,
}
use llm_proxy_backend.Tokens.Repo.{record_event}
use llm_proxy_backend.Auth.Throttle.{clear_call}
use llm_proxy_backend.Auth.Repo.{user_by_email}
use llm_proxy_backend.Accounts.Repo.{UserView, list_users}
use llm_proxy_backend.Accounts.Temporary.{TemporaryPassword, reset_password}

pub record Recovered : Type 0 where
  pub user : User
  pub password : TemporaryPassword
  pub unblocked : Bool

-- No actor.
abbrev pub shell_event : ℕ → Action → ℕ → Detail → AuditEvent
shell_event now action target detail = record {
  at = now;
  actor_id = 0;
  action = action;
  target = target;
  detail = detail;
  ip = [];
  user_agent = [];
}

abbrev pub with_active : ℕ → User → User
with_active id u = if u.id == id then record u { status = Status.active } else u

-- `Repo.Unblock`: the row and its audit record in one transaction.
unfoldable pub unblock : ℕ → AuditEvent → Op (Unit {0})
unblock id audit = call λ s.
    if any (λ u. u.id == id) s.users
    then (ok tt, record s { users = map (with_active id) s.users; audit = audit ∷ s.audit })
    else (err not_found, s)

abbrev pub is_other_admin : ℕ → UserView → Bool
is_other_admin id v = not (v.user.id == id) && is_admin v.user.role && can_sign_in v.user

unfoldable pub other_active_admin : ℕ → Op Bool
other_active_admin id = do all ← list_users; return (any (is_other_admin id) all)

-- Whether nobody on the web interface could unblock the account.
unfoldable pub can_unblock : User → Op Bool
can_unblock user =
    if is_admin user.role
    then (other_active_admin user.id >>= λ other. return (not other))
    else return false

-- Whether the account is to be unblocked; a blocked account that is not is refused.
unfoldable pub check_blocked : User → Bool → Op Bool
unfolding can_unblock
check_blocked user wanted =
    if is_active user.status
    then return false
    else (can_unblock user >>= λ may. require (wanted && may) (blocked may) >> return true)

unfoldable pub unblock_if : Bool → User → ℕ → Op User
unfolding unblock
unblock_if wanted user now =
    if wanted
    then (unblock user.id (shell_event now user_update user.id of_unblock)
        >> return (record user { status = Status.active }))
    else return user

module _ (lower hash_password : Text → Text) where
  unfoldable pub recover : Text → Bool → Text → Op Recovered
  recover email wanted drawn = do
    user ← user_by_email lower (trim_space email)
    require (is_human user.kind) not_local
    unblocking ← check_blocked user wanted
    now ← read_clock
    active ← unblock_if unblocking user now
    password ← reset_password hash_password drawn user.id now
    clear_call lower user.email
    record_event (shell_event now user_password_reset user.id (of_expiry true password.expires_at))
    return (record {
      user = record active { must_change_password = true };
      password = password;
      unblocked = unblocking;
    })
