-- ===== src/Auth/Password.antt =====
-- Signing in with a password, and changing it (internal/app/auth/auth.go). The derivations are
-- parameters; waiting for a slot of the hasher may fail (internal/app/hasher.go).
pub mod Change
pub mod SignIn
use llm_proxy_backend.Prelude.{
  ℕ, ◌+◌, Bool, true, false, ◌&&◌, ◌||◌, not, Option, none, some, [], ltb, leb, length,
  if◌then◌else◌,
}
use llm_proxy_backend.Prelude.Text.{Text, ◌=t◌}
use llm_proxy_backend.Identity.{User, can_sign_in}
use llm_proxy_backend.Store.{
  Op, Error, not_found, forbidden, invalid_credentials, empty_password, weak_password, Result, ok,
  err, return, fail, require, read_clock, call, catch, ◌>>=◌, ◌>>◌,
}
use llm_proxy_backend.Store.Tables.{
  Session, Password, Action, auth_signin, auth_password_changed, empty,
}
use llm_proxy_backend.Tokens.Repo.{user_by_id, record_event}
use llm_proxy_backend.Auth.Throttle.{check, charge, clear}
use llm_proxy_backend.Auth.Repo.{
  get_password, set_password, set_must_change_password, delete_by_user_except, user_by_email,
}
use llm_proxy_backend.Auth.Session.{Meta, open_session, session_event}

abbrev pub min_password_length : ℕ
min_password_length = 12

unfoldable pub check_new_password : Text → Op (Unit {0})
check_new_password plain = do
  require (not (plain =t [])) empty_password
  require (not (ltb (length plain) min_password_length)) weak_password

-- `signInAttempt`: the user and the hash, of which an attempt that is not eligible reads neither.
pub record SignInAttempt : Type 0 where
  pub user : Option User
  pub hash : Text
  pub eligible : Bool

abbrev pub refused_attempt : Option User → SignInAttempt
refused_attempt user = record { user = user; hash = []; eligible = false }

-- A row that is not there is an attempt to refuse; any other error is returned as it is.
abbrev pub absent : Option User → Error → Op SignInAttempt
absent user not_found = return (refused_attempt user)
absent user e = fail e

-- Whether a temporary password's window is over: read only where there is one.
unfoldable pub is_over : Option ℕ → Op Bool
is_over none = return false
is_over (some expires_at) = do now ← read_clock; return (not (ltb now expires_at))

unfoldable pub attempt_of : User → Password → Op SignInAttempt
attempt_of user password = do
  over ← is_over password.expires_at
  return (
      if over
      then refused_attempt (some user)
      else record { user = some user; hash = password.hash; eligible = true })

-- What follows the lookup by address.
unfoldable pub attempt_by : User → Op SignInAttempt
attempt_by user =
    if not (can_sign_in user)
    then return (refused_attempt none)
    else catch (get_password user.id) (attempt_of user) (absent (some user))

-- The session is the user's: an eligible attempt has one.
abbrev pub owner_of : SignInAttempt → Op User
owner_of attempt = elim attempt.user [ none ↦ fail invalid_credentials | some user ↦ return user ]

-- What a granted change writes.
unfoldable pub replace_password : ℕ → Text → Session → Op (Unit {0})
replace_password user hash sess = do
  set_password user hash none
  set_must_change_password user false
  delete_by_user_except user sess.id_hash
  now ← read_clock
  record_event (session_event now user auth_password_changed empty sess.ip sess.user_agent)

module _ (verify : Text → Text → Bool) where
  -- `PasswordHasher.Verify`.
  unfoldable pub verify_password : Text → Text → Op Bool
  verify_password hash plain = call (return (verify hash plain))

  unfoldable pub verify_attempt : (decoy_hash : Text) → SignInAttempt → Text → Op Bool
  verify_attempt decoy_hash attempt password = do
    matching ← verify_password (if attempt.hash =t [] then decoy_hash else attempt.hash) password
    return (matching && attempt.eligible)

  -- The current password, which a user under a temporary one is not asked for.
  unfoldable pub check_current : User → Password → Text → Op (Unit {0})
  check_current user current plain =
      if user.must_change_password
      then return tt
      else (verify_password current.hash plain >>= λ matching. require matching invalid_credentials)

  module _ (hash_password : Text → Text) where
    unfoldable pub change_password : Session → Text → Text → Op (Unit {0})
    change_password sess current_plain new_plain = do
      user ← user_by_id sess.user_id
      require (can_sign_in user) forbidden
      current ← get_password user.id
      over ← is_over current.expires_at
      require (not over) invalid_credentials
      check_current user current current_plain
      check_new_password new_plain
      hash ← call (return (hash_password new_plain))
      replace_password user.id hash sess

module _ (lower : Text → Text) where
  -- `resolve`.
  unfoldable pub resolve_attempt : Text → Op SignInAttempt
  resolve_attempt email = catch (user_by_email lower email) attempt_by (absent none)

  module _ (max_failures lock_for : ℕ) (verify : Text → Text → Bool)
      (hash_session : Text → Text) where
    unfoldable pub sign_in : (decoy_hash : Text) → Text → Text → Meta → Text → Op (Session × User)
    sign_in decoy_hash email password meta id = do
      check lower max_failures lock_for email
      charge lower max_failures lock_for email
      attempt ← resolve_attempt email
      passed ← verify_attempt verify decoy_hash attempt password
      require passed invalid_credentials
      clear lower max_failures lock_for email
      user ← owner_of attempt
      sess ← open_session hash_session user auth_signin meta id
      return (sess, user)
