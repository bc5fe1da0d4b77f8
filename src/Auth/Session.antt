-- ===== src/Auth/Session.antt =====
-- Opening, resolving and ending browser sessions (internal/app/auth/auth.go). The hash of a session
-- id is a parameter, and so is the id that is drawn.
pub mod Sound
pub mod Compensation
pub mod Opened
use llm_proxy_backend.Prelude.{ℕ, ◌+◌, ◌*◌, Bool, false, Option, some, none, [], if◌then◌else◌}
use llm_proxy_backend.Prelude.Text.{Text}
use llm_proxy_backend.Identity.{User, can_sign_in}
use llm_proxy_backend.Store.{
  Op, Error, not_found, Result, ok, err, return, fail, require, read_clock, call, catch, ◌>>=◌,
  ◌>>◌,
}
use llm_proxy_backend.Store.Tables.{
  Session, AuditEvent, Action, auth_signout, Detail, of_sign_in, empty,
}
use llm_proxy_backend.Tokens.Repo.{user_by_id, record_event}
use llm_proxy_backend.Auth.Repo.{create_session, session_by_hash, delete_session}

-- Twelve hours, in nanoseconds.
abbrev pub session_ttl : ℕ
session_ttl = 12 * 3600 * 1000000000

pub record Meta : Type 0 where
  pub ip : Text
  pub user_agent : Text

abbrev pub session_event : ℕ → ℕ → Action → Detail → Text → Text → AuditEvent
session_event now user action detail ip user_agent = record {
  at = now;
  actor_id = user;
  action = action;
  target = user;
  detail = detail;
  ip = ip;
  user_agent = user_agent;
}

-- The compensation of a session whose opening could not be recorded: whatever becomes of it, the
-- caller gets the audit's error.
unfoldable pub drop_session : Text → Error → Op Session
drop_session hash cause = catch (delete_session hash) (λ _. fail cause) (λ _. fail cause)

module _ (hash_session : Text → Text) where
  unfoldable pub stored_session : User → Meta → Text → ℕ → Session
  stored_session user meta id now = record {
    id = [];
    id_hash = hash_session id;
    user_id = user.id;
    restricted = false;
    ip = meta.ip;
    user_agent = meta.user_agent;
    created_at = now;
    expires_at = now + session_ttl;
  }

  -- `open`. Drawing the id may fail.
  unfoldable pub open_session : User → Action → Meta → Text → Op Session
  unfolding stored_session
  open_session user action meta id = do
    now ← read_clock
    call (return tt)
    let stored = stored_session user meta id now
    create_session stored
    catch
        (record_event (
          session_event now user.id action (of_sign_in user.must_change_password) meta.ip
            meta.user_agent))
        (λ _. return (record stored { id = id })) (drop_session stored.id_hash)

  unfoldable pub resolve_session : Text → Op (Session × User)
  unfolding can_sign_in
  resolve_session id = do
    sess ← session_by_hash (hash_session id)
    user ← user_by_id sess.user_id
    require (can_sign_in user) not_found
    return (record sess { restricted = user.must_change_password }, user)

unfoldable pub sign_out : Session → Op (Unit {0})
sign_out sess = do
  delete_session sess.id_hash
  now ← read_clock
  record_event (session_event now sess.user_id auth_signout empty sess.ip sess.user_agent)
