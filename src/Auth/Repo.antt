-- ===== src/Auth/Repo.antt =====
-- The stores of sessions and passwords, as the sign-in service calls them
-- (internal/infra/postgres/sessions/sessions.go, internal/infra/postgres/passwords/passwords.go,
-- internal/infra/postgres/users/users.go). `lower` is the database's.
use llm_proxy_backend.Prelude.{
  ℕ, Bool, false, ◌&&◌, not, Option, List, [], ◌∷◌, map, ltb, ◌==◌, if◌then◌else◌, any, keep, find,
}
use llm_proxy_backend.Prelude.Text.{Text, ◌=t◌}
use llm_proxy_backend.Identity.{User}
use llm_proxy_backend.Store.{Op, not_found, conflict, ok, err, call, read_clock, ◌>>=◌}
use llm_proxy_backend.Store.Tables.{Session, Password}
use llm_proxy_backend.Tokens.Repo.{found}

-- The row has no plaintext id and no restriction; the id's hash is the table's key.
unfoldable pub create_session : Session → Op (Unit {0})
create_session x = call λ s.
    if any (λ y. y.id_hash =t x.id_hash) s.sessions
    then (err conflict, s)
    else (ok tt, record s { sessions = record x { id = []; restricted = false } ∷ s.sessions })

-- The lookup by hash, in which the database's own clock decides what has expired.
unfoldable pub session_by_hash : Text → Op Session
session_by_hash hash = call (
    read_clock >>= λ now.
    λ s. found (find (λ x. (x.id_hash =t hash) && ltb now x.expires_at) s.sessions) s)

unfoldable pub delete_session : Text → Op (Unit {0})
delete_session hash =
    call λ s. (ok tt, record s { sessions = keep (λ x. not (x.id_hash =t hash)) s.sessions })

unfoldable pub delete_by_user_except : ℕ → Text → Op (Unit {0})
delete_by_user_except user hash = call λ s. (
  ok tt,
  record s {
    sessions = keep (λ x. not ((x.user_id == user) && not (x.id_hash =t hash))) s.sessions;
  },
)

unfoldable pub get_password : ℕ → Op Password
get_password user = call λ s. found (find (λ p. p.user_id == user) s.passwords) s

-- The upsert.
unfoldable pub put_password : Password → List Password → List Password
put_password p [] = p ∷ []
put_password p (q ∷ rows) = if q.user_id == p.user_id then p ∷ rows else q ∷ put_password p rows

unfoldable pub set_password : ℕ → Text → Option ℕ → Op (Unit {0})
unfolding put_password
set_password user hash expires_at = call λ s. (
  ok tt,
  record s {
    passwords =
        put_password (record { user_id = user; hash = hash; expires_at = expires_at }) s.passwords;
  },
)

abbrev pub with_must_change : ℕ → Bool → List User → List User
with_must_change id must =
    map λ u. if u.id == id then record u { must_change_password = must } else u

unfoldable pub set_must_change_password : ℕ → Bool → Op (Unit {0})
set_must_change_password id must = call λ s.
    if any (λ u. u.id == id) s.users
    then (ok tt, record s { users = with_must_change id must s.users })
    else (err not_found, s)

-- `lower(email) = lower($1)`, where an account with no address has NULL.
abbrev pub has_address : (Text → Text) → Text → User → Bool
has_address lower email u = not (u.email =t []) && (lower u.email =t lower email)

module _ (lower : Text → Text) where
  unfoldable pub user_by_email : Text → Op User
  user_by_email email = call λ s. found (find (has_address lower email) s.users) s
