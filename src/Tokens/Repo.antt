-- ===== src/Tokens/Repo.antt =====
-- The stores of keys and accounts, as the key services call them
-- (internal/infra/postgres/tokens/tokens.go, internal/infra/postgres/users/users.go).
use llm_proxy_backend.Prelude.{
  ℕ, ◌&&◌, Option, none, some, List, [], ◌∷◌, leb, ◌==◌, if◌then◌else◌, length, any, keep, find,
}
use llm_proxy_backend.Prelude.Text.{Text, ◌=t◌}
use llm_proxy_backend.Identity.{User}
use llm_proxy_backend.Store.{Op, not_found, token_limit, ok, err, call}
use llm_proxy_backend.Store.Tables.{Token, AuditEvent}
use llm_proxy_backend.Tokens.Key.{is_live}

abbrev pub max_live_tokens_per_owner : ℕ
max_live_tokens_per_owner = 50

-- A row read, or ErrNotFound.
abbrev pub found : {A : Type 0} → Option A → Op A
found none s = (err not_found, s)
found (some a) s = (ok a, s)

unfoldable pub user_by_id : ℕ → Op User
user_by_id id = call λ s. found (find (λ u. u.id == id) s.users) s

unfoldable pub token_by_id : ℕ → Op Token
token_by_id id = call λ s. found (find (λ t. t.id == id) s.tokens) s

unfoldable pub token_by_hash : Text → Op Token
token_by_hash hash = call λ s. found (find (λ t. t.hash =t hash) s.tokens) s

-- The rows `count(*) … WHERE user_id = $1 AND revoked_at IS NULL` counts.
abbrev pub live_keys : ℕ → List Token → List Token
live_keys owner = keep λ t. (t.user_id == owner) && is_live t

-- One transaction: the owner's row is locked, the live keys counted, the row inserted.
unfoldable pub create_token : Token → Op (Unit {0})
create_token t = call λ s.
    if any (λ u. u.id == t.user_id) s.users
    then if leb max_live_tokens_per_owner (length (live_keys t.user_id s.tokens))
      then (err token_limit, s)
      else (ok tt, record s { tokens = t ∷ s.tokens })
    else (err not_found, s)

-- The columns that `Save` updates.
abbrev pub saved : Token → Token → Token
saved t row = record row { label = t.label; revoked_at = t.revoked_at; revoked_by = t.revoked_by }

unfoldable pub update_row : Token → List Token → List Token
update_row t [] = []
update_row t (row ∷ rows) = (if row.id == t.id then saved t row else row) ∷ update_row t rows

unfoldable pub save_token : Token → Op (Unit {0})
unfolding update_row
save_token t = call λ s.
    if any (λ row. row.id == t.id) s.tokens
    then (ok tt, record s { tokens = update_row t s.tokens })
    else (err not_found, s)

unfoldable pub record_event : AuditEvent → Op (Unit {0})
record_event e = call λ s. (ok tt, record s { audit = e ∷ s.audit })
