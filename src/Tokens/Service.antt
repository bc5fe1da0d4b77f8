-- ===== src/Tokens/Service.antt =====
-- `Service` (internal/app/tokens/tokens.go). The hash of a secret is a parameter.
pub mod Limit
pub mod Revocation
use llm_proxy_backend.Prelude.{
  ℕ, Bool, true, false, ◌&&◌, ◌||◌, not, Option, none, some, List, [], ◌∷◌, ◌==◌, if◌then◌else◌,
  keep,
}
use llm_proxy_backend.Prelude.Text.{Text}
use llm_proxy_backend.Identity.{User, is_admin}
use llm_proxy_backend.Store.{
  Store, Op, Error, forbidden, Result, ok, err, return, fail, require, read_clock, call, catch,
  lift, ◌>>=◌, ◌>>◌,
}
use llm_proxy_backend.Store.Tables.{Token, AuditEvent, Action, token_issue, token_revoke, of_token}
use llm_proxy_backend.Tokens.Key.{Draw, generate, revoke_key}
use llm_proxy_backend.Tokens.Repo.{user_by_id, token_by_id, create_token, save_token, record_event}

-- `false` is ErrForbidden.
unfoldable pub manages : User → ℕ → Bool
manages actor owner = if actor.id == 0 then false else actor.id == owner || is_admin actor.role

abbrev pub event : ℕ → ℕ → Action → Token → AuditEvent
event now actor action t = record {
  at = now;
  actor_id = actor;
  action = action;
  target = t.id;
  detail = of_token t.id t.user_id t.label;
  ip = [];
  user_agent = [];
}

-- `retract`, with `stranded`: whatever becomes of the compensation, the caller gets the audit's
-- error, `cause`.
unfoldable pub retract : Token → ℕ → ℕ → Error → Op (Token × Text)
retract t by now cause =
    catch (lift (revoke_key t by now))
      (λ revoked. catch (save_token revoked) (λ _. fail cause) (λ _. fail cause)) (λ _. fail cause)

module _ (hash_secret : Text → Text) where
  unfoldable pub issue : User → ℕ → Text → Draw → Op (Token × Text)
  issue actor owner label draw = do
    require (manages actor owner) forbidden
    user_by_id owner
    (drawn, secret) ← generate hash_secret owner label draw
    now ← read_clock
    let t = record drawn { created_at = now }
    create_token t
    catch (record_event (event now actor.id token_issue t)) (λ _. return (t, secret))
        (retract t actor.id now)

unfoldable pub revoke : User → ℕ → Op (Unit {0})
revoke actor token_id = do
  t ← token_by_id token_id
  require (manages actor t.user_id) forbidden
  now ← read_clock
  revoked ← lift (revoke_key t actor.id now)
  save_token revoked
  catch (record_event (event now actor.id token_revoke revoked)) return (λ _. return tt)

-- The rows of an owner; `ORDER BY created_at DESC` is not modelled.
unfoldable pub list_tokens : User → ℕ → Op (List Token)
list_tokens actor owner = do
  require (manages actor owner) forbidden
  call λ s. (ok (keep (λ t. t.user_id == owner) s.tokens), s)
