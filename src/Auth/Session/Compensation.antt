-- ===== src/Auth/Session/Compensation.antt =====
-- What a failed opening of a session leaves behind.
use llm_proxy_backend.Prelude.{
  ◌+◌, ◌≡◌, refl, ◌⊎◌, not, true, false, List, [], ◌∷◌, arith, any, keep,
}
use llm_proxy_backend.Prelude.Text.{Text, ◌=t◌, =t_refl}
use llm_proxy_backend.Identity.{User}
use llm_proxy_backend.Store.{effects, Store, Error, err}
use llm_proxy_backend.Store.Tables.{Session, Action}
use llm_proxy_backend.Tokens.Repo.{record_event}
use llm_proxy_backend.Auth.Repo.{create_session, delete_session}
use llm_proxy_backend.Auth.Session.{Meta, open_session, drop_session}

keep-absent :
    (hash : Text) (xs : List Session)
    → any (λ x. x.id_hash =t hash) xs ≡ false
    → keep (λ x. not (x.id_hash =t hash)) xs ≡ xs
keep-absent hash [] h = refl
keep-absent hash (x ∷ xs) h = ground (arith, keep-absent hash xs)

-- A session that could not be opened and recorded is not left in the store, unless the call that
-- would have deleted it again, the fifth, failed too.
pub open_session-failed :
    (hash_session : Text → Text) (user : User) (action : Action) (meta : Meta) (id : Text)
    (s s' : Store) (e : Error)
    → open_session hash_session user action meta id s ≡ (err e, s')
    → (s'.sessions ≡ s.sessions) ⊎ (s.fault (4 + s.calls) ≡ true)
unfolding open_session drop_session effects create_session delete_session record_event
open_session-failed hash_session user action meta id s s' e h =
    ground (arith, keep-absent (hash_session id) s.sessions, =t_refl (hash_session id))
