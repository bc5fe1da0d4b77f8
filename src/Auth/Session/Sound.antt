-- ===== src/Auth/Session/Sound.antt =====
-- Which session a cookie stands for.
use llm_proxy_backend.Prelude.{
  suc, ◌≡◌, inl, inr, ◌&&◌, true, some, arith, find, Option-cases, ltb, ◌==◌,
}
use llm_proxy_backend.Prelude.Text.{Text, ◌=t◌}
use llm_proxy_backend.Identity.{User, can_sign_in}
use llm_proxy_backend.Store.{effects, Store, ok}
use llm_proxy_backend.Store.Tables.{Session}
use llm_proxy_backend.Tokens.Repo.{user_by_id}
use llm_proxy_backend.Auth.Repo.{session_by_hash}
use llm_proxy_backend.Auth.Session.{resolve_session}

-- A cookie resolves to a session only if the table of sessions has one under its hash that had not
-- expired when the database looked, and whose owner is stored and may sign in now; the session is the
-- first such row, restricted exactly as that owner is now, whatever was so when it was opened.
pub resolve_session_sound :
    (hash_session : Text → Text) (id : Text) (s s' : Store) (x : Session) (u : User)
    → resolve_session hash_session id s ≡ (ok (x, u), s')
    → (stored : Session) × (x ≡ record stored { restricted = u.must_change_password })
      × (find
            (λ x. (x.id_hash =t hash_session id) && ltb (s.clock (suc s.calls)) x.expires_at)
            s.sessions
          ≡ some stored)
      × (find (λ u. u.id == stored.user_id) s.users ≡ some u)
      × (can_sign_in u ≡ true)
unfolding resolve_session effects session_by_hash user_by_id
resolve_session_sound hash_session id s s' x u h =
    let test =
      λ (x : Session). (x.id_hash =t hash_session id) && ltb (s.clock (suc s.calls)) x.expires_at in
    elim (Option-cases (find test s.sessions)) [
      | inl e ↦ ground arith
      | inr (stored, e) ↦ elim (Option-cases (find (λ u. u.id == stored.user_id) s.users)) [
        | inl e' ↦ ground arith
        | inr (owner, e') ↦ (stored, ground arith, ground arith, ground arith, ground arith)
      ]
    ]
