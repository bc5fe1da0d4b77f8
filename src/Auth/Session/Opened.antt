-- ===== src/Auth/Session/Opened.antt =====
-- What an opened session is, and that it is stored (`open`, internal/app/auth/auth.go).
use mathlib.Core.Path.{subst}
use llm_proxy_backend.Prelude.{◌≡◌, ◌∙◌, sym, ap, refl, false, inl, inr, List, [], ◌∷◌, arith}
use llm_proxy_backend.Prelude.Text.{Text}
use llm_proxy_backend.Identity.{User}
use llm_proxy_backend.Store.{effects, Store, Error, ok, return, call, read_clock}
use llm_proxy_backend.Store.Tables.{Session, Action, AuditEvent}
use llm_proxy_backend.Store.Inversion.{bind-ok, then-ok, catch-ok}
use llm_proxy_backend.Tokens.Repo.{record_event}
use llm_proxy_backend.Auth.Repo.{create_session, delete_session}
use llm_proxy_backend.Auth.Session.{Meta, open_session, stored_session, drop_session}

-- A session of the account, under the id drawn, whose row is the one that was added.
abbrev pub IsOpened : (Text → Text) → User → Text → List Session → List Session → Session → Type 0
IsOpened hash_session u id before after x =
    (x.user_id ≡ u.id)
    × (x.id ≡ id)
    × (x.id_hash ≡ hash_session id)
    × (after ≡ record x { id = []; restricted = false } ∷ before)

drop_session-ok :
    (hash : Text) (cause : Error) (s s' : Store) (x : Session)
    → drop_session hash cause s ≡ (ok x, s')
    → ⊥
unfolding drop_session delete_session effects
drop_session-ok hash cause s s' x h = ground arith

return_session-ok : (y x : Session) (s s' : Store) → return y s ≡ (ok x, s') → (y ≡ x) × (s ≡ s')
unfolding return
return_session-ok y x s s' h = (ground arith, ground arith)

create_session-ok :
    (y : Session) (s s' : Store) (u : Unit {0})
    → create_session y s ≡ (ok u, s')
    → s'.sessions ≡ record y { id = []; restricted = false } ∷ s.sessions
unfolding create_session effects
create_session-ok y s s' u h = ground arith

read_clock_sessions : (s : Store) → (read_clock s).1.sessions ≡ s.sessions
unfolding effects
read_clock_sessions s = refl

call_sessions : (s : Store) → (call (return tt) s).1.sessions ≡ s.sessions
unfolding effects
call_sessions s = ground arith

record_event_sessions : (e : AuditEvent) (s : Store) → (record_event e s).1.sessions ≡ s.sessions
unfolding record_event effects
record_event_sessions e s = ground arith

pub open_session-IsOpened :
    (hash_session : Text → Text) (u : User) (action : Action) (meta : Meta) (id : Text)
    (s s' : Store) (x : Session)
    → open_session hash_session u action meta id s ≡ (ok x, s')
    → IsOpened hash_session u id s.sessions s'.sessions x
unfolding open_session stored_session
open_session-IsOpened hash u action meta id s s' x h =
    let (now, s1, h1, r1) = bind-ok read_clock _ s x s' h in
    let (_, s2, h2, r2) = then-ok (call (return tt)) _ s1 x s' r1 in
    let stored = stored_session hash u meta id now in
    let (done, s3, h3, r3) = then-ok (create_session stored) _ s2 x s' r2 in
    let opened = record stored { id = id } in
    elim (catch-ok (record_event _) (λ _. return opened) (drop_session stored.id_hash) s3 x s' r3) [
      | inl (_, s4, h4, r4) ↦
          let (same, last) = return_session-ok opened x s4 s' r4 in
          let rows : s'.sessions ≡ record stored { id = []; restricted = false } ∷ s.sessions =
            ap (λ (t : Store). t.sessions) (sym last)
            ∙ subst (λ r. r.1.sessions ≡ s3.sessions) h4 (record_event_sessions _ s3)
            ∙ create_session-ok stored s2 s3 done h3
            ∙ ap (λ xs. record stored { id = []; restricted = false } ∷ xs)
                (subst (λ r. r.1.sessions ≡ s1.sessions) h2 (call_sessions s1)
                  ∙ subst (λ r. r.1.sessions ≡ s.sessions) h1 (read_clock_sessions s)) in
          subst (IsOpened hash u id s.sessions s'.sessions) same (refl, refl, refl, rows)
      | inr (e, s4, h4, r4) ↦ elim (drop_session-ok stored.id_hash e s4 s' x r4) [ ]
    ]
