-- ===== src/Accounts/Oidc/Linked.antt =====
-- Whose session a completed login opens.
use mathlib.Core.Path.{subst}
use llm_proxy_backend.Prelude.{
  ℕ, ◌≡◌, ◌∙◌, refl, sym, Bool, true, false, not, ◌&&◌, arith, any, ◌==◌,
}
use llm_proxy_backend.Prelude.Text.{Text}
use llm_proxy_backend.Identity.{User}
use llm_proxy_backend.Store.{
  effects, Store, Result, ok, return, lift, call, require, forbidden, invalid_credentials,
  read_clock,
}
use llm_proxy_backend.Store.Tables.{Link, Session, Action, AuditEvent, auth_signin_oidc}
use llm_proxy_backend.Store.Inversion.{bind-ok, then-ok, require-ok}
use llm_proxy_backend.Store.Keeping.{
  Keeps, bind-Keeps, then-Keeps, catch-Keeps, call-Keeps, return-Keeps, fail-Keeps,
  read_clock-Keeps,
}
use llm_proxy_backend.Tokens.Repo.{record_event}
use llm_proxy_backend.Auth.Repo.{create_session, delete_session}
use llm_proxy_backend.Auth.Session.{Meta, open_session, drop_session}
use llm_proxy_backend.Auth.Session.Opened.{open_session-IsOpened}
use llm_proxy_backend.Accounts.Oidc.Repo.{is_link}
use llm_proxy_backend.Accounts.Oidc.{
  Claims, Challenge, Oidc, answers, lacks_group, resolve_claims, with_name, with_policy, complete,
}
use llm_proxy_backend.Accounts.Oidc.Resolution.{
  IsLinkedTo, resolve_claims-ok, with_name-ok, with_policy-ok,
}

abbrev HasSameLinks : Store → Store → Type 0
HasSameLinks s0 s = s.identities ≡ s0.identities

create_session-Keeps : (s0 : Store) (x : Session) → Keeps (HasSameLinks s0) (create_session x)
unfolding create_session effects
create_session-Keeps s0 x s h = ground arith

delete_session-Keeps : (s0 : Store) (hash : Text) → Keeps (HasSameLinks s0) (delete_session hash)
unfolding delete_session effects
delete_session-Keeps s0 hash s h = ground arith

record_event-Keeps : (s0 : Store) (e : AuditEvent) → Keeps (HasSameLinks s0) (record_event e)
unfolding record_event effects
record_event-Keeps s0 e s h = ground arith

open_session-Keeps :
    (s0 : Store) (hash : Text → Text) (u : User) (action : Action) (meta : Meta) (id : Text)
    → Keeps (HasSameLinks s0) (open_session hash u action meta id)
unfolding open_session drop_session
open_session-Keeps s0 hash u action meta id =
    let P = HasSameLinks s0 in
    bind-Keeps P read_clock _ (read_clock-Keeps P (λ s h. h)) λ now.
      then-Keeps P (call (return tt)) _ (call-Keeps P (return tt) (λ s h. h) (return-Keeps P tt)) (
        then-Keeps P (create_session _) _ (create_session-Keeps s0 _) (
          catch-Keeps P (record_event _) _ _ (record_event-Keeps s0 _) (λ _. return-Keeps P _)
            λ e.
              catch-Keeps P (delete_session _) _ _ (delete_session-Keeps s0 _)
                (λ _. fail-Keeps P Session e) (λ _. fail-Keeps P Session e)))

call-lift-ok :
    {A : Type 0} (r : Result A) (a : A) (s s' : Store) → call (lift r) s ≡ (ok a, s') → r ≡ ok a
unfolding effects
call-lift-ok r a s s' h = ground arith

module _ (cfg : Oidc) (lower : Text → Text) (sign_up_id : Text → Text → ℕ)
    (exchange : Text → Challenge → Result Claims) (hash_session : Text → Text) where
  -- A completed login answered the challenge that began it, its code was exchanged for claims that hold
  -- the required group, and its session is of the account that the store links to the claims' subject.
  pub complete-linked :
      (code state : Text) (ch : Challenge) (meta : Meta) (id : Text) (s s' : Store) (x : Session)
      → complete cfg lower sign_up_id exchange hash_session code state ch meta id s ≡ (ok x, s')
      → (claims : Claims) × (answers ch state ≡ true)
        × (exchange code ch ≡ ok claims)
        × (lacks_group cfg claims ≡ false)
        × IsLinkedTo claims x.user_id s'
  unfolding complete
  complete-linked code state ch meta id s s' x h =
      let (_, s1, h1, r1) = then-ok (require (answers ch state) invalid_credentials) _ s x s' h in
      let (claims, s2, h2, r2) = bind-ok (call (lift (exchange code ch))) _ s1 x s' r1 in
      let (_, s3, h3, r3) =
        then-ok (require (not (lacks_group cfg claims)) forbidden) _ s2 x s' r2 in
      let (user, s4, h4, r4) = bind-ok (resolve_claims cfg lower sign_up_id claims) _ s3 x s' r3 in
      let (named, s5, h5, r5) = bind-ok (with_name cfg lower sign_up_id claims user) _ s4 x s' r4 in
      let (entitled, s6, h6, r6) =
        bind-ok (with_policy cfg lower sign_up_id claims named) _ s5 x s' r5 in
      let (answered, _) = require-ok (answers ch state) invalid_credentials s s1 tt h1 in
      let (member, _) = require-ok (not (lacks_group cfg claims)) forbidden s2 s3 tt h3 in
      let (same5, links5) = with_name-ok cfg lower sign_up_id claims user named s4 s5 h5 in
      let (same6, links6) = with_policy-ok cfg lower sign_up_id claims named entitled s5 s6 h6 in
      let owner =
        (open_session-IsOpened hash_session entitled auth_signin_oidc meta id s6 s' x r6).0 in
      let links =
        subst (λ r. HasSameLinks s6 r.1) r6
          (open_session-Keeps s6 hash_session entitled auth_signin_oidc meta id s6 refl) in
      (
        claims,
        answered,
        call-lift-ok (exchange code ch) claims s1 s2 h2,
        not-true (lacks_group cfg claims) member,
        subst (λ i. IsLinkedTo claims i s') (sym (owner ∙ same6 ∙ same5))
            (subst
              (λ ls.
                any (λ (l : Link). is_link claims.issuer claims.subject l && (l.user_id == user.id))
                  ls
                ≡ true)
              (sym (links ∙ links6 ∙ links5))
              (resolve_claims-ok cfg lower sign_up_id claims s3 s4 user h4)),
      )
    where
      not-true : (b : Bool) → not b ≡ true → b ≡ false
      not-true b e = ground arith
