-- ===== src/Accounts/Oidc/Eligible.antt =====
-- Who gets no session from a completed login.
use mathlib.Core.Path.{subst}
use llm_proxy_backend.Prelude.{
  ℕ, ◌≡◌, ◌∙◌, ap, sym, inl, inr, Bool, true, false, not, ◌&&◌, some, [], arith, find, ◌==◌,
  if◌then◌else◌,
}
use llm_proxy_backend.Prelude.Text.{Text, ◌=t◌}
use llm_proxy_backend.Identity.{User, can_sign_in}
use llm_proxy_backend.Store.{
  effects, Store, Result, ok, return, lift, call, catch, require, forbidden, invalid_credentials,
  read_clock,
}
use llm_proxy_backend.Accounts.Oidc.{
  Claims, Challenge, Oidc, answers, lacks_group, eligible, redeem, if_not_found, own_account,
  signed_up_user, sign_up, stranger, invited_or_stranger, resolve_claims, with_name, with_policy,
  complete,
}
use llm_proxy_backend.Accounts.Oidc.Repo.{by_subject, link, pending_by_email}
use llm_proxy_backend.Store.Tables.{Session, auth_signin_oidc}
use llm_proxy_backend.Store.Inversion.{bind-ok, then-ok, catch-ok, require-ok}
use llm_proxy_backend.Auth.Session.{Meta}
use llm_proxy_backend.Accounts.Repo.{create_user_row}
use llm_proxy_backend.Auth.Session.Opened.{open_session-IsOpened}
use llm_proxy_backend.Accounts.Oidc.Resolution.{
  if_not_found-ok, with_name-ok, with_policy-ok, return-same,
}
use llm_proxy_backend.Accounts.Oidc.Owners.{
  eligible-may, HasSameUsers, by_subject-users, pending_by_email-users, read_clock-users,
  require-users, create_user_row-fresh, create_user_row-users, redeem-may, own_account-may,
}

module _ (cfg : Oidc) (lower : Text → Text) (sign_up_id : Text → Text → ℕ) where
  sign_up-may :
      (claims : Claims) (s s' : Store) (u v : User)
      → sign_up cfg lower sign_up_id claims s ≡ (ok u, s')
      → find (λ w. w.id == u.id) s.users ≡ some v
      → can_sign_in v ≡ true
  unfolding sign_up
  sign_up-may claims s s' u v h f =
      let (now, s1, h1, r1) = bind-ok read_clock _ s u s' h in
      let new = signed_up_user cfg (sign_up_id claims.issuer claims.subject) claims now in
      let (w, s2, h2, r2) =
        bind-ok (catch (create_user_row lower new) (λ _. return new) (own_account new.id)) _ s1 u s'
          r1 in
      let (_, s3, h3, r3) = then-ok (link w.id claims.issuer claims.subject) _ s2 u s' r2 in
      let (same, _) = return-same w u s3 s' r3 in
      let f1 = ap (find (λ (x : User). x.id == u.id)) (read_clock-users s s1 now h1) ∙ f in
      elim (catch-ok (create_user_row lower new) (λ _. return new) (own_account new.id) s1 w s2
        h2) [
          | inl (_, s4, h4, r4) ↦
              let (made, _) = return-same new w s4 s2 r4 in
              elim (create_user_row-fresh lower new v s1 s4 h4 (
                subst (λ (x : User). find (λ y. y.id == x.id) s1.users ≡ some v) (sym (made ∙ same))
                  f1)) [ ]
          | inr (e, s4, h4, r4) ↦
              own_account-may new.id e s4 s2 u v
                (subst (λ x. own_account new.id e s4 ≡ (ok x, s2)) same r4)
                (ap (find (λ (x : User). x.id == u.id)) (create_user_row-users lower new e s1 s4 h4)
                  ∙ f1)
        ]

  stranger-may :
      (claims : Claims) (s s' : Store) (u v : User)
      → stranger cfg lower sign_up_id claims s ≡ (ok u, s')
      → find (λ w. w.id == u.id) s.users ≡ some v
      → can_sign_in v ≡ true
  unfolding stranger
  stranger-may claims s s' u v h f =
      let (_, s1, h1, r1) = then-ok (require cfg.allow_sign_up forbidden) _ s u s' h in
      let (_, stays) = require-ok cfg.allow_sign_up forbidden s s1 tt h1 in
      sign_up-may claims s1 s' u v r1
        (subst (λ (x : Store). find (λ w. w.id == u.id) x.users ≡ some v) (sym stays) f)

  invited_or_stranger-may :
      (claims : Claims) (s s' : Store) (u v : User)
      → invited_or_stranger cfg lower sign_up_id claims s ≡ (ok u, s')
      → find (λ w. w.id == u.id) s.users ≡ some v
      → can_sign_in v ≡ true
  unfolding invited_or_stranger
  invited_or_stranger-may claims s s' u v h f =
      split (claims.email_verified && not (claims.email =t [])) h
    where
      split :
          (b : Bool)
          → (if b
                then catch
                    (pending_by_email lower claims.issuer claims.email)
                    (redeem claims)
                    (if_not_found (stranger cfg lower sign_up_id claims))
                else stranger cfg lower sign_up_id claims)
              s
            ≡ (ok u, s')
          → can_sign_in v ≡ true
      split true k =
          let kept = pending_by_email-users lower claims.issuer claims.email s in
          elim (catch-ok (pending_by_email lower claims.issuer claims.email) (redeem claims)
            (if_not_found (stranger cfg lower sign_up_id claims)) s u s' k) [
              | inl (id, s1, h1, r1) ↦ redeem-may claims id s1 s' u v r1 (
                  ap (find (λ (x : User). x.id == u.id)) (subst (λ r. HasSameUsers s r.1) h1 kept)
                  ∙ f)
              | inr (e, s1, h1, r1) ↦
                  stranger-may claims s1 s' u v
                    (if_not_found-ok (stranger cfg lower sign_up_id claims) e s1 s' u r1)
                    (ap (find (λ (x : User). x.id == u.id))
                        (subst (λ r. HasSameUsers s r.1) h1 kept)
                      ∙ f)
            ]
      split false k = stranger-may claims s s' u v k f

  resolve_claims-may :
      (claims : Claims) (s s' : Store) (u v : User)
      → resolve_claims cfg lower sign_up_id claims s ≡ (ok u, s')
      → find (λ w. w.id == u.id) s.users ≡ some v
      → can_sign_in v ≡ true
  unfolding resolve_claims
  resolve_claims-may claims s s' u v h f =
      let kept = by_subject-users claims.issuer claims.subject s in
      elim (catch-ok (by_subject claims.issuer claims.subject) eligible
        (if_not_found (invited_or_stranger cfg lower sign_up_id claims)) s u s' h) [
          | inl (id, s1, h1, r1) ↦
              eligible-may id s1 s' u v r1 (
                ap (find (λ (x : User). x.id == u.id)) (subst (λ r. HasSameUsers s r.1) h1 kept)
                ∙ f)
          | inr (e, s1, h1, r1) ↦
              invited_or_stranger-may claims s1 s' u v
                (if_not_found-ok (invited_or_stranger cfg lower sign_up_id claims) e s1 s' u r1)
                (ap (find (λ (x : User). x.id == u.id)) (subst (λ r. HasSameUsers s r.1) h1 kept)
                  ∙ f)
        ]

call-lift-users : {A : Type 0} (r : Result A) (s : Store) → HasSameUsers s (call (lift r) s).1
unfolding effects
call-lift-users r s = ground arith

module _ (cfg : Oidc) (lower : Text → Text) (sign_up_id : Text → Text → ℕ)
    (exchange : Text → Challenge → Result Claims) (hash_session : Text → Text) where
  -- A stored account that may not sign in gets no session from a completed login.
  pub complete-eligible :
      (code state : Text) (ch : Challenge) (meta : Meta) (id : Text) (s s' : Store) (x : Session)
      (v : User)
      → complete cfg lower sign_up_id exchange hash_session code state ch meta id s ≡ (ok x, s')
      → find (λ w. w.id == x.user_id) s.users ≡ some v
      → can_sign_in v ≡ true
  unfolding complete
  complete-eligible code state ch meta id s s' x v h f =
      let (_, s1, h1, r1) = then-ok (require (answers ch state) invalid_credentials) _ s x s' h in
      let (claims, s2, h2, r2) = bind-ok (call (lift (exchange code ch))) _ s1 x s' r1 in
      let (_, s3, h3, r3) =
        then-ok (require (not (lacks_group cfg claims)) forbidden) _ s2 x s' r2 in
      let (user, s4, h4, r4) = bind-ok (resolve_claims cfg lower sign_up_id claims) _ s3 x s' r3 in
      let (named, s5, h5, r5) = bind-ok (with_name cfg lower sign_up_id claims user) _ s4 x s' r4 in
      let (entitled, s6, h6, r6) =
        bind-ok (with_policy cfg lower sign_up_id claims named) _ s5 x s' r5 in
      let users1 = require-users (answers ch state) invalid_credentials s s1 h1 in
      let users2 = subst (λ r. HasSameUsers s1 r.1) h2 (call-lift-users (exchange code ch) s1) in
      let users3 = require-users (not (lacks_group cfg claims)) forbidden s2 s3 h3 in
      let (same5, _) = with_name-ok cfg lower sign_up_id claims user named s4 s5 h5 in
      let (same6, _) = with_policy-ok cfg lower sign_up_id claims named entitled s5 s6 h6 in
      let owner =
        (open_session-IsOpened hash_session entitled auth_signin_oidc meta id s6 s' x r6).0 in
      resolve_claims-may cfg lower sign_up_id claims s3 s4 user v h4 (
        subst (λ us. find (λ (w : User). w.id == user.id) us ≡ some v)
          (sym (users3 ∙ users2 ∙ users1))
          (subst (λ i. find (λ (w : User). w.id == i) s.users ≡ some v) (owner ∙ same6 ∙ same5) f))
