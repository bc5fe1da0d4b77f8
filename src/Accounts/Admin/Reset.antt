-- ===== src/Accounts/Admin/Reset.antt =====
-- What an administrator's password reset leaves of an account.
use mathlib.Core.Path.{subst}
use llm_proxy_backend.Prelude.{
  ℕ, ◌≡◌, ◌∙◌, ap, sym, inl, inr, arith, find, find-some, All, Option-cases, ◌==◌,
}
use llm_proxy_backend.Prelude.Text.{Text}
use llm_proxy_backend.Identity.{User, is_human, require_admin}
use llm_proxy_backend.Store.{
  effects, Store, ok, return, forbidden, not_local, require, read_clock, ◌>>◌,
}
use llm_proxy_backend.Store.Tables.{Password, AuditEvent}
use llm_proxy_backend.Store.Inversion.{bind-ok, then-ok}
use llm_proxy_backend.Tokens.Repo.{user_by_id, record_event}
use llm_proxy_backend.Accounts.Temporary.{TemporaryPassword, reset_password}
use llm_proxy_backend.Accounts.Admin.{reset_account_password}
use llm_proxy_backend.Accounts.Temporary.Reset.{IsElsewhere, IsReset, reset_password-IsReset}

audited-frame :
    (e : AuditEvent) (temp temp' : TemporaryPassword) (s s' : Store)
    → (record_event e >> return temp) s ≡ (ok temp', s')
    → (temp' ≡ temp)
      × (s'.users ≡ s.users)
      × (s'.passwords ≡ s.passwords)
      × (s'.sessions ≡ s.sessions)
unfolding record_event effects
audited-frame e temp temp' s s' h = (ground arith, ground arith, ground arith, ground arith)

user_by_id-id : (id : ℕ) (s s' : Store) (u : User) → user_by_id id s ≡ (ok u, s') → u.id ≡ id
unfolding user_by_id effects
user_by_id-id id s s' u h = elim (Option-cases (find (λ u. u.id == id) s.users)) [
  | inl e ↦ ground arith
  | inr (v, e) ↦ ground (arith, find-some (λ (u : User). u.id == id) s.users v e)
]

-- After a password reset that succeeded, the caller holds the password that was drawn; the account's
-- stored password is its hash and ends when the caller was told it does; the stored account must change
-- it; and no session of the account is left.
pub reset_account_password-IsReset :
    (hash : Text → Text) (actor : User) (id : ℕ) (drawn : Text) (s s' : Store)
    (temp : TemporaryPassword)
    → reset_account_password hash actor id drawn s ≡ (ok temp, s')
    → IsReset hash drawn id temp s'
unfolding reset_account_password
reset_account_password-IsReset hash actor id drawn s s' temp h =
    let (_, s1, h1, r1) = then-ok (require (require_admin actor) forbidden) _ s temp s' h in
    let (user, s2, h2, r2) = bind-ok (user_by_id id) _ s1 temp s' r1 in
    let (_, s3, h3, r3) = then-ok (require (is_human user.kind) not_local) _ s2 temp s' r2 in
    let (now, s4, h4, r4) = bind-ok read_clock _ s3 temp s' r3 in
    let (temp1, s5, h5, r5) = bind-ok (reset_password hash drawn user.id now) _ s4 temp s' r4 in
    let (same, users, passwords, sessions) = audited-frame _ temp1 temp s5 s' r5 in
    let (a, b, (u, c, d), e) =
      subst (λ i. IsReset hash drawn i temp1 s5) (user_by_id-id id s1 s2 user h2)
        (reset_password-IsReset hash drawn user.id now s4 s5 temp1 h5) in
    subst (λ t. IsReset hash drawn id t s') (sym same)
      (
        a,
        ap (find (λ (q : Password). q.user_id == id)) passwords ∙ b,
        (u, ap (find (λ (x : User). x.id == id)) users ∙ c, d),
        subst (All (IsElsewhere id)) (sym sessions) e,
      )
