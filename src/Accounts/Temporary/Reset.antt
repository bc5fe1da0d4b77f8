-- ===== src/Accounts/Temporary/Reset.antt =====
-- What a temporary password leaves of an account.
use mathlib.Core.Path.{subst}
use llm_proxy_backend.Prelude.{
  ℕ, ◌+◌, ◌≡◌, ◌∙◌, ap, refl, sym, inl, inr, true, false, not, Option, some, List, [], ◌∷◌, arith,
  find, any, All, keep, Bool-cases, ◌==◌,
}
use llm_proxy_backend.Prelude.Text.{Text}
use llm_proxy_backend.Identity.{User}
use llm_proxy_backend.Store.{effects, Store, ok, return, ◌>>◌}
use llm_proxy_backend.Store.Inversion.{bind-ok, then-ok}
use llm_proxy_backend.Store.Tables.{Password, Session}
use llm_proxy_backend.Auth.Repo.{
  put_password, set_password, set_must_change_password, with_must_change,
}
use llm_proxy_backend.Auth.Password.Change.{find-put_password}
use llm_proxy_backend.Accounts.Repo.{delete_by_user}
use llm_proxy_backend.Accounts.Temporary.{
  TemporaryPassword, temporary_password_ttl, draw_temporary_password, reset_password,
}

-- No session of the account.
abbrev pub IsElsewhere : ℕ → Session → Type 0
IsElsewhere user x = (x.user_id == user) ≡ false

pub keep-IsElsewhere :
    (user : ℕ) (xs : List Session) → All (IsElsewhere user) (keep (λ x. not (x.user_id == user)) xs)
keep-IsElsewhere user [] = tt
keep-IsElsewhere user (x ∷ xs) = ground (arith, keep-IsElsewhere user xs)

find-must_change :
    (id : ℕ) (us : List User)
    → any (λ u. u.id == id) us ≡ true
    → (u : User) × (find (λ u. u.id == id) (with_must_change id true us) ≡ some u)
      × (u.must_change_password ≡ true)
find-must_change id [] h = ground arith
find-must_change id (u ∷ us) h = elim (Bool-cases (u.id == id)) [
  | inl e ↦ (record u { must_change_password = true }, ground arith, refl)
  | inr e ↦
      let (v, found, flagged) = find-must_change id us (ground arith) in (v, ground arith, flagged)
]

draw-ok :
    (hash : Text → Text) (drawn : Text) (now : ℕ) (s s' : Store) (temp : TemporaryPassword)
    (h : Text)
    → draw_temporary_password hash drawn now s ≡ (ok (temp, h), s')
    → (temp ≡ record { password = drawn; expires_at = now + temporary_password_ttl })
      × (h ≡ hash drawn)
      × (s'.users ≡ s.users)
unfolding draw_temporary_password effects
draw-ok hash drawn now s s' temp h e = (ground arith, ground arith, ground arith)

flag-ok :
    (id : ℕ) (s s' : Store)
    → set_must_change_password id true s ≡ (ok tt, s')
    → (any (λ u. u.id == id) s.users ≡ true) × (s'.users ≡ with_must_change id true s.users)
unfolding set_must_change_password effects
flag-ok id s s' e = (ground arith, ground arith)

set-ok :
    (id : ℕ) (h : Text) (expires_at : Option ℕ) (s s' : Store)
    → set_password id h expires_at s ≡ (ok tt, s')
    → (s'.users ≡ s.users)
      × (s'.passwords
          ≡ put_password (record { user_id = id; hash = h; expires_at = expires_at }) s.passwords)
unfolding set_password effects
set-ok id h expires_at s s' e = (ground arith, ground arith)

delete-ok :
    (id : ℕ) (temp temp' : TemporaryPassword) (s s' : Store)
    → (delete_by_user id >> return temp) s ≡ (ok temp', s')
    → (temp ≡ temp')
      × (s'.users ≡ s.users)
      × (s'.passwords ≡ s.passwords)
      × (s'.sessions ≡ keep (λ x. not (x.user_id == id)) s.sessions)
unfolding delete_by_user effects
delete-ok id temp temp' s s' e = (ground arith, ground arith, ground arith, ground arith)

-- The account `id` was given the temporary password `temp`.
abbrev pub IsReset : (Text → Text) → Text → ℕ → TemporaryPassword → Store → Type 0
IsReset hash drawn id temp s =
    (temp.password ≡ drawn)
    × (find (λ q. q.user_id == id) s.passwords
        ≡ some (record { user_id = id; hash = hash drawn; expires_at = some temp.expires_at }))
    × ((u : User) × (find (λ u. u.id == id) s.users ≡ some u) × (u.must_change_password ≡ true))
    × All (IsElsewhere id) s.sessions

pub reset_password-IsReset :
    (hash : Text → Text) (drawn : Text) (id now : ℕ) (s s' : Store) (temp : TemporaryPassword)
    → reset_password hash drawn id now s ≡ (ok temp, s')
    → IsReset hash drawn id temp s'
unfolding reset_password
reset_password-IsReset hash drawn id now s s' temp e =
    let ((drawn_temp, h), s1, h1, r1) =
      bind-ok (draw_temporary_password hash drawn now) _ s temp s' e in
    let (_, s2, h2, r2) = then-ok (set_must_change_password id true) _ s1 temp s' r1 in
    let (_, s3, h3, r3) =
      then-ok (set_password id h (some drawn_temp.expires_at)) _ s2 temp s' r2 in
    let (made, hashed, _) = draw-ok hash drawn now s s1 drawn_temp h h1 in
    let (known, users2) = flag-ok id s1 s2 h2 in
    let (users3, passwords3) = set-ok id h (some drawn_temp.expires_at) s2 s3 h3 in
    let (same, users4, passwords4, sessions4) = delete-ok id drawn_temp temp s3 s' r3 in
    let (u, found, flagged) = find-must_change id s1.users known in
    subst (λ t. IsReset hash drawn id t s') same
      (
        ap (λ (x : TemporaryPassword). x.password) made,
        ap (find (λ (q : Password). q.user_id == id)) (passwords4 ∙ passwords3)
            ∙ find-put_password
                (record { user_id = id; hash = h; expires_at = some drawn_temp.expires_at })
                s2.passwords
            ∙ ap
                (λ k.
                  some (record { user_id = id; hash = k; expires_at = some drawn_temp.expires_at }))
                hashed,
        (u, ap (find (λ (x : User). x.id == id)) (users4 ∙ users3 ∙ users2) ∙ found, flagged),
        subst (All (IsElsewhere id)) (sym sessions4) (keep-IsElsewhere id s3.sessions),
      )
