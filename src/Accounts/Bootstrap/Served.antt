-- ===== src/Accounts/Bootstrap/Served.antt =====
-- What resuming a start does to an account that is served, and to one that is not.
use mathlib.Core.Path.{subst}
use llm_proxy_backend.Prelude.{
  ℕ, ◌≡◌, ◌∙◌, ◌⊎◌, ap, sym, inl, inr, true, false, ◌&&◌, Option, some, none, List, ◌∷◌, arith,
  find, any, Bool-cases, Option-cases, ◌==◌,
}
use llm_proxy_backend.Prelude.Text.{Text}
use llm_proxy_backend.Identity.{User, is_admin}
use llm_proxy_backend.Store.{effects, Store, Error, tick, ok, return}
use llm_proxy_backend.Store.Tables.{Password}
use llm_proxy_backend.Store.Inversion.{catch-ok}
use llm_proxy_backend.Auth.Password.Change.{find-put_password}
use llm_proxy_backend.Auth.Repo.{
  get_password, put_password, set_password, user_by_email, has_address,
}
use llm_proxy_backend.Accounts.Repo.{create_user_row, inserted}
use llm_proxy_backend.Accounts.Bootstrap.{
  if_absent, issue_bootstrap_password, resume_for, resume_bootstrap,
}

-- Nothing is left to issue to this account.
abbrev IsServed : List Password → User → Type 0
IsServed passwords u =
    ((is_admin u.role && u.must_change_password) ≡ false)
    ⊎ ((p : Password) × (find (λ p. p.user_id == u.id) passwords ≡ some p))

-- There is an administrator, and nothing is left to issue to the account of the address.
abbrev pub IsSettledIn : (Text → Text) → Text → List User → List Password → Type 0
IsSettledIn lower email users passwords =
    (any (λ u. is_admin u.role) users ≡ true)
    × ((find (has_address lower email) users ≡ none)
        ⊎ ((u : User) × (find (has_address lower email) users ≡ some u) × IsServed passwords u))

abbrev pub IsSettled : (Text → Text) → Text → Store → Type 0
IsSettled lower email s = IsSettledIn lower email s.users s.passwords

abbrev pub HasSame : Store → Store → Type 0
HasSame s s' = (s'.users ≡ s.users) × (s'.passwords ≡ s.passwords)

resume_for-served :
    (hash : Text → Text) (drawn : Text) (u : User) (s s' : Store) (r : Option Text)
    → IsServed s.passwords u
    → resume_for hash drawn u s ≡ (ok r, s')
    → (r ≡ none) × HasSame s s'
unfolding resume_for get_password if_absent effects
resume_for-served hash drawn u s s' r (inl e) h = ground arith
resume_for-served hash drawn u s s' r (inr (p, e)) h = ground arith

pub if_absent-none :
    (e : Error) (s s' : Store) (r : Option Text)
    → if_absent (return none) e s ≡ (ok r, s')
    → (r ≡ none) × HasSame s s'
unfolding if_absent effects
if_absent-none e s s' r h = ground arith

pub user_by_email-HasSame :
    (lower : Text → Text) (email : Text) (s : Store) → HasSame s (user_by_email lower email s).1
unfolding user_by_email effects
user_by_email-HasSame lower email s = elim (Option-cases (find (has_address lower email) s.users)) [
  | inl e ↦ ground arith
  | inr (u, e) ↦ ground arith
]

pub user_by_email-found :
    (lower : Text → Text) (email : Text) (s s' : Store) (u : User)
    → user_by_email lower email s ≡ (ok u, s')
    → find (has_address lower email) s.users ≡ some u
unfolding user_by_email effects
user_by_email-found lower email s s' u h =
    elim (Option-cases (find (has_address lower email) s.users)) [
      | inl e ↦ ground arith
      | inr (v, e) ↦ ground arith
    ]

IsServed-found :
    (lower : Text → Text) (email : Text) (s : Store) (u : User)
    → IsSettled lower email s
    → find (has_address lower email) s.users ≡ some u
    → IsServed s.passwords u
IsServed-found lower email s u (_, inl absent) found = ground arith
IsServed-found lower email s u (_, inr (v, e, served)) found =
    let same : v ≡ u = ground arith in subst (IsServed s.passwords) same served

pub resume-settled :
    (hash lower : Text → Text) (email drawn : Text) (s s' : Store) (r : Option Text)
    → IsSettled lower email s
    → resume_bootstrap hash lower email drawn s ≡ (ok r, s')
    → (r ≡ none) × HasSame s s'
unfolding resume_bootstrap
resume-settled hash lower email drawn s s' r settled h =
    elim (catch-ok (user_by_email lower email) (resume_for hash drawn) (if_absent (return none)) s r
      s' h) [
        | inl (u, s1, h1, r1) ↦
            let (users, passwords) =
              subst (λ x. HasSame s x.1) h1 (user_by_email-HasSame lower email s) in
            let served =
              IsServed-found lower email s u settled (user_by_email-found lower email s s1 u h1) in
            let (nothing, (users', passwords')) =
              resume_for-served hash drawn u s1 s' r
                (subst (λ ps. IsServed ps u) (sym passwords) served) r1 in
            (nothing, (users' ∙ users, passwords' ∙ passwords))
        | inr (e, s1, h1, r1) ↦
            let (users, passwords) =
              subst (λ x. HasSame s x.1) h1 (user_by_email-HasSame lower email s) in
            let (nothing, (users', passwords')) = if_absent-none e s1 s' r r1 in
            (nothing, (users' ∙ users, passwords' ∙ passwords))
      ]

pub issue-ok :
    (hash : Text → Text) (id : ℕ) (drawn : Text) (s s' : Store) (r : Option Text)
    → issue_bootstrap_password hash id drawn s ≡ (ok r, s')
    → (s'.users ≡ s.users)
      × (s'.passwords
          ≡ put_password
              (record { user_id = id; hash = hash drawn; expires_at = none })
              s.passwords)
unfolding issue_bootstrap_password set_password effects
issue-ok hash id drawn s s' r h = (ground arith, ground arith)

pub create_user_row-ok :
    (lower : Text → Text) (u : User) (s s' : Store)
    → create_user_row lower u s ≡ (ok tt, s')
    → (now : ℕ) × (s'.users ≡ inserted now u ∷ s.users)
unfolding create_user_row effects
create_user_row-ok lower u s s' h = ((tick s).clock (tick s).calls, ground arith)

pub resume_for-IsServed :
    (hash : Text → Text) (drawn : Text) (u : User) (s s' : Store) (r : Option Text)
    → resume_for hash drawn u s ≡ (ok r, s')
    → (s'.users ≡ s.users) × IsServed s'.passwords u
unfolding resume_for get_password if_absent issue_bootstrap_password set_password effects
resume_for-IsServed hash drawn u s s' r h =
    elim (Option-cases (find (λ p. p.user_id == u.id) s.passwords)) [
      | inl e ↦ elim (Bool-cases (is_admin u.role && u.must_change_password)) [
        | inl owed ↦ (
          ground arith,
          inr (
            _,
            ap (find (λ (p : Password). p.user_id == u.id)) (ground arith)
                ∙ find-put_password
                    (record { user_id = u.id; hash = hash drawn; expires_at = none }) s.passwords,
          ),
        )
        | inr settled ↦ (ground arith, inl settled)
      ]
      | inr (p, e) ↦ (ground arith, inr (p, ground arith))
    ]
