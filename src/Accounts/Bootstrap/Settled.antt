-- ===== src/Accounts/Bootstrap/Settled.antt =====
-- The stores in which a start has nothing left to do.
use mathlib.Core.Path.{subst}
use llm_proxy_backend.Prelude.{
  ℕ, ◌≡◌, ◌∙◌, ap, sym, inl, inr, Bool, true, false, Option, some, none, List, [], ◌∷◌, arith, find,
  any, Option-cases, ◌==◌,
}
use llm_proxy_backend.Prelude.Text.{Text, ◌=t◌, =t_refl}
use llm_proxy_backend.Identity.{User, is_admin}
use llm_proxy_backend.Store.{effects, Store, Error, ok, err, return}
use llm_proxy_backend.Store.Tables.{Password}
use llm_proxy_backend.Store.Inversion.{then-ok, catch-ok}
use llm_proxy_backend.Auth.Password.Change.{find-put_password}
use llm_proxy_backend.Auth.Repo.{user_by_email, has_address}
use llm_proxy_backend.Accounts.Repo.{create_user_row, inserted}
use llm_proxy_backend.Accounts.Bootstrap.{
  admin_exists, first_admin, if_absent, resume_for, resume_bootstrap, create_first_admin,
}
use llm_proxy_backend.Accounts.Bootstrap.Served.{
  IsSettledIn, IsSettled, HasSame, if_absent-none, user_by_email-HasSame, user_by_email-found,
  issue-ok, create_user_row-ok, resume_for-IsServed,
}

find-own :
    (lower : Text → Text) (u : User) (us : List User)
    → (u.email =t []) ≡ false
    → find (has_address lower u.email) (u ∷ us) ≡ some u
find-own lower u us nonempty = ground (arith, =t_refl (lower u.email))

pub first_admin-IsSettled :
    (hash lower : Text → Text) (id : ℕ) (email drawn : Text) (s s' : Store) (r : Option Text)
    → (email =t []) ≡ false
    → create_first_admin hash lower id email drawn s ≡ (ok r, s')
    → IsSettled lower email s'
unfolding create_first_admin
first_admin-IsSettled hash lower id email drawn s s' r nonempty h =
    let (_, s1, h1, r1) = then-ok (create_user_row lower (first_admin id email)) _ s r s' h in
    let (now, created) = create_user_row-ok lower (first_admin id email) s s1 h1 in
    let (users, passwords) = issue-ok hash id drawn s1 s' r r1 in
    let admin = inserted now (first_admin id email) in
    let now_users = users ∙ created in
    (
      ap (any (λ (u : User). is_admin u.role)) now_users,
      inr (
        admin,
        ap (find (has_address lower email)) now_users ∙ find-own lower admin s.users nonempty,
        inr (
          record { user_id = id; hash = hash drawn; expires_at = none },
          ap (find (λ (p : Password). p.user_id == id)) passwords
              ∙ find-put_password _ s1.passwords,
        ),
      ),
    )

pub admin_exists-ok :
    (s s' : Store) (b : Bool)
    → admin_exists s ≡ (ok b, s')
    → (b ≡ any (λ u. is_admin u.role) s.users) × HasSame s s'
unfolding admin_exists effects
admin_exists-ok s s' b h = ground arith

pub IsSettled-same :
    (lower : Text → Text) (email : Text) (s s' : Store)
    → HasSame s s'
    → IsSettled lower email s
    → IsSettled lower email s'
IsSettled-same lower email s s' (users, passwords) h =
    subst (λ us. IsSettledIn lower email us s'.passwords) (sym users)
      (subst (IsSettledIn lower email s.users) (sym passwords) h)

user_by_email-absent :
    (lower : Text → Text) (email : Text) (s s1 s' : Store) (e : Error) (r : Option Text)
    → user_by_email lower email s ≡ (err e, s1)
    → if_absent (return none) e s1 ≡ (ok r, s')
    → find (has_address lower email) s.users ≡ none
unfolding user_by_email if_absent effects
user_by_email-absent lower email s s1 s' e r h k =
    elim (Option-cases (find (has_address lower email) s.users)) [
      | inl absent ↦ absent
      | inr (u, found) ↦ ground arith
    ]

pub resume-IsSettled :
    (hash lower : Text → Text) (email drawn : Text) (s s' : Store) (r : Option Text)
    → any (λ u. is_admin u.role) s.users ≡ true
    → resume_bootstrap hash lower email drawn s ≡ (ok r, s')
    → IsSettled lower email s'
unfolding resume_bootstrap
resume-IsSettled hash lower email drawn s s' r admin h =
    elim (catch-ok (user_by_email lower email) (resume_for hash drawn) (if_absent (return none)) s r
      s' h) [
        | inl (u, s1, h1, r1) ↦
            let (users, passwords) =
              subst (λ x. HasSame s x.1) h1 (user_by_email-HasSame lower email s) in
            let found = user_by_email-found lower email s s1 u h1 in
            let (users', served) = resume_for-IsServed hash drawn u s1 s' r r1 in
            (
              ap (any (λ (u : User). is_admin u.role)) (users' ∙ users) ∙ admin,
              inr (u, ap (find (has_address lower email)) (users' ∙ users) ∙ found, served),
            )
        | inr (e, s1, h1, r1) ↦
            let (users, passwords) =
              subst (λ x. HasSame s x.1) h1 (user_by_email-HasSame lower email s) in
            let (nothing, (users', passwords')) = if_absent-none e s1 s' r r1 in
            (
              ap (any (λ (u : User). is_admin u.role)) (users' ∙ users) ∙ admin,
              inl (
                  ap (find (has_address lower email)) (users' ∙ users)
                  ∙ user_by_email-absent lower email s s1 s' e r h1 r1),
            )
      ]
