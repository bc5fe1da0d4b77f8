-- ===== src/Accounts/Bootstrap/Once.antt =====
-- A start after a start.
use mathlib.Core.Path.{subst}
use llm_proxy_backend.Prelude.{
  ℕ, ◌≡◌, ◌∙◌, ap, refl, sym, Bool, true, false, Option, none, [], arith, any, if◌then◌else◌,
}
use llm_proxy_backend.Prelude.Text.{Text, ◌=t◌}
use llm_proxy_backend.Identity.{User, is_admin}
use llm_proxy_backend.Store.{Store, Op, ok, return, ◌>>=◌}
use llm_proxy_backend.Store.Inversion.{bind-ok}
use llm_proxy_backend.Accounts.Bootstrap.{
  admin_exists, resume_bootstrap, create_first_admin, bootstrap,
}
use llm_proxy_backend.Accounts.Bootstrap.Settled.{
  admin_exists-ok, IsSettled-same, resume-IsSettled, first_admin-IsSettled,
}
use llm_proxy_backend.Accounts.Bootstrap.Served.{IsSettled, HasSame, resume-settled}

bootstrap-IsSettled :
    (hash lower : Text → Text) (id : ℕ) (email drawn : Text) (s s' : Store) (r : Option Text)
    → (email =t []) ≡ false
    → (admin_exists >>= λ exists.
          if exists
          then resume_bootstrap hash lower email drawn
          else create_first_admin hash lower id email drawn)
        s
      ≡ (ok r, s')
    → IsSettled lower email s'
bootstrap-IsSettled hash lower id email drawn s s' r nonempty h =
    let (b, s1, h1, r1) = bind-ok admin_exists _ s r s' h in
    let (there, (users, passwords)) = admin_exists-ok s s1 b h1 in
    split b s1 (there ∙ ap (any (λ (u : User). is_admin u.role)) (sym users)) r1
  where
    split :
        (b : Bool) (s1 : Store)
        → b ≡ any (λ u. is_admin u.role) s1.users
        → (if b
              then resume_bootstrap hash lower email drawn
              else create_first_admin hash lower id email drawn)
            s1
          ≡ (ok r, s')
        → IsSettled lower email s'
    split true s1 e k = resume-IsSettled hash lower email drawn s1 s' r (sym e) k
    split false s1 e k = first_admin-IsSettled hash lower id email drawn s1 s' r nonempty k

settled-nothing :
    (hash lower : Text → Text) (id : ℕ) (email drawn : Text) (s s' : Store) (r : Option Text)
    → IsSettled lower email s
    → (admin_exists >>= λ exists.
          if exists
          then resume_bootstrap hash lower email drawn
          else create_first_admin hash lower id email drawn)
        s
      ≡ (ok r, s')
    → (r ≡ none) × HasSame s s'
settled-nothing hash lower id email drawn s s' r settled h =
    let (b, s1, h1, r1) = bind-ok admin_exists _ s r s' h in
    let (there, (users, passwords)) = admin_exists-ok s s1 b h1 in
    let resumed =
      subst
        (λ b.
          (if b
              then resume_bootstrap hash lower email drawn
              else create_first_admin hash lower id email drawn)
            s1
          ≡ (ok r, s'))
        (there ∙ settled.0) r1 in
    let (nothing, (users', passwords')) =
      resume-settled hash lower email drawn s1 s' r
        (IsSettled-same lower email s s1 (users, passwords) settled) resumed in
    (nothing, (users' ∙ users, passwords' ∙ passwords))

return-none-ok :
    (s s' : Store) (r : Option Text)
    → return none s ≡ (ok r, s')
    → (r ≡ none) × (s'.users ≡ s.users) × (s'.passwords ≡ s.passwords)
unfolding return
return-none-ok s s' r h = ground arith

module _ (hash lower : Text → Text) where
  -- Once a start has created the first administrator or had nothing to do, a later start with the same
  -- address issues no password and writes no account and no password.
  pub bootstrap-again :
      (id id' : ℕ) (email drawn drawn' : Text) (s s' s'' : Store) (r r' : Option Text)
      → bootstrap hash lower id email drawn s ≡ (ok r, s')
      → bootstrap hash lower id' email drawn' s' ≡ (ok r', s'')
      → (r' ≡ none) × (s''.users ≡ s'.users) × (s''.passwords ≡ s'.passwords)
  unfolding bootstrap
  bootstrap-again id id' email drawn drawn' s s' s'' r r' first again =
      split (email =t []) refl first again
    where
      issued : ℕ → Text → Bool → Op (Option Text)
      issued id drawn e =
          if e
          then return none
          else (admin_exists >>= λ exists.
              if exists
              then resume_bootstrap hash lower email drawn
              else create_first_admin hash lower id email drawn)

      split :
          (e : Bool)
          → (email =t []) ≡ e
          → issued id drawn e s ≡ (ok r, s')
          → issued id' drawn' e s' ≡ (ok r', s'')
          → (r' ≡ none) × (s''.users ≡ s'.users) × (s''.passwords ≡ s'.passwords)
      split true e h k = return-none-ok s' s'' r' k
      split false e h k =
          let (nothing, (users, passwords)) =
            settled-nothing hash lower id' email drawn' s' s'' r'
              (bootstrap-IsSettled hash lower id email drawn s s' r e h) k in
          (nothing, users, passwords)
