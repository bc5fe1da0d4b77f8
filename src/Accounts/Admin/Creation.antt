-- ===== src/Accounts/Admin/Creation.antt =====
-- Accounts are created whole or not at all, and service accounts never administer.
use mathlib.Core.Path.{subst}
use llm_proxy_backend.Prelude.{ℕ, ◌≡◌, refl, sym, inl, inr, not, [], arith, Option-cases}
use llm_proxy_backend.Prelude.Text.{Text, ◌=t◌, trim_space}
use llm_proxy_backend.Access.Policy.{Policy}
use llm_proxy_backend.Identity.{User, Kind, Role, require_admin}
use llm_proxy_backend.Store.{
  effects, Store, Error, err, tick, forbidden, invalid_input, of_email, of_role, of_display_name,
  of_sign_in, of_kind, require, call, return, lift, read_clock,
}
use llm_proxy_backend.Store.Tables.{SignInMethod, by_password, by_oidc}
use llm_proxy_backend.Store.Keeping.{
  Keeps, then-Keeps, bind-Keeps, pure-Keeps, require-Keeps, return-Keeps, fail-Keeps, call-Keeps,
  read_clock-Keeps,
}
use llm_proxy_backend.Store.Failing.{
  FailsKeeping, bind-FailsKeeping, then-FailsKeeping, last-FailsKeeping,
}
use llm_proxy_backend.Accounts.Repo.{NewAccount, or_stored, create_account, with_invitation}
use llm_proxy_backend.Accounts.Temporary.{draw_temporary_password}
use llm_proxy_backend.Accounts.Provision.{
  NewUser, Config, Provisioned, new_service_account, new_human_account, with_first_way_in,
  provision, parse_policy, is_address, is_plain, valid_role,
}
use llm_proxy_backend.Accounts.Admin.{create_user}

-- Every table that an account's creation writes.
abbrev pub HasAccountsOf : Store → Store → Type 0
HasAccountsOf s0 s =
    (s.users ≡ s0.users)
    × (s.passwords ≡ s0.passwords)
    × (s.invitations ≡ s0.invitations)
    × (s.audit ≡ s0.audit)

create_account-err :
    (lower : Text → Text) (a : NewAccount) (s s' : Store) (e : Error)
    → create_account lower a s ≡ (err e, s')
    → s' ≡ tick s
unfolding create_account effects
create_account-err lower a s s' e h =
    elim (Option-cases (with_invitation lower a.user.id a.invitation s)) [
      | inl absent ↦ ground arith
      | inr (rows, present) ↦ ground arith
    ]

create_account-FailsKeeping :
    (lower : Text → Text) (a : NewAccount) (s0 : Store)
    → FailsKeeping (HasAccountsOf s0) (create_account lower a)
create_account-FailsKeeping lower a s0 s s' e p h =
    subst (HasAccountsOf s0) (sym (create_account-err lower a s s' e h)) p

module _ (P : Store → Type 0) (timeless : (s : Store) → P s → P (tick s)) where
  drawing-Keeps : (t : Text) → Keeps P (call (return t))
  drawing-Keeps t = call-Keeps P (return t) timeless (return-Keeps P t)

  pub draw-Keeps :
      (hash : Text → Text) (drawn : Text) (now : ℕ)
      → Keeps P (draw_temporary_password hash drawn now)
  unfolding draw_temporary_password
  draw-Keeps hash drawn now = bind-Keeps P (call (return drawn)) _ (drawing-Keeps drawn) λ secret.
      bind-Keeps P (call (return (hash secret))) _ (drawing-Keeps (hash secret))
        λ h. return-Keeps P _

  first_way_in-Keeps :
      (hash : Text → Text) (cfg : Config) (drawn : Text) (now : ℕ) (u : User) (m : SignInMethod)
      → Keeps P (with_first_way_in hash cfg drawn now u m)
  unfolding with_first_way_in
  first_way_in-Keeps hash cfg drawn now u by_password =
      bind-Keeps P (draw_temporary_password hash drawn now) _ (draw-Keeps hash drawn now)
        λ x. return-Keeps P _
  first_way_in-Keeps hash cfg drawn now u by_oidc =
      then-Keeps P (require (not (cfg.oidc_issuer =t [])) (invalid_input of_sign_in)) _
        (require-Keeps P _ _) (return-Keeps P _)
  first_way_in-Keeps hash cfg drawn now u SignInMethod.other =
      fail-Keeps P Provisioned (invalid_input of_sign_in)

  pub provision-Keeps :
      (hash : Text → Text) (cfg : Config) (drawn : Text) (input : NewUser) (id : ℕ) (name : Text)
      (role : Role) (policy : Policy) (now : ℕ) (k : Kind)
      → Keeps P (provision hash cfg drawn input id name role policy now k)
  unfolding provision new_service_account new_human_account
  provision-Keeps hash cfg drawn input id name role policy now Kind.service =
      then-Keeps P (require (input.email =t []) (invalid_input of_email)) _ (require-Keeps P _ _) (
        then-Keeps P (require (is_plain role) (invalid_input of_role)) _ (require-Keeps P _ _)
          (return-Keeps P _))
  provision-Keeps hash cfg drawn input id name role policy now Kind.human =
      then-Keeps P (require (is_address (trim_space input.email)) (invalid_input of_email)) _
        (require-Keeps P _ _) (first_way_in-Keeps hash cfg drawn now _ input.sign_in)
  provision-Keeps hash cfg drawn input id name role policy now Kind.other =
      fail-Keeps P Provisioned (invalid_input of_kind)

module _ (lower : ℕ → ℕ) (cfg : Config) (lower_text : Text → Text)
    (hash_password : Text → Text) where
  create_user-FailsKeeping :
      (actor : User) (input : NewUser) (id : ℕ) (drawn : Text) (s0 : Store)
      → FailsKeeping
          (HasAccountsOf s0)
          (create_user lower cfg lower_text hash_password actor input id drawn)
  unfolding create_user
  create_user-FailsKeeping actor input id drawn s0 =
      let P = HasAccountsOf s0 in
      then-FailsKeeping P (require (require_admin actor) forbidden) _ (require-Keeps P _ _) (
        bind-FailsKeeping P (lift (parse_policy lower input.policy)) _
          (pure-Keeps P (parse_policy lower input.policy))
          λ policy.
            then-FailsKeeping P
              (require (not (trim_space input.display_name =t [])) (invalid_input of_display_name))
              _ (require-Keeps P _ _)
              (then-FailsKeeping P
                (require (valid_role (or_stored input.role Role.plain)) (invalid_input of_role)) _
                (require-Keeps P _ _)
                (bind-FailsKeeping P read_clock _ (read_clock-Keeps P (λ s h. h)) λ now.
                  bind-FailsKeeping P
                    (provision hash_password cfg drawn input id (trim_space input.display_name)
                      (or_stored input.role Role.plain) policy now input.kind)
                    _
                    (provision-Keeps P (λ s h. h) hash_password cfg drawn input id _ _ policy now
                      input.kind)
                    λ new.
                      last-FailsKeeping P (create_account lower_text _) new.created
                        (create_account-FailsKeeping lower_text _ s0))))

  -- If an account's creation fails, for whatever reason and at whatever step, no account, no password, no
  -- invitation and no audit record has been written.
  pub create_user-err :
      (actor : User) (input : NewUser) (id : ℕ) (drawn : Text) (s s' : Store) (e : Error)
      → create_user lower cfg lower_text hash_password actor input id drawn s ≡ (err e, s')
      → HasAccountsOf s s'
  create_user-err actor input id drawn s s' e =
      create_user-FailsKeeping actor input id drawn s s s' e (refl, refl, refl, refl)
