-- ===== src/Accounts/Admin/Roles.antt =====
-- A service account is never an administrator.
use mathlib.Core.Path.{subst}
use llm_proxy_backend.Prelude.{
  ℕ, ◌≡◌, sym, inl, inr, Bool, true, false, not, ◌&&◌, some, [], arith, find, Option-cases, ◌==◌,
  if◌then◌else◌,
}
use llm_proxy_backend.Prelude.Text.{Text, ◌=t◌, trim_space}
use llm_proxy_backend.Identity.{User, Role, require_admin}
use llm_proxy_backend.Store.{
  effects, Store, forbidden, self_lockout, invalid_input, of_role, of_display_name, of_status,
  require, lift, read_clock,
}
use llm_proxy_backend.Store.Keeping.{
  Keeps, then-Keeps, bind-Keeps, pure-Keeps, require-Keeps, return-Keeps, read_clock-Keeps,
}
use llm_proxy_backend.Store.Failing.{bind_known-Keeps, then_known-Keeps}
use llm_proxy_backend.Tokens.Repo.{user_by_id}
use llm_proxy_backend.Accounts.Repo.{
  AdminChange, create_account, or_stored, update_admin_state, view_user, find_view,
}
use llm_proxy_backend.Accounts.Provision.{NewUser, Config, provision, parse_policy, valid_role}
use llm_proxy_backend.Accounts.Admin.{
  checked_name, checked_policy, UserChanges, check_change, end_sessions_of_blocked, apply_change,
  admin_change, sets_nothing, locks_out, create_user, update_user,
}
use llm_proxy_backend.Accounts.Admin.Creation.{provision-Keeps}
use llm_proxy_backend.Accounts.Admin.Plain.{
  HasPlainServices, timeless, provision-HasPlainService, create_account-Keeps,
  update_admin_state-Keeps, user_by_id-same, check_change-ok, user_by_id-Keeps, check_change-Keeps,
  audited_view-Keeps, end_sessions-Keeps,
}

module _ (lower : ℕ → ℕ) (cfg : Config) where
  apply_change-Keeps :
      (actor : User) (id : ℕ) (change : AdminChange)
      → Keeps HasPlainServices (apply_change lower cfg actor id change)
  unfolding apply_change
  apply_change-Keeps actor id change s h =
      let P = HasPlainServices in
      bind_known-Keeps P (user_by_id id) _ s (user_by_id-Keeps id s h) λ user s1 h1 p1.
        then_known-Keeps P (check_change lower cfg change user) _ s1
          (check_change-Keeps lower cfg change user s1 p1)
          λ _ s2 h2 p2.
            let (allowed, same) = check_change-ok lower cfg change user s1 s2 h2 in
            let stored =
              subst (λ (x : Store). find (λ u. u.id == id) x.users ≡ some user) (sym same)
                (user_by_id-same id s s1 user h1) in
            then_known-Keeps P (update_admin_state id change) _ s2
              (update_admin_state-Keeps id change s2 user stored allowed p2)
              λ _ s3 _ p3.
                then-Keeps P (end_sessions_of_blocked lower cfg id change.status) _
                  (end_sessions-Keeps lower cfg id change.status) (audited_view-Keeps _ id) s3 p3

  view-Keeps : (id : ℕ) → Keeps HasPlainServices (view_user id)
  unfolding view_user find_view effects
  view-Keeps id s h = elim (Option-cases (find (λ u. u.id == id) s.users)) [
    | inl e ↦ ground arith
    | inr (u, e) ↦ ground arith
  ]

  choice-Keeps :
      (b : Bool) (actor : User) (id : ℕ) (change : AdminChange)
      → Keeps HasPlainServices (if b then view_user id else apply_change lower cfg actor id change)
  choice-Keeps true actor id change = view-Keeps id
  choice-Keeps false actor id change = apply_change-Keeps actor id change

  admin_change-Keeps : (ch : UserChanges) → Keeps HasPlainServices (admin_change lower cfg ch)
  unfolding admin_change
  admin_change-Keeps ch =
      let P = HasPlainServices in
      bind-Keeps P (lift (checked_name ch.display_name)) _ (pure-Keeps P _) λ name.
        then-Keeps P (require _ (invalid_input of_role)) _ (require-Keeps P _ _) (
          then-Keeps P (require _ (invalid_input of_status)) _ (require-Keeps P _ _) (
            bind-Keeps P (lift (checked_policy lower ch.policy)) _ (pure-Keeps P _)
              λ policy. return-Keeps P _))

  update_user-HasPlainServices :
      (actor : User) (id : ℕ) (ch : UserChanges) (s : Store)
      → HasPlainServices s
      → HasPlainServices (update_user lower cfg actor id ch s).1
  unfolding update_user
  update_user-HasPlainServices actor id ch =
      let P = HasPlainServices in
      then-Keeps P (require (require_admin actor) forbidden) _ (require-Keeps P _ _) (
        bind-Keeps P (admin_change lower cfg ch) _ (admin_change-Keeps ch) λ change.
          then-Keeps P (require (not ((id == actor.id) && locks_out ch)) self_lockout) _
            (require-Keeps P _ _) (choice-Keeps (sets_nothing change) actor id change))

  create_user-HasPlainServices :
      (lower_text hash_password : Text → Text) (actor : User) (input : NewUser) (id : ℕ)
      (drawn : Text) (s : Store)
      → HasPlainServices s
      → HasPlainServices (create_user lower cfg lower_text hash_password actor input id drawn s).1
  unfolding create_user
  create_user-HasPlainServices lower_text hash_password actor input id drawn =
      let P = HasPlainServices in
      let role = or_stored input.role Role.plain in
      let name = trim_space input.display_name in
      then-Keeps P (require (require_admin actor) forbidden) _ (require-Keeps P _ _) (
        bind-Keeps P (lift (parse_policy lower input.policy)) _ (pure-Keeps P _) λ policy.
          then-Keeps P (require (not (name =t [])) (invalid_input of_display_name)) _
            (require-Keeps P _ _)
            (then-Keeps P (require (valid_role role) (invalid_input of_role)) _
              (require-Keeps P _ _)
              (bind-Keeps P read_clock _ (read_clock-Keeps P timeless) λ now. λ s h.
                bind_known-Keeps P
                  (provision hash_password cfg drawn input id name role policy now input.kind) _ s
                  (provision-Keeps P timeless hash_password cfg drawn input id name role policy now
                    input.kind s h)
                  λ new s1 made p1.
                    then-Keeps P (create_account lower_text _) _
                      (create_account-Keeps lower_text _ (
                        provision-HasPlainService hash_password cfg drawn input id name role policy
                          now input.kind s s1 new made))
                      (return-Keeps P new.created) s1 p1)))

  -- If no stored service account is an administrator, none is after an administrator's edit and after an
  -- administrator's creation of an account, whether these succeed, are refused or fail half-way.
  pub edits-HasPlainServices :
      (lower_text hash_password : Text → Text) (actor : User) (id new_id : ℕ) (ch : UserChanges)
      (input : NewUser) (drawn : Text) (s : Store)
      → HasPlainServices s
      → HasPlainServices (update_user lower cfg actor id ch s).1
        × HasPlainServices
            (create_user lower cfg lower_text hash_password actor input new_id drawn s).1
  edits-HasPlainServices lower_text hash_password actor id new_id ch input drawn s h = (
    update_user-HasPlainServices actor id ch s h,
    create_user-HasPlainServices lower_text hash_password actor input new_id drawn s h,
  )
