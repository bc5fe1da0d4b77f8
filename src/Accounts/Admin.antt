-- ===== src/Accounts/Admin.antt =====
-- The administrator's view of accounts (internal/app/adminusers/adminusers.go). Drawn ids and
-- temporary passwords are arguments; wrapped errors are the errors they wrap.
pub mod Blocking
pub mod Creation
pub mod Reset
pub mod Plain
pub mod Roles
pub mod Preview
use llm_proxy_backend.Prelude.{
  ℕ, Bool, true, false, ◌&&◌, ◌||◌, not, Option, none, some, List, [], ◌+◌, ◌==◌, if◌then◌else◌,
  any,
}
use llm_proxy_backend.Prelude.Text.{Text, ◌=t◌, trim_space}
use llm_proxy_backend.Access.Policy.{Policy}
use llm_proxy_backend.Identity.{
  User, Role, Status, is_human, is_service, is_admin, require_admin, policy_editable_by_admin,
}
use llm_proxy_backend.Store.{
  Op, Result, ok, err, forbidden, not_found, invalid_input, of_display_name, of_role, of_status,
  self_lockout, policy_managed_by_idp, not_local, not_invitable, return, lift, require, read_clock,
  ◌>>=◌, ◌>>◌,
}
use llm_proxy_backend.Store.Tables.{
  Token, user_create, user_update, user_invitation_renew, user_password_reset, Detail, of_changes,
  of_invitation, of_expiry,
}
use llm_proxy_backend.Tokens.Key.{Draw}
use llm_proxy_backend.Tokens.Repo.{user_by_id, record_event}
use llm_proxy_backend.Tokens.Service.{issue, revoke, list_tokens}
use llm_proxy_backend.Accounts.Repo.{
  AdminChange, UserView, is_set, or_stored, delete_by_user, update_admin_state, view_user,
  list_users, invite, create_account,
}
use llm_proxy_backend.Accounts.Temporary.{TemporaryPassword, reset_password}
use llm_proxy_backend.Accounts.Provision.{
  NewUser, CreatedUser, Config, invitation_ttl, valid_role, is_plain, rule_strings, create_detail,
  admin_event, provision, parse_policy,
}

pub record UserChanges : Type 0 where
  pub display_name : Option Text
  pub role : Option Role
  pub status : Option Status
  pub policy : Option (List Text)

abbrev pub is_blocked : Status → Bool
is_blocked Status.blocked = true
is_blocked _ = false

abbrev pub valid_status : Status → Bool
valid_status Status.other = false
valid_status _ = true

-- `ch.Role != nil && *ch.Role != …`, and its likes.
abbrev pub some_is : {A : Type 0} → (A → Bool) → Option A → Bool
some_is p none = false
some_is p (some a) = p a

-- The edit's checks, each on a field that is set.
abbrev pub checked_name : Option Text → Result (Option Text)
checked_name none = ok none
checked_name (some name) =
    if trim_space name =t []
    then err (invalid_input of_display_name)
    else ok (some (trim_space name))

abbrev pub checked_policy : (ℕ → ℕ) → Option (List Text) → Result (Option Policy)
checked_policy lower none = ok none
checked_policy lower (some rules) = elim (parse_policy lower rules) [
  | ok policy ↦ ok (some policy)
  | err e ↦ err e
]

-- The audit detail's entries are the change's fields: it is empty when none is set.
abbrev pub sets_nothing : AdminChange → Bool
sets_nothing change = not (
    is_set change.display_name
    || is_set change.role
    || is_set change.status
    || is_set change.policy)

abbrev pub update_detail : AdminChange → Bool → Detail
update_detail change made_local =
    of_changes change.display_name change.role change.status
      (elim change.policy [ none ↦ none | some p ↦ some (rule_strings p) ]) made_local

-- Blocking or demoting oneself.
abbrev pub locks_out : UserChanges → Bool
locks_out ch = some_is is_blocked ch.status || some_is (λ r. not (is_admin r)) ch.role

module _ (lower : ℕ → ℕ) (cfg : Config) where
  unfoldable pub admin_change : UserChanges → Op AdminChange
  admin_change ch = do
    name ← lift (checked_name ch.display_name)
    require (not (some_is (λ r. not (valid_role r)) ch.role)) (invalid_input of_role)
    require (not (some_is (λ x. not (valid_status x)) ch.status)) (invalid_input of_status)
    policy ← lift (checked_policy lower ch.policy)
    return (record {
      display_name = name;
      role = ch.role;
      status = ch.status;
      policy = policy;
      refuse_idp_policy = cfg.group_mapping_configured;
    })

  -- The checks against the stored account.
  unfoldable pub check_change : AdminChange → User → Op (Unit {0})
  check_change change user = do
    require (not (is_service user.kind && some_is (λ r. not (is_plain r)) change.role))
        (invalid_input of_role)
    require
        (not (
          is_set change.policy
          && not (policy_editable_by_admin user)
          && cfg.group_mapping_configured))
        policy_managed_by_idp

  unfoldable pub end_sessions_of_blocked : ℕ → Option Status → Op (Unit {0})
  end_sessions_of_blocked id status =
      if some_is is_blocked status then delete_by_user id else return tt

  unfoldable pub apply_change : User → ℕ → AdminChange → Op UserView
  unfolding check_change end_sessions_of_blocked
  apply_change actor id change = do
    user ← user_by_id id
    check_change change user
    update_admin_state id change
    end_sessions_of_blocked id change.status
    now ← read_clock
    let made_local = is_set change.policy && not (policy_editable_by_admin user)
    record_event (admin_event now actor user_update id (update_detail change made_local))
    view_user id

  unfoldable pub update_user : User → ℕ → UserChanges → Op UserView
  unfolding admin_change apply_change
  update_user actor id ch = do
    require (require_admin actor) forbidden
    change ← admin_change ch
    require (not (id == actor.id && locks_out ch)) self_lockout
    if sets_nothing change then view_user id else apply_change actor id change

  -- The account's name and role, checked, then the account itself.
  unfoldable pub create_user :
      (Text → Text) → (Text → Text) → User → NewUser → ℕ → Text → Op CreatedUser
  unfolding provision create_account
  create_user lower_text hash_password actor input id drawn = do
    require (require_admin actor) forbidden
    policy ← lift (parse_policy lower input.policy)
    let name = trim_space input.display_name
    require (not (name =t [])) (invalid_input of_display_name)
    let role = or_stored input.role Role.plain
    require (valid_role role) (invalid_input of_role)
    now ← read_clock
    new ← provision hash_password cfg drawn input id name role policy now input.kind
    create_account lower_text (record {
      user = new.account_user;
      password = new.password;
      invitation = new.invitation;
      audit =
          admin_event now actor user_create new.account_user.id
            (create_detail new.account_user input.sign_in);
    })
    return new.created

  unfoldable pub renew_invitation : (Text → Text) → User → ℕ → Op (Unit {0})
  unfolding invite
  renew_invitation lower_text actor id = do
    require (require_admin actor) forbidden
    require (not (cfg.oidc_issuer =t [])) not_invitable
    user ← user_by_id id
    require (is_human user.kind && not (user.email =t [])) not_invitable
    now ← read_clock
    let expires_at = now + invitation_ttl
    invite lower_text id
        (record { issuer = cfg.oidc_issuer; email = user.email; expires_at = expires_at })
    record_event
        (admin_event now actor user_invitation_renew id (of_invitation user.email expires_at))

unfoldable pub list_accounts : User → Op (List UserView)
list_accounts actor = do require (require_admin actor) forbidden; list_users

unfoldable pub get_user : User → ℕ → Op UserView
get_user actor id = do require (require_admin actor) forbidden; view_user id

unfoldable pub reset_account_password : (Text → Text) → User → ℕ → Text → Op TemporaryPassword
reset_account_password hash_password actor id drawn = do
  require (require_admin actor) forbidden
  user ← user_by_id id
  require (is_human user.kind) not_local
  now ← read_clock
  temp ← reset_password hash_password drawn user.id now
  record_event (admin_event now actor user_password_reset user.id (of_expiry false temp.expires_at))
  return temp

unfoldable pub list_account_tokens : User → ℕ → Op (List Token)
list_account_tokens actor user_id = do
  require (require_admin actor) forbidden
  user_by_id user_id
  list_tokens actor user_id

unfoldable pub issue_token : (Text → Text) → User → ℕ → Text → Draw → Op (Token × Text)
issue_token hash_secret actor user_id label draw = do
  require (require_admin actor) forbidden
  issue hash_secret actor user_id label draw

unfoldable pub revoke_account_token : User → ℕ → ℕ → Op (Unit {0})
revoke_account_token actor user_id token_id = do
  require (require_admin actor) forbidden
  owned ← list_tokens actor user_id
  require (any (λ t. t.id == token_id) owned) not_found
  revoke actor token_id
