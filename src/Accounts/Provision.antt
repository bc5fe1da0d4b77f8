-- ===== src/Accounts/Provision.antt =====
-- The accounts that an administrator creates (internal/app/adminusers/adminusers.go): the request,
-- its checks, and the account, credential and answer built from it.
use llm_proxy_backend.Prelude.{
  ℕ, Bool, true, false, ◌&&◌, not, Option, none, some, List, [], ◌∷◌, map, ◌+◌, if◌then◌else◌,
}
use llm_proxy_backend.Prelude.Text.{Text, ◌=t◌, cut, trim_space}
use llm_proxy_backend.Access.Rule.{parse_rule, string}
use llm_proxy_backend.Access.Policy.{Policy}
use llm_proxy_backend.Identity.{User, Kind, Role, Status, PolicySource, is_human}
use llm_proxy_backend.Store.{
  Op, Result, ok, err, invalid_input, of_role, of_email, of_sign_in, of_kind, invalid_rule, return,
  fail, require, ◌>>=◌, ◌>>◌,
}
use llm_proxy_backend.Store.Tables.{
  AuditEvent, Action, Detail, of_creation, SignInMethod, by_password, by_oidc,
}
use llm_proxy_backend.Accounts.Repo.{StoredPassword, Invitation, UserView}
use llm_proxy_backend.Accounts.Temporary.{
  TemporaryPassword, temporary_password_ttl, draw_temporary_password,
}

-- `role` is `none` where the request gives none.
pub record NewUser : Type 0 where
  pub kind : Kind
  pub email : Text
  pub display_name : Text
  pub role : Option Role
  pub policy : List Text
  pub sign_in : SignInMethod

pub record CreatedUser : Type 0 where
  pub user : UserView
  pub temporary_password : Option TemporaryPassword

pub record Config : Type 0 where
  pub oidc_issuer : Text
  pub group_mapping_configured : Bool

-- A NewAccount before its audit record is added, with what the caller is told.
pub record Provisioned : Type 0 where
  pub account_user : User
  pub password : Option StoredPassword
  pub invitation : Option Invitation
  pub created : CreatedUser

-- The same seventy-two hours as a temporary password.
abbrev pub invitation_ttl : ℕ
invitation_ttl = temporary_password_ttl

abbrev pub valid_role : Role → Bool
valid_role Role.other = false
valid_role _ = true

abbrev pub is_plain : Role → Bool
is_plain Role.plain = true
is_plain _ = false

abbrev pub rule_strings : Policy → List Text
rule_strings = map string

abbrev pub create_detail : User → SignInMethod → Detail
create_detail u sign_in =
    of_creation u.kind u.role (rule_strings u.policy)
      (if is_human u.kind then some (u.email, sign_in) else none)

abbrev pub admin_event : ℕ → User → Action → ℕ → Detail → AuditEvent
admin_event now actor action target detail = record {
  at = now;
  actor_id = actor.id;
  action = action;
  target = target;
  detail = detail;
  ip = [];
  user_agent = [];
}

abbrev pub new_service_user : ℕ → Text → Policy → ℕ → User
new_service_user id name policy now = record {
  id = id;
  kind = Kind.service;
  email = [];
  display_name = name;
  role = Role.plain;
  status = Status.active;
  policy = policy;
  policy_source = PolicySource.local;
  spend_limits = none;
  must_change_password = false;
  last_seen_at = none;
  created_at = now;
}

abbrev pub new_human_user : ℕ → Text → Text → Role → Policy → ℕ → User
new_human_user id email name role policy now = record {
  id = id;
  kind = Kind.human;
  email = email;
  display_name = name;
  role = role;
  status = Status.active;
  policy = policy;
  policy_source = PolicySource.local;
  spend_limits = none;
  must_change_password = false;
  last_seen_at = none;
  created_at = now;
}

unfoldable pub new_service_account : NewUser → ℕ → Text → Role → Policy → ℕ → Op Provisioned
new_service_account input id name role policy now = do
  require (input.email =t []) (invalid_input of_email)
  require (is_plain role) (invalid_input of_role)
  let user = new_service_user id name policy now
  return (record {
    account_user = user;
    password = none;
    invitation = none;
    created = record {
      user = record { user = user; sign_in = []; invitation_expires_at = none };
      temporary_password = none;
    };
  })

-- Text on both sides of the first "@".
abbrev pub is_address : Text → Bool
is_address email = elim (cut b'@' email) [
  | none ↦ false
  | some (local, domain) ↦ not (local =t []) && not (domain =t [])
]

module _ (hash_password : Text → Text) where
  -- The switch on the first way in.
  unfoldable pub with_first_way_in : Config → Text → ℕ → User → SignInMethod → Op Provisioned
  unfolding draw_temporary_password
  with_first_way_in cfg drawn now user by_password = do
    (temp, hash) ← draw_temporary_password hash_password drawn now
    let flagged = record user { must_change_password = true }
    return (record {
      account_user = flagged;
      password = some (record { hash = hash; expires_at = some temp.expires_at });
      invitation = none;
      created = record {
        user = record { user = flagged; sign_in = by_password ∷ []; invitation_expires_at = none };
        temporary_password = some temp;
      };
    })
  with_first_way_in cfg drawn now user by_oidc = do
    require (not (cfg.oidc_issuer =t [])) (invalid_input of_sign_in)
    return (record {
      account_user = user;
      password = none;
      invitation = some (record {
        issuer = cfg.oidc_issuer;
        email = user.email;
        expires_at = now + invitation_ttl;
      });
      created = record {
        user = record {
          user = user;
          sign_in = [];
          invitation_expires_at = some (now + invitation_ttl);
        };
        temporary_password = none;
      };
    })
  with_first_way_in cfg drawn now user _ = fail (invalid_input of_sign_in)

  unfoldable pub new_human_account :
      Config → Text → NewUser → ℕ → Text → Role → Policy → ℕ → Op Provisioned
  unfolding with_first_way_in
  new_human_account cfg drawn input id name role policy now = do
    let email = trim_space input.email
    require (is_address email) (invalid_input of_email)
    with_first_way_in cfg drawn now (new_human_user id email name role policy now) input.sign_in

  -- The switch on the kind.
  unfoldable pub provision :
      Config → Text → NewUser → ℕ → Text → Role → Policy → ℕ → Kind → Op Provisioned
  unfolding new_service_account new_human_account
  provision cfg drawn input id name role policy now Kind.service =
      new_service_account input id name role policy now
  provision cfg drawn input id name role policy now Kind.human =
      new_human_account cfg drawn input id name role policy now
  provision cfg drawn input id name role policy now _ = fail (invalid_input of_kind)

unfoldable pub parse_policy : (ℕ → ℕ) → List Text → Result Policy
parse_policy lower [] = ok []
parse_policy lower (raw ∷ rules) = elim (parse_rule lower raw) [
  | none ↦ err (invalid_rule raw)
  | some rule ↦ elim (parse_policy lower rules) [ ok policy ↦ ok (rule ∷ policy) | err e ↦ err e ]
]
