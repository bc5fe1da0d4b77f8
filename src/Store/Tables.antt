-- ===== src/Store/Tables.antt =====
-- The rows of the stores (internal/domain/credentials/token.go, internal/app/ports.go).
use llm_proxy_backend.Prelude.{ℕ, Bool, Option, List}
use llm_proxy_backend.Prelude.Text.{Text}
use llm_proxy_backend.Prelude.Float.{Float64}
use llm_proxy_backend.Identity.{Kind, Role, Status}
use llm_proxy_backend.Limits.Rules.{RuleSet}
use llm_proxy_backend.Pricing.Book.{CheckResult}

pub record Token : Type 0 where
  pub id : ℕ
  pub user_id : ℕ
  pub label : Text
  pub hash : Text
  pub prefix : Text
  pub created_at : ℕ
  pub last_used_at : Option ℕ
  pub revoked_at : Option ℕ
  pub revoked_by : Option ℕ

-- `id` is the plaintext id: it is empty in a stored session.
pub record Session : Type 0 where
  pub id : Text
  pub id_hash : Text
  pub user_id : ℕ
  pub restricted : Bool
  pub ip : Text
  pub user_agent : Text
  pub created_at : ℕ
  pub expires_at : ℕ

pub record Password : Type 0 where
  pub user_id : ℕ
  pub hash : Text
  pub expires_at : Option ℕ

pub record Attempt : Type 0 where
  pub email : Text
  pub failures : ℕ
  pub locked_until : Option ℕ
  pub last_failure_at : ℕ

-- A row of limit_windows (internal/infra/postgres/limitwindows/limitwindows.go).
pub record Row : Type 0 where
  pub user_id : ℕ
  pub window_minutes : ℕ
  pub started_at : ℕ
  pub spent_usd : Float64

-- A row of user_identities and one of pending_identities
-- (internal/infra/postgres/identities/identities.go).
pub record Link : Type 0 where
  pub user_id : ℕ
  pub issuer : Text
  pub subject : Text

pub record Pending : Type 0 where
  pub user_id : ℕ
  pub issuer : Text
  pub expected_email : Text
  pub expires_at : ℕ

-- The type is a string: `other` is any value that the source gives no name to.
pub data SignInMethod : Type 0 where
  by_password by_oidc other : SignInMethod

pub data Action : Type 0 where
  token_issue token_revoke auth_signin auth_signin_oidc auth_password_changed auth_signout : Action
  user_create user_update user_invitation_renew user_password_reset : Action
  limits_defaults_update limits_update limits_reset : Action
  prices_replace prices_refresh : Action

-- The details the services write.
pub data Detail : Type 0 where
  of_token : (token_id owner_id : ℕ) (label : Text) → Detail
  of_sign_in : (restricted : Bool) → Detail
  of_default_mode : Detail
  of_limits : RuleSet → Detail
  of_window : Option ℕ → Detail
  of_creation :
      (kind : Kind) (role : Role) (policy : List Text) (sign_in : Option (Text × SignInMethod))
      → Detail
  of_changes :
      (display_name : Option Text) (role : Option Role) (status : Option Status)
      (policy : Option (List Text)) (made_local : Bool)
      → Detail
  of_invitation : (email : Text) (expires_at : ℕ) → Detail
  of_expiry : (by_cli : Bool) (expires_at : ℕ) → Detail
  of_unblock : Detail
  of_prices : (count : ℕ) → Detail
  of_check : CheckResult → Detail
  empty : Detail

pub record AuditEvent : Type 0 where
  pub at : ℕ
  pub actor_id : ℕ
  pub action : Action
  pub target : ℕ
  pub detail : Detail
  pub ip : Text
  pub user_agent : Text
