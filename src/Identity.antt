-- ===== src/Identity.antt =====
-- internal/domain/identity/user.go: accounts, and who of them may sign in, use the API and
-- administer (internal/app/admin.go). An id is a number, 0 for the nil UUID.
use llm_proxy_backend.Prelude.{
  ℕ, Bool, true, false, ◌&&◌, ◌||◌, not, Option, [], ◌==◌, if◌then◌else◌,
}
use llm_proxy_backend.Prelude.Text.{Text, ◌=t◌}
use llm_proxy_backend.Access.Policy.{Policy}
use llm_proxy_backend.Limits.Rules.{RuleSet}

-- The types are strings: `other` is any value that the source gives no name to.
pub data Kind : Type 0 where
  human service other : Kind

pub data Role : Type 0 where
  plain admin other : Role

pub data Status : Type 0 where
  active blocked other : Status

pub data PolicySource : Type 0 where
  local idp other : PolicySource

pub record User : Type 0 where
  pub id : ℕ
  pub kind : Kind
  pub email : Text
  pub display_name : Text
  pub role : Role
  pub status : Status
  pub policy : Policy
  pub policy_source : PolicySource
  pub spend_limits : Option RuleSet
  pub must_change_password : Bool
  pub last_seen_at : Option ℕ
  pub created_at : ℕ

abbrev pub is_human : Kind → Bool
is_human Kind.human = true
is_human _ = false

abbrev pub is_service : Kind → Bool
is_service Kind.service = true
is_service _ = false

abbrev pub is_admin : Role → Bool
is_admin Role.admin = true
is_admin _ = false

abbrev pub is_active : Status → Bool
is_active Status.active = true
is_active _ = false

unfoldable pub can_sign_in : User → Bool
can_sign_in u = is_human u.kind && is_active u.status

unfoldable pub can_use_api : User → Bool
can_use_api u = (is_human u.kind || is_service u.kind) && is_active u.status

unfoldable pub label : User → Text
label u = if not (u.email =t []) then u.email else u.display_name

abbrev pub is_local : PolicySource → Bool
is_local PolicySource.local = true
is_local _ = false

unfoldable pub policy_editable_by_admin : User → Bool
policy_editable_by_admin u = is_local u.policy_source

-- `false` is ErrForbidden.
unfoldable pub require_admin : User → Bool
unfolding can_sign_in
require_admin actor = not (
    actor.id == 0
    || not (is_admin actor.role)
    || not (can_sign_in actor)
    || actor.must_change_password)
