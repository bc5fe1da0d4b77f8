-- ===== src/Accounts/Bootstrap.antt =====
-- `Bootstrap` (internal/app/bootstrap.go): the first administrator of an empty installation.
pub mod Served
pub mod Settled
pub mod Once
use llm_proxy_backend.Prelude.{
  ℕ, Bool, true, false, ◌||◌, not, Option, none, some, [], any, if◌then◌else◌,
}
use llm_proxy_backend.Prelude.Text.{Text, codes, ◌=t◌}
use llm_proxy_backend.Identity.{User, Kind, Role, Status, PolicySource, is_admin}
use llm_proxy_backend.Store.{Op, Error, not_found, ok, call, return, fail, catch, ◌>>=◌, ◌>>◌}
use llm_proxy_backend.Auth.Repo.{get_password, set_password, user_by_email}
use llm_proxy_backend.Accounts.Repo.{create_user_row}

-- `AdminExists`.
unfoldable pub admin_exists : Op Bool
admin_exists = call λ s. (ok (any (λ u. is_admin u.role) s.users), s)

-- The creation time is left to the database.
abbrev pub first_admin : ℕ → Text → User
first_admin id email = record {
  id = id;
  kind = Kind.human;
  email = email;
  display_name = codes "Administrator";
  role = Role.admin;
  status = Status.active;
  policy = [];
  policy_source = PolicySource.local;
  spend_limits = none;
  must_change_password = true;
  last_seen_at = none;
  created_at = 0;
}

-- `errors.Is(err, ErrNotFound)`, on a lookup.
unfoldable pub if_absent : {A : Type 0} → Op A → Error → Op A
if_absent m not_found = m
if_absent m e = fail e

-- `none` is the empty string: nothing was issued.
module _ (hash_password : Text → Text) where
  unfoldable pub issue_bootstrap_password : ℕ → Text → Op (Option Text)
  issue_bootstrap_password id drawn = do
    secret ← call (return drawn)
    hash ← call (return (hash_password secret))
    set_password id hash none
    return (some secret)

  -- What follows the lookup by address: a password that was never given is given now.
  unfoldable pub resume_for : Text → User → Op (Option Text)
  unfolding issue_bootstrap_password if_absent
  resume_for drawn user =
      if not (is_admin user.role) || not user.must_change_password
      then return none
      else catch (get_password user.id) (λ _. return none)
          (if_absent (issue_bootstrap_password user.id drawn))

  module _ (lower : Text → Text) where
    unfoldable pub resume_bootstrap : Text → Text → Op (Option Text)
    unfolding resume_for if_absent
    resume_bootstrap email drawn =
        catch (user_by_email lower email) (resume_for drawn) (if_absent (return none))

    unfoldable pub create_first_admin : ℕ → Text → Text → Op (Option Text)
    unfolding create_user_row issue_bootstrap_password
    create_first_admin id email drawn = do
      create_user_row lower (first_admin id email)
      issue_bootstrap_password id drawn

    unfoldable pub bootstrap : ℕ → Text → Text → Op (Option Text)
    unfolding create_first_admin resume_bootstrap
    bootstrap id email drawn =
        if email =t []
        then return none
        else (admin_exists >>= λ exists.
            if exists then resume_bootstrap email drawn else create_first_admin id email drawn)
