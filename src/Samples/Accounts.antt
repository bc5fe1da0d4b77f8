-- ===== src/Samples/Accounts.antt =====
-- Account administration, recovery and the first start at work.
use llm_proxy_backend.Prelude.{refl, true, false, some, none, [], ◌∷◌, ◌+◌, ◌==◌}
use llm_proxy_backend.Prelude.Text.{codes, trim_space, cut}
use llm_proxy_backend.Identity.{User, Kind, Role, Status, can_sign_in, require_admin}
use llm_proxy_backend.Store.{effects, Store, failed}
use llm_proxy_backend.Store.Tables.{by_password}
use llm_proxy_backend.Tokens.Repo.{user_by_id, record_event}
use llm_proxy_backend.Tokens.Resolver.{resolve}
use llm_proxy_backend.Auth.Throttle.{clear_call}
use llm_proxy_backend.Auth.Repo.{set_password, set_must_change_password, user_by_email}
use llm_proxy_backend.Accounts.Repo.{
  UserView, update_admin_state, delete_by_user, view_user, find_view, view_of, list_users,
}
use llm_proxy_backend.Accounts.Temporary.{
  TemporaryPassword, temporary_password_ttl, draw_temporary_password, reset_password,
}
use llm_proxy_backend.Accounts.Temporary.Reset.{IsReset}
use llm_proxy_backend.Accounts.Provision.{NewUser, Config, parse_policy}
use llm_proxy_backend.Accounts.Admin.{UserChanges, update_user, create_user, reset_account_password}
use llm_proxy_backend.Accounts.Admin.Blocking.{IsNotOf, IsShutOut, update_user-revokes}
use llm_proxy_backend.Accounts.Admin.Creation.{HasAccountsOf, create_user-err}
use llm_proxy_backend.Accounts.Admin.Roles.{edits-HasPlainServices}
use llm_proxy_backend.Accounts.Admin.Plain.{HasPlainServices}
use llm_proxy_backend.Accounts.Admin.Reset.{reset_account_password-IsReset}
use llm_proxy_backend.Accounts.Recovery.{
  Recovered, recover, check_blocked, can_unblock, unblock_if, unblock, other_active_admin,
}
use llm_proxy_backend.Accounts.Recovery.Sound.{IsRecovered, recover-IsRecovered}
use llm_proxy_backend.Samples.{keep_code, keep_text, alice, store_of_alice}

abbrev root : User
root = record alice { id = 2; email = codes "root"; role = Role.admin; policy = [] }

abbrev office : Store
office = record store_of_alice { users = alice ∷ root ∷ [] }

abbrev cfg : Config
cfg = record { oidc_issuer = codes "idp"; group_mapping_configured = false }

abbrev block : UserChanges
block = record { display_name = none; role = none; status = some Status.blocked; policy = none }

abbrev blocked_alice : User
blocked_alice = record alice { status = Status.blocked }

abbrev alice_view : UserView
alice_view = record {
  user = blocked_alice;
  sign_in = by_password ∷ [];
  invitation_expires_at = none;
}

abbrev after_block : Store
after_block = (update_user keep_code cfg root 1 block office).1

update_user-revokes_example :
    IsNotOf 1 (resolve keep_text (codes "sk-1") after_block).0 × IsShutOut 1 after_block
unfolding update_user effects require_admin user_by_id update_admin_state delete_by_user
    record_event view_user find_view
update_user-revokes_example =
    update_user-revokes keep_text keep_code cfg root 1 block office after_block alice_view
      (codes "sk-1") refl refl

abbrev newcomer : NewUser
newcomer = record {
  kind = Kind.human;
  email = codes "a@b";
  display_name = codes "Ann";
  role = none;
  policy = [];
  sign_in = by_password;
}

-- The call that would write the account, the third, fails.
abbrev failing_office : Store
failing_office = record office { fault = λ n. n == 3 }

abbrev after_failure : Store
after_failure =
    (create_user keep_code cfg keep_text keep_text root newcomer 3 (codes "secret")
      failing_office).1

create_user-err_example : HasAccountsOf failing_office after_failure
unfolding create_user effects require_admin parse_policy trim_space cut
create_user-err_example =
    create_user-err keep_code cfg keep_text keep_text root newcomer 3 (codes "secret")
      failing_office after_failure failed refl

edits-HasPlainServices_example :
    HasPlainServices (update_user keep_code cfg root 1 block office).1
    × HasPlainServices
        (create_user keep_code cfg keep_text keep_text root newcomer 3 (codes "secret") office).1
edits-HasPlainServices_example =
    edits-HasPlainServices keep_code cfg keep_text keep_text root 1 3 block newcomer
      (codes "secret") office (refl, (refl, tt))

abbrev issued : TemporaryPassword
issued = record { password = codes "secret"; expires_at = 100 + temporary_password_ttl }

abbrev after_reset : Store
after_reset = (reset_account_password keep_text root 1 (codes "secret") office).1

reset_account_password-IsReset_example : IsReset keep_text (codes "secret") 1 issued after_reset
unfolding reset_account_password effects require_admin user_by_id reset_password
    draw_temporary_password set_must_change_password set_password delete_by_user record_event
reset_account_password-IsReset_example =
    reset_account_password-IsReset keep_text root 1 (codes "secret") office after_reset issued refl

-- The only administrator, blocked.
abbrev locked_out_office : Store
locked_out_office = record office { users = alice ∷ record root { status = Status.blocked } ∷ [] }

abbrev recovered : Recovered
recovered = record {
  user = record root { must_change_password = true };
  password = issued;
  unblocked = true;
}

abbrev after_recovery : Store
after_recovery =
    (recover keep_text keep_text (codes "root") true (codes "secret") locked_out_office).1

recover-IsRecovered_example :
    IsRecovered keep_text keep_text
      (codes "root")
      true
      (codes "secret")
      recovered
      locked_out_office
      after_recovery
unfolding recover effects user_by_email trim_space check_blocked can_unblock other_active_admin
    list_users view_of unblock_if unblock reset_password draw_temporary_password
    set_must_change_password set_password delete_by_user clear_call record_event can_sign_in
recover-IsRecovered_example =
    recover-IsRecovered keep_text keep_text (codes "root") true (codes "secret") locked_out_office
      after_recovery recovered refl
