-- ===== src/Accounts/Admin/Plain.antt =====
-- The steps of administration that keep service accounts plain.
use llm_proxy_backend.Prelude.{
  ℕ, ◌≡◌, inl, inr, false, not, ◌&&◌, Option, some, List, [], ◌∷◌, arith, find, All, Option-cases,
  ◌==◌,
}
use llm_proxy_backend.Prelude.Text.{Text, trim_space}
use llm_proxy_backend.Access.Policy.{Policy}
use llm_proxy_backend.Identity.{User, Kind, Role, Status, is_service}
use llm_proxy_backend.Store.{
  effects, Store, ok, tick, invalid_input, of_email, require, read_clock, ◌>>=◌, ◌>>◌,
}
use llm_proxy_backend.Store.Tables.{SignInMethod, by_password, by_oidc, AuditEvent}
use llm_proxy_backend.Store.Keeping.{Keeps, then-Keeps, require-Keeps}
use llm_proxy_backend.Store.Inversion.{then-ok}
use llm_proxy_backend.Tokens.Repo.{user_by_id, record_event}
use llm_proxy_backend.Accounts.Repo.{
  NewAccount, AdminChange, create_account, change_rows, with_change, with_invitation,
  update_admin_state, delete_by_user, view_user, find_view,
}
use llm_proxy_backend.Accounts.Temporary.{draw_temporary_password}
use llm_proxy_backend.Accounts.Provision.{
  NewUser, Config, Provisioned, new_service_account, new_human_account, with_first_way_in,
  provision, is_address, is_plain,
}
use llm_proxy_backend.Accounts.Admin.{some_is, check_change, end_sessions_of_blocked}

abbrev pub HasPlainService : User → Type 0
HasPlainService u = (is_service u.kind && not (is_plain u.role)) ≡ false

abbrev pub HasPlainServices : Store → Type 0
HasPlainServices s = All HasPlainService s.users

pub timeless : (s : Store) → HasPlainServices s → HasPlainServices (tick s)
timeless s h = h

with_first_way_in-kind :
    (hash : Text → Text) (cfg : Config) (drawn : Text) (now : ℕ) (u : User) (m : SignInMethod)
    (s s' : Store) (new : Provisioned)
    → with_first_way_in hash cfg drawn now u m s ≡ (ok new, s')
    → new.account_user.kind ≡ u.kind
unfolding with_first_way_in draw_temporary_password effects
with_first_way_in-kind hash cfg drawn now u by_password s s' new h = ground arith
with_first_way_in-kind hash cfg drawn now u by_oidc s s' new h = ground arith
with_first_way_in-kind hash cfg drawn now u SignInMethod.other s s' new h = ground arith

human-HasPlainService : (u : User) → u.kind ≡ Kind.human → HasPlainService u
human-HasPlainService u h = ground arith

pub provision-HasPlainService :
    (hash : Text → Text) (cfg : Config) (drawn : Text) (input : NewUser) (id : ℕ) (name : Text)
    (role : Role) (policy : Policy) (now : ℕ) (k : Kind) (s s' : Store) (new : Provisioned)
    → provision hash cfg drawn input id name role policy now k s ≡ (ok new, s')
    → HasPlainService new.account_user
unfolding provision new_service_account new_human_account with_first_way_in draw_temporary_password
    effects
provision-HasPlainService hash cfg drawn input id name role policy now Kind.service s s' new h =
    ground arith
provision-HasPlainService hash cfg drawn input id name role policy now Kind.human s s' new h =
    let (_, s1, _, r1) =
      then-ok (require (is_address (trim_space input.email)) (invalid_input of_email)) _ s new s'
        h in
    human-HasPlainService new.account_user
      (with_first_way_in-kind hash cfg drawn now _ input.sign_in s1 s' new r1)
provision-HasPlainService hash cfg drawn input id name role policy now Kind.other s s' new h =
    ground arith

pub create_account-Keeps :
    (lower : Text → Text) (a : NewAccount)
    → HasPlainService a.user
    → Keeps HasPlainServices (create_account lower a)
unfolding create_account effects
create_account-Keeps lower a p s h =
    elim (Option-cases (with_invitation lower a.user.id a.invitation s)) [
      | inl absent ↦ ground arith
      | inr (rows, present) ↦ ground arith
    ]

-- The change was checked against the row that it meets.
abbrev IsAllowed : AdminChange → User → Type 0
IsAllowed change u = (is_service u.kind && some_is (λ r. not (is_plain r)) change.role) ≡ false

with_change-HasPlainService :
    (ch : AdminChange) (u : User)
    → IsAllowed ch u
    → HasPlainService u
    → HasPlainService (with_change ch u)
unfolding with_change
with_change-HasPlainService ch u a h = elim (Option-cases ch.policy) [
  | inl e ↦ ground arith
  | inr (p, e) ↦ ground arith
]

change_rows-HasPlainService :
    (id : ℕ) (ch : AdminChange) (us : List User) (u : User)
    → find (λ u. u.id == id) us ≡ some u
    → IsAllowed ch u
    → All HasPlainService us
    → All HasPlainService (change_rows id ch us)
unfolding change_rows
change_rows-HasPlainService id ch [] u f a h = tt
change_rows-HasPlainService id ch (v ∷ us) u f a h =
    ground (arith, with_change-HasPlainService ch v, change_rows-HasPlainService id ch us u)

pub update_admin_state-Keeps :
    (id : ℕ) (ch : AdminChange) (s : Store) (u : User)
    → find (λ u. u.id == id) s.users ≡ some u
    → IsAllowed ch u
    → HasPlainServices s
    → HasPlainServices (update_admin_state id ch s).1
unfolding update_admin_state effects
update_admin_state-Keeps id ch s u f a h =
    ground (arith, change_rows-HasPlainService id ch s.users u f a h)

pub user_by_id-same :
    (id : ℕ) (s s' : Store) (u : User)
    → user_by_id id s ≡ (ok u, s')
    → (find (λ u. u.id == id) s'.users ≡ some u)
unfolding user_by_id effects
user_by_id-same id s s' u h = elim (Option-cases (find (λ u. u.id == id) s.users)) [
  | inl e ↦ ground arith
  | inr (v, e) ↦ ground arith
]

pub check_change-ok :
    (lower : ℕ → ℕ) (cfg : Config) (change : AdminChange) (u : User) (s s' : Store)
    → check_change lower cfg change u s ≡ (ok tt, s')
    → IsAllowed change u × (s' ≡ s)
unfolding check_change effects
check_change-ok lower cfg change u s s' h = (ground arith, ground arith)

pub user_by_id-Keeps : (id : ℕ) → Keeps HasPlainServices (user_by_id id)
unfolding user_by_id effects
user_by_id-Keeps id s h = elim (Option-cases (find (λ u. u.id == id) s.users)) [
  | inl e ↦ ground arith
  | inr (v, e) ↦ ground arith
]

pub check_change-Keeps :
    (lower : ℕ → ℕ) (cfg : Config) (change : AdminChange) (u : User)
    → Keeps HasPlainServices (check_change lower cfg change u)
unfolding check_change
check_change-Keeps lower cfg change u =
    then-Keeps HasPlainServices _ _ (require-Keeps HasPlainServices _ _)
      (require-Keeps HasPlainServices _ _)

pub audited_view-Keeps :
    (e : ℕ → AuditEvent) (id : ℕ)
    → Keeps HasPlainServices (read_clock >>= λ now. record_event (e now) >> view_user id)
unfolding record_event view_user find_view effects
audited_view-Keeps e id s h = elim (Option-cases (find (λ u. u.id == id) s.users)) [
  | inl e ↦ ground arith
  | inr (u, e) ↦ ground arith
]

pub end_sessions-Keeps :
    (lower : ℕ → ℕ) (cfg : Config) (id : ℕ) (status : Option Status)
    → Keeps HasPlainServices (end_sessions_of_blocked lower cfg id status)
unfolding end_sessions_of_blocked delete_by_user effects
end_sessions-Keeps lower cfg id status s h = ground arith
