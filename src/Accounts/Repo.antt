-- ===== src/Accounts/Repo.antt =====
-- The stores of accounts, links and invitations, as account administration calls them
-- (internal/infra/postgres/users/users.go, internal/infra/postgres/identities/identities.go). `ORDER BY`
-- is not modelled.
use llm_proxy_backend.Prelude.{
  ℕ, Bool, true, false, ◌&&◌, ◌||◌, not, Option, none, some, List, [], ◌∷◌, ◌++◌, map, ltb, ◌==◌,
  if◌then◌else◌, any, keep, find,
}
use llm_proxy_backend.Prelude.Text.{Text, ◌=t◌}
use llm_proxy_backend.Identity.{User, Role, Status, PolicySource}
use llm_proxy_backend.Access.Policy.{Policy}
use llm_proxy_backend.Store.{
  Store, Op, not_found, conflict, already_linked, policy_managed_by_idp, ok, err, call, read_clock,
  ◌>>=◌,
}
use llm_proxy_backend.Store.Tables.{
  Password, Link, Pending, SignInMethod, by_password, by_oidc, AuditEvent,
}
use llm_proxy_backend.Auth.Repo.{put_password, has_address}

pub record StoredPassword : Type 0 where
  pub hash : Text
  pub expires_at : Option ℕ

pub record Invitation : Type 0 where
  pub issuer : Text
  pub email : Text
  pub expires_at : ℕ

pub record NewAccount : Type 0 where
  pub user : User
  pub password : Option StoredPassword
  pub invitation : Option Invitation
  pub audit : AuditEvent

-- `none` leaves the field as stored.
pub record AdminChange : Type 0 where
  pub display_name : Option Text
  pub role : Option Role
  pub status : Option Status
  pub policy : Option Policy
  pub refuse_idp_policy : Bool

pub record UserView : Type 0 where
  pub user : User
  pub sign_in : List SignInMethod
  pub invitation_expires_at : Option ℕ

unfoldable pub delete_by_user : ℕ → Op (Unit {0})
delete_by_user user =
    call λ s. (ok tt, record s { sessions = keep (λ x. not (x.user_id == user)) s.sessions })

abbrev pub is_idp : PolicySource → Bool
is_idp PolicySource.idp = true
is_idp _ = false

abbrev pub or_stored : {A : Type 0} → Option A → A → A
or_stored none stored = stored
or_stored (some a) stored = a

-- The columns, each through COALESCE.
abbrev pub changed_policy : Option Policy → User → User
changed_policy none u = u
changed_policy (some policy) u = record u { policy = policy; policy_source = PolicySource.local }

unfoldable pub with_change : AdminChange → User → User
with_change ch u = changed_policy ch.policy (record u {
  display_name = or_stored ch.display_name u.display_name;
  role = or_stored ch.role u.role;
  status = or_stored ch.status u.status;
})

abbrev pub is_set : {A : Type 0} → Option A → Bool
is_set none = false
is_set (some _) = true

-- The WHERE clause's lock on policies that the identity provider manages.
abbrev pub is_refused : AdminChange → User → Bool
is_refused ch u = ch.refuse_idp_policy && is_set ch.policy && is_idp u.policy_source

unfoldable pub change_rows : ℕ → AdminChange → List User → List User
unfolding with_change
change_rows id ch [] = []
change_rows id ch (u ∷ us) = if u.id == id then with_change ch u ∷ us else u ∷ change_rows id ch us

-- The id is the table's primary key: the UPDATE meets at most one row.
unfoldable pub update_admin_state : ℕ → AdminChange → Op (Unit {0})
unfolding change_rows
update_admin_state id ch = call λ s. elim (find (λ u. u.id == id) s.users) [
  | none ↦ (err not_found, s)
  | some u ↦
      if is_refused ch u
      then (err policy_managed_by_idp, s)
      else (ok tt, record s { users = change_rows id ch s.users })
]

-- The passwords that admit at the database's time.
abbrev pub is_current : Option ℕ → ℕ → Bool
is_current none now = true
is_current (some expires_at) now = ltb now expires_at

-- userViewQuery and `view`.
unfoldable pub view_of : User → ℕ → Store → UserView
view_of u now s =
    let linked = any (λ l. l.user_id == u.id) s.identities in
    record {
      user = u;
      sign_in =
          (if any (λ p. (p.user_id == u.id) && is_current p.expires_at now) s.passwords
            then by_password ∷ []
            else [])
          ++ (if linked then by_oidc ∷ [] else []);
      invitation_expires_at =
          if linked then none else (elim (find (λ p. p.user_id == u.id) s.invitations) [
            | none ↦ none
            | some p ↦ some p.expires_at
          ]);
    }

unfoldable pub find_view : ℕ → ℕ → Op UserView
unfolding view_of
find_view id now s = elim (find (λ u. u.id == id) s.users) [
  | none ↦ (err not_found, s)
  | some u ↦ (ok (view_of u now s), s)
]

-- `View`.
unfoldable pub view_user : ℕ → Op UserView
view_user id = call (read_clock >>= find_view id)

-- `List`.
unfoldable pub list_users : Op (List UserView)
unfolding view_of
list_users = call (read_clock >>= λ now. λ s. (ok (map (λ u. view_of u now s) s.users), s))

abbrev pub inserted : ℕ → User → User
inserted now u = if u.created_at == 0 then record u { created_at = now } else u

module _ (lower : Text → Text) where
  -- The primary key and the unique index on lower(email), which skips accounts with no address.
  abbrev pub is_taken : User → List User → Bool
  is_taken u users =
      any (λ v. (v.id == u.id) || (not (u.email =t []) && has_address lower u.email v)) users

  -- `Create`: an account with no creation time gets the database's.
  unfoldable pub create_user_row : User → Op (Unit {0})
  create_user_row u = call (
      read_clock >>= λ now. λ s.
        if is_taken u s.users
        then (err conflict, s)
        else (ok tt, record s { users = inserted now u ∷ s.users }))

  -- The DELETE and the INSERT of an invitation: `none` is ErrAlreadyLinked, which rolls both back.
  unfoldable pub write_invitation :
      List Link → ℕ → Invitation → List Pending → Option (List Pending)
  write_invitation links user inv pending =
      if any (λ l. l.user_id == user) links
      then none
      else some (
          record {
            user_id = user;
            issuer = inv.issuer;
            expected_email = inv.email;
            expires_at = inv.expires_at;
          }
          ∷ keep
              (λ p. not (
                (p.user_id == user)
                || ((p.issuer =t inv.issuer) && (lower p.expected_email =t lower inv.email))))
              pending)

  unfoldable pub invite : ℕ → Invitation → Op (Unit {0})
  invite user inv = call λ s. elim (write_invitation s.identities user inv s.invitations) [
    | none ↦ (err already_linked, s)
    | some pending ↦ (ok tt, record s { invitations = pending })
  ]

  -- `CreateAccount`: one transaction, whose effect is nothing if any of its statements fails.
  abbrev pub with_password : ℕ → Option StoredPassword → List Password → List Password
  with_password user none rows = rows
  with_password user (some p) rows =
      put_password (record { user_id = user; hash = p.hash; expires_at = p.expires_at }) rows

  abbrev pub with_invitation : ℕ → Option Invitation → Store → Option (List Pending)
  with_invitation user none s = some s.invitations
  with_invitation user (some inv) s = write_invitation s.identities user inv s.invitations

  unfoldable pub create_account : NewAccount → Op (Unit {0})
  unfolding write_invitation put_password
  create_account account = call λ s.
      if is_taken account.user s.users
      then (err conflict, s)
      else elim (with_invitation account.user.id account.invitation s) [
        | none ↦ (err already_linked, s)
        | some pending ↦ (
          ok tt,
          record s {
            users = account.user ∷ s.users;
            passwords = with_password account.user.id account.password s.passwords;
            invitations = pending;
            audit = account.audit ∷ s.audit;
          },
        )
      ]
