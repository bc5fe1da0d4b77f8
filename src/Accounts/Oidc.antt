-- ===== src/Accounts/Oidc.antt =====
-- Sign-in through an identity provider (internal/app/auth/oidc.go, internal/app/challenge.go). The
-- provider's answer to a code and the derivation of an account's id from a subject are parameters.
pub mod Repo
pub mod Policies
pub mod Resolution
pub mod Linked
pub mod Owners
pub mod Eligible
use llm_proxy_backend.Prelude.{
  ℕ, Bool, true, false, ◌&&◌, ◌||◌, not, Option, none, some, List, [], ◌∷◌, any, if◌then◌else◌,
}
use llm_proxy_backend.Prelude.Text.{Text, ◌=t◌}
use llm_proxy_backend.Access.Policy.{Policy}
use llm_proxy_backend.Identity.{User, Kind, Role, Status, PolicySource, can_sign_in}
use llm_proxy_backend.Store.{
  Op, Error, Result, forbidden, not_found, conflict, invalid_credentials, return, fail, lift, call,
  catch, require, read_clock, ◌>>=◌, ◌>>◌,
}
use llm_proxy_backend.Store.Tables.{Session, auth_signin_oidc}
use llm_proxy_backend.Tokens.Repo.{user_by_id}
use llm_proxy_backend.Auth.Session.{Meta, open_session}
use llm_proxy_backend.Accounts.Repo.{create_user_row}
use Repo.{
  by_subject, link, pending_by_email, consume_pending, fill_display_name, save_identity_state,
}
use Policies.{GroupGrant, policy_for, contains, is_mapped}

pub record Claims : Type 0 where
  pub issuer : Text
  pub subject : Text
  pub email : Text
  pub email_verified : Bool
  pub groups : List Text
  pub name : Text

pub record Challenge : Type 0 where
  pub state : Text
  pub nonce : Text
  pub verifier : Text

-- The fields of `OIDC` that configuration sets.
pub record Oidc : Type 0 where
  pub required_group : Text
  pub allow_sign_up : Bool
  pub default_policy : Policy
  pub grants : List GroupGrant

unfoldable pub answers : Challenge → Text → Bool
answers ch state = if (state =t []) || (ch.state =t []) then false else state =t ch.state

unfoldable pub lacks_group : Oidc → Claims → Bool
lacks_group cfg claims =
    not (cfg.required_group =t []) && not (contains claims.groups cfg.required_group)

unfoldable pub eligible : ℕ → Op User
eligible id = do user ← user_by_id id; require (can_sign_in user) invalid_credentials; return user

-- The invitation is spent before the link is written.
unfoldable pub redeem : Claims → ℕ → Op User
redeem claims invited = do
  user ← eligible invited
  consume_pending user.id
  link user.id claims.issuer claims.subject
  return user

-- The switch on the error of a lookup: `m` where the row is not there.
unfoldable pub if_not_found : {A : Type 0} → Op A → Error → Op A
if_not_found m not_found = m
if_not_found m e = fail e

abbrev pub is_conflict : Error → Bool
is_conflict conflict = true
is_conflict _ = false

-- What an address that is taken leaves: the subject's own account, or the conflict.
unfoldable pub own_account : ℕ → Error → Op User
unfolding if_not_found
own_account id e =
    if is_conflict e then catch (eligible id) return (if_not_found (fail conflict)) else fail e

module _ (cfg : Oidc) where
  unfoldable pub signed_up_user : ℕ → Claims → ℕ → User
  unfolding is_mapped
  signed_up_user id claims now = record {
    id = id;
    kind = Kind.human;
    email = if claims.email_verified then claims.email else [];
    display_name = claims.name;
    role = Role.plain;
    status = Status.active;
    policy =
        if is_mapped cfg.grants then policy_for cfg.grants claims.groups else cfg.default_policy;
    policy_source = if is_mapped cfg.grants then PolicySource.idp else PolicySource.local;
    spend_limits = none;
    must_change_password = false;
    last_seen_at = none;
    created_at = now;
  }

  module _ (lower : Text → Text) (sign_up_id : Text → Text → ℕ) where
    unfoldable pub sign_up : Claims → Op User
    unfolding own_account
    sign_up claims = do
      now ← read_clock
      let new = signed_up_user (sign_up_id claims.issuer claims.subject) claims now
      user ← catch (create_user_row lower new) (λ _. return new) (own_account new.id)
      link user.id claims.issuer claims.subject
      return user

    unfoldable pub stranger : Claims → Op User
    stranger claims = require cfg.allow_sign_up forbidden >> sign_up claims

    unfoldable pub invited_or_stranger : Claims → Op User
    invited_or_stranger claims =
        if claims.email_verified && not (claims.email =t [])
        then catch (pending_by_email lower claims.issuer claims.email) (redeem claims)
            (if_not_found (stranger claims))
        else stranger claims

    -- `resolve`.
    unfoldable pub resolve_claims : Claims → Op User
    resolve_claims claims =
        catch (by_subject claims.issuer claims.subject) eligible
          (if_not_found (invited_or_stranger claims))

    -- A name where the account has none.
    unfoldable pub with_name : Claims → User → Op User
    with_name claims user =
        if (user.display_name =t []) && not (claims.name =t [])
        then (fill_display_name user.id claims.name >>= λ filled.
            return (if filled then record user { display_name = claims.name } else user))
        else return user

    -- The groups' policy, where there is a mapping.
    unfoldable pub with_policy : Claims → User → Op User
    with_policy claims user =
        let mapped = record user {
          policy = policy_for cfg.grants claims.groups;
          policy_source = PolicySource.idp;
        } in
        if is_mapped cfg.grants
        then (save_identity_state lower mapped >> return mapped)
        else return user

    module _ (exchange : Text → Challenge → Result Claims) (hash_session : Text → Text) where
      unfoldable pub complete : Text → Text → Challenge → Meta → Text → Op Session
      complete code state ch meta id = do
        require (answers ch state) invalid_credentials
        claims ← call (lift (exchange code ch))
        require (not (lacks_group cfg claims)) forbidden
        user ← resolve_claims claims
        named ← with_name claims user
        entitled ← with_policy claims named
        open_session hash_session entitled auth_signin_oidc meta id
