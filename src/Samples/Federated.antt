-- ===== src/Samples/Federated.antt =====
-- A login through an identity provider at work.
use llm_proxy_backend.Prelude.{ℕ, ◌≡◌, refl, true, false, [], ◌∷◌, ◌+◌, ◌*◌, ◌&&◌, any}
use llm_proxy_backend.Prelude.Text.{Text, codes}
use llm_proxy_backend.Identity.{can_sign_in}
use llm_proxy_backend.Store.{effects, Store, Result, ok}
use llm_proxy_backend.Store.Tables.{Session}
use llm_proxy_backend.Tokens.Repo.{user_by_id, record_event}
use llm_proxy_backend.Auth.Repo.{create_session}
use llm_proxy_backend.Auth.Session.{Meta, open_session, stored_session}
use llm_proxy_backend.Accounts.Oidc.Repo.{by_subject, fill_display_name, save_identity_state}
use llm_proxy_backend.Accounts.Oidc.Policies.{
  GroupGrant, policy_for, contains, is_mapped, holds_rule, distinct, policy_for-union,
}
use llm_proxy_backend.Accounts.Oidc.{
  Claims, Challenge, Oidc, answers, lacks_group, eligible, resolve_claims, with_name, with_policy,
  complete,
}
use llm_proxy_backend.Accounts.Oidc.Linked.{complete-linked}
use llm_proxy_backend.Accounts.Oidc.Resolution.{IsLinkedTo}
use llm_proxy_backend.Accounts.Oidc.Eligible.{complete-eligible}
use llm_proxy_backend.Samples.{keep_text, hour, alice, any_claude, store_of_alice}

abbrev staff : GroupGrant
staff = record { group = codes "staff"; policy = any_claude ∷ any_claude ∷ [] }

abbrev oidc : Oidc
oidc = record {
  required_group = codes "staff";
  allow_sign_up = false;
  default_policy = [];
  grants = staff ∷ [];
}

abbrev ch : Challenge
ch = record { state = codes "state"; nonce = codes "nonce"; verifier = codes "verifier" }

abbrev claims : Claims
claims = record {
  issuer = codes "idp";
  subject = codes "42";
  email = codes "alice";
  email_verified = true;
  groups = codes "staff" ∷ [];
  name = codes "Alice";
}

abbrev exchange : Text → Challenge → Result Claims
exchange _ _ = ok claims

abbrev derived_id : Text → Text → ℕ
derived_id _ _ = 77

abbrev browser : Meta
browser = record { ip = []; user_agent = [] }

abbrev linked_store : Store
linked_store = record store_of_alice {
  identities = record { user_id = 1; issuer = codes "idp"; subject = codes "42" } ∷ [];
}

abbrev signed_in : Store
signed_in =
    (complete oidc keep_text derived_id exchange keep_text (codes "code") (codes "state") ch browser
      (codes "new") linked_store).1

abbrev session : Session
session = record {
  id = codes "new";
  id_hash = codes "new";
  user_id = 1;
  restricted = false;
  ip = [];
  user_agent = [];
  created_at = 100;
  expires_at = 100 + 12 * hour;
}

complete-linked_example :
    (c : Claims) × (answers ch (codes "state") ≡ true)
    × (exchange (codes "code") ch ≡ ok c)
    × (lacks_group oidc c ≡ false)
    × IsLinkedTo c 1 signed_in
unfolding complete effects answers lacks_group resolve_claims by_subject eligible user_by_id
    can_sign_in with_name fill_display_name with_policy is_mapped policy_for save_identity_state
    open_session stored_session create_session record_event
complete-linked_example =
    complete-linked oidc keep_text derived_id exchange keep_text (codes "code") (codes "state") ch
      browser (codes "new") linked_store signed_in session refl

complete-eligible_example : can_sign_in alice ≡ true
unfolding complete effects answers lacks_group resolve_claims by_subject eligible user_by_id
    can_sign_in with_name fill_display_name with_policy is_mapped policy_for save_identity_state
    open_session stored_session create_session record_event
complete-eligible_example =
    complete-eligible oidc keep_text derived_id exchange keep_text (codes "code") (codes "state") ch
      browser (codes "new") linked_store signed_in session alice refl refl

policy_for-union_example :
    (holds_rule (codes "claude:*") (policy_for (staff ∷ []) (codes "staff" ∷ []))
      ≡ any
          (λ g. contains (codes "staff" ∷ []) g.group && holds_rule (codes "claude:*") g.policy)
          (staff ∷ []))
    × (distinct (policy_for (staff ∷ []) (codes "staff" ∷ [])) ≡ true)
policy_for-union_example = policy_for-union (codes "claude:*") (staff ∷ []) (codes "staff" ∷ [])
