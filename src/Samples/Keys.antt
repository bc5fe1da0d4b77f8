-- ===== src/Samples/Keys.antt =====
-- API keys at work.
use llm_proxy_backend.Prelude.{◌≡◌, ◌≢◌, refl, true, none, some, find, ◌==◌, [], ◌∷◌, arith, Any}
use llm_proxy_backend.Prelude.Text.{codes, cut, trim_space}
use llm_proxy_backend.Identity.{label}
use llm_proxy_backend.Store.{effects, Store}
use llm_proxy_backend.Store.Tables.{Token}
use llm_proxy_backend.Tokens.Key.{Draw, revoke_key}
use llm_proxy_backend.Tokens.Repo.{token_by_id, save_token, record_event}
use llm_proxy_backend.Access.Policy.{is_empty}
use llm_proxy_backend.Tokens.Resolver.{Principal, Grant, resolve}
use llm_proxy_backend.Tokens.Service.{manages, issue, revoke}
use llm_proxy_backend.Tokens.Service.Limit.{IsWithinLimit, issue-IsWithinLimit}
use llm_proxy_backend.Tokens.Service.Revocation.{IsManager, revoke-resolve}
use llm_proxy_backend.Gateway.Credentials.{
  Headers, from_authorization, authenticate, credential_candidates,
}
use llm_proxy_backend.Gateway.Credentials.Sound.{IsBackedBy, IsSameButCalls, authenticate_sound}
use llm_proxy_backend.Samples.{keep_text, alice, alice_key, store_of_alice}

abbrev pub alice_principal : Principal
alice_principal = record { user_id = 1; token_id = 7; owner = codes "alice" }

abbrev pub alice_grant : Grant
alice_grant = record { policy = alice.policy; spend_limits = none }

-- The store after two calls.
abbrev resolved : Store
resolved = record store_of_alice { calls = 2 }

few_keys : IsWithinLimit store_of_alice
few_keys = record { bound = λ owner. ground arith }

abbrev draw : Draw
draw = record { id = 8; encoded = codes "2" }

issue-IsWithinLimit_example :
    IsWithinLimit (issue keep_text alice 1 (codes "phone") draw store_of_alice).1
issue-IsWithinLimit_example =
    issue-IsWithinLimit keep_text alice 1 (codes "phone") draw store_of_alice few_keys

-- Alice has a second key and revokes it; the first still resolves.
abbrev spare_key : Token
spare_key = record alice_key { id = 9; hash = codes "sk-9" }

abbrev before_revoke : Store
before_revoke = record store_of_alice { tokens = alice_key ∷ spare_key ∷ [] }

abbrev after_revoke : Store
after_revoke = (revoke alice 9 before_revoke).1

abbrev after_resolve : Store
after_resolve = (resolve keep_text (codes "sk-1") after_revoke).1

revoke-resolve_example :
    ((t : Token) × (find (λ t. t.id == 9) before_revoke.tokens ≡ some t)
      × IsManager alice t.user_id)
    × (alice_principal.token_id ≢ 9)
unfolding resolve revoke effects label token_by_id manages revoke_key save_token record_event
revoke-resolve_example =
    revoke-resolve keep_text alice 9 before_revoke after_revoke after_resolve (codes "sk-1")
      alice_principal alice_grant refl refl

abbrev pub alice_headers : Headers
alice_headers = record {
  authorization = codes "Bearer sk-1";
  x_goog_api_key = [];
  x_api_key = [];
  key = [];
  auth_token = [];
}

authenticate_sound_example :
    Any
      (IsBackedBy keep_text store_of_alice.tokens store_of_alice.users alice_principal alice_grant
        from_authorization)
      (credential_candidates (λ _ _. true) alice_headers)
    × IsSameButCalls store_of_alice resolved
unfolding authenticate resolve effects label cut trim_space is_empty
authenticate_sound_example =
    authenticate_sound keep_text (λ _ _. true) alice_headers store_of_alice resolved alice_principal
      alice_grant from_authorization refl
