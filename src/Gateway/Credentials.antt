-- ===== src/Gateway/Credentials.antt =====
-- The credentials a request presents and whom they authenticate
-- (internal/infra/gateway/access_provider.go). strings.EqualFold is a parameter.
pub mod Sound
use llm_proxy_backend.Prelude.{
  Bool, true, false, ◌||◌, not, Option, none, some, List, [], ◌∷◌, ◌++◌, if◌then◌else◌, any,
}
use llm_proxy_backend.Prelude.Text.{Text, ◌=t◌, codes, cut, trim_space}
use llm_proxy_backend.Access.Policy.{is_empty}
use llm_proxy_backend.Store.{Store, Error, invalid_credentials, Result, ok, err}
use llm_proxy_backend.Tokens.Resolver.{Principal, Grant, resolve}

-- What is read of the request: three headers, and two query parameters with all their values.
pub record Headers : Type 0 where
  pub authorization : Text
  pub x_goog_api_key : Text
  pub x_api_key : Text
  pub key : List Text
  pub auth_token : List Text

pub data Source : Type 0 where
  from_authorization from_goog_api_key from_api_key from_query_key from_query_auth_token : Source

pub record Candidate : Type 0 where
  pub secret : Text
  pub source : Source

unfoldable pub first : List Text → Text
first [] = []
first (v ∷ _) = v

unfoldable pub seen : List Candidate → Text → Bool
seen cs secret = any (λ c. c.secret =t secret) cs

-- The loop over all five places, on what it has kept so far.
unfoldable pub distinct_from : List Candidate → List Candidate → List Candidate
unfolding seen
distinct_from out [] = out
distinct_from out (c ∷ cs) =
    distinct_from (if (c.secret =t []) || seen out c.secret then out else out ++ c ∷ []) cs

-- The upstream errors a refusal carries.
pub data AuthError : Type 0 where
  no_credentials invalid_credential internal : AuthError

pub data Authentication : Type 0 where
  admitted : Principal → Grant → Source → Authentication
  rejected : AuthError → Authentication

-- What one candidate's resolution leads to: only a rejected credential tries the next.
unfoldable pub try_next :
    Result (Principal × Grant) × Store
    → Source
    → (Store → Authentication × Store)
    → Authentication × Store
try_next (ok (principal, grant), s) source next = (admitted principal grant source, s)
try_next (err invalid_credentials, s) source next = next s
try_next (err _, s) source next = (rejected internal, s)

module _ (hash_secret : Text → Text) where
  unfoldable pub resolve_first : List Candidate → Store → Authentication × Store
  unfolding try_next
  resolve_first [] s = (rejected invalid_credential, s)
  resolve_first (c ∷ cs) s = try_next (resolve hash_secret c.secret s) c.source (resolve_first cs)

module _ (equal_fold : Text → Text → Bool) where
  unfoldable pub bearer_token : Text → Text
  bearer_token header = elim (cut b' ' header) [
    | none ↦ header
    | some (scheme, token) ↦ if equal_fold scheme (codes "bearer") then trim_space token else header
  ]

  unfoldable pub credential_candidates : Headers → List Candidate
  unfolding distinct_from bearer_token first
  credential_candidates r = distinct_from [] (
      record { secret = bearer_token r.authorization; source = from_authorization }
      ∷ record { secret = r.x_goog_api_key; source = from_goog_api_key }
      ∷ record { secret = r.x_api_key; source = from_api_key }
      ∷ record { secret = first r.key; source = from_query_key }
      ∷ record { secret = first r.auth_token; source = from_query_auth_token }
      ∷ [])

  module _ (hash_secret : Text → Text) where
    unfoldable pub authenticate : Headers → Store → Authentication × Store
    unfolding credential_candidates resolve_first
    authenticate r s =
        if is_empty (credential_candidates r)
        then (
          rejected (if not (r.authorization =t []) then invalid_credential else no_credentials),
          s,
        )
        else resolve_first hash_secret (credential_candidates r) s
