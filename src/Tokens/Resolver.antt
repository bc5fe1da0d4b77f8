-- ===== src/Tokens/Resolver.antt =====
-- `TokenResolver` (internal/app/principal.go). The hash of a secret is a parameter.
pub mod Refusals
use llm_proxy_backend.Prelude.{ℕ, Bool, ◌||◌, not, Option, none, some, [], if◌then◌else◌}
use llm_proxy_backend.Prelude.Text.{Text, ◌=t◌}
use llm_proxy_backend.Access.Policy.{Policy}
use llm_proxy_backend.Limits.Rules.{RuleSet}
use llm_proxy_backend.Identity.{User, can_use_api, label}
use llm_proxy_backend.Store.{
  Op, Error, not_found, invalid_credentials, forbidden, Result, ok, err, return, fail, require,
  catch, ◌>>=◌, ◌>>◌,
}
use llm_proxy_backend.Tokens.Key.{is_live}
use llm_proxy_backend.Tokens.Repo.{user_by_id, token_by_hash}

pub record Principal : Type 0 where
  pub user_id : ℕ
  pub token_id : ℕ
  pub owner : Text

pub record Grant : Type 0 where
  pub policy : Policy
  pub spend_limits : Option RuleSet

-- A row that is not there is a refusal; any other error is returned as it is.
abbrev pub refused : Error → Error
refused not_found = invalid_credentials
refused e = e

module _ (hash_secret : Text → Text) where
  unfoldable pub resolve : Text → Op (Principal × Grant)
  unfolding token_by_hash user_by_id is_live can_use_api
  resolve secret = do
    require (not (secret =t [])) invalid_credentials
    t ← catch (token_by_hash (hash_secret secret)) return (λ e. fail (refused e))
    require (is_live t) invalid_credentials
    owner ← catch (user_by_id t.user_id) return (λ e. fail (refused e))
    require (can_use_api owner) invalid_credentials
    return (
      record { user_id = t.user_id; token_id = t.id; owner = label owner },
      record { policy = owner.policy; spend_limits = owner.spend_limits },
    )
