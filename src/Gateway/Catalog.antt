-- ===== src/Gateway/Catalog.antt =====
-- The catalogue of models (internal/infra/gateway/catalog.go). Upstream's registry is two parameters:
-- the keys of the providers registered for a model, and the models available, of which one may have no
-- name. Lower casing is a parameter.
pub mod Reserved
use llm_proxy_backend.Prelude.{
  ℕ, Bool, true, false, ◌&&◌, ◌||◌, not, Option, none, some, List, [], ◌∷◌, ◌++◌, map, any,
  if◌then◌else◌,
}
use llm_proxy_backend.Prelude.Text.{Text, codes, ◌=t◌, trim_space}
use llm_proxy_backend.Prelude.Sorting.{text_lt, sort_by}
use llm_proxy_backend.Access.Policy.{Catalog, is_empty}
use llm_proxy_backend.Usage.Detail.{has_prefix, openai_compatibility_key, openai_compatible_prefix}
use llm_proxy_backend.Usage.Event.{codex_provider_key, trim_prefix, policy_provider}
use llm_proxy_backend.Accounts.Admin.Preview.{CatalogProvider}

abbrev pub xai_provider_key : Text
xai_provider_key = codes "xai"

module _ (lower : ℕ → ℕ) (model_providers : Text → List Text) where
  -- The keys registered for a model as given, or else for its lower case.
  unfoldable pub provider_keys : Text → List Text
  unfolding is_empty
  provider_keys model =
      let keys = model_providers model in
      let lowered = map lower model in
      if is_empty keys && not (lowered =t model) then model_providers lowered else keys

  unfoldable pub policy_names : List Text → List Text → List Text
  unfolding policy_provider
  policy_names [] names = names
  policy_names (key ∷ keys) names =
      let name = policy_provider key in
      policy_names keys
        (if (name =t []) || any (λ n. n =t name) names then names else names ++ name ∷ [])

  unfoldable pub providers_for : Catalog
  unfolding provider_keys policy_names sort_by text_lt
  providers_for model = sort_by text_lt (policy_names (provider_keys model) [])

  unfoldable pub known_model : Text → Option Text
  unfolding is_empty
  known_model model =
      let lowered = map lower model in
      if not (is_empty (model_providers model))
      then some model
      else if not (lowered =t model) && not (is_empty (model_providers lowered))
      then some lowered
      else none

  -- Adds a model to a provider's, once.
  unfoldable pub add_model : Text → Text → List CatalogProvider → List CatalogProvider
  add_model id provider [] = record { name = provider; models = id ∷ [] } ∷ []
  add_model id provider (p ∷ out) =
      if p.name =t provider
      then (if any (λ m. m =t id) p.models then p else record p { models = p.models ++ id ∷ [] })
        ∷ out
      else p ∷ add_model id provider out

  unfoldable pub add_to_all : Text → List Text → List CatalogProvider → List CatalogProvider
  unfolding add_model
  add_to_all id [] out = out
  add_to_all id (provider ∷ providers) out = add_to_all id providers (add_model id provider out)

  unfoldable pub grouped : List (Option Text) → List CatalogProvider → List CatalogProvider
  unfolding providers_for add_to_all
  grouped [] out = out
  grouped (none ∷ available) out = grouped available out
  grouped (some id ∷ available) out =
      grouped available (if id =t [] then out else add_to_all id (providers_for id) out)

  unfoldable pub models_sorted : List CatalogProvider → List CatalogProvider
  unfolding sort_by text_lt
  models_sorted [] = []
  models_sorted (p ∷ out) = record p { models = sort_by text_lt p.models } ∷ models_sorted out

  unfoldable pub models : List (Option Text) → List CatalogProvider
  unfolding grouped models_sorted
  models available = models_sorted (grouped available [])

unfoldable pub compat_provider_key : (lower : ℕ → ℕ) → Text → Text
unfolding trim_space has_prefix
compat_provider_key lower name =
    let key = map lower (trim_space name) in
    if key =t []
    then openai_compatibility_key
    else if (key =t openai_compatibility_key) || has_prefix key openai_compatible_prefix
    then key
    else openai_compatible_prefix ++ key

abbrev pub builtin_providers : List Text
builtin_providers =
    codex_provider_key
    ∷ codes "claude"
    ∷ codes "gemini"
    ∷ codes "gemini-interactions"
    ∷ codes "vertex"
    ∷ codes "aistudio"
    ∷ codes "antigravity"
    ∷ codes "kimi"
    ∷ codes "kimi-ai"
    ∷ codes "kimi.ai"
    ∷ codes "kimi.com"
    ∷ xai_provider_key
    ∷ codes "devin"
    ∷ codes "meta"
    ∷ codes "home"
    ∷ openai_compatibility_key
    ∷ []

unfoldable pub reserved_among : Text → List Text → Bool
unfolding policy_provider
reserved_among name [] = false
reserved_among name (key ∷ keys) =
    (name =t key) || (name =t policy_provider key) || reserved_among name keys

unfoldable pub reserved_provider_name : Text → Bool
unfolding reserved_among
reserved_provider_name name = reserved_among name builtin_providers

unfoldable pub compat_name_refused : (lower : ℕ → ℕ) → Text → Bool
unfolding compat_provider_key trim_prefix policy_provider reserved_provider_name
compat_name_refused lower name =
    let key = compat_provider_key lower name in
    (trim_prefix key openai_compatible_prefix key =t [])
    || reserved_provider_name (policy_provider key)
