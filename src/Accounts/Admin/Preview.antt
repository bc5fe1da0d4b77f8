-- ===== src/Accounts/Admin/Preview.antt =====
-- The policy editor's reads (`Catalog` and `PolicyPreview`, internal/app/adminusers/adminusers.go). The
-- catalogue is given: its providers with their models, in any order, and the providers of a model.
use llm_proxy_backend.Prelude.{ℕ, Bool, ◌&&◌, ◌||◌, none, some, List, [], ◌∷◌, ◌++◌, if◌then◌else◌}
use llm_proxy_backend.Prelude.Text.{Text, ◌=t◌}
use llm_proxy_backend.Prelude.Sorting.{text_lt, sort_by}
use llm_proxy_backend.Access.Rule.{parse_rule}
use llm_proxy_backend.Access.Policy.{Policy, Catalog, admits}
use llm_proxy_backend.Identity.{User, require_admin}
use llm_proxy_backend.Store.{Op, forbidden, return, require, ◌>>◌}

pub record CatalogProvider : Type 0 where
  pub name : Text
  pub models : List Text

pub record CoveredModel : Type 0 where
  pub provider : Text
  pub model : Text

pub record PolicyPreview : Type 0 where
  pub invalid : List Text
  pub covered : List CoveredModel

unfoldable pub sorted_models : List CatalogProvider → List CatalogProvider
unfolding sort_by text_lt
sorted_models [] = []
sorted_models (p ∷ served) = record p { models = sort_by text_lt p.models } ∷ sorted_models served

unfoldable pub catalog_for : User → List CatalogProvider → Op (List CatalogProvider)
unfolding sorted_models
catalog_for actor served =
    require (require_admin actor) forbidden
    >> return (sort_by (λ p q. text_lt p.name q.name) (sorted_models served))

abbrev pub covered_lt : CoveredModel → CoveredModel → Bool
covered_lt a b =
    text_lt a.provider b.provider || ((a.provider =t b.provider) && text_lt a.model b.model)

module _ (lower : ℕ → ℕ) where
  unfoldable pub invalid_rules : List Text → List Text
  invalid_rules [] = []
  invalid_rules (raw ∷ rules) = elim (parse_rule lower raw) [
    | none ↦ raw ∷ invalid_rules rules
    | some _ ↦ invalid_rules rules
  ]

  unfoldable pub valid_policy : List Text → Policy
  valid_policy [] = []
  valid_policy (raw ∷ rules) = elim (parse_rule lower raw) [
    | none ↦ valid_policy rules
    | some r ↦ r ∷ valid_policy rules
  ]

  unfoldable pub covered_by : Policy → Catalog → Text → List Text → List CoveredModel
  covered_by policy catalog provider [] = []
  covered_by policy catalog provider (model ∷ models) =
      let rest = covered_by policy catalog provider models in
      if admits lower policy catalog model
      then record { provider = provider; model = model } ∷ rest
      else rest

  unfoldable pub covered_models : Policy → Catalog → List CatalogProvider → List CoveredModel
  unfolding covered_by
  covered_models policy catalog [] = []
  covered_models policy catalog (p ∷ served) =
      covered_by policy catalog p.name p.models ++ covered_models policy catalog served

  unfoldable pub policy_preview :
      User → Catalog → List CatalogProvider → List Text → Op PolicyPreview
  unfolding invalid_rules valid_policy covered_models sort_by
  policy_preview actor catalog served rules =
      require (require_admin actor) forbidden
      >> return (record {
        invalid = invalid_rules rules;
        covered = sort_by covered_lt (covered_models (valid_policy rules) catalog served);
      })
