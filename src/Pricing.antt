-- ===== src/Pricing.antt =====
-- List prices: which models have one (internal/app/pricing.go), and the in-memory price list
-- (internal/app/price_table.go).
pub mod Book
pub mod Entries
pub mod Valid
pub mod Tables
pub mod Service
use llm_proxy_backend.Prelude.{
  ℕ, Bool, true, false, Option, none, some, List, [], ◌∷◌, ◌&&◌, if◌then◌else◌, all,
}
use llm_proxy_backend.Prelude.Text.{Text, ◌=t◌}
use llm_proxy_backend.Prelude.Float.{Float64}
use llm_proxy_backend.Access.Policy.{Catalog, is_empty, routed}

-- Dollars per million tokens.
pub record ModelPrice : Type 0 where
  pub provider : Text
  pub model : Text
  pub input : Float64
  pub output : Float64
  pub cache_read : Float64
  pub cache_write : Float64
  pub updated_at : ℕ

abbrev pub PriceLookup : Type 0
PriceLookup = Text → Text → Option ModelPrice

-- `SetPrices`: a later price of one model of one provider replaces an earlier one.
unfoldable pub price_table : List ModelPrice → PriceLookup
price_table [] provider model = none
price_table (p ∷ prices) provider model = elim (price_table prices provider model) [
  | some q ↦ some q
  | none ↦ if (p.provider =t provider) && (p.model =t model) then some p else none
]

pub record PricingCatalog : Type 0 where
  pub providers_for : Catalog
  pub known_model : Text → Option Text

-- The name is asked of the registry only where some provider serves the model.
unfoldable pub name_of : Text × List Text → (Text → Option Text) → Option (Text × List Text)
name_of (model, providers) known_model =
    if is_empty providers
    then none
    else elim (known_model model) [ none ↦ none | some name ↦ some (name, providers) ]

unfoldable pub priced_name : PricingCatalog → Text → Option (Text × List Text)
unfolding name_of
priced_name catalog requested = name_of (routed catalog.providers_for requested) catalog.known_model

abbrev pub is_priced : Option ModelPrice → Bool
is_priced none = false
is_priced (some _) = true

unfoldable pub priced_everywhere : PricingCatalog → PriceLookup → Text → Bool
unfolding priced_name
priced_everywhere catalog prices requested = elim (priced_name catalog requested) [
  | none ↦ false
  | some (name, providers) ↦ all (λ provider. is_priced (prices provider name)) providers
]
