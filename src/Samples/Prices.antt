-- ===== src/Samples/Prices.antt =====
-- A price list and a catalog at work.
use llm_proxy_backend.Prelude.{◌≡◌, refl, false, some, List, [], ◌∷◌}
use llm_proxy_backend.Prelude.Text.{codes, trim_space}
use llm_proxy_backend.Prelude.Float.{plus, flt}
use llm_proxy_backend.Identity.{User, Role}
use llm_proxy_backend.Pricing.{ModelPrice, price_table}
use llm_proxy_backend.Pricing.Book.{no_prices, no_validators}
use llm_proxy_backend.Pricing.Valid.{bad_field}
use llm_proxy_backend.Pricing.Entries.{published}
use llm_proxy_backend.Pricing.Entries.Override.{or_else}
use llm_proxy_backend.Pricing.Entries.InForce.{published-price}
use llm_proxy_backend.Pricing.Service.{CatalogSource, fetched}
use llm_proxy_backend.Pricing.Service.Trusted.{Trusted}
use llm_proxy_backend.Pricing.Service.Served.{
  PriceRequest, replaces, refreshes, serve_prices, serve_prices-Trusted,
}
use llm_proxy_backend.Store.{Store}
use llm_proxy_backend.Samples.{alice, store_of_alice}
use llm_proxy_backend.Samples.Gate.{opus, opus_price}

-- The administrator's price of the same model, and the catalog's of two.
abbrev dear_opus : ModelPrice
dear_opus = record opus_price { input = plus 9 }

abbrev haiku_price : ModelPrice
haiku_price = record opus_price { model = codes "claude-haiku" }

published-price_example :
    price_table (published (opus_price ∷ haiku_price ∷ []) (dear_opus ∷ [])) (codes "claude") opus
    ≡ or_else
        (price_table (dear_opus ∷ []) (codes "claude") opus)
        (price_table (opus_price ∷ haiku_price ∷ []) (codes "claude") opus)
published-price_example =
    published-price (opus_price ∷ haiku_price ∷ []) (dear_opus ∷ []) (codes "claude") opus
      (refl, (refl, tt)) (refl, tt)

abbrev priced_store : Store
priced_store = record store_of_alice {
  prices = record no_prices {
    stored_catalog = opus_price ∷ [];
    catalog_prices = opus_price ∷ [];
    sink = opus_price ∷ [];
  };
}

-- An empty catalog is fetched, and then a list is replaced.
abbrev empty_catalog : CatalogSource
empty_catalog = record {
  fingerprint = [];
  fetch = λ _. fetched false [] no_validators;
  name_of_entry = λ _. [];
  ended_at_fetch = false;
  ended_at_store = false;
}

abbrev admin : User
admin = record alice { role = Role.admin }

abbrev two_requests : List PriceRequest
two_requests =
    refreshes (some empty_catalog) admin ∷ replaces (some empty_catalog) admin (dear_opus ∷ []) ∷ []

priced_store-Trusted : Trusted priced_store
unfolding bad_field trim_space flt
priced_store-Trusted = record {
  rated_stored_manual = tt;
  rated_stored_catalog = (refl, tt);
  rated_manual = tt;
  rated_catalog = (refl, tt);
  rated_sink = (refl, tt);
  stored_some = refl;
  some_priced = refl;
}

serve_prices-Trusted_example : Trusted (serve_prices two_requests priced_store)
serve_prices-Trusted_example = serve_prices-Trusted two_requests priced_store priced_store-Trusted
