-- ===== src/Pricing/Service/Served.antt =====
-- The prices in force are always valid, and a check never takes them all away.
use llm_proxy_backend.Prelude.{ℕ, Option, List, [], ◌∷◌}
use llm_proxy_backend.Prelude.Sorting.{sort_by}
use llm_proxy_backend.Identity.{User, require_admin}
use llm_proxy_backend.Pricing.{ModelPrice}
use llm_proxy_backend.Pricing.Book.{PriceBook}
use llm_proxy_backend.Pricing.Valid.{validate_prices}
use llm_proxy_backend.Store.{Store, forbidden, require, read_clock}
use llm_proxy_backend.Store.Keeping.{Keeps, bind-Keeps, then-Keeps, require-Keeps, read_clock-Keeps}
use llm_proxy_backend.Pricing.Tables.{price_lt, replaced, list_manual, replace_manual}
use llm_proxy_backend.Pricing.Service.{
  CatalogSource, adopt_manual, store_manual, replace_prices, check, refresh,
}
use llm_proxy_backend.Pricing.Service.Rated.{AllRated, AllRated-replaced, validate_prices-Rated}
use llm_proxy_backend.Pricing.Service.Trusted.{
  IsTrusted, Trusted, timeless, publish-Trusted, setting-Trusted, reading-Trusted, writing-Trusted,
  sorted-Rated, checked-Trusted,
}
use llm_proxy_backend.Pricing.Service.Checked.{
  check-Trusted, list_locked-Trusted, record_event-Trusted, refresh-Trusted,
}

with_manual :
    (b : PriceBook) (ps : List ModelPrice)
    → AllRated ps
    → IsTrusted b
    → IsTrusted (record b { manual = ps })
with_manual b ps r h = record {
  rated_stored_manual = h.rated_stored_manual;
  rated_stored_catalog = h.rated_stored_catalog;
  rated_manual = r;
  rated_catalog = h.rated_catalog;
  rated_sink = h.rated_sink;
  stored_some = h.stored_some;
  some_priced = h.some_priced;
}

replace_manual-Trusted :
    (prices : List ModelPrice) (now : ℕ)
    → AllRated prices
    → Keeps Trusted (replace_manual prices now)
unfolding replace_manual
replace_manual-Trusted prices now rated =
    writing-Trusted (λ b. record b { stored_manual = replaced now b.stored_manual prices })
      (λ b h. record {
        rated_stored_manual = AllRated-replaced now b.stored_manual prices rated;
        rated_stored_catalog = h.rated_stored_catalog;
        rated_manual = h.rated_manual;
        rated_catalog = h.rated_catalog;
        rated_sink = h.rated_sink;
        stored_some = h.stored_some;
        some_priced = h.some_priced;
      })

adopt_manual-Trusted :
    (source : Option CatalogSource) (actor : User) (prices : List ModelPrice) (now : ℕ)
    → AllRated prices
    → Keeps Trusted (adopt_manual source actor prices now)
unfolding adopt_manual list_manual
adopt_manual-Trusted source actor prices now rated =
    setting-Trusted _ _
      (λ b h. publish-Trusted (record b { manual = prices }) (with_manual b prices rated h))
      (reading-Trusted (λ s. sort_by price_lt s.prices.stored_manual) _
        (λ s h.
          setting-Trusted _ _
            (λ b k.
              with_manual b (sort_by price_lt s.prices.stored_manual)
                (sorted-Rated s.prices.stored_manual h.rated_stored_manual) k)
            (then-Keeps Trusted _ _ (record_event-Trusted _) (list_locked-Trusted source))))

store_manual-Trusted :
    (source : Option CatalogSource) (actor : User) (prices : List ModelPrice)
    → AllRated prices
    → Keeps Trusted (store_manual source actor prices)
unfolding store_manual
store_manual-Trusted source actor prices rated =
    bind-Keeps Trusted read_clock _ (read_clock-Keeps Trusted timeless) (λ now.
      then-Keeps Trusted (replace_manual prices now) (adopt_manual source actor prices now)
        (replace_manual-Trusted prices now rated)
        (adopt_manual-Trusted source actor prices now rated))

replace_prices-Trusted :
    (source : Option CatalogSource) (actor : User) (prices : List ModelPrice)
    → Keeps Trusted (replace_prices source actor prices)
unfolding replace_prices
replace_prices-Trusted source actor prices =
    then-Keeps Trusted (require (require_admin actor) forbidden) _ (require-Keeps Trusted _ _) (
      checked-Trusted (validate_prices prices) (store_manual source actor prices)
        (λ e. store_manual-Trusted source actor prices (validate_prices-Rated prices e)))

-- What an administrator or the schedule asks of the service.
pub data PriceRequest : Type 0 where
  replaces : Option CatalogSource → User → List ModelPrice → PriceRequest
  refreshes : Option CatalogSource → User → PriceRequest
  checks : CatalogSource → PriceRequest

pub serve_price : PriceRequest → Store → Store
serve_price (replaces source actor prices) s = (replace_prices source actor prices s).1
serve_price (refreshes source actor) s = (refresh source actor s).1
serve_price (checks source) s = (check source s).1

pub serve_prices : List PriceRequest → Store → Store
unfolding serve_price
serve_prices [] s = s
serve_prices (r ∷ requests) s = serve_prices requests (serve_price r s)

serve_price-Trusted : (r : PriceRequest) (s : Store) → Trusted s → Trusted (serve_price r s)
unfolding serve_price
serve_price-Trusted (replaces source actor prices) s h =
    replace_prices-Trusted source actor prices s h
serve_price-Trusted (refreshes source actor) s h = refresh-Trusted source actor s h
serve_price-Trusted (checks source) s h = check-Trusted source s h

-- If every price in the tables, in memory and in the sink is of a named provider and model, with rates
-- that are finite and not negative, and some price of the catalog, stored and in memory, is above zero,
-- then so it is after any sequence of replacements, refreshes and scheduled checks, by whomever,
-- whatever the catalog answers and whichever calls fail.
pub serve_prices-Trusted :
    (requests : List PriceRequest) (s : Store) → Trusted s → Trusted (serve_prices requests s)
unfolding serve_prices
serve_prices-Trusted [] s h = h
serve_prices-Trusted (r ∷ requests) s h =
    serve_prices-Trusted requests (serve_price r s) (serve_price-Trusted r s h)
