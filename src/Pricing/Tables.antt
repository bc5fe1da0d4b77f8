-- ===== src/Pricing/Tables.antt =====
-- The tables of prices (internal/infra/postgres/prices/prices.go), and the service's own fields
-- (internal/app/prices/prices.go).
use llm_proxy_backend.Prelude.{ℕ, Bool, ◌&&◌, ◌||◌, Option, none, some, List, map, if◌then◌else◌}
use llm_proxy_backend.Prelude.Text.{◌=t◌}
use llm_proxy_backend.Prelude.Sorting.{text_lt, sort_by}
use llm_proxy_backend.Pricing.{ModelPrice}
use llm_proxy_backend.Pricing.Book.{CatalogState, PriceBook}
use llm_proxy_backend.Pricing.Valid.{equal_rates, last_for}
use llm_proxy_backend.Store.{Store, Op, ok, call}

-- `replacePrices`: a row whose rates did not change keeps its time.
unfoldable pub kept_time : ℕ → ModelPrice → Option ModelPrice → ℕ
kept_time at p none = at
kept_time at p (some old) = if equal_rates old p then old.updated_at else at

unfoldable pub stamped : ℕ → List ModelPrice → ModelPrice → ModelPrice
unfolding kept_time
stamped at before p = record p { updated_at = kept_time at p (last_for p.provider p.model before) }

abbrev pub price_lt : ModelPrice → ModelPrice → Bool
price_lt a b =
    text_lt a.provider b.provider || ((a.provider =t b.provider) && text_lt a.model b.model)

abbrev pub replaced : ℕ → List ModelPrice → List ModelPrice → List ModelPrice
replaced at before prices = map (stamped at before) prices

abbrev pub change : (PriceBook → PriceBook) → Store → Store
change f s = record s { prices = f s.prices }

-- The service's own fields, under its mutex.
unfoldable pub set_book : (PriceBook → PriceBook) → Op (Unit {0})
set_book f s = (ok tt, change f s)

unfoldable pub book : Op PriceBook
book s = (ok s.prices, s)

-- `List` of either table: ORDER BY provider, model.
unfoldable pub list_manual : Op (List ModelPrice)
list_manual = call λ s. (ok (sort_by price_lt s.prices.stored_manual), s)

unfoldable pub list_catalog : Op (List ModelPrice)
list_catalog = call λ s. (ok (sort_by price_lt s.prices.stored_catalog), s)

unfoldable pub read_state : Op CatalogState
read_state = call λ s. (ok s.prices.stored_state, s)

unfoldable pub replace_manual : List ModelPrice → ℕ → Op (Unit {0})
unfolding stamped
replace_manual prices at =
    call
      λ s. (ok tt, change (λ b. record b { stored_manual = replaced at b.stored_manual prices }) s)

unfoldable pub replace_catalog : List ModelPrice → CatalogState → ℕ → Op (Unit {0})
unfolding stamped
replace_catalog prices state at = call λ s. (
  ok tt,
  change
      (λ b. record b { stored_catalog = replaced at b.stored_catalog prices; stored_state = state })
      s,
)

unfoldable pub set_state : CatalogState → Op (Unit {0})
set_state state = call λ s. (ok tt, change (λ b. record b { stored_state = state }) s)
