-- ===== src/Pricing/Entries.antt =====
-- The effective price list: `entriesLocked`, and what `publish` hands to the sink
-- (internal/app/prices/prices.go).
pub mod Override
pub mod Overlay
pub mod InForce
use llm_proxy_backend.Prelude.{
  Bool, ◌&&◌, ◌||◌, Option, none, some, List, [], ◌∷◌, ◌++◌, map, if◌then◌else◌, any,
}
use llm_proxy_backend.Prelude.Text.{Text, ◌=t◌}
use llm_proxy_backend.Prelude.Sorting.{text_lt, sort_by}
use llm_proxy_backend.Pricing.{ModelPrice}

pub data Source : Type 0 where
  from_catalog from_manual : Source

pub record Entry : Type 0 where
  pub price : ModelPrice
  pub source : Source
  pub catalog : Option ModelPrice

abbrev pub is_for : ModelPrice → Text → Text → Bool
is_for p provider model = (p.provider =t provider) && (p.model =t model)

-- The key of an entry is that of a price.
abbrev pub same_key : ModelPrice → Entry → Bool
same_key m e = is_for e.price m.provider m.model

abbrev pub catalog_entry : ModelPrice → Entry
catalog_entry p = record { price = p; source = from_catalog; catalog = none }

abbrev pub manual_entry : ModelPrice → Entry
manual_entry p = record { price = p; source = from_manual; catalog = none }

-- Writing over the place that `at` has for the key: the last of the catalog's with it.
unfoldable pub override_entry : ModelPrice → List Entry → List Entry
override_entry m [] = []
override_entry m (e ∷ entries) =
    let rest = override_entry m entries in
    if any (same_key m) entries
    then e ∷ rest
    else if same_key m e
    then record { price = m; source = from_manual; catalog = some e.price } ∷ entries
    else e ∷ entries

-- The second loop: the catalog's places, and what was appended behind them.
unfoldable pub overlay : List Entry → List Entry → List ModelPrice → List Entry
unfolding override_entry
overlay places appended [] = places ++ appended
overlay places appended (m ∷ manual) =
    overlay (override_entry m places)
      (if any (same_key m) places then appended else appended ++ manual_entry m ∷ []) manual

abbrev pub entry_lt : Entry → Entry → Bool
entry_lt a b =
    text_lt a.price.provider b.price.provider
    || ((a.price.provider =t b.price.provider) && text_lt a.price.model b.price.model)

-- slices.SortFunc leaves open how entries of one key are ordered; here they keep their order. Where no
-- key repeats within either list, as in the tables, whose primary key it is, every sort gives this list.
unfoldable pub entries : (catalog manual : List ModelPrice) → List Entry
unfolding overlay sort_by
entries catalog manual = sort_by entry_lt (overlay (map catalog_entry catalog) [] manual)

-- The list for SetPrices.
unfoldable pub published : (catalog manual : List ModelPrice) → List ModelPrice
unfolding entries
published catalog manual = map (λ e. e.price) (entries catalog manual)
