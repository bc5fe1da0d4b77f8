-- ===== src/Pricing/Book.antt =====
-- The two price lists and the state of the catalog's checks, as stored
-- (internal/infra/postgres/prices/prices.go) and as the price service holds them in memory
-- (internal/app/prices/prices.go, internal/app/ports.go).
use llm_proxy_backend.Prelude.{ℕ, List, []}
use llm_proxy_backend.Prelude.Text.{Text}
use llm_proxy_backend.Pricing.{ModelPrice}

pub record CatalogValidators : Type 0 where
  pub etag : Text
  pub last_modified : Text

-- A time of 0 is never.
pub record CatalogState : Type 0 where
  pub validators : CatalogValidators
  pub fingerprint : Text
  pub checked_at : ℕ
  pub changed_at : ℕ
  pub last_error : Text

abbrev pub no_validators : CatalogValidators
no_validators = record { etag = []; last_modified = [] }

abbrev pub unchecked : CatalogState
unchecked = record {
  validators = no_validators;
  fingerprint = [];
  checked_at = 0;
  changed_at = 0;
  last_error = [];
}

-- `sink` is the list that SetPrices was given last.
pub record PriceBook : Type 0 where
  pub stored_manual : List ModelPrice
  pub stored_catalog : List ModelPrice
  pub stored_state : CatalogState
  pub manual : List ModelPrice
  pub catalog_prices : List ModelPrice
  pub state : CatalogState
  pub sink : List ModelPrice

abbrev pub no_prices : PriceBook
no_prices = record {
  stored_manual = [];
  stored_catalog = [];
  stored_state = unchecked;
  manual = [];
  catalog_prices = [];
  state = unchecked;
  sink = [];
}

pub data PriceField : Type 0 where
  of_provider of_model of_input of_output of_cache_read of_cache_write : PriceField

pub data CheckOutcome : Type 0 where
  changed unchanged check_failed : CheckOutcome

pub record CheckResult : Type 0 where
  pub outcome : CheckOutcome
  pub models : ℕ
  pub failure : Text
