-- ===== src/Pricing/Service.antt =====
-- The price service (internal/app/prices/prices.go) over its two tables
-- (internal/infra/postgres/prices/prices.go). What the catalog answers is an argument, and so is
-- whether the context has ended when a fetch or a store has failed. A check reads its validators and
-- later records its outcome; the lists it works on are those at its record. Metrics and logging are
-- left out.
pub mod Rated
pub mod Trusted
pub mod Checked
pub mod Served
use llm_proxy_backend.Prelude.{
  ℕ, Bool, true, false, ◌&&◌, ◌||◌, not, Option, none, some, List, [], ◌∷◌, map, if◌then◌else◌,
  length,
}
use llm_proxy_backend.Prelude.Text.{Text, codes, ◌=t◌}
use llm_proxy_backend.Prelude.Sorting.{text_lt, sort_by}
use llm_proxy_backend.Identity.{User, require_admin}
use llm_proxy_backend.Pricing.{ModelPrice}
use llm_proxy_backend.Pricing.Book.{
  CatalogValidators, CatalogState, no_validators, PriceBook, PriceField, CheckOutcome, changed,
  unchanged, check_failed, CheckResult,
}
use llm_proxy_backend.Pricing.Entries.{Entry, entries, published}
use llm_proxy_backend.Pricing.Valid.{
  validate_prices, accept_catalog, clip, equal_rates, last_for, same_rates,
}
use llm_proxy_backend.Store.{
  Store, Op, Error, forbidden, failed, invalid_price, catalog_disabled, Result, ok, err, return,
  fail, require, read_clock, call, catch, ◌>>=◌, ◌>>◌,
}
use llm_proxy_backend.Store.Tables.{
  AuditEvent, Action, prices_replace, prices_refresh, Detail, of_prices, of_check,
}
use llm_proxy_backend.Tokens.Repo.{record_event}
use llm_proxy_backend.Pricing.Tables.{
  kept_time, stamped, price_lt, replaced, change, set_book, book, list_manual, list_catalog,
  read_state, replace_manual, replace_catalog, set_state,
}

-- `publish`.
unfoldable pub publish : PriceBook → PriceBook
publish b = record b { sink = published b.catalog_prices b.manual }

pub record CatalogStatus : Type 0 where
  pub enabled : Bool
  pub checked_at : ℕ
  pub changed_at : ℕ
  pub models : ℕ
  pub last_error : Text

-- The answer of a fetch; `fetched` says with its first part that nothing changed.
pub data Fetched : Type 0 where
  not_fetched : Text → Fetched
  fetched : Bool → List ModelPrice → CatalogValidators → Fetched

pub record CatalogSource : Type 0 where
  pub fingerprint : Text
  pub fetch : CatalogValidators → Fetched
  pub name_of_entry : ℕ × Option PriceField → Text
  pub ended_at_fetch : Bool
  pub ended_at_store : Bool

abbrev pub is_configured : Option CatalogSource → Bool
is_configured none = false
is_configured (some _) = true

-- `listLocked`.
unfoldable pub list_locked : Option CatalogSource → Op (List Entry × CatalogStatus)
list_locked source = do
  b ← book
  return (
    entries b.catalog_prices b.manual,
    if is_configured source
        then record {
          enabled = true;
          checked_at = b.state.checked_at;
          changed_at = b.state.changed_at;
          models = length b.catalog_prices;
          last_error = b.state.last_error;
        }
        else record {
          enabled = false;
          checked_at = 0;
          changed_at = 0;
          models = 0;
          last_error = [];
        },
  )

unfoldable pub load_catalog : Option CatalogSource → Op (List ModelPrice × CatalogState)
load_catalog none = return (
  [],
  record {
    validators = no_validators;
    fingerprint = [];
    checked_at = 0;
    changed_at = 0;
    last_error = [];
  },
)
load_catalog (some _) = do catalog ← list_catalog; state ← read_state; return (catalog, state)

unfoldable pub load : Option CatalogSource → Op (Unit {0})
load source = do
  manual ← list_manual
  read ← load_catalog source
  set_book (λ b. publish (record b { manual = manual; catalog_prices = read.0; state = read.1 }))

unfoldable pub get_prices : Option CatalogSource → User → Op (List Entry × CatalogStatus)
get_prices source actor = do require (require_admin actor) forbidden; list_locked source

abbrev pub price_event : ℕ → User → Action → Detail → AuditEvent
price_event now actor action detail = record {
  at = now;
  actor_id = actor.id;
  action = action;
  target = 0;
  detail = detail;
  ip = [];
  user_agent = [];
}

unfoldable pub refuse_entry : Option (ℕ × Option PriceField) → Op (Unit {0})
refuse_entry none = return tt
refuse_entry (some (index, field)) = fail (invalid_price index field)

-- `Replace`, from the stored list on: what was submitted goes to the sink before the read-back.
unfoldable pub adopt_manual :
    Option CatalogSource → User → List ModelPrice → ℕ → Op (List Entry × CatalogStatus)
adopt_manual source actor list now = do
  set_book (λ b. publish (record b { manual = list }))
  stored ← list_manual
  set_book (λ b. record b { manual = stored })
  record_event (price_event now actor prices_replace (of_prices (length list)))
  list_locked source

unfoldable pub store_manual :
    Option CatalogSource → User → List ModelPrice → Op (List Entry × CatalogStatus)
store_manual source actor list = do
  now ← read_clock
  replace_manual list now
  adopt_manual source actor list now

unfoldable pub replace_prices :
    Option CatalogSource → User → List ModelPrice → Op (List Entry × CatalogStatus)
replace_prices source actor list = do
  require (require_admin actor) forbidden
  refuse_entry (validate_prices list)
  store_manual source actor list

-- `recordFailure`.
unfoldable pub record_failure : Text → Op CheckResult
record_failure why = do
  set_book (λ b. record b { state = record b.state { last_error = clip why } })
  b ← book
  set_state b.state
  return (record { outcome = check_failed; models = length b.catalog_prices; failure = clip why })

-- What a stored check leaves in memory.
unfoldable pub adopt_unchanged : CatalogState → Op CheckResult
adopt_unchanged state = do
  set_book (λ b. record b { state = state })
  b ← book
  return (record { outcome = unchanged; models = length b.catalog_prices; failure = [] })

unfoldable pub adopt_changed : List ModelPrice → CatalogState → Op CheckResult
adopt_changed prices state = do
  set_book (λ b. publish (record b { state = state; catalog_prices = prices }))
  stored ← list_catalog
  set_book (λ b. record b { catalog_prices = stored })
  return (record { outcome = changed; models = length prices; failure = [] })

-- A store that refuses the check makes it a failed one.
unfoldable pub store_refused : Bool → Op CheckResult
store_refused ended =
    if ended then fail failed else record_failure (codes "the catalog could not be stored")

unfoldable pub store_check :
    (ended is_changed : Bool) → List ModelPrice → CatalogState → ℕ → Op CheckResult
store_check ended true prices state now =
    catch (replace_catalog prices state now) (λ _. adopt_changed prices state)
      (λ _. store_refused ended)
store_check ended false prices state now =
    catch (set_state state) (λ _. adopt_unchanged state) (λ _. store_refused ended)

abbrev pub checked_state :
    CatalogState
    → (now : ℕ) → (is_unchanged is_changed : Bool) → CatalogValidators
    → Text
    → CatalogState
checked_state state now is_unchanged is_changed validators fingerprint = record {
  validators = if is_unchanged then state.validators else validators;
  fingerprint = if is_unchanged then state.fingerprint else fingerprint;
  checked_at = now;
  changed_at = if is_changed then now else state.changed_at;
  last_error = [];
}

-- `recordSuccess`.
unfoldable pub record_success :
    CatalogSource → Bool → List ModelPrice → CatalogValidators → Op CheckResult
record_success source is_unchanged prices validators = do
  now ← read_clock
  b ← book
  let is_changed = not is_unchanged && not (same_rates b.catalog_prices prices)
  store_check source.ended_at_store is_changed prices
      (checked_state b.state now is_unchanged is_changed validators source.fingerprint) now

unfoldable pub check_refused : Bool → Text → Op CheckResult
check_refused ended why = if ended then fail failed else record_failure why

-- A fetched list, with why it is not accepted.
unfoldable pub judge_accepted :
    CatalogSource → List ModelPrice → CatalogValidators → Option Text → Op CheckResult
judge_accepted source prices validators (some why) = check_refused source.ended_at_fetch why
judge_accepted source prices validators none = record_success source false prices validators

unfoldable pub judge_fetched : CatalogSource → Fetched → Op CheckResult
judge_fetched source (not_fetched why) = check_refused source.ended_at_fetch why
judge_fetched source (fetched true prices validators) = record_success source true prices validators
judge_fetched source (fetched false prices validators) =
    judge_accepted source prices validators (accept_catalog source.name_of_entry prices)

unfoldable pub check : CatalogSource → Op CheckResult
check source = do
  b ← book
  judge_fetched source (
      source.fetch
        (if b.state.fingerprint =t source.fingerprint then b.state.validators else no_validators))

unfoldable pub refresh : Option CatalogSource → User → Op (List Entry × CatalogStatus)
refresh none actor = do require (require_admin actor) forbidden; fail catalog_disabled
refresh (some source) actor = do
  require (require_admin actor) forbidden
  res ← check source
  now ← read_clock
  record_event (price_event now actor prices_refresh (of_check res))
  list_locked (some source)
