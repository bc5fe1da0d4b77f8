-- ===== src/Pricing/Service/Trusted.antt =====
-- Valid prices in the tables, in memory and in the sink, and what keeps them so.
use llm_proxy_backend.Prelude.{
  ℕ, ◌≡◌, refl, Bool, true, false, Option, none, some, List, if◌then◌else◌,
}
use llm_proxy_backend.Prelude.Text.{Text}
use llm_proxy_backend.Prelude.Sorting.{sort_by}
use llm_proxy_backend.Pricing.{ModelPrice}
use llm_proxy_backend.Pricing.Book.{PriceBook, PriceField}
use llm_proxy_backend.Store.{
  Store, Op, ok, err, tick, failed, after, call, return, fail, ◌>>=◌, ◌>>◌,
}
use llm_proxy_backend.Store.Keeping.{Keeps, then-Keeps, call-Keeps, return-Keeps, fail-Keeps}
use llm_proxy_backend.Pricing.Tables.{price_lt, change, set_book, book, set_state}
use llm_proxy_backend.Pricing.Service.{
  publish, refuse_entry, record_failure, store_refused, check_refused,
}
use llm_proxy_backend.Pricing.Service.Rated.{
  AllRated, prices_some, All-sort_by, IsRated, published-Rated,
}

-- The prices in memory, in the tables and in the sink are valid, and the catalog prices something.
pub record IsValidBook (stored_manual stored_catalog manual catalog_prices sink : List ModelPrice)
    : Type 0 where
  pub rated_stored_manual : AllRated stored_manual
  pub rated_stored_catalog : AllRated stored_catalog
  pub rated_manual : AllRated manual
  pub rated_catalog : AllRated catalog_prices
  pub rated_sink : AllRated sink
  pub stored_some : prices_some stored_catalog ≡ true
  pub some_priced : prices_some catalog_prices ≡ true

abbrev pub IsTrusted : PriceBook → Type 0
IsTrusted b = IsValidBook b.stored_manual b.stored_catalog b.manual b.catalog_prices b.sink

abbrev pub Trusted : Store → Type 0
Trusted s = IsTrusted s.prices

pub timeless : (s : Store) → Trusted s → Trusted (tick s)
timeless s h = h

-- A change of the book that keeps it so.
pub set_book-Trusted :
    (f : PriceBook → PriceBook)
    → ((b : PriceBook) → IsTrusted b → IsTrusted (f b))
    → Keeps Trusted (set_book f)
unfolding set_book
set_book-Trusted f k s h = k s.prices h

pub publish-Trusted : (b : PriceBook) → IsTrusted b → IsTrusted (publish b)
unfolding publish
publish-Trusted b h = record {
  rated_stored_manual = h.rated_stored_manual;
  rated_stored_catalog = h.rated_stored_catalog;
  rated_manual = h.rated_manual;
  rated_catalog = h.rated_catalog;
  rated_sink = published-Rated b.catalog_prices b.manual h.rated_catalog h.rated_manual;
  stored_some = h.stored_some;
  some_priced = h.some_priced;
}

pub setting-Trusted :
    {B : Type 0} (f : PriceBook → PriceBook) (m : Op B)
    → ((b : PriceBook) → IsTrusted b → IsTrusted (f b))
    → Keeps Trusted m
    → Keeps Trusted (set_book f >> m)
setting-Trusted f m keeps k = then-Keeps Trusted (set_book f) m (set_book-Trusted f keeps) k

-- A call that reads, and the service's own fields.
pub reading-Trusted :
    {A B : Type 0} (f : Store → A) (k : A → Op B)
    → ((s : Store) → Trusted s → Keeps Trusted (k (f s)))
    → Keeps Trusted (call (λ s. (ok (f s), s)) >>= k)
unfolding call ◌>>=◌ after
reading-Trusted f k keeps s h = split (s.fault s.calls)
  where
    split :
        (b : Bool)
        → Trusted (after (if b then (err failed, tick s) else (ok (f (tick s)), tick s)) k).1
    split true = h
    split false = keeps (tick s) h (tick s) h

pub book-Trusted :
    {B : Type 0} (k : PriceBook → Op B)
    → ((b : PriceBook) → IsTrusted b → Keeps Trusted (k b))
    → Keeps Trusted (book >>= k)
unfolding book ◌>>=◌ after
book-Trusted k keeps s h = keeps s.prices h s h

-- A call that changes a table.
pub writing-Trusted :
    (f : PriceBook → PriceBook)
    → ((b : PriceBook) → IsTrusted b → IsTrusted (f b))
    → Keeps Trusted (call (λ s. (ok tt, change f s)))
writing-Trusted f keeps =
    call-Keeps Trusted (λ s. (ok tt, change f s)) timeless (λ s h. keeps s.prices h)

pub sorted-Rated : (ps : List ModelPrice) → AllRated ps → AllRated (sort_by price_lt ps)
sorted-Rated ps h = All-sort_by IsRated price_lt ps h

pub refuse_entry-Trusted : (o : Option (ℕ × Option PriceField)) → Keeps Trusted (refuse_entry o)
unfolding refuse_entry
refuse_entry-Trusted none = return-Keeps Trusted tt
refuse_entry-Trusted (some (index, field)) = fail-Keeps Trusted _ _

-- What follows the check of a list knows that it is valid.
pub checked-Trusted :
    {B : Type 0} (o : Option (ℕ × Option PriceField)) (m : Op B)
    → (o ≡ none → Keeps Trusted m)
    → Keeps Trusted (refuse_entry o >> m)
unfolding refuse_entry ◌>>◌ ◌>>=◌ return fail after
checked-Trusted none m keeps s h = keeps refl s h
checked-Trusted (some (index, field)) m keeps s h = h

pub record_failure-Trusted : (why : Text) → Keeps Trusted (record_failure why)
unfolding record_failure set_state
record_failure-Trusted why =
    setting-Trusted _ _ (λ b h. h)
      (book-Trusted _ (λ b h.
        then-Keeps Trusted (set_state b.state) _
          (writing-Trusted (λ c. record c { stored_state = b.state }) (λ c k. k))
          (return-Keeps Trusted _)))

pub store_refused-Trusted : (ended : Bool) → Keeps Trusted (store_refused ended)
unfolding store_refused
store_refused-Trusted true = fail-Keeps Trusted _ _
store_refused-Trusted false = record_failure-Trusted _

pub check_refused-Trusted : (ended : Bool) (why : Text) → Keeps Trusted (check_refused ended why)
unfolding check_refused
check_refused-Trusted true why = fail-Keeps Trusted _ _
check_refused-Trusted false why = record_failure-Trusted why
