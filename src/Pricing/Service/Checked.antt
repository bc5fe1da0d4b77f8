-- ===== src/Pricing/Service/Checked.antt =====
-- A check of the catalog keeps the prices valid, and some of them above zero.
use llm_proxy_backend.Prelude.{
  ◌∙◌, ℕ, ◌≡◌, refl, Bool, true, false, not, ◌&&◌, Option, none, some, List, ◌∷◌,
}
use llm_proxy_backend.Prelude.Text.{Text}
use llm_proxy_backend.Prelude.Sorting.{sort_by}
use llm_proxy_backend.Identity.{User}
use llm_proxy_backend.Pricing.{ModelPrice}
use llm_proxy_backend.Pricing.Book.{CatalogValidators, CatalogState, PriceBook}
use llm_proxy_backend.Pricing.Valid.{accept_catalog}
use llm_proxy_backend.Store.{ok, read_clock}
use llm_proxy_backend.Store.Keeping.{
  Keeps, bind-Keeps, then-Keeps, catch-Keeps, call-Keeps, require-Keeps, return-Keeps, fail-Keeps,
  read_clock-Keeps,
}
use llm_proxy_backend.Store.Tables.{AuditEvent}
use llm_proxy_backend.Tokens.Repo.{record_event}
use llm_proxy_backend.Pricing.Tables.{price_lt, replaced, list_catalog, replace_catalog, set_state}
use llm_proxy_backend.Pricing.Service.{
  Fetched, not_fetched, fetched, CatalogSource, list_locked, adopt_unchanged, adopt_changed,
  store_check, record_success, judge_accepted, judge_fetched, check, refresh,
}
use llm_proxy_backend.Pricing.Service.Rated.{
  AllRated, prices_some, any-sort_by, AllRated-replaced, prices_some-replaced, accept_catalog-Rated,
}
use llm_proxy_backend.Pricing.Service.Trusted.{
  IsTrusted, Trusted, timeless, publish-Trusted, setting-Trusted, reading-Trusted, book-Trusted,
  writing-Trusted, sorted-Rated, store_refused-Trusted, check_refused-Trusted,
}

pub adopt_unchanged-Trusted : (state : CatalogState) → Keeps Trusted (adopt_unchanged state)
unfolding adopt_unchanged
adopt_unchanged-Trusted state =
    setting-Trusted _ _ (λ b h. h) (book-Trusted _ (λ b h. return-Keeps Trusted _))

-- A catalog that was accepted.
pub adopt_changed-Trusted :
    (prices : List ModelPrice) (state : CatalogState)
    → AllRated prices
    → prices_some prices ≡ true
    → Keeps Trusted (adopt_changed prices state)
unfolding adopt_changed list_catalog
adopt_changed-Trusted prices state rated some_priced =
    setting-Trusted _ _
      (λ b h.
        publish-Trusted (record b { state = state; catalog_prices = prices })
          (with_catalog b prices rated some_priced h))
      (reading-Trusted (λ s. sort_by price_lt s.prices.stored_catalog) _
        (λ s h.
          setting-Trusted _ _
            (λ b k.
              with_catalog b (sort_by price_lt s.prices.stored_catalog)
                (sorted-Rated s.prices.stored_catalog h.rated_stored_catalog)
                (any-sort_by _ price_lt s.prices.stored_catalog ∙ h.stored_some) k)
            (return-Keeps Trusted _)))
  where
    with_catalog :
        (b : PriceBook) (ps : List ModelPrice)
        → AllRated ps
        → prices_some ps ≡ true
        → IsTrusted b
        → IsTrusted (record b { catalog_prices = ps })
    with_catalog b ps r s h = record {
      rated_stored_manual = h.rated_stored_manual;
      rated_stored_catalog = h.rated_stored_catalog;
      rated_manual = h.rated_manual;
      rated_catalog = r;
      rated_sink = h.rated_sink;
      stored_some = h.stored_some;
      some_priced = s;
    }

pub replace_catalog-Trusted :
    (prices : List ModelPrice) (state : CatalogState) (now : ℕ)
    → AllRated prices
    → prices_some prices ≡ true
    → Keeps Trusted (replace_catalog prices state now)
unfolding replace_catalog
replace_catalog-Trusted prices state now rated some_priced =
    writing-Trusted
      (λ b. record b {
        stored_catalog = replaced now b.stored_catalog prices;
        stored_state = state;
      })
      (λ b h. record {
        rated_stored_manual = h.rated_stored_manual;
        rated_stored_catalog = AllRated-replaced now b.stored_catalog prices rated;
        rated_manual = h.rated_manual;
        rated_catalog = h.rated_catalog;
        rated_sink = h.rated_sink;
        stored_some = prices_some-replaced now b.stored_catalog prices ∙ some_priced;
        some_priced = h.some_priced;
      })

pub store_check-Trusted :
    (ended is_changed : Bool) (prices : List ModelPrice) (state : CatalogState) (now : ℕ)
    → (is_changed ≡ true → AllRated prices × (prices_some prices ≡ true))
    → Keeps Trusted (store_check ended is_changed prices state now)
unfolding store_check set_state
store_check-Trusted ended true prices state now accepted =
    let (rated, some_priced) = accepted refl in
    catch-Keeps Trusted (replace_catalog prices state now) _ _
      (replace_catalog-Trusted prices state now rated some_priced)
      (λ _. adopt_changed-Trusted prices state rated some_priced) (λ _. store_refused-Trusted ended)
store_check-Trusted ended false prices state now accepted =
    catch-Keeps Trusted (set_state state) _ _
      (writing-Trusted (λ b. record b { stored_state = state }) (λ b h. h))
      (λ _. adopt_unchanged-Trusted state) (λ _. store_refused-Trusted ended)

pub record_success-Trusted :
    (source : CatalogSource) (is_unchanged : Bool) (prices : List ModelPrice)
    (validators : CatalogValidators)
    → (is_unchanged ≡ false → AllRated prices × (prices_some prices ≡ true))
    → Keeps Trusted (record_success source is_unchanged prices validators)
unfolding record_success
record_success-Trusted source is_unchanged prices validators accepted =
    bind-Keeps Trusted read_clock _ (read_clock-Keeps Trusted timeless) (λ now.
      book-Trusted _ (λ b h.
        store_check-Trusted source.ended_at_store _ prices _ now
          (λ e. accepted (fetched_new is_unchanged _ e))))
  where
    fetched_new : (u s : Bool) → (not u && s) ≡ true → u ≡ false
    fetched_new true s h = cc
    fetched_new false s h = refl

pub judge_accepted-Trusted :
    (source : CatalogSource) (prices : List ModelPrice) (validators : CatalogValidators)
    (o : Option Text)
    → accept_catalog source.name_of_entry prices ≡ o
    → Keeps Trusted (judge_accepted source prices validators o)
unfolding judge_accepted
judge_accepted-Trusted source prices validators (some why) e =
    check_refused-Trusted source.ended_at_fetch why
judge_accepted-Trusted source prices validators none e =
    record_success-Trusted source false prices validators
      (λ _. accept_catalog-Rated source.name_of_entry prices e)

pub judge_fetched-Trusted :
    (source : CatalogSource) (f : Fetched) → Keeps Trusted (judge_fetched source f)
unfolding judge_fetched
judge_fetched-Trusted source (not_fetched why) = check_refused-Trusted source.ended_at_fetch why
judge_fetched-Trusted source (fetched true prices validators) =
    record_success-Trusted source true prices validators (λ e. cc)
judge_fetched-Trusted source (fetched false prices validators) =
    judge_accepted-Trusted source prices validators _ refl

pub check-Trusted : (source : CatalogSource) → Keeps Trusted (check source)
unfolding check
check-Trusted source = book-Trusted _ (λ b h. judge_fetched-Trusted source _)

pub list_locked-Trusted : (source : Option CatalogSource) → Keeps Trusted (list_locked source)
unfolding list_locked
list_locked-Trusted source = book-Trusted _ (λ b h. return-Keeps Trusted _)

pub record_event-Trusted : (e : AuditEvent) → Keeps Trusted (record_event e)
unfolding record_event
record_event-Trusted e =
    call-Keeps Trusted (λ s. (ok tt, record s { audit = e ∷ s.audit })) timeless (λ s h. h)

pub refresh-Trusted :
    (source : Option CatalogSource) (actor : User) → Keeps Trusted (refresh source actor)
unfolding refresh
refresh-Trusted none actor =
    then-Keeps Trusted _ _ (require-Keeps Trusted _ _) (fail-Keeps Trusted _ _)
refresh-Trusted (some source) actor = then-Keeps Trusted _ _ (require-Keeps Trusted _ _) (
    bind-Keeps Trusted (check source) _ (check-Trusted source) (λ res.
      bind-Keeps Trusted read_clock _ (read_clock-Keeps Trusted timeless) (λ now.
        then-Keeps Trusted _ _ (record_event-Trusted _) (list_locked-Trusted (some source)))))
