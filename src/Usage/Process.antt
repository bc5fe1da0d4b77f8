-- ===== src/Usage/Process.antt =====
-- What the worker does with one batch: `process`, `guard`, `observe` and `alertUnpriced`
-- (internal/infra/gateway/usage/sink.go), with `touch` of Usage/Stamps.antt. The code
-- that the mapping of a record calls, and the observer, may panic where the arguments say so. Logging
-- is left out.
pub mod Rows
use llm_proxy_backend.Prelude.{
  ℕ, zero, suc, ◌+◌, ◌%◌, ◌^◌, Bool, ◌&&◌, not, Option, none, some, List, [], ◌∷◌, ◌++◌, map, ltb,
  ◌==◌, if◌then◌else◌, any, length,
}
use llm_proxy_backend.Prelude.Text.{Text, ◌=t◌}
use llm_proxy_backend.Pricing.{PriceLookup, PricingCatalog}
use llm_proxy_backend.Store.{Store, Op, Result, ok, err}
use llm_proxy_backend.Usage.Cost.{FloatArith}
use llm_proxy_backend.Usage.Row.{UsageEvent, completed_at}
use llm_proxy_backend.Usage.Event.{UsageRecord, event_of}
use llm_proxy_backend.Usage.Labels.{LabelCache, get_label}
use llm_proxy_backend.Usage.Quota.{QuotaSignal, Parsers, Signals, snapshot_of, replace_snapshot}
use llm_proxy_backend.Usage.Ledger.{append_batch}
use llm_proxy_backend.Usage.Stamps.{touch}

-- The calls of the Observer.
pub data Observation : Type 0 where
  used : UsageEvent → (user : Text) → Observation
  account_failed : (account provider : Text) → Observation
  vendor_quota : QuotaSignal → Observation
  limit_unpriced : (provider model : Text) (tokens : ℕ) → Observation

-- In the mapping of a record, or in a call of the observer, after `n` others.
pub data Panic : Type 0 where
  in_event : Panic
  in_observer : (n : ℕ) → Panic

-- A record with what its handling meets: the response's headers, the clock where a record has no time
-- and at the label's lookup, what that lookup answers, and a panic.
pub record Arrival : Type 0 where
  pub usage : UsageRecord
  pub headers : Option (Text → Text)
  pub now : ℕ
  pub label_now : ℕ
  pub found : Option Text
  pub panic : Option Panic

-- The sink's own state, with what the observer was told.
pub record Watch : Type 0 where
  pub labels : LabelCache
  pub quota : Signals
  pub panics : ℕ
  pub seen : List Observation

-- What the program is linked with.
pub record Linked : Type 0 where
  pub lower : ℕ → ℕ
  pub print_id : ℕ → Text
  pub parse_id : Text → Option ℕ
  pub float : FloatArith
  pub prices : PriceLookup
  pub catalog : PricingCatalog
  pub go : Parsers

abbrev pub first_n {ℓ} : {A : Type ℓ} → ℕ → List A → List A
first_n zero xs = []
first_n (suc n) [] = []
first_n (suc n) (x ∷ xs) = x ∷ first_n n xs

-- `panics.Add(1)`, on 64 bits.
abbrev pub count_panic : Watch → Watch
count_panic w = record w { panics = (w.panics + 1) % 2 ^ 64 }

-- `guard` around calls of the observer and what follows them.
unfoldable pub guarded : Option Panic → List Observation → (Watch → Watch) → Watch → Watch
guarded (some (in_observer n)) calls k w =
    if ltb n (length calls)
    then count_panic (record w { seen = w.seen ++ first_n n calls })
    else k (record w { seen = w.seen ++ calls })
guarded _ calls k w = k (record w { seen = w.seen ++ calls })

-- A record whose mapping panics has no row.
unfoldable pub panics_in_event : Option Panic → Bool
panics_in_event (some in_event) = Bool.true
panics_in_event _ = Bool.false

module _ (l : Linked) where
  unfoldable pub event_for : Arrival → UsageEvent
  event_for a = event_of l.lower l.print_id l.parse_id l.float l.prices l.catalog a.now a.usage

  -- `observeQuota`, up to the observer.
  unfoldable pub snapshot : Arrival → UsageEvent → List QuotaSignal
  snapshot a ev = elim a.headers [
    | none ↦ []
    | some get ↦
        snapshot_of l.go l.float get a.usage.auth_id ev.provider (completed_at ev) a.usage.provider
  ]

  unfoldable pub observer_calls : Arrival → UsageEvent → (user : Text) → List Observation
  unfolding snapshot
  observer_calls a ev user =
      used ev user
      ∷ (if a.usage.auth_id =t []
          then []
          else (if a.usage.failed then account_failed a.usage.auth_id ev.provider ∷ [] else [])
            ++ map vendor_quota (snapshot a ev))

  unfoldable pub keep_quota : Arrival → UsageEvent → Watch → Watch
  unfolding snapshot
  keep_quota a ev w =
      if a.usage.auth_id =t []
      then w
      else record w { quota = replace_snapshot a.usage.auth_id (snapshot a ev) w.quota }

  unfoldable pub observe : Arrival → UsageEvent → Watch → Watch
  unfolding observer_calls keep_quota guarded
  observe a ev w =
      let (user, labels) = get_label a.label_now ev.user_id a.found w.labels in
      guarded a.panic (observer_calls a ev user) (keep_quota a ev) (record w { labels = labels })

  -- The first loop of `process`: the events, and the state after it.
  unfoldable pub handle_records : List Arrival → Watch → List UsageEvent × Watch
  unfolding event_for observe panics_in_event
  handle_records [] w = ([], w)
  handle_records (a ∷ arrivals) w =
      let (events, w') =
        handle_records arrivals
          (if panics_in_event a.panic then count_panic w else observe a (event_for a) w) in
      (if panics_in_event a.panic then events else event_for a ∷ events, w')

  unfoldable pub unpriced_alerts : List ℕ → List UsageEvent → List Observation
  unpriced_alerts limited [] = []
  unpriced_alerts limited (ev ∷ events) =
      if not (ev.cost.unpriced_tokens == 0) && any (λ id. id == ev.user_id) limited
      then limit_unpriced ev.provider ev.model ev.cost.unpriced_tokens
        ∷ unpriced_alerts limited events
      else unpriced_alerts limited events

  -- What follows AppendBatch; an observer that panics keeps `touch` from running.
  unfoldable pub alert_and_touch :
      Option ℕ → List UsageEvent → List ℕ → Watch → Store → Watch × Store
  unfolding unpriced_alerts
  alert_and_touch panic events limited w s =
      let calls = unpriced_alerts limited events in
      let quiet : Watch × Store = (record w { seen = w.seen ++ calls }, (touch events s).1) in
      elim panic [
        | none ↦ quiet
        | some n ↦
            if ltb n (length calls)
            then (count_panic (record w { seen = w.seen ++ first_n n calls }), s)
            else quiet
      ]

  -- Rows that could not be written are lost, and nobody is alerted of them.
  unfoldable pub after_append :
      Option ℕ → List UsageEvent → Watch → Result (List ℕ) × Store → Watch × Store
  unfolding alert_and_touch
  after_append panic events w (ok limited, s) = alert_and_touch panic events limited w s
  after_append panic events w (err _, s) = alert_and_touch panic events [] w s

  unfoldable pub write_rows : Option ℕ → List UsageEvent × Watch → Store → Watch × Store
  unfolding after_append append_batch
  write_rows panic (events, w) s = after_append panic events w (append_batch l.float events s)

  unfoldable pub process : List Arrival → Option ℕ → Watch → Store → Watch × Store
  unfolding handle_records write_rows
  process arrivals panic w s = write_rows panic (handle_records arrivals w) s
