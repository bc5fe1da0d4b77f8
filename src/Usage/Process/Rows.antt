-- ===== src/Usage/Process/Rows.antt =====
-- What a batch leaves in the store, whatever panics.
use mathlib.Core.Path.{subst}
use llm_proxy_backend.Prelude.{
  ap, inl, inr, Bool-cases, ℕ, ◌≡◌, refl, Bool, true, false, Option, none, some, List, [], ◌∷◌,
  ◌++◌, map, ltb, if◌then◌else◌, length,
}
use llm_proxy_backend.Store.{Store, Op, effects}
use llm_proxy_backend.Store.Tables.{Row}
use llm_proxy_backend.Store.Keeping.{Keeps, then-Keeps, catch-Keeps, call-Keeps, return-Keeps}
use llm_proxy_backend.Usage.Row.{UsageEvent}
use llm_proxy_backend.Usage.Stamps.{
  Stamps, token_stamps, user_stamps, touch_last_used, touch_last_seen, stamp_each, touch,
}
use llm_proxy_backend.Usage.Ledger.{stored_event, no_events, charge_row, append_batch}
use llm_proxy_backend.Usage.Process.{
  Linked, Arrival, Watch, event_for, panics_in_event, handle_records, unpriced_alerts,
  alert_and_touch, after_append, write_rows, process,
}

-- The tables that the charges are in.
abbrev pub Holds : List UsageEvent → List Row → Store → Type 0
Holds ledger windows s = (s.ledger ≡ ledger) × (s.windows ≡ windows)

module _ (ledger : List UsageEvent) (windows : List Row) where
  stamp_each-Holds :
      (stamp : ℕ → ℕ → Op (Unit {0})) (stamps : Stamps)
      → ((id at : ℕ) → Keeps (Holds ledger windows) (stamp id at))
      → Keeps (Holds ledger windows) (stamp_each stamp stamps)
  unfolding stamp_each
  stamp_each-Holds stamp [] keeps = return-Keeps (Holds ledger windows) tt
  stamp_each-Holds stamp ((id, at) ∷ stamps) keeps =
      then-Keeps (Holds ledger windows) _ _
        (catch-Keeps (Holds ledger windows) (stamp id at) _ _ (keeps id at)
          (return-Keeps (Holds ledger windows)) (λ _. return-Keeps (Holds ledger windows) tt))
        (stamp_each-Holds stamp stamps keeps)

  touch-Holds : (events : List UsageEvent) → Keeps (Holds ledger windows) (touch events)
  unfolding touch touch_last_used touch_last_seen
  touch-Holds events =
      then-Keeps (Holds ledger windows) _ _
        (stamp_each-Holds touch_last_used (token_stamps events [])
          (λ id at. call-Keeps (Holds ledger windows) _ (λ s h. h) (λ s h. h)))
        (stamp_each-Holds touch_last_seen (user_stamps events [])
          (λ id at. call-Keeps (Holds ledger windows) _ (λ s h. h) (λ s h. h)))

module _ (l : Linked) where
  -- The rows of a batch: of each record whose mapping does not panic, in order.
  pub rows_of : List Arrival → List UsageEvent
  unfolding panics_in_event
  rows_of [] = []
  rows_of (a ∷ arrivals) =
      if panics_in_event a.panic then rows_of arrivals else event_for l a ∷ rows_of arrivals

  handle_records-rows :
      (arrivals : List Arrival) (w : Watch) → (handle_records l arrivals w).0 ≡ rows_of arrivals
  unfolding handle_records rows_of
  handle_records-rows [] w = refl
  handle_records-rows (a ∷ arrivals) w =
      ap (λ rows. if panics_in_event a.panic then rows else event_for l a ∷ rows)
        (handle_records-rows arrivals _)

  alert_and_touch-Holds :
      (ledger : List UsageEvent) (windows : List Row) (panic : Option ℕ) (events : List UsageEvent)
      (limited : List ℕ) (w : Watch) (s : Store)
      → Holds ledger windows s
      → Holds ledger windows (alert_and_touch l panic events limited w s).1
  unfolding alert_and_touch
  alert_and_touch-Holds ledger windows none events limited w s h =
      touch-Holds ledger windows events s h
  alert_and_touch-Holds ledger windows (some n) events limited w s h =
      elim (Bool-cases (ltb n (length (unpriced_alerts l limited events)))) [
        | inl e ↦ rw e h
        | inr e ↦ rw e (touch-Holds ledger windows events s h)
      ]

  -- Whether the batch is written: it has a row, and the write does not fail.
  abbrev pub is_written : List UsageEvent → Store → Bool
  is_written events s = if no_events events then false else if s.fault s.calls then false else true

  abbrev pub IsAppended : List UsageEvent → Store → Store → Type 0
  IsAppended events s =
      Holds (if is_written events s then s.ledger ++ map (stored_event s) events else s.ledger)
        (if is_written events s then map (charge_row l.float events) s.windows else s.windows)

  write_rows-IsAppended :
      (panic : Option ℕ) (events : List UsageEvent) (w : Watch) (s : Store)
      → IsAppended events s (write_rows l panic (events, w) s).1
  unfolding write_rows append_batch after_append effects
  write_rows-IsAppended panic events w s = elim (Bool-cases (no_events events)) [
    | inl e ↦ rw e (alert_and_touch-Holds s.ledger s.windows panic events [] w s (refl, refl))
    | inr e ↦ elim (Bool-cases (s.fault s.calls)) [
      | inl f ↦
          rw (e, f) (alert_and_touch-Holds s.ledger s.windows panic events [] w _ (refl, refl))
      | inr f ↦ rw (e, f) (alert_and_touch-Holds _ _ panic events _ w _ (refl, refl))
    ]
  ]

  -- Whichever records' mappings and calls of the observer panic, a batch whose write does not fail
  -- adds to the ledger one row for each record whose mapping did not panic, in the records' order,
  -- and charges the windows with those rows; a batch whose write fails, or without such a record,
  -- changes neither the ledger nor a window.
  pub process-rows :
      (arrivals : List Arrival) (panic : Option ℕ) (w : Watch) (s : Store)
      → IsAppended (rows_of arrivals) s (process l arrivals panic w s).1
  unfolding process
  process-rows arrivals panic w s =
      subst (λ rows. IsAppended rows s (process l arrivals panic w s).1)
        (handle_records-rows arrivals w)
        (write_rows-IsAppended panic (handle_records l arrivals w).0 (handle_records l arrivals w).1
          s)
