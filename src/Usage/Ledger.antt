-- ===== src/Usage/Ledger.antt =====
-- `AppendBatch` (internal/infra/postgres/usage/usage.go): the rows and the charges of one transaction.
-- A sum that PostgreSQL refuses, because it would overflow, is a failing call.
pub mod Charged
use llm_proxy_backend.Prelude.{
  ℕ, Bool, true, false, ◌&&◌, not, List, [], ◌∷◌, ◌++◌, map, ◌==◌, if◌then◌else◌, any, keep,
}
use llm_proxy_backend.Prelude.Float.{Float64, plus}
use llm_proxy_backend.Store.Tables.{Row}
use llm_proxy_backend.Store.{Store, Op, ok, call, return}
use llm_proxy_backend.Usage.Cost.{FloatArith, total_usd}
use llm_proxy_backend.Usage.Row.{UsageEvent}

-- An owner or a key that is not stored is NULL, the nil id.
unfoldable pub stored_event : Store → UsageEvent → UsageEvent
stored_event s ev = record ev {
  user_id = if any (λ u. u.id == ev.user_id) s.users then ev.user_id else 0;
  token_id = if any (λ t. t.id == ev.token_id) s.tokens then ev.token_id else 0;
}

-- An id that a map of the events' owners holds: the nil id is none.
unfoldable pub is_owner : ℕ → List UsageEvent → Bool
is_owner id events = not (id == 0) && any (λ ev. ev.user_id == id) events

unfoldable pub no_events : List UsageEvent → Bool
no_events [] = true
no_events (_ ∷ _) = false

module _ (fl : FloatArith) where
  -- `cost[id]`, from what it holds.
  unfoldable pub summed : ℕ → List UsageEvent → Float64 → Float64
  summed id [] sum = sum
  summed id (ev ∷ events) sum =
      summed id events (if ev.user_id == id then fl.add sum (total_usd fl ev.cost) else sum)

  -- `chargeWindows`.
  unfoldable pub charge_row : List UsageEvent → Row → Row
  unfolding summed is_owner
  charge_row events r =
      if is_owner r.user_id events
      then record r { spent_usd = fl.add r.spent_usd (summed r.user_id events (plus 0)) }
      else r

  unfoldable pub charged_owners : List UsageEvent → List Row → List ℕ
  unfolding is_owner
  charged_owners events rows = map (λ r. r.user_id) (keep (λ r. is_owner r.user_id events) rows)

  unfoldable pub append_batch : List UsageEvent → Op (List ℕ)
  unfolding stored_event charge_row charged_owners no_events
  append_batch events =
      if no_events events
      then return []
      else call λ s. (
        ok (charged_owners events s.windows),
        record s {
          ledger = s.ledger ++ map (stored_event s) events;
          windows = map (charge_row events) s.windows;
        },
      )
