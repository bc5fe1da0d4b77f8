-- ===== src/Spend/Windows.antt =====
-- The stored windows of all accounts, as the SQL of internal/infra/postgres/limitwindows reads and
-- changes them. A window is stored by its whole minutes; `length` is the duration it is read back as.
use llm_proxy_backend.Prelude.{
  ℕ, ◌+◌, ◌*◌, ◌/◌, Bool, ◌&&◌, not, Option, none, some, List, [], ◌∷◌, leb, ◌==◌, if◌then◌else◌,
  any, keep,
}
use llm_proxy_backend.Prelude.Float.{plus}
use llm_proxy_backend.Limits.Rules.{minute}
use llm_proxy_backend.Store.Tables.{Row}
use llm_proxy_backend.Limits.Decide.{Window}

-- time.Duration to int32 minutes, for durations within limits.MaxWindow.
abbrev pub minutes : ℕ → ℕ
minutes d = d / minute

abbrev pub window_of : Row → Window
window_of r = record {
  length = r.window_minutes * minute;
  started_at = r.started_at;
  spent_usd = r.spent_usd;
}

-- `Windows`.
unfoldable pub windows_of : ℕ → List Row → List Window
windows_of user [] = []
windows_of user (r ∷ rows) =
    if r.user_id == user then window_of r ∷ windows_of user rows else windows_of user rows

abbrev pub is_at : ℕ → ℕ → Row → Bool
is_at user m r = (r.user_id == user) && (r.window_minutes == m)

-- `openWindows` for one length: insert it, or restart a stored row that had expired by `at`.
unfoldable pub open_row : ℕ → ℕ → ℕ → List Row → List Row
open_row user at m [] =
    record { user_id = user; window_minutes = m; started_at = at; spent_usd = plus 0 } ∷ []
open_row user at m (r ∷ rows) =
    if is_at user m r
    then (if leb (r.started_at + r.window_minutes * minute) at
        then record r { started_at = at; spent_usd = plus 0 }
        else r)
      ∷ rows
    else r ∷ open_row user at m rows

unfoldable pub open_rows : ℕ → ℕ → List ℕ → List Row → List Row
unfolding open_row
open_rows user at [] rows = rows
open_rows user at (d ∷ ds) rows = open_rows user at ds (open_row user at (minutes d) rows)

-- `dropWindows`.
unfoldable pub drop_rows : ℕ → List ℕ → List Row → List Row
drop_rows user drop =
    keep λ r. not ((r.user_id == user) && any (λ d. minutes d == r.window_minutes) drop)

-- `Open`, one transaction.
unfoldable pub open_windows : ℕ → List ℕ → List ℕ → ℕ → List Row → List Row
unfolding open_rows drop_rows
open_windows user due drop at rows = drop_rows user drop (open_rows user at due rows)

-- `Reset`: one length, or every one.
unfoldable pub reset : ℕ → Option ℕ → List Row → List Row
reset user none = keep λ r. not (r.user_id == user)
reset user (some d) = keep λ r. not (is_at user (minutes d) r)

-- `DropInherited`, with the test of an account that inherits the defaults.
unfoldable pub drop_inherited : (ℕ → Bool) → List ℕ → List Row → List Row
drop_inherited inherits kept =
    keep λ r. not (inherits r.user_id && not (any (λ d. minutes d == r.window_minutes) kept))
