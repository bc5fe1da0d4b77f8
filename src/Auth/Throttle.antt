-- ===== src/Auth/Throttle.antt =====
-- `Throttle` (internal/app/auth/throttle.go) and the counter's SQL
-- (internal/infra/postgres/loginattempts/loginattempts.go). `lower(email)` is a parameter.
pub mod Charging
pub mod Admission
use llm_proxy_backend.Prelude.{
  ℕ, suc, ◌+◌, ◌-◌, Bool, true, false, ◌&&◌, ◌||◌, not, Option, none, some, List, [], ◌∷◌, ltb, leb,
  if◌then◌else◌, find, keep,
}
use llm_proxy_backend.Prelude.Text.{Text, ◌=t◌}
use llm_proxy_backend.Store.{
  Store, Op, Error, locked_out, Result, ok, err, return, fail, require, read_clock, call, ◌>>=◌,
  ◌>>◌,
}
use llm_proxy_backend.Store.Tables.{Attempt}

-- What a charge leaves on a row: the CASE expressions of the upsert, on the row as it was. The two
-- conditions are `locked_until > now` and `locked_until <= now OR last_failure_at <= now - window`,
-- where a NULL lock makes both comparisons with it unknown.
abbrev pub is_locked : Option ℕ → ℕ → Bool
is_locked none now = false
is_locked (some until) now = ltb now until

abbrev pub has_lapsed : Option ℕ → ℕ → Bool
has_lapsed none now = false
has_lapsed (some until) now = leb until now

unfoldable pub is_stale : Attempt → ℕ → ℕ → Bool
is_stale a now window = has_lapsed a.locked_until now || leb (a.last_failure_at + window) now

-- The lock of a count that starts over.
abbrev pub first_lock : ℕ → ℕ → Option ℕ
first_lock limit until = if leb limit 1 then some until else none

unfoldable pub charged : ℕ → ℕ → ℕ → Attempt → Attempt
unfolding is_stale
charged limit now window a =
    if is_locked a.locked_until now
    then record a { failures = suc a.failures; last_failure_at = now }
    else if is_stale a now window
    then record a {
      failures = 1;
      locked_until = first_lock limit (now + window);
      last_failure_at = now;
    }
    else record a {
      failures = suc a.failures;
      locked_until = if leb limit (suc a.failures) then some (now + window) else none;
      last_failure_at = now;
    }

-- The row that an unknown address gets.
abbrev pub fresh : ℕ → ℕ → ℕ → Text → Attempt
fresh limit now window email = record {
  email = email;
  failures = 1;
  locked_until = first_lock limit (now + window);
  last_failure_at = now;
}

-- The upsert: the table, and the row it returns.
unfoldable pub charge_rows : ℕ → ℕ → ℕ → Text → List Attempt → List Attempt × Attempt
unfolding charged
charge_rows limit now window email [] = let a = fresh limit now window email in (a ∷ [], a)
charge_rows limit now window email (a ∷ rows) =
    let a' = charged limit now window a in
    let rest = charge_rows limit now window email rows in
    if a.email =t email then (a' ∷ rows, a') else (a ∷ rest.0, rest.1)

-- `Failures`: an address with no row has never failed.
abbrev pub lock_of : Option Attempt → Option ℕ
lock_of none = none
lock_of (some a) = a.locked_until

module _ (lower : Text → Text) where
  unfoldable pub read_lock : Text → Op (Option ℕ)
  read_lock email = call λ s. (ok (lock_of (find (λ a. a.email =t lower email) s.attempts)), s)

  unfoldable pub charge_call : ℕ → ℕ → ℕ → Text → Op Attempt
  unfolding charge_rows
  charge_call limit now window email = call λ s.
      let (rows, a) = charge_rows limit now window (lower email) s.attempts in
      (ok a, record s { attempts = rows })

  unfoldable pub clear_call : Text → Op (Unit {0})
  clear_call email =
      call λ s. (ok tt, record s { attempts = keep (λ a. not (a.email =t lower email)) s.attempts })

-- The instant that `Check` refuses until.
abbrev pub refuse_locked : Option ℕ → ℕ → Op (Unit {0})
refuse_locked none now = return tt
refuse_locked (some until) now = if ltb now until then fail (locked_out until) else return tt

-- `Charge` fails closed if a row over the limit had no lock.
abbrev pub lapse_of : ℕ → Option ℕ → ℕ
lapse_of d none = d
lapse_of d (some until) = until

-- The clock is read only where there is a lock to compare with.
unfoldable pub compare_lock : Option ℕ → Op (Unit {0})
compare_lock none = return tt
compare_lock (some until) = do now ← read_clock; refuse_locked (some until) now

module _ (lower : Text → Text) (max_failures lock_for : ℕ) where
  unfoldable pub check : Text → Op (Unit {0})
  check email = do until ← read_lock lower email; compare_lock until

  unfoldable pub charge : Text → Op (Unit {0})
  charge email = do
    now ← read_clock
    a ← charge_call lower max_failures now lock_for email
    if leb a.failures max_failures
        then return tt
        else fail (locked_out (lapse_of (now + lock_for) a.locked_until))

  -- `Reset`.
  unfoldable pub clear : Text → Op (Unit {0})
  clear email = clear_call lower email
