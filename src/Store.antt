-- ===== src/Store.antt =====
-- The stores behind the services' ports (internal/app/ports.go), as tables, with the environment that
-- a run meets: which call to a port fails, and what the clock shows. A call that fails has changed
-- nothing. Every call to a port and every reading of the clock is counted, so `fault` and `clock`,
-- which are functions of that count, range over all schedules of failures and all clocks. A
-- cancelled request context is a failing call too.
pub mod Tables
pub mod Keeping
pub mod Inversion
pub mod Failing
use llm_proxy_backend.Prelude.{ℕ, suc, Bool, Option, List, if◌then◌else◌}
use llm_proxy_backend.Prelude.Text.{Text}
use llm_proxy_backend.Identity.{User}
use llm_proxy_backend.Limits.Rules.{RuleSet, InvalidError}
use llm_proxy_backend.Pricing.Book.{PriceBook, PriceField}
use llm_proxy_backend.Usage.Row.{UsageEvent}
use Tables.{Row, Token, Session, Password, Link, Pending, Attempt, AuditEvent}

pub record Store : Type 0 where
  pub users : List User
  pub tokens : List Token
  pub sessions : List Session
  pub passwords : List Password
  pub identities : List Link
  pub invitations : List Pending
  pub attempts : List Attempt
  pub audit : List AuditEvent
  pub windows : List Row
  pub ledger : List UsageEvent
  pub prices : PriceBook
  -- The global spend limits: as stored, and the spend-limit service's copy in memory.
  pub stored_defaults : RuleSet
  pub defaults : RuleSet
  pub calls : ℕ
  pub fault : ℕ → Bool
  pub clock : ℕ → ℕ

-- The field that an *InvalidInputError of account administration names.
pub data InputField : Type 0 where
  of_display_name of_role of_email of_sign_in of_status of_kind : InputField

-- The errors that callers tell apart. `failed` is a failed call of a port, wrapped or not.
pub data Error : Type 0 where
  forbidden not_found conflict invalid_credentials token_limit already_revoked invalid_label : Error
  empty_password weak_password failed : Error
  self_lockout policy_managed_by_idp not_local already_linked not_invitable : Error
  locked_out : ℕ → Error
  -- *BlockedError, with whether the shell may unblock the account.
  blocked : (can_unblock : Bool) → Error
  invalid_rule : Text → Error
  invalid_input : InputField → Error
  -- *InvalidInputError, for a set of limits and for a window.
  invalid_limits : InvalidError → Error
  invalid_window : Error
  -- *InvalidInputError, for the entry of a price list and its field; `none` is a repeated entry.
  invalid_price : ℕ → Option PriceField → Error
  catalog_disabled : Error

pub data Result (A : Type 0) : Type 0 where
  ok : A → Result A
  err : Error → Result A

abbrev pub Op : Type 0 → Type 0
Op A = Store → Result A × Store

unfoldable pub after : {A B : Type 0} → Result A × Store → (A → Op B) → Result B × Store
after (ok a, s) f = f a s
after (err e, s) f = (err e, s)

infixl 5 ◌>>=◌ ◌>>◌
unfoldable pub ◌>>=◌ : {A B : Type 0} → Op A → (A → Op B) → Op B
◌>>=◌ m f s = after (m s) f

unfoldable pub ◌>>◌ : {A B : Type 0} → Op A → Op B → Op B
m >> n = m >>= λ _. n

unfoldable pub return : {A : Type 0} → A → Op A
return a s = (ok a, s)

unfoldable pub fail : {A : Type 0} → Error → Op A
fail e s = (err e, s)

-- The result of a pure function.
unfoldable pub lift : {A : Type 0} → Result A → Op A
lift r s = (r, s)

-- Goes on only if the test holds.
unfoldable pub require : Bool → Error → Op (Unit {0})
require b e s = if b then (ok tt, s) else (err e, s)

abbrev pub tick : Store → Store
tick s = record s { calls = suc s.calls }

unfoldable pub read_clock : Op ℕ
read_clock s = (ok (s.clock s.calls), tick s)

-- A call of a port.
unfoldable pub call : {A : Type 0} → Op A → Op A
call op s = if s.fault s.calls then (err failed, tick s) else op (tick s)

-- `errors.Is`/`err != nil` handling: the two continuations of a call.
unfoldable pub caught :
    {A B : Type 0} → Result A × Store → (A → Op B) → (Error → Op B) → Result B × Store
caught (ok a, s) f g = f a s
caught (err e, s) f g = g e s

unfoldable pub catch : {A B : Type 0} → Op A → (A → Op B) → (Error → Op B) → Op B
catch m f g s = caught (m s) f g

-- Opens the operators above, in a proof that computes with whole operations.
unfoldable pub effects : Unit {0}
unfolding after ◌>>=◌ ◌>>◌ return fail lift require read_clock call caught catch
effects = tt
