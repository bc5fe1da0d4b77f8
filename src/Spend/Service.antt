-- ===== src/Spend/Service.antt =====
-- `Service` (internal/app/spendlimits/spendlimits.go).
pub mod Defaults
pub mod Refusals
use llm_proxy_backend.Prelude.{
  ℕ, Bool, true, false, ◌&&◌, ◌||◌, not, Option, none, some, List, [], ◌∷◌, map, ◌==◌,
  if◌then◌else◌, any,
}
use llm_proxy_backend.Identity.{User, require_admin}
use llm_proxy_backend.Access.Policy.{is_empty}
use llm_proxy_backend.Limits.Rules.{Rule, RuleSet, validate, effective}
use llm_proxy_backend.Limits.Decide.{Window, Decision, decide}
use llm_proxy_backend.Limits.States.{WindowState, states}
use llm_proxy_backend.Store.{
  Store, Op, Error, forbidden, not_found, invalid_limits, invalid_window, Result, ok, err, return,
  fail, require, read_clock, call, ◌>>=◌, ◌>>◌,
}
use llm_proxy_backend.Store.Tables.{
  AuditEvent, Action, limits_defaults_update, limits_update, limits_reset, Detail, of_limits,
  of_default_mode, of_window,
}
use llm_proxy_backend.Tokens.Repo.{user_by_id, record_event}
use llm_proxy_backend.Spend.Windows.{windows_of, open_windows, reset, drop_inherited}

pub record View : Type 0 where
  pub custom : Option RuleSet
  pub windows : List WindowState

-- `Effective`, over the defaults in memory.
unfoldable pub in_force : Option RuleSet → Op RuleSet
in_force custom s = (ok (effective custom s.defaults), s)

unfoldable pub read_windows : ℕ → Op (List Window)
read_windows user = call λ s. (ok (windows_of user s.windows), s)

unfoldable pub write_windows : ℕ → List ℕ → List ℕ → ℕ → Op (Unit {0})
write_windows user due drop at =
    call λ s. (ok tt, record s { windows = open_windows user due drop at s.windows })

unfoldable pub admit : ℕ → RuleSet → Op Decision
admit user set = do
  rows ← read_windows user
  now ← read_clock
  let d = decide set rows now
  if d.blocked || (is_empty d.due && is_empty d.orphans)
      then return d
      else (write_windows user (map (λ r. r.window) d.due) d.orphans now >> return d)

unfoldable pub view : User → Op View
view user = do
  rows ← read_windows user.id
  set ← in_force user.spend_limits
  now ← read_clock
  return (record { custom = user.spend_limits; windows = states set rows now })

-- `Defaults`.
unfoldable pub get_defaults : User → Op RuleSet
get_defaults actor = do require (require_admin actor) forbidden; in_force none

abbrev event : ℕ → User → Action → ℕ → Detail → AuditEvent
event now actor action target detail = record {
  at = now;
  actor_id = actor.id;
  action = action;
  target = target;
  detail = detail;
  ip = [];
  user_agent = [];
}

-- `limits.Validate` and `inputError`.
unfoldable pub check_set : RuleSet → Op (Unit {0})
check_set set = elim (validate set) [ none ↦ return tt | some e ↦ fail (invalid_limits e) ]

unfoldable pub check_custom : Option RuleSet → Op (Unit {0})
check_custom none = return tt
check_custom (some set) = check_set set

unfoldable pub store_defaults : RuleSet → Op (Unit {0})
store_defaults set = call λ s. (ok tt, record s { stored_defaults = set })

-- `s.defaults.Store`.
unfoldable pub swap_defaults : RuleSet → Op (Unit {0})
swap_defaults set s = (ok tt, record s { defaults = set })

abbrev pub is_none : Option RuleSet → Bool
is_none none = true
is_none (some _) = false

-- Whether an account inherits the defaults (users.spend_limits IS NULL).
abbrev pub inherits : List User → ℕ → Bool
inherits users id = any (λ u. (u.id == id) && is_none u.spend_limits) users

unfoldable pub drop_stale : RuleSet → Op (Unit {0})
drop_stale set = call λ s. (
  ok tt,
  record s { windows = drop_inherited (inherits s.users) (map (λ r. r.window) set) s.windows },
)

unfoldable pub set_defaults : User → RuleSet → Op RuleSet
set_defaults actor set = do
  require (require_admin actor) forbidden
  check_set set
  now ← read_clock
  store_defaults set
  swap_defaults set
  record_event (event now actor limits_defaults_update 0 (of_limits set))
  drop_stale set
  return set

-- `ForUser`.
unfoldable pub for_user : User → ℕ → Op View
for_user actor id = do require (require_admin actor) forbidden; user ← user_by_id id; view user

abbrev pub with_limits : ℕ → Option RuleSet → List User → List User
with_limits id custom = map λ u. if u.id == id then record u { spend_limits = custom } else u

unfoldable pub update_spend_limits : ℕ → Option RuleSet → Op (Unit {0})
update_spend_limits id custom = call λ s.
    if any (λ u. u.id == id) s.users
    then (ok tt, record s { users = with_limits id custom s.users })
    else (err not_found, s)

abbrev pub mode : Option RuleSet → Detail
mode none = of_default_mode
mode (some set) = of_limits set

-- The stale windows that `SetUser` deletes.
unfoldable pub drop_orphans : ℕ → List ℕ → ℕ → Op (Unit {0})
drop_orphans id orphans now =
    if is_empty orphans then return tt else write_windows id [] orphans now

unfoldable pub set_user : User → ℕ → Option RuleSet → Op View
set_user actor id custom = do
  require (require_admin actor) forbidden
  check_custom custom
  user ← user_by_id id
  update_spend_limits id custom
  now ← read_clock
  record_event (event now actor limits_update id (mode custom))
  rows ← read_windows id
  set ← in_force custom
  drop_orphans id (decide set rows now).orphans now
  view (record user { spend_limits = custom })

-- The window that `Reset` names must be in force.
unfoldable pub check_window : Option RuleSet → Option ℕ → Op (Unit {0})
check_window custom none = return tt
check_window custom (some d) = do
  set ← in_force custom
  require (any (λ r. r.window == d) set) invalid_window

unfoldable pub reset_windows : ℕ → Option ℕ → Op (Unit {0})
reset_windows id window = call λ s. (ok tt, record s { windows = reset id window s.windows })

-- `Reset`.
unfoldable pub reset_user : User → ℕ → Option ℕ → Op View
reset_user actor id window = do
  require (require_admin actor) forbidden
  user ← user_by_id id
  check_window user.spend_limits window
  reset_windows id window
  now ← read_clock
  record_event (event now actor limits_reset id (of_window window))
  view user
