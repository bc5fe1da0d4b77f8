-- ===== src/Spend/Service/Defaults.antt =====
-- The defaults that requests are limited by are always the stored ones, and valid.
use llm_proxy_backend.Prelude.{
  ℕ, ◌≡◌, refl, Option, none, some, List, [], ◌∷◌, arith, Option-cases, inl, inr, Bool-cases,
}
use llm_proxy_backend.Identity.{User}
use llm_proxy_backend.Limits.Rules.{RuleSet, validate}
use llm_proxy_backend.Store.{Store, effects, Op, ◌>>◌, read_clock}
use llm_proxy_backend.Store.Tables.{AuditEvent}
use llm_proxy_backend.Store.Keeping.{
  Keeps, bind-Keeps, then-Keeps, require-Keeps, return-Keeps, read_clock-Keeps,
}
use llm_proxy_backend.Tokens.Repo.{user_by_id, record_event}
use llm_proxy_backend.Spend.Service.{
  in_force, read_windows, write_windows, admit, view, check_set, check_custom, store_defaults,
  swap_defaults, drop_stale, set_defaults, update_spend_limits, drop_orphans, set_user,
  check_window, reset_windows, reset_user,
}

-- The set in memory is the stored one, and `validate` accepts it.
pub record IsInStep (s : Store) : Type 0 where
  pub same : s.defaults ≡ s.stored_defaults
  pub valid : validate s.defaults ≡ none

abbrev K : {A : Type 0} → Op A → Type 0
K = Keeps IsInStep

user_by_id-IsInStep : (id : ℕ) → K (user_by_id id)
unfolding user_by_id effects
user_by_id-IsInStep id s h = ground arith

record_event-IsInStep : (e : AuditEvent) → K (record_event e)
unfolding record_event effects
record_event-IsInStep e s h = ground arith

read_windows-IsInStep : (user : ℕ) → K (read_windows user)
unfolding read_windows effects
read_windows-IsInStep user s h = ground arith

write_windows-IsInStep :
    (user : ℕ) (due drop : List ℕ) (at : ℕ) → K (write_windows user due drop at)
unfolding write_windows effects
write_windows-IsInStep user due drop at s h = ground arith

view-IsInStep : (user : User) → K (view user)
unfolding view in_force read_windows effects
view-IsInStep user s h = ground arith

check_set-IsInStep : (set : RuleSet) → K (check_set set)
unfolding check_set effects
check_set-IsInStep set s h = ground arith

check_custom-IsInStep : (custom : Option RuleSet) → K (check_custom custom)
unfolding check_custom effects
check_custom-IsInStep none s h = h
check_custom-IsInStep (some set) s h = check_set-IsInStep set s h

drop_stale-IsInStep : (set : RuleSet) → K (drop_stale set)
unfolding drop_stale effects
drop_stale-IsInStep set s h = ground arith

update-IsInStep : (id : ℕ) (custom : Option RuleSet) → K (update_spend_limits id custom)
unfolding update_spend_limits effects
update-IsInStep id custom s h = ground arith

drop_orphans-IsInStep : (id : ℕ) (orphans : List ℕ) (now : ℕ) → K (drop_orphans id orphans now)
unfolding drop_orphans write_windows effects
drop_orphans-IsInStep id orphans now s h = ground arith

reset_windows-IsInStep : (id : ℕ) (window : Option ℕ) → K (reset_windows id window)
unfolding reset_windows effects
reset_windows-IsInStep id window s h = ground arith

check_window-IsInStep :
    (custom : Option RuleSet) (window : Option ℕ) → K (check_window custom window)
unfolding check_window in_force effects
check_window-IsInStep custom none s h = h
check_window-IsInStep custom (some d) s h = ground arith

in_force-IsInStep : (custom : Option RuleSet) → K (in_force custom)
unfolding in_force
in_force-IsInStep custom s h = h

clock-IsInStep : K read_clock
clock-IsInStep = read_clock-Keeps IsInStep λ s h. record { same = h.same; valid = h.valid }

-- Between the check and the swap the set is known to be valid; a failed write changes neither copy.
replace-IsInStep :
    {A : Type 0} (set : RuleSet) (rest : Op A)
    → validate set ≡ none
    → K rest
    → K (store_defaults set >> (swap_defaults set >> rest))
unfolding store_defaults swap_defaults effects
replace-IsInStep set rest v k s h = elim (Bool-cases (s.fault s.calls)) [
  | inl down ↦ rw down (record { same = h.same; valid = h.valid })
  | inr up ↦ rw up (k _ (record { same = refl; valid = v }))
]

checked-IsInStep :
    {A : Type 0} (set : RuleSet) (rest : Op A)
    → (validate set ≡ none → K rest)
    → K (check_set set >> rest)
unfolding check_set effects
checked-IsInStep set rest k s h = elim (Option-cases (validate set)) [
  | inl v ↦ rw (v, check_set) (k v s h)
  | inr (e, bad) ↦ rw (bad, check_set) h
]

set_defaults-IsInStep : (actor : User) (set : RuleSet) → K (set_defaults actor set)
unfolding set_defaults
set_defaults-IsInStep actor set = then-Keeps IsInStep _ _ (require-Keeps IsInStep _ _) (
    checked-IsInStep set _ λ v. bind-Keeps IsInStep _ _ clock-IsInStep λ now.
      replace-IsInStep set _ v (
        then-Keeps IsInStep _ _ (record_event-IsInStep _)
          (then-Keeps IsInStep _ _ (drop_stale-IsInStep set) (return-Keeps IsInStep set))))

set_user-IsInStep : (actor : User) (id : ℕ) (custom : Option RuleSet) → K (set_user actor id custom)
unfolding set_user
set_user-IsInStep actor id custom = then-Keeps IsInStep _ _ (require-Keeps IsInStep _ _) (
    then-Keeps IsInStep _ _ (check_custom-IsInStep custom) (
      bind-Keeps IsInStep _ _ (user_by_id-IsInStep id) λ user.
        then-Keeps IsInStep _ _ (update-IsInStep id custom) (
          bind-Keeps IsInStep _ _ clock-IsInStep λ now.
            then-Keeps IsInStep _ _ (record_event-IsInStep _) (
              bind-Keeps IsInStep _ _ (read_windows-IsInStep id) λ rows.
                bind-Keeps IsInStep _ _ (in_force-IsInStep custom) λ set.
                  then-Keeps IsInStep _ _ (drop_orphans-IsInStep id _ now) (view-IsInStep _)))))

reset_user-IsInStep : (actor : User) (id : ℕ) (window : Option ℕ) → K (reset_user actor id window)
unfolding reset_user
reset_user-IsInStep actor id window = then-Keeps IsInStep _ _ (require-Keeps IsInStep _ _) (
    bind-Keeps IsInStep _ _ (user_by_id-IsInStep id) λ user.
      then-Keeps IsInStep _ _ (check_window-IsInStep _ window) (
        then-Keeps IsInStep _ _ (reset_windows-IsInStep id window) (
          bind-Keeps IsInStep _ _ clock-IsInStep
            λ now. then-Keeps IsInStep _ _ (record_event-IsInStep _) (view-IsInStep user))))

admit-IsInStep : (user : ℕ) (set : RuleSet) → K (admit user set)
unfolding admit read_windows write_windows effects
admit-IsInStep user set s h = ground arith

-- A request to the service, with its arguments.
pub data Request : Type 0 where
  admits : ℕ → RuleSet → Request
  sets_defaults : User → RuleSet → Request
  sets_user : User → ℕ → Option RuleSet → Request
  resets_user : User → ℕ → Option ℕ → Request

-- The stores after a request, whatever it answered.
unfoldable pub serve : Store → Request → Store
serve s (admits user set) = (admit user set s).1
serve s (sets_defaults actor set) = (set_defaults actor set s).1
serve s (sets_user actor id custom) = (set_user actor id custom s).1
serve s (resets_user actor id window) = (reset_user actor id window s).1

unfoldable pub serve_all : Store → List Request → Store
unfolding serve
serve_all s [] = s
serve_all s (r ∷ rs) = serve_all (serve s r) rs

-- After any sequence of requests, answered or failed at any call, the defaults in memory are the stored
-- ones and pass `validate`, if they were so at the start.
pub serve_all-IsInStep : (s : Store) (rs : List Request) → IsInStep s → IsInStep (serve_all s rs)
unfolding serve_all
serve_all-IsInStep s [] h = h
serve_all-IsInStep s (r ∷ rs) h = serve_all-IsInStep (serve s r) rs (one r)
  where
    one : (r : Request) → IsInStep (serve s r)
    one (admits user set) = admit-IsInStep user set s h
    one (sets_defaults actor set) = set_defaults-IsInStep actor set s h
    one (sets_user actor id custom) = set_user-IsInStep actor id custom s h
    one (resets_user actor id window) = reset_user-IsInStep actor id window s h
