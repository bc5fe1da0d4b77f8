-- ===== src/Spend/Service/Refusals.antt =====
-- Who may change spend limits, and what a refusal leaves behind.
use llm_proxy_backend.Prelude.{
  ℕ, suc, ◌≡◌, refl, true, false, Option, List, [], ◌∷◌, map, arith, if◌then◌else◌,
}
use llm_proxy_backend.Identity.{User, require_admin}
use llm_proxy_backend.Access.Policy.{is_empty}
use llm_proxy_backend.Limits.Rules.{RuleSet, Rule}
use llm_proxy_backend.Limits.Decide.{Decision, decide}
use llm_proxy_backend.Store.{Store, effects, forbidden, ok, err}
use llm_proxy_backend.Store.Tables.{Row}
use llm_proxy_backend.Spend.Windows.{windows_of, open_windows, open_rows, drop_rows}
use llm_proxy_backend.Spend.Service.{
  admit, read_windows, write_windows, get_defaults, set_defaults, for_user, set_user, reset_user,
}

-- For anyone who is not an administrator in good standing, every administrator's method is refused
-- with nothing read or written.
pub refuses_others :
    (actor : User) (s : Store) (set : RuleSet) (id : ℕ) (custom : Option RuleSet)
    (window : Option ℕ)
    → require_admin actor ≡ false
    → (get_defaults actor s ≡ (err forbidden, s))
      × (set_defaults actor set s ≡ (err forbidden, s))
      × (for_user actor id s ≡ (err forbidden, s))
      × (set_user actor id custom s ≡ (err forbidden, s))
      × (reset_user actor id window s ≡ (err forbidden, s))
unfolding get_defaults set_defaults for_user set_user reset_user effects
refuses_others actor s set id custom window h = (rw h, rw h, rw h, rw h, rw h)

keep-drop_none : (user : ℕ) (rows : List Row) → drop_rows user [] rows ≡ rows
unfolding drop_rows
keep-drop_none user [] = refl
keep-drop_none user (r ∷ rows) = ground (arith, keep-drop_none user rows)

is_empty-map : (set : RuleSet) → is_empty set ≡ true → map (λ (r : Rule). r.window) set ≡ []
unfolding is_empty
is_empty-map [] h = refl
is_empty-map (r ∷ set) h = cc

is_empty-nil : (l : List ℕ) → is_empty l ≡ true → l ≡ []
unfolding is_empty
is_empty-nil [] h = refl
is_empty-nil (r ∷ set) h = cc

-- An answered request is decided on the account's stored windows at the clock's time. A refused one
-- changes no window; an admitted one opens the windows that are due and deletes the orphans, and
-- nothing else of the stores changes either way.
pub admit_effect :
    (user : ℕ) (set : RuleSet) (s s' : Store) (d : Decision)
    → admit user set s ≡ (ok d, s')
    → let now = s.clock (suc s.calls) in
      (d ≡ decide set (windows_of user s.windows) now)
      × (s' ≡ record s {
        calls = s'.calls;
        windows =
            if d.blocked
            then s.windows
            else open_windows user (map (λ r. r.window) d.due) d.orphans now s.windows;
      })
unfolding admit effects read_windows write_windows open_windows open_rows
admit_effect user set s s' d h =
    let d' = decide set (windows_of user s.windows) (s.clock (suc s.calls)) in
    ground (arith, is_empty-map d'.due, is_empty-nil d'.orphans, keep-drop_none user s.windows)
