-- ===== src/Limits/Decide/Blocking.antt =====
-- When `decide` blocks, which windows it opens and when it says to come back.
use mathlib.Core.List.{append_assoc, append-nil}
use llm_proxy_backend.Prelude.{
  ℕ, ◌≡◌, refl, Bool, true, false, ◌&&◌, ◌||◌, not, Option, none, some, List, [], ◌∷◌, ◌++◌, arith,
  ◌==◌, if◌then◌else◌, any, keep,
}
use llm_proxy_backend.Prelude.Float.{fle}
use llm_proxy_backend.Limits.Rules.{Rule, RuleSet, same_window}
use llm_proxy_backend.Limits.Decide.{
  Window, live_at, get, delete, store, Decision, undecided, judge, decide_rules, settle, decide,
}

-- No window stands in two rules.
abbrev pub IsDistinct : RuleSet → Type 0
IsDistinct [] = Unit
IsDistinct (r ∷ set) = (any (same_window r) set ≡ false) × IsDistinct set

-- Whether the window stored under a rule is live and spent up to the rule's amount.
unfoldable pub exhausted_by : ℕ → Rule → Option Window → Bool
exhausted_by now r none = false
exhausted_by now r (some w) = live_at w now && fle r.amount_usd w.spent_usd

abbrev pub exhausted : ℕ → List Window → Rule → Bool
exhausted now stored r = exhausted_by now r (get r.window stored)

-- Whether no live window is stored under a rule.
unfoldable pub idle_by : ℕ → Option Window → Bool
idle_by now none = true
idle_by now (some w) = not (live_at w now)

abbrev pub idle : ℕ → List Window → Rule → Bool
idle now stored r = idle_by now (get r.window stored)

pub get-delete_ne : (k j : ℕ) (m : List Window) → (j == k) ≡ false → get j (delete k m) ≡ get j m
unfolding get delete
get-delete_ne k j [] h = refl
get-delete_ne k j (v ∷ m) h = ground (arith, get-delete_ne k j m h)

-- A test that reads only what is stored under a rule's window does not see the other deletions.
module _ (test : Rule → Option Window → Bool) (r : Rule) (stored : List Window) where
  pub any-delete :
      (set : RuleSet)
      → any (same_window r) set ≡ false
      → any (λ o. test o (get o.window (delete r.window stored))) set
        ≡ any (λ o. test o (get o.window stored)) set
  any-delete [] h = refl
  any-delete (o ∷ set) h =
      let (p, q) = or_false (o.window == r.window) _ h in
      rw (get-delete_ne r.window o.window stored p, any-delete set q)
    where
      or_false : (a b : Bool) → (a || b) ≡ false → (a ≡ false) × (b ≡ false)
      or_false a b e = ground arith

  keep-delete :
      (set : RuleSet)
      → any (same_window r) set ≡ false
      → keep (λ o. test o (get o.window (delete r.window stored))) set
        ≡ keep (λ o. test o (get o.window stored)) set
  keep-delete [] h = refl
  keep-delete (o ∷ set) h =
      let (p, q) = or_false (o.window == r.window) _ h in
      rw (get-delete_ne r.window o.window stored p, keep-delete set q)
    where
      or_false : (a b : Bool) → (a || b) ≡ false → (a ≡ false) × (b ≡ false)
      or_false a b e = ground arith

judge-blocked :
    (now : ℕ) (r : Rule) (o : Option Window) (d : Decision)
    → (judge now r o d).blocked ≡ (d.blocked || exhausted_by now r o)
unfolding judge exhausted_by
judge-blocked now r none d = ground arith
judge-blocked now r (some w) d = ground arith

judge-due :
    (now : ℕ) (r : Rule) (o : Option Window) (d : Decision)
    → (judge now r o d).due ≡ (if idle_by now o then d.due ++ r ∷ [] else d.due)
unfolding judge idle_by
judge-due now r none d = refl
judge-due now r (some w) d = ground arith

decide_rules-blocked :
    (now : ℕ) (set : RuleSet) (stored : List Window) (d : Decision)
    → IsDistinct set
    → (decide_rules now set stored d).0.blocked ≡ (d.blocked || any (exhausted now stored) set)
unfolding decide_rules
decide_rules-blocked now [] stored d u = ground arith
decide_rules-blocked now (r ∷ set) stored d (apart, u) =
    rw
      (
        decide_rules-blocked now set (delete r.window stored) (judge now r (get r.window stored) d)
            u,
        any-delete (exhausted_by now) r stored set apart,
        judge-blocked,
      )
      (or_assoc d.blocked _ _)
  where
    or_assoc : (a b c : Bool) → (a || b || c) ≡ (a || (b || c))
    or_assoc a b c = ground arith

decide_rules-due :
    (now : ℕ) (set : RuleSet) (stored : List Window) (d : Decision)
    → IsDistinct set
    → (decide_rules now set stored d).0.due ≡ d.due ++ keep (idle now stored) set
unfolding decide_rules
decide_rules-due now [] stored d u = ground (arith, append-nil d.due)
decide_rules-due now (r ∷ set) stored d (apart, u) =
    rw
      (
        decide_rules-due now set (delete r.window stored) (judge now r (get r.window stored) d) u,
        keep-delete (λ _. idle_by now) r stored set apart,
        judge-due,
      )
      (split (idle_by now (get r.window stored)))
  where
    split :
        (b : Bool)
        → (if b then d.due ++ r ∷ [] else d.due) ++ keep (idle now stored) set
          ≡ d.due ++ (if b then r ∷ keep (idle now stored) set else keep (idle now stored) set)
    split true = append_assoc d.due (r ∷ []) _
    split false = refl

-- `decide` blocks exactly when some rule of the set has a live window spent up to its amount.
pub decide-blocked :
    (set : RuleSet) (rows : List Window) (now : ℕ)
    → IsDistinct set
    → (decide set rows now).blocked ≡ any (exhausted now (store rows)) set
unfolding decide settle
decide-blocked set rows now u =
    ground (arith, decide_rules-blocked now set (store rows) undecided u)

-- An admitted request opens exactly the rules that have no live window, in the set's order; a
-- blocked one opens nothing.
pub decide-due :
    (set : RuleSet) (rows : List Window) (now : ℕ)
    → IsDistinct set
    → (decide set rows now).due
      ≡ (if (decide set rows now).blocked then [] else keep (idle now (store rows)) set)
unfolding decide settle
decide-due set rows now u = ground (arith, decide_rules-due now set (store rows) undecided u)
