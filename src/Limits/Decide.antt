-- ===== src/Limits/Decide.antt =====
-- The stored windows and `Decide` (internal/domain/limits/limits.go).
pub mod Blocking
pub mod Resets
pub mod Orphans
use llm_proxy_backend.Prelude.{
  ℕ, ◌+◌, ◌-◌, Bool, true, false, ◌&&◌, ◌||◌, not, Option, none, some, List, [], ◌∷◌, ◌++◌, map,
  ltb, leb, ◌==◌, if◌then◌else◌,
}
use llm_proxy_backend.Prelude.Float.{Float64, fle, plus}
use llm_proxy_backend.Limits.Rules.{Rule, RuleSet}

pub record Window : Type 0 where
  pub length : ℕ
  pub started_at : ℕ
  pub spent_usd : Float64

unfoldable pub ends_at : Window → ℕ
ends_at w = w.started_at + w.length

unfoldable pub live_at : Window → ℕ → Bool
unfolding ends_at
live_at w now = ltb now (ends_at w)

-- The map from a length to its window: a list that holds each length once.
unfoldable pub put : Window → List Window → List Window
put w [] = w ∷ []
put w (v ∷ m) = if v.length == w.length then w ∷ m else v ∷ put w m

unfoldable pub get : ℕ → List Window → Option Window
get k [] = none
get k (v ∷ m) = if v.length == k then some v else get k m

unfoldable pub delete : ℕ → List Window → List Window
delete k [] = []
delete k (v ∷ m) = if v.length == k then m else v ∷ delete k m

unfoldable pub store_from : List Window → List Window → List Window
unfolding put
store_from m [] = m
store_from m (w ∷ rows) = store_from (put w m) rows

-- The first loop of `Decide` and of `States`: a later row of one length replaces an earlier one.
unfoldable pub store : List Window → List Window
unfolding store_from
store rows = store_from [] rows

pub record Decision : Type 0 where
  pub blocked : Bool
  pub rule : Rule
  pub resets_at : ℕ
  pub wait : ℕ
  pub due : RuleSet
  pub orphans : List ℕ

-- The zero Decision.
abbrev pub undecided : Decision
undecided = record {
  blocked = false;
  rule = record { window = 0; amount_usd = plus 0 };
  resets_at = 0;
  wait = 0;
  due = [];
  orphans = [];
}

-- The test under which a live window becomes the one the refusal names.
unfoldable pub supersedes : Rule → Window → Decision → Bool
unfolding ends_at
supersedes rule window d =
    fle rule.amount_usd window.spent_usd && (not d.blocked || ltb d.resets_at (ends_at window))

-- The body of the loop over the rules, on what the map holds under the rule's window.
unfoldable pub judge : ℕ → Rule → Option Window → Decision → Decision
unfolding supersedes live_at ends_at
judge now rule none d = record d { due = d.due ++ rule ∷ [] }
judge now rule (some window) d =
    if not (live_at window now)
    then record d { due = d.due ++ rule ∷ [] }
    else if supersedes rule window d
    then record d { blocked = true; rule = rule; resets_at = ends_at window }
    else d

-- The loop over the rules: the decision, and what is left in the map.
unfoldable pub decide_rules : ℕ → RuleSet → List Window → Decision → Decision × List Window
unfolding judge get delete
decide_rules now [] stored d = (d, stored)
decide_rules now (rule ∷ set) stored d =
    decide_rules now set (delete rule.window stored) (judge now rule (get rule.window stored) d)

unfoldable pub insert_sorted : ℕ → List ℕ → List ℕ
insert_sorted a [] = a ∷ []
insert_sorted a (b ∷ l) = if leb a b then a ∷ b ∷ l else b ∷ insert_sorted a l

-- slices.Sort on durations.
unfoldable pub sorted : List ℕ → List ℕ
unfolding insert_sorted
sorted [] = []
sorted (a ∷ l) = insert_sorted a (sorted l)

-- What follows the loops: the orphans, and the blocked answer's wait.
unfoldable pub settle : ℕ → Decision × List Window → Decision
unfolding sorted
settle now (d, stored) =
    let orphans = sorted (map (λ w. w.length) stored) in
    if d.blocked
    then record d { orphans = orphans; due = []; wait = d.resets_at - now }
    else record d { orphans = orphans }

unfoldable pub decide : RuleSet → List Window → ℕ → Decision
unfolding settle decide_rules store
decide set rows now = settle now (decide_rules now set (store rows) undecided)
