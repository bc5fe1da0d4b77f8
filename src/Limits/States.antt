-- ===== src/Limits/States.antt =====
-- `States`, what the API shows of the windows (internal/domain/limits/limits.go).
pub mod Agreement
use llm_proxy_backend.Prelude.{
  ℕ, Bool, false, Option, none, some, List, [], ◌∷◌, map, leb, if◌then◌else◌,
}
use llm_proxy_backend.Prelude.Float.{Float64, fle, plus}
use llm_proxy_backend.Limits.Rules.{Rule, RuleSet}
use llm_proxy_backend.Limits.Decide.{Window, ends_at, live_at, get, store}

pub record WindowState : Type 0 where
  pub rule : Rule
  pub started_at : ℕ
  pub resets_at : ℕ
  pub spent_usd : Float64
  pub exhausted : Bool

unfoldable pub insert_by_window : Rule → RuleSet → RuleSet
insert_by_window a [] = a ∷ []
insert_by_window a (b ∷ l) = if leb a.window b.window then a ∷ b ∷ l else b ∷ insert_by_window a l

-- slices.SortedFunc by the window. (Rules of one window, which no valid set has, keep their order.)
unfoldable pub by_window : RuleSet → RuleSet
unfolding insert_by_window
by_window [] = []
by_window (a ∷ l) = insert_by_window a (by_window l)

-- A rule with no live window: the zero times, nothing spent.
abbrev pub idle_state : Rule → WindowState
idle_state r = record {
  rule = r;
  started_at = 0;
  resets_at = 0;
  spent_usd = plus 0;
  exhausted = false;
}

-- The body of the loop, on what the map holds under the rule's window.
unfoldable pub state_of : ℕ → Rule → Option Window → WindowState
unfolding live_at ends_at
state_of now r none = idle_state r
state_of now r (some w) =
    if live_at w now
    then record {
      rule = r;
      started_at = w.started_at;
      resets_at = ends_at w;
      spent_usd = w.spent_usd;
      exhausted = fle r.amount_usd w.spent_usd;
    }
    else idle_state r

unfoldable pub states : RuleSet → List Window → ℕ → List WindowState
unfolding by_window state_of get store
states set rows now = map (λ r. state_of now r (get r.window (store rows))) (by_window set)
