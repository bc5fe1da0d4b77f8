-- ===== src/Limits/States/Agreement.antt =====
-- What the views show of an account agrees with what `decide` does to its requests.
use llm_proxy_backend.Prelude.{
  ℕ, ◌≡◌, refl, ◌∙◌, sym, Bool, ◌||◌, Option, none, some, List, [], ◌∷◌, map, arith, any,
}
use llm_proxy_backend.Limits.Rules.{Rule, RuleSet}
use llm_proxy_backend.Limits.Decide.{Window, get, store, decide}
use llm_proxy_backend.Limits.Decide.Blocking.{IsDistinct, exhausted_by, exhausted, decide-blocked}
use llm_proxy_backend.Limits.States.{insert_by_window, by_window, state_of, states}

state_of-exhausted :
    (now : ℕ) (r : Rule) (o : Option Window) → (state_of now r o).exhausted ≡ exhausted_by now r o
unfolding state_of exhausted_by
state_of-exhausted now r none = refl
state_of-exhausted now r (some w) = ground arith

any-insert_by_window :
    (p : Rule → Bool) (a : Rule) (l : RuleSet) → any p (insert_by_window a l) ≡ (p a || any p l)
unfolding insert_by_window
any-insert_by_window p a [] = refl
any-insert_by_window p a (b ∷ l) = ground (arith, any-insert_by_window p a l)

any-by_window : (p : Rule → Bool) (l : RuleSet) → any p (by_window l) ≡ any p l
unfolding by_window
any-by_window p [] = refl
any-by_window p (a ∷ l) = ground (arith, any-insert_by_window p a (by_window l), any-by_window p l)

any-map_state :
    (now : ℕ) (m : List Window) (l : RuleSet)
    → any (λ s. s.exhausted) (map (λ r. state_of now r (get r.window m)) l)
      ≡ any (exhausted now m) l
any-map_state now m [] = refl
any-map_state now m (r ∷ l) = rw (state_of-exhausted now r (get r.window m), any-map_state now m l)

-- For a set with no repeated window, the view shows an exhausted window exactly when the same rows
-- block the account's next request at that moment.
pub states-decide :
    (set : RuleSet) (rows : List Window) (now : ℕ)
    → IsDistinct set
    → any (λ s. s.exhausted) (states set rows now) ≡ (decide set rows now).blocked
unfolding states
states-decide set rows now u =
    any-map_state now (store rows) (by_window set)
    ∙ any-by_window (exhausted now (store rows)) set
    ∙ sym (decide-blocked set rows now u)
