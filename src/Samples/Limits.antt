-- ===== src/Samples/Limits.antt =====
-- Spend limits at work.
use llm_proxy_backend.Prelude.{◌≡◌, refl, List, [], ◌∷◌, any, map, if◌then◌else◌}
use llm_proxy_backend.Prelude.Float.{plus, nan, fle, is_nan, whole}
use llm_proxy_backend.Limits.Rules.{
  Rule, validate, validate_from, max_amount_usd, window_refused, amount_refused,
}
use llm_proxy_backend.Limits.Rules.Validity.{IsValid, validate_iff}
use llm_proxy_backend.Limits.Decide.{Window, Decision, store, decide}
use llm_proxy_backend.Limits.Decide.Blocking.{exhausted, decide-blocked}
use llm_proxy_backend.Limits.States.{states}
use llm_proxy_backend.Limits.States.Agreement.{states-decide}
use llm_proxy_backend.Store.{effects, Store}
use llm_proxy_backend.Spend.Windows.{windows_of, open_windows}
use llm_proxy_backend.Spend.Service.{read_windows, write_windows, admit}
use llm_proxy_backend.Spend.Service.Refusals.{admit_effect}
use llm_proxy_backend.Spend.Service.Defaults.{
  IsInStep, admits, sets_defaults, serve_all, serve_all-IsInStep,
}
use llm_proxy_backend.Access.Policy.{is_empty}
use llm_proxy_backend.Samples.{hour, hourly, alice, store_of_alice}

-- A live window, spent up to its limit.
abbrev spent : List Window
spent = record { length = hour; started_at = 50; spent_usd = plus 5 } ∷ []

decide-blocked_example :
    (decide hourly spent 100).blocked ≡ any (exhausted 100 (store spent)) hourly
decide-blocked_example = decide-blocked hourly spent 100 (refl, tt)

states-decide_example :
    any (λ s. s.exhausted) (states hourly spent 100) ≡ (decide hourly spent 100).blocked
states-decide_example = states-decide hourly spent 100 (refl, tt)

abbrev unpriced : Rule
unpriced = record { window = hour; amount_usd = nan }

hourly-IsValid : IsValid hourly
unfolding validate validate_from window_refused amount_refused is_nan fle max_amount_usd whole
hourly-IsValid = (validate_iff hourly).0 refl

-- The first request of an account opens its window.
abbrev opened : Store
opened = (admit 1 hourly store_of_alice).1

abbrev first_decision : Decision
first_decision = decide hourly (windows_of 1 store_of_alice.windows) 100

admit_effect_example :
    (first_decision ≡ decide hourly (windows_of 1 store_of_alice.windows) 100)
    × (opened ≡ record store_of_alice {
      calls = opened.calls;
      windows =
          if first_decision.blocked
          then store_of_alice.windows
          else open_windows 1
              (map (λ r. r.window) first_decision.due)
              first_decision.orphans
              100
              store_of_alice.windows;
    })
unfolding admit read_windows write_windows decide windows_of effects is_empty open_windows
admit_effect_example = admit_effect 1 hourly store_of_alice opened first_decision refl

serve_all-IsInStep_example :
    IsInStep (serve_all store_of_alice (sets_defaults alice [] ∷ admits 1 hourly ∷ []))
unfolding validate validate_from window_refused amount_refused is_nan fle max_amount_usd whole
serve_all-IsInStep_example =
    serve_all-IsInStep store_of_alice (sets_defaults alice [] ∷ admits 1 hourly ∷ [])
      (record { same = refl; valid = refl })
