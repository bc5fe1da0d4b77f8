-- ===== src/Auth/Throttle/Admission.antt =====
-- How many attempts get in, and on which row (`Charge`, internal/app/auth/throttle.go).
use mathlib.Core.Path.{subst, sym}
use llm_proxy_backend.Prelude.{
  ℕ, suc, ◌+◌, ◌-◌, ◌≤◌, ◌<◌, ◌≡◌, ap, ◌∙◌, ◌⊎◌, inl, inr, Bool, false, ◌&&◌, Option, none, some,
  List, [], ◌∷◌, arith, leb, if◌then◌else◌, Bool-cases,
}
use llm_proxy_backend.Prelude.Text.{Text, ◌=t◌, eq_of_=t}
use llm_proxy_backend.Store.{Store, Result}
use llm_proxy_backend.Store.Tables.{Attempt}
use llm_proxy_backend.Auth.Throttle.Charging.{
  is_ok, row_at, charged_row, charge_rows-own, charge_rows-other, charge_step,
}
use llm_proxy_backend.Auth.Throttle.{charged, is_stale, charge_rows, charge, first_lock}

-- Attempts on any addresses, one after the other, each charged on the store that the one before left:
-- how many of those on the address with the key are let through by `charge`.
unfoldable pub let_through :
    (Text → Text) → (max_failures lock_for : ℕ) → (key : Text) → List Text → Store → ℕ
unfolding charge
let_through lower max_failures lock_for key [] s = 0
let_through lower max_failures lock_for key (email ∷ emails) s =
    let (r, s') = charge lower max_failures lock_for email s in
    (if (lower email =t key) && is_ok r then 1 else 0)
    + let_through lower max_failures lock_for key emails s'

abbrev HasReached : ℕ → ℕ → Option ℕ → Type 0
HasReached limit n none = Unit
HasReached limit n (some until) = limit ≤ n

-- A row with a lock has reached the limit.
abbrev pub IsSound : ℕ → Attempt → Type 0
IsSound limit a = HasReached limit a.failures a.locked_until

abbrev EndsNoSooner : ℕ → Option ℕ → Type 0
EndsNoSooner t none = Unit
EndsNoSooner t (some until) = t ≤ until

abbrev pub IsWithin : ℕ → ℕ → ℕ → Type 0
IsWithin start window t = (start ≤ t) × (t < start + window)

-- A row whose count belongs to the window from `start` on.
abbrev IsCounting : ℕ → ℕ → Attempt → Type 0
IsCounting start window a =
    (start ≤ a.last_failure_at) × EndsNoSooner (start + window) a.locked_until

abbrev row : Text → ℕ → Option ℕ → ℕ → Attempt
row email n lock last = record {
  email = email;
  failures = n;
  locked_until = lock;
  last_failure_at = last;
}

charged-IsCounting :
    (limit start window t : ℕ) (email : Text) (n : ℕ) (lock : Option ℕ) (last : ℕ)
    → IsWithin start window t
    → (start ≤ last) × EndsNoSooner (start + window) lock
    → IsCounting start window (charged limit t window (row email n lock last))
      × ((charged limit t window (row email n lock last)).failures ≡ suc n)
unfolding charged is_stale
charged-IsCounting limit start window t email n none last w c = ground arith
charged-IsCounting limit start window t email n (some until) last w c = ground arith

-- A charge on any sound row either leaves a count of this window, or meets a lock and is refused.
charged_first :
    (limit start window t : ℕ) (email : Text) (n : ℕ) (lock : Option ℕ) (last : ℕ)
    → IsWithin start window t
    → HasReached limit n lock
    → (IsCounting start window (charged limit t window (row email n lock last))
        × ((if leb (charged limit t window (row email n lock last)).failures limit then 1 else 0)
              + (limit - (charged limit t window (row email n lock last)).failures)
            ≤ limit))
      ⊎ (IsSound limit (charged limit t window (row email n lock last))
          × (limit < (charged limit t window (row email n lock last)).failures))
unfolding charged is_stale
charged_first limit start window t email n none last w h = ground arith
charged_first limit start window t email n (some until) last w h = ground arith

-- A row, or none, from which no more than `n` attempts can get in before the window ends.
Allows : ℕ → ℕ → ℕ → ℕ → Option Attempt → Type 0
Allows limit start window n none = limit ≤ n
Allows limit start window n (some a) =
    (IsCounting start window a × (limit - a.failures ≤ n)) ⊎ (IsSound limit a × (limit ≤ n))

fresh_lock-ends :
    (limit start window t : ℕ)
    → IsWithin start window t
    → EndsNoSooner (start + window) (first_lock limit (t + window))
fresh_lock-ends limit start window t w = ground arith

-- What one charge on the address takes of it.
charged_row-Allows :
    (limit start window t n : ℕ) (key : Text) (o : Option Attempt)
    → IsWithin start window t
    → Allows limit start window n o
    → (m : ℕ) × Allows limit start window m (some (charged_row limit t window key o))
      × ((if leb (charged_row limit t window key o).failures limit then 1 else 0) + m ≤ n)
unfolding Allows
charged_row-Allows limit start window t n key none w h =
    (limit - 1, inl ((w.0, fresh_lock-ends limit start window t w), omega arith), ground arith)
charged_row-Allows limit start window t n key (some a) w (inl (c, h)) =
    let (c', e) =
      charged-IsCounting limit start window t a.email a.failures a.locked_until a.last_failure_at w
        c in
    (limit - (charged limit t window a).failures, inl (c', omega arith), ground arith)
charged_row-Allows limit start window t n key (some a) w (inr (sound, h)) =
    elim (charged_first limit start window t a.email a.failures a.locked_until a.last_failure_at w
      sound) [
        | inl c ↦ (limit - (charged limit t window a).failures, inl (c.0, omega arith), omega arith)
        | inr c ↦ (limit, inr (c.0, omega arith), ground arith)
      ]

-- One attempt with the rest of them, from the step of its charge.
count_refused :
    (own : Bool) (r : Result (Unit {0})) (rest n : ℕ)
    → is_ok r ≡ false
    → rest ≤ n
    → (if own && is_ok r then 1 else 0) + rest ≤ n
count_refused own r rest n h k = ground arith

count_own :
    (own passed : Bool) (r : Result (Unit {0})) (rest m n : ℕ)
    → is_ok r ≡ passed
    → rest ≤ m
    → (if passed then 1 else 0) + m ≤ n
    → (if own && is_ok r then 1 else 0) + rest ≤ n
count_own own passed r rest m n h k l = ground arith

count_other :
    (own : Bool) (r : Result (Unit {0})) (rest n : ℕ)
    → own ≡ false
    → rest ≤ n
    → (if own && is_ok r then 1 else 0) + rest ≤ n
count_other own r rest n h k = ground arith

let_through-Allows :
    (lower : Text → Text) (limit start window : ℕ) (key : Text) (emails : List Text) (s : Store)
    (n : ℕ)
    → ((k : ℕ) → IsWithin start window (s.clock k))
    → Allows limit start window n (row_at key s.attempts)
    → let_through lower limit window key emails s ≤ n
unfolding let_through
let_through-Allows lower limit start window key [] s n w h = omega arith
let_through-Allows lower limit start window key (email ∷ emails) s n w h =
    let after = charge lower limit window email s in
    let (same_clock, step) = charge_step lower limit window email s in
    let w' : (k : ℕ) → IsWithin start window (after.1.clock k) =
      λ k. subst (λ c. IsWithin start window (c k)) (sym same_clock) (w k) in
    let rest = λ (m : ℕ). let_through-Allows lower limit start window key emails after.1 m w' in
    let now = s.clock s.calls in
    elim step [
      | inl (failed, rows) ↦
          count_refused (lower email =t key) after.0 _ n failed
            (rest n (subst (λ rs. Allows limit start window n (row_at key rs)) (sym rows) h))
      | inr (result, rows) ↦ elim (Bool-cases (lower email =t key)) [
        | inr other ↦ count_other (lower email =t key) after.0 _ n other (
            rest n (
              subst (Allows limit start window n)
                (sym (
                  ap (row_at key) rows
                  ∙ charge_rows-other limit now window key (lower email) s.attempts other))
                h))
        | inl own ↦
            let (m, left, taken) =
              charged_row-Allows limit start window now n key (row_at key s.attempts) (w s.calls)
                h in
            let (row, found) =
              subst
                (λ e.
                  ((charge_rows limit now window e s.attempts).1
                    ≡ charged_row limit now window key (row_at key s.attempts))
                  × (row_at key (charge_rows limit now window e s.attempts).0
                      ≡ some (charged_row limit now window key (row_at key s.attempts))))
                (sym (eq_of_=t (lower email) key own))
                (charge_rows-own limit now window key s.attempts) in
            count_own (lower email =t key) _ after.0 _ m n
              (result ∙ ap (λ (a : Attempt). leb a.failures limit) row)
              (rest m
                (subst (Allows limit start window m) (sym (ap (row_at key) rows ∙ found)) left))
              taken
      ]
    ]

-- A row with a lock has reached the limit, if there is one.
abbrev pub IsSoundRow : ℕ → Option Attempt → Type 0
IsSoundRow limit none = Unit
IsSoundRow limit (some a) = IsSound limit a

sound-Allows :
    (limit start window : ℕ) (o : Option Attempt)
    → IsSoundRow limit o
    → Allows limit start window limit o
unfolding Allows
sound-Allows limit start window none h = omega arith
sound-Allows limit start window (some a) h = inr (h, omega arith)

-- As long as the address's row, if it has one, has no lock that was set by fewer than `max_failures`
-- failures: of any sequence of attempts on any addresses, whose clock readings all fall within one
-- window, `charge` lets at most `max_failures` on this address go on to the password check, whichever
-- of its calls fail.
pub let_through-limit :
    (lower : Text → Text) (max_failures start lock_for : ℕ) (key : Text) (emails : List Text)
    (s : Store)
    → ((k : ℕ) → IsWithin start lock_for (s.clock k))
    → IsSoundRow max_failures (row_at key s.attempts)
    → let_through lower max_failures lock_for key emails s ≤ max_failures
let_through-limit lower max_failures start lock_for key emails s w h =
    let_through-Allows lower max_failures start lock_for key emails s max_failures w
      (sound-Allows max_failures start lock_for (row_at key s.attempts) h)
