-- ===== src/Auth/Throttle/Charging.antt =====
-- One charge and the rows (`Charge`, internal/app/auth/throttle.go).
use llm_proxy_backend.Prelude.{
  ℕ, ◌≡◌, refl, ap, ◌∙◌, ◌⊎◌, inl, inr, Bool, true, false, Option, none, some, List, [], ◌∷◌, arith,
  leb, suc, if◌then◌else◌, find, Bool-cases,
}
use llm_proxy_backend.Prelude.Text.{Text, ◌=t◌, =t_refl, eq_of_=t}
use llm_proxy_backend.Store.{effects, Store, Result, ok, err}
use llm_proxy_backend.Store.Tables.{Attempt}
use llm_proxy_backend.Auth.Throttle.{charged, fresh, is_stale, charge_rows, charge_call, charge}

abbrev pub is_ok : {A : Type 0} → Result A → Bool
is_ok (ok _) = true
is_ok (err _) = false

-- The row of an address.
abbrev pub row_at : Text → List Attempt → Option Attempt
row_at key = find λ a. a.email =t key

-- The row that a charge leaves where there was this one.
abbrev pub charged_row : ℕ → ℕ → ℕ → Text → Option Attempt → Attempt
charged_row limit now window key none = fresh limit now window key
charged_row limit now window key (some a) = charged limit now window a

charged_email : (limit now window : ℕ) (a : Attempt) → (charged limit now window a).email ≡ a.email
unfolding charged is_stale
charged_email limit now window a = ground arith

pub charge_rows-own :
    (limit now window : ℕ) (key : Text) (rows : List Attempt)
    → ((charge_rows limit now window key rows).1
        ≡ charged_row limit now window key (row_at key rows))
      × (row_at key (charge_rows limit now window key rows).0
          ≡ some (charged_row limit now window key (row_at key rows)))
unfolding charge_rows
charge_rows-own limit now window key [] = ground (arith, =t_refl key)
charge_rows-own limit now window key (a ∷ rows) =
    let (same, kept) = charge_rows-own limit now window key rows in
    let email = charged_email limit now window a in
    elim (Bool-cases (a.email =t key)) [
      | inl own ↦ rw own (
        refl,
        ap (λ b. if b then some (charged limit now window a) else row_at key rows)
            (ap (λ e. e =t key) email ∙ own),
      )
      | inr other ↦ rw other (same, rw other kept)
    ]

not_same : (a other key : Text) → (a =t other) ≡ true → (other =t key) ≡ false → (a =t key) ≡ false
not_same a other key h k = rw (eq_of_=t a other h) k

pub charge_rows-other :
    (limit now window : ℕ) (key other : Text) (rows : List Attempt)
    → (other =t key) ≡ false
    → row_at key (charge_rows limit now window other rows).0 ≡ row_at key rows
unfolding charge_rows
charge_rows-other limit now window key other [] h = ground (arith, h)
charge_rows-other limit now window key other (a ∷ rows) h =
    let rest = charge_rows-other limit now window key other rows h in
    let email = charged_email limit now window a in
    elim (Bool-cases (a.email =t other)) [
      | inl own ↦ rw own (ground (arith, email, own, not_same a.email other key own h))
      | inr not_own ↦ rw not_own (ground (arith, rest))
    ]

-- One charge: it fails and changes no row, or it is the upsert at the clock's time.
pub charge_step :
    (lower : Text → Text) (limit window : ℕ) (email : Text) (s : Store)
    → ((charge lower limit window email s).1.clock ≡ s.clock)
      × (((is_ok (charge lower limit window email s).0 ≡ false)
            × ((charge lower limit window email s).1.attempts ≡ s.attempts))
          ⊎ ((is_ok (charge lower limit window email s).0
                ≡ leb
                    (charge_rows limit (s.clock s.calls) window (lower email) s.attempts).1.failures
                    limit)
              × ((charge lower limit window email s).1.attempts
                  ≡ (charge_rows limit (s.clock s.calls) window (lower email) s.attempts).0)))
unfolding charge charge_call effects
charge_step lower limit window email s = elim (Bool-cases (s.fault (suc s.calls))) [
  | inl broken ↦ (ground arith, inl (ground arith, ground arith))
  | inr fine ↦ (ground arith, inr (ground arith, ground arith))
]
