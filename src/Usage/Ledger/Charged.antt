-- ===== src/Usage/Ledger/Charged.antt =====
-- A charge never lets a blocked account through.
use mathlib.Core.Path.{subst}
use llm_proxy_backend.Prelude.{
  sym, ap, ◌∙◌, inl, inr, ◌⊎◌, Bool-cases, ℕ, ◌≡◌, refl, true, false, List, [], ◌∷◌, map, arith,
  ◌==◌, any, All,
}
use llm_proxy_backend.Prelude.Float.{Float64, fle, plus}
use llm_proxy_backend.Limits.Rules.{Rule, RuleSet}
use llm_proxy_backend.Limits.Decide.{Window, put, get, store_from, store, live_at, decide}
use llm_proxy_backend.Limits.Decide.Blocking.{IsDistinct, exhausted_by, exhausted, decide-blocked}
use llm_proxy_backend.Store.Tables.{Row}
use llm_proxy_backend.Store.{Store, ok, effects}
use llm_proxy_backend.Spend.Windows.{window_of, windows_of}
use llm_proxy_backend.Usage.Cost.{FloatArith, total_usd}
use llm_proxy_backend.Usage.Row.{UsageEvent}
use llm_proxy_backend.Usage.Ledger.{is_owner, no_events, summed, charge_row, append_batch}

-- A window of the same length and start, in which no less is spent.
abbrev pub Grows : Window → Window → Type 0
Grows v w =
    (w.length ≡ v.length)
    × (w.started_at ≡ v.started_at)
    × ((x : Float64) → fle x v.spent_usd ≡ true → fle x w.spent_usd ≡ true)

abbrev pub AllGrow : List Window → List Window → Type 0
AllGrow [] [] = Unit
AllGrow (v ∷ vs) (w ∷ ws) = Grows v w × AllGrow vs ws
AllGrow _ _ = ⊥

put-AllGrow :
    (v w : Window) (m n : List Window) → Grows v w → AllGrow m n → AllGrow (put v m) (put w n)
unfolding put
put-AllGrow v w [] [] g h = (g, tt)
put-AllGrow v w (x ∷ m) (y ∷ n) g h = elim (Bool-cases (x.length == v.length)) [
  | inl e ↦ let f : (y.length == w.length) ≡ true = rw (h.0.0, g.0) e in rw (e, f) (g, h.1)
  | inr e ↦
      let f : (y.length == w.length) ≡ false = rw (h.0.0, g.0) e in
      rw (e, f) (h.0, put-AllGrow v w m n g h.1)
]
put-AllGrow v w [] (y ∷ n) g h = absurd h
put-AllGrow v w (x ∷ m) [] g h = absurd h

store_from-AllGrow :
    (m n vs ws : List Window)
    → AllGrow m n
    → AllGrow vs ws
    → AllGrow (store_from m vs) (store_from n ws)
unfolding store_from
store_from-AllGrow m n [] [] g h = g
store_from-AllGrow m n (v ∷ vs) (w ∷ ws) g h =
    store_from-AllGrow (put v m) (put w n) vs ws (put-AllGrow v w m n h.0 g) h.1
store_from-AllGrow m n [] (w ∷ ws) g h = absurd h
store_from-AllGrow m n (v ∷ vs) [] g h = absurd h

stored-AllGrow : (vs ws : List Window) → AllGrow vs ws → AllGrow (store vs) (store ws)
unfolding store
stored-AllGrow vs ws h = store_from-AllGrow [] [] vs ws tt h

exhausted-AllGrow :
    (now : ℕ) (r : Rule) (k : ℕ) (m n : List Window)
    → AllGrow m n
    → exhausted_by now r (get k m) ≡ true
    → exhausted_by now r (get k n) ≡ true
unfolding get exhausted_by live_at
exhausted-AllGrow now r k [] [] h e = e
exhausted-AllGrow now r k (v ∷ m) (w ∷ n) h e = elim (Bool-cases (v.length == k)) [
  | inl same ↦
      let f : (w.length == k) ≡ true = rw (h.0.0) same in rw f (ground (arith, h.0.2 r.amount_usd))
  | inr other ↦
      let f : (w.length == k) ≡ false = rw (h.0.0) other in
      rw f (exhausted-AllGrow now r k m n h.1 (ground arith))
]
exhausted-AllGrow now r k [] (y ∷ n) h e = absurd h
exhausted-AllGrow now r k (x ∷ m) [] h e = absurd h

any-exhausted :
    (now : ℕ) (m n : List Window) (set : RuleSet)
    → AllGrow m n
    → any (exhausted now m) set ≡ true
    → any (exhausted now n) set ≡ true
any-exhausted now m n [] h e = e
any-exhausted now m n (r ∷ set) h e =
    ground (arith, exhausted-AllGrow now r r.window m n h, any-exhausted now m n set h)

-- What the adding of float64 does: of two values that are not negative, the sum is no less than the
-- first.
abbrev pub AddGrows : FloatArith → Type 0
AddGrows fl =
    (x a b : Float64)
    → fle (plus 0) a ≡ true
    → fle (plus 0) b ≡ true
    → fle x a ≡ true
    → fle x (fl.add a b) ≡ true

abbrev pub HasCosts : FloatArith → List UsageEvent → Type 0
HasCosts fl = All λ ev. fle (plus 0) (total_usd fl ev.cost) ≡ true

abbrev pub HasSpent : List Row → Type 0
HasSpent = All λ r. fle (plus 0) r.spent_usd ≡ true

module _ (fl : FloatArith) (grows : AddGrows fl) where
  summed-positive :
      (id : ℕ) (events : List UsageEvent) (sum : Float64)
      → HasCosts fl events
      → fle (plus 0) sum ≡ true
      → fle (plus 0) (summed fl id events sum) ≡ true
  unfolding summed
  summed-positive id [] sum h e = e
  summed-positive id (ev ∷ events) sum h e = elim (Bool-cases (ev.user_id == id)) [
    | inl same ↦ rw same (
        summed-positive id events (fl.add sum (total_usd fl ev.cost)) h.1
          (grows (plus 0) sum (total_usd fl ev.cost) e h.0 e))
    | inr other ↦ rw other (summed-positive id events sum h.1 e)
  ]

  charge_row-Grows :
      (events : List UsageEvent) (r : Row)
      → HasCosts fl events
      → fle (plus 0) r.spent_usd ≡ true
      → Grows (window_of r) (window_of (charge_row fl events r))
  unfolding charge_row fle
  charge_row-Grows events r h e = elim (Bool-cases (is_owner r.user_id events)) [
    | inl owner ↦ rw owner (
      refl,
      refl,
      λ x le.
          grows x r.spent_usd (summed fl r.user_id events (plus 0)) e
            (summed-positive r.user_id events (plus 0) h refl) le,
    )
    | inr none_of ↦ rw none_of (refl, refl, λ x le. le)
  ]

  charge_row-user :
      (events : List UsageEvent) (r : Row) → (charge_row fl events r).user_id ≡ r.user_id
  unfolding charge_row
  charge_row-user events r = elim (Bool-cases (is_owner r.user_id events)) [
    | inl e ↦ rw e refl
    | inr e ↦ rw e refl
  ]

  windows_of-AllGrow :
      (user : ℕ) (events : List UsageEvent) (rows : List Row)
      → HasCosts fl events
      → HasSpent rows
      → AllGrow (windows_of user rows) (windows_of user (map (charge_row fl events) rows))
  unfolding windows_of
  windows_of-AllGrow user events [] h e = tt
  windows_of-AllGrow user events (r ∷ rows) h e =
      let rest = windows_of-AllGrow user events rows h e.1 in
      elim (Bool-cases (r.user_id == user)) [
        | inl same ↦
            rw (same, ap (λ x. x == user) (charge_row-user events r) ∙ same)
              (charge_row-Grows events r h e.0, rest)
        | inr other ↦ rw (other, ap (λ x. x == user) (charge_row-user events r) ∙ other) rest
      ]

  append_batch-windows :
      (events : List UsageEvent) (s s' : Store) (owners : List ℕ)
      → append_batch fl events s ≡ (ok owners, s')
      → (s'.windows ≡ s.windows) ⊎ (s'.windows ≡ map (charge_row fl events) s.windows)
  unfolding append_batch effects
  append_batch-windows events s s' owners h = elim (Bool-cases (no_events events)) [
    | inl e ↦ inl (ground arith)
    | inr e ↦ elim (Bool-cases (s.fault s.calls)) [
      | inl f ↦ ground arith
      | inr f ↦ inr (ground arith)
    ]
  ]

  -- If the adding of float64 grows, costs are not negative and neither is what the rows say is spent:
  -- after a batch was written, the limits of every account still block all that they blocked before,
  -- at every moment.
  pub append_batch-stays_blocked :
      (events : List UsageEvent) (s s' : Store) (owners : List ℕ) (set : RuleSet) (user now : ℕ)
      → HasCosts fl events
      → HasSpent s.windows
      → IsDistinct set
      → append_batch fl events s ≡ (ok owners, s')
      → (decide set (windows_of user s.windows) now).blocked ≡ true
      → (decide set (windows_of user s'.windows) now).blocked ≡ true
  append_batch-stays_blocked events s s' owners set user now h e u written blocked =
      elim (append_batch-windows events s s' owners written) [
        | inl same ↦
            subst (λ rows. (decide set (windows_of user rows) now).blocked ≡ true) (sym same)
              blocked
        | inr charged ↦
            let rows = map (charge_row fl events) s.windows in
            subst (λ rows. (decide set (windows_of user rows) now).blocked ≡ true) (sym charged)
              (decide-blocked set (windows_of user rows) now u
                ∙ any-exhausted now (store (windows_of user s.windows))
                    (store (windows_of user rows)) set
                    (stored-AllGrow _ _ (windows_of-AllGrow user events s.windows h e))
                    (sym (decide-blocked set (windows_of user s.windows) now u) ∙ blocked))
      ]
