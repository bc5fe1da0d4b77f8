-- ===== src/Limits/Rules/Validity.antt =====
-- What `validate` accepts.
use mathlib.Core.List.{append_assoc, append-nil}
use llm_proxy_backend.Prelude.{
  ℕ, suc, ◌+◌, ◌*◌, ◌^◌, some, if◌then◌else◌, ◌≤◌, ◌%◌, ◌≡◌, refl, ◌↔◌, true, false, ◌||◌, none, [],
  ◌∷◌, ◌++◌, arith, ◌==◌, length, any, All,
}
use llm_proxy_backend.Prelude.Float.{
  Float64, nan, neg_inf, minus, pos_inf, flt, fle, plus, is_nan, whole,
}
use llm_proxy_backend.Limits.Rules.{
  Rule, RuleSet, max_rules, minute, min_window, max_window, max_amount_usd, same_window,
  window_refused, amount_refused, field_window, field_amount, validate_from, validate,
}
use llm_proxy_backend.Limits.Decide.Blocking.{IsDistinct}

-- A rule within bounds: whole minutes from one minute to a year, and 0 < amount <= the cap.
pub record IsInBounds (r : Rule) : Type 0 where
  pub window_ge : min_window ≤ r.window
  pub window_le : r.window ≤ max_window
  pub whole_minutes : r.window % minute ≡ 0
  pub amount_pos : flt (plus 0) r.amount_usd ≡ true
  pub amount_le : fle r.amount_usd max_amount_usd ≡ true

pub record IsValid (set : RuleSet) : Type 0 where
  pub count : length set ≤ max_rules
  pub in_bounds : All IsInBounds set
  pub distinct : IsDistinct set

-- No rule of a set repeats the window of an earlier one.
abbrev IsNewTo : RuleSet → RuleSet → Type 0
IsNewTo before = All λ r. any (same_window r) before ≡ false

in_range_iff :
    (a : Float64) (c : ℕ)
    → ((is_nan a || fle a (plus 0) || flt (plus c) a) ≡ false)
      ↔ ((flt (plus 0) a ≡ true) × (fle a (plus c) ≡ true))
unfolding fle is_nan flt
in_range_iff nan c = ground arith
in_range_iff neg_inf c = ground arith
in_range_iff (minus n) c = ground arith
in_range_iff (plus n) c = ground arith
in_range_iff pos_inf c = ground arith

amount_refused_iff :
    (r : Rule)
    → (amount_refused r ≡ false)
      ↔ ((flt (plus 0) r.amount_usd ≡ true) × (fle r.amount_usd max_amount_usd ≡ true))
unfolding amount_refused max_amount_usd whole
amount_refused_iff r = in_range_iff r.amount_usd (1_000_000 * 2 ^ 1074)

any-append :
    (r o : Rule) (before : RuleSet)
    → any (same_window o) (before ++ r ∷ [])
      ≡ (any (same_window o) before || (r.window == o.window))
any-append r o [] = ground arith
any-append r o (b ∷ before) = ground (arith, any-append r o before)

IsNewTo-nil : (set : RuleSet) → IsNewTo [] set
IsNewTo-nil [] = tt
IsNewTo-nil (r ∷ set) = (refl, IsNewTo-nil set)

IsNewTo-append :
    (r : Rule) (before set : RuleSet)
    → IsNewTo (before ++ r ∷ []) set ↔ (IsNewTo before set × (any (same_window r) set ≡ false))
IsNewTo-append r before [] = ground arith
IsNewTo-append r before (o ∷ set) =
    ground (arith, any-append r o before, IsNewTo-append r before set)

step-IsInBounds :
    (before : RuleSet) (r : Rule)
    → ((window_refused before r ≡ false) × (amount_refused r ≡ false))
      ↔ (IsInBounds r × (any (same_window r) before ≡ false))
unfolding window_refused
step-IsInBounds before r = ground (arith, amount_refused_iff r)

validate_from_iff :
    (before : RuleSet) (i : ℕ) (set : RuleSet)
    → (validate_from before i set ≡ none)
      ↔ (All IsInBounds set × IsDistinct set × IsNewTo before set)
unfolding validate_from
validate_from_iff before i [] = ground arith
validate_from_iff before i (r ∷ set) = ground (
  arith,
  step-IsInBounds before r,
  IsNewTo-append r before set,
  validate_from_iff (before ++ r ∷ []) (suc i) set,
)

-- `validate` returns no error exactly for the sets of at most ten rules, each within bounds, with no
-- window repeated.
pub validate_iff : (set : RuleSet) → (validate set ≡ none) ↔ IsValid set
unfolding validate
validate_iff set = ground (arith, validate_from_iff [] 0 set, IsNewTo-nil set)

-- A refused rule behind accepted ones is what the error names.
validate_from-first :
    (before : RuleSet) (i : ℕ) (accepted : RuleSet) (r : Rule) (rest : RuleSet)
    → All IsInBounds accepted × IsDistinct accepted × IsNewTo before accepted
    → (window_refused (before ++ accepted) r || amount_refused r) ≡ true
    → validate_from before i (accepted ++ r ∷ rest)
      ≡ some (record {
        index = some (i + length accepted);
        field = if window_refused (before ++ accepted) r then field_window else field_amount;
      })
unfolding validate_from
validate_from-first before i [] r rest v bad = ground (arith, append-nil before)
validate_from-first before i (a ∷ accepted) r rest v bad = ground (
  arith,
  step-IsInBounds before a,
  IsNewTo-append a before accepted,
  append_assoc before (a ∷ []) accepted,
  validate_from-first (before ++ a ∷ []) (suc i) accepted r rest,
)

-- In a set of at most ten rules, the error names the position of the first rule that is refused, and
-- the window before the amount.
pub validate_names_first :
    (accepted : RuleSet) (r : Rule) (rest : RuleSet)
    → length (accepted ++ r ∷ rest) ≤ max_rules
    → IsValid accepted
    → (window_refused accepted r || amount_refused r) ≡ true
    → validate (accepted ++ r ∷ rest)
      ≡ some (record {
        index = some (length accepted);
        field = if window_refused accepted r then field_window else field_amount;
      })
unfolding validate
validate_names_first accepted r rest h v bad =
    ground (arith, validate_from-first [] 0 accepted r rest, IsNewTo-nil accepted)
