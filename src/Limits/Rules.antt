-- ===== src/Limits/Rules.antt =====
-- The rules, their validation and the set in force (internal/domain/limits/limits.go).
pub mod Validity
use llm_proxy_backend.Prelude.{
  ℕ, suc, ◌*◌, ◌%◌, Bool, ◌||◌, not, Option, none, some, List, [], ◌∷◌, ◌++◌, ltb, ◌==◌,
  if◌then◌else◌, length, any,
}
use llm_proxy_backend.Prelude.Float.{Float64, is_nan, flt, fle, whole, plus}

abbrev pub max_rules : ℕ
max_rules = 10

abbrev pub minute : ℕ
minute = 60_000_000_000

abbrev pub min_window : ℕ
min_window = minute

abbrev pub max_window : ℕ
max_window = 365 * 24 * 60 * minute

unfoldable pub max_amount_usd : Float64
max_amount_usd = whole 1_000_000

pub record Rule : Type 0 where
  pub window : ℕ
  pub amount_usd : Float64

abbrev pub RuleSet : Type 0
RuleSet = List Rule

pub data Field : Type 0 where
  field_count field_window field_amount : Field

-- `index` is `none` for the set as a whole, where the source has -1.
pub record InvalidError : Type 0 where
  pub index : Option ℕ
  pub field : Field

abbrev pub same_window : Rule → Rule → Bool
same_window rule o = o.window == rule.window

-- The two checks of the loop's body. The repeated check looks at the rules before this one.
unfoldable pub window_refused : RuleSet → Rule → Bool
window_refused before rule =
    ltb rule.window min_window
    || ltb max_window rule.window
    || not (rule.window % minute == 0)
    || any (same_window rule) before

unfoldable pub amount_refused : Rule → Bool
amount_refused rule =
    is_nan rule.amount_usd || fle rule.amount_usd (plus 0) || flt max_amount_usd rule.amount_usd

-- The loop of `validate`, from `index` on; `before` is set[:index]. `none` is a nil error.
unfoldable pub validate_from : RuleSet → ℕ → RuleSet → Option InvalidError
validate_from before index [] = none
validate_from before index (rule ∷ rest) =
    if window_refused before rule
    then some (record { index = some index; field = field_window })
    else if amount_refused rule
    then some (record { index = some index; field = field_amount })
    else validate_from (before ++ rule ∷ []) (suc index) rest

unfoldable pub validate : RuleSet → Option InvalidError
validate set =
    if ltb max_rules (length set)
    then some (record { index = none; field = field_count })
    else validate_from [] 0 set

-- `none` is a nil pointer.
unfoldable pub effective : Option RuleSet → RuleSet → RuleSet
effective (some custom) defaults = custom
effective none defaults = defaults
