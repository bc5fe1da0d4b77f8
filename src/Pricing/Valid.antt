-- ===== src/Pricing/Valid.antt =====
-- Which price lists are accepted: `validatePrices`, `acceptCatalog`, `clip` and `sameRates`
-- (internal/app/prices/prices.go).
use llm_proxy_backend.Prelude.{
  ℕ, suc, ◌+◌, Bool, true, false, ◌&&◌, ◌||◌, not, Option, none, some, List, [], ◌∷◌, ltb, leb,
  ◌==◌, if◌then◌else◌, length, any, all,
}
use llm_proxy_backend.Prelude.Text.{Text, codes, ◌=t◌, trim_space}
use llm_proxy_backend.Prelude.Float.{Float64, plus, flt, fle}
use llm_proxy_backend.Pricing.{ModelPrice}
use llm_proxy_backend.Pricing.Book.{
  PriceField, of_provider, of_model, of_input, of_output, of_cache_read, of_cache_write,
}
use llm_proxy_backend.Pricing.Entries.{is_for}

-- Negative, NaN or infinite.
unfoldable pub is_bad_rate : Float64 → Bool
is_bad_rate (plus _) = false
is_bad_rate _ = true

unfoldable pub bad_field : ModelPrice → Option PriceField
unfolding is_bad_rate
bad_field p =
    if trim_space p.provider =t []
    then some of_provider
    else if trim_space p.model =t []
    then some of_model
    else if is_bad_rate p.input
    then some of_input
    else if is_bad_rate p.output
    then some of_output
    else if is_bad_rate p.cache_read
    then some of_cache_read
    else if is_bad_rate p.cache_write
    then some of_cache_write
    else none

-- The first entry that is refused, with its field; `none` for the field is a repeated entry. `seen`
-- are the entries before it.
unfoldable pub validate_prices_from :
    ℕ → List ModelPrice → List ModelPrice → Option (ℕ × Option PriceField)
unfolding bad_field
validate_prices_from index seen [] = none
validate_prices_from index seen (p ∷ prices) =
    let rest = validate_prices_from (suc index) (p ∷ seen) prices in
    elim (bad_field p) [
      | some field ↦ some (index, some field)
      | none ↦ if any (λ q. is_for q p.provider p.model) seen then some (index, none) else rest
    ]

unfoldable pub validate_prices : List ModelPrice → Option (ℕ × Option PriceField)
unfolding validate_prices_from
validate_prices prices = validate_prices_from 0 [] prices

abbrev pub is_empty_list : List ModelPrice → Bool
is_empty_list [] = true
is_empty_list (_ ∷ _) = false

abbrev pub is_positive : Float64 → Bool
is_positive r = flt (plus 0) r

-- The failure of a check, as text; the invalid entry's name is left to `name_of_entry`.
unfoldable pub accept_catalog : (ℕ × Option PriceField → Text) → List ModelPrice → Option Text
unfolding validate_prices
accept_catalog name_of_entry prices =
    if is_empty_list prices
    then some (codes "the catalog has no price for any of our providers")
    else if not (any (λ p. is_positive p.input || is_positive p.output) prices)
    then some (codes "the catalog prices every model at zero")
    else elim (validate_prices prices) [ none ↦ none | some e ↦ some (name_of_entry e) ]

abbrev pub max_catalog_error : ℕ
max_catalog_error = 200

-- The bytes of a code point in UTF-8.
unfoldable pub rune_len : ℕ → ℕ
rune_len c = if ltb c 0x80 then 1 else if ltb c 0x800 then 2 else if ltb c 0x10000 then 3 else 4

-- The whole runes within so many bytes, of which `used` are taken.
unfoldable pub clip_from : ℕ → Text → Text
unfolding rune_len
clip_from used [] = []
clip_from used (c ∷ text) =
    if leb (used + rune_len c) max_catalog_error then c ∷ clip_from (used + rune_len c) text else []

unfoldable pub clip : Text → Text
unfolding clip_from
clip text = clip_from 0 text

-- `==` of two float64.
abbrev pub feq : Float64 → Float64 → Bool
feq a b = fle a b && fle b a

unfoldable pub equal_rates : ModelPrice → ModelPrice → Bool
equal_rates p q =
    feq p.input q.input
    && feq p.output q.output
    && feq p.cache_read q.cache_read
    && feq p.cache_write q.cache_write

-- The last of a list with a key, as a map built in the list's order has it.
unfoldable pub last_for : Text → Text → List ModelPrice → Option ModelPrice
last_for provider model [] = none
last_for provider model (p ∷ prices) = elim (last_for provider model prices) [
  | some q ↦ some q
  | none ↦ if is_for p provider model then some p else none
]

unfoldable pub has_equal : List ModelPrice → ModelPrice → Bool
unfolding last_for equal_rates
has_equal left p = elim (last_for p.provider p.model left) [
  | none ↦ false
  | some old ↦ equal_rates old p
]

unfoldable pub same_rates : (left right : List ModelPrice) → Bool
unfolding has_equal
same_rates left right = (length left == length right) && all (has_equal left) right
