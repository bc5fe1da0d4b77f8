-- ===== src/Pricing/Service/Rated.antt =====
-- Valid price lists, and what keeps a list valid.
use llm_proxy_backend.Prelude.{
  ap, ◌∙◌, inl, inr, Bool-cases, Option-cases, ℕ, suc, ◌≡◌, refl, Bool, true, ◌||◌, Option, none,
  List, [], ◌∷◌, ◌++◌, map, arith, if◌then◌else◌, any, All,
}
use llm_proxy_backend.Prelude.Text.{Text}
use llm_proxy_backend.Prelude.Sorting.{insert_by, sort_by}
use llm_proxy_backend.Pricing.{ModelPrice}
use llm_proxy_backend.Pricing.Book.{PriceField}
use llm_proxy_backend.Pricing.Entries.{
  Entry, is_for, same_key, catalog_entry, manual_entry, override_entry, overlay, entry_lt, entries,
  published,
}
use llm_proxy_backend.Pricing.Valid.{
  bad_field, validate_prices_from, validate_prices, is_empty_list, is_positive, accept_catalog,
}
use llm_proxy_backend.Pricing.Tables.{stamped, replaced}

-- Named, and with rates that are finite and not negative.
abbrev pub IsRated : ModelPrice → Type 0
IsRated p = bad_field p ≡ none

abbrev pub AllRated : List ModelPrice → Type 0
AllRated = All IsRated

-- Some model costs something.
abbrev pub prices_some : List ModelPrice → Bool
prices_some = any λ p. is_positive p.input || is_positive p.output

module _ {A : Type 0} (P : A → Type 0) (lt : A → A → Bool) where
  All-insert_by : (a : A) (xs : List A) → P a → All P xs → All P (insert_by lt a xs)
  unfolding insert_by
  All-insert_by a [] p h = (p, tt)
  All-insert_by a (b ∷ xs) p h = elim (Bool-cases (lt b a)) [
    | inl e ↦ rw e (h.0, All-insert_by a xs p h.1)
    | inr e ↦ rw e (p, h)
  ]

  pub All-sort_by : (xs : List A) → All P xs → All P (sort_by lt xs)
  unfolding sort_by
  All-sort_by [] h = tt
  All-sort_by (a ∷ xs) h = All-insert_by a (sort_by lt xs) h.0 (All-sort_by xs h.1)

module _ {A : Type 0} (f : A → Bool) (lt : A → A → Bool) where
  any-insert_by : (a : A) (xs : List A) → any f (insert_by lt a xs) ≡ (f a || any f xs)
  unfolding insert_by
  any-insert_by a [] = refl
  any-insert_by a (b ∷ xs) = elim (Bool-cases (lt b a)) [
    | inl e ↦ rw e (ap (λ x. f b || x) (any-insert_by a xs) ∙ or_swap (f b) (f a) (any f xs))
    | inr e ↦ rw e refl
  ]
    where
      or_swap : (x y z : Bool) → (x || (y || z)) ≡ (y || (x || z))
      or_swap x y z = ground arith

  pub any-sort_by : (xs : List A) → any f (sort_by lt xs) ≡ any f xs
  unfolding sort_by
  any-sort_by [] = refl
  any-sort_by (a ∷ xs) = any-insert_by a (sort_by lt xs) ∙ ap (λ x. f a || x) (any-sort_by xs)

-- What is stored has the rates of what was given.
stamped-rates :
    (at : ℕ) (before : List ModelPrice) (p : ModelPrice)
    → (IsRated p → IsRated (stamped at before p))
      × ((stamped at before p).input ≡ p.input)
      × ((stamped at before p).output ≡ p.output)
unfolding stamped bad_field
stamped-rates at before p = (λ h. h, refl, refl)

pub AllRated-replaced :
    (at : ℕ) (before prices : List ModelPrice)
    → AllRated prices
    → AllRated (replaced at before prices)
AllRated-replaced at before [] h = tt
AllRated-replaced at before (p ∷ prices) h =
    ((stamped-rates at before p).0 h.0, AllRated-replaced at before prices h.1)

pub prices_some-replaced :
    (at : ℕ) (before prices : List ModelPrice)
    → prices_some (replaced at before prices) ≡ prices_some prices
prices_some-replaced at before [] = refl
prices_some-replaced at before (p ∷ prices) =
    let (_, same_in, same_out) = stamped-rates at before p in
    rw (same_in, same_out, prices_some-replaced at before prices) refl

abbrev pub RatedEntries : List Entry → Type 0
RatedEntries = All λ e. IsRated e.price

override_entry-Rated :
    (m : ModelPrice) (es : List Entry)
    → IsRated m
    → RatedEntries es
    → RatedEntries (override_entry m es)
unfolding override_entry
override_entry-Rated m [] p h = tt
override_entry-Rated m (e ∷ es) p h = elim (Bool-cases (any (same_key m) es)) [
  | inl later ↦ rw later (h.0, override_entry-Rated m es p h.1)
  | inr last ↦ elim (Bool-cases (same_key m e)) [
    | inl same ↦ rw (last, same) (p, h.1)
    | inr other ↦ rw (last, other) h
  ]
]

Rated-append : (es fs : List Entry) → RatedEntries es → RatedEntries fs → RatedEntries (es ++ fs)
Rated-append [] fs h k = k
Rated-append (e ∷ es) fs h k = (h.0, Rated-append es fs h.1 k)

overlay-Rated :
    (manual : List ModelPrice) (places appended : List Entry)
    → AllRated manual
    → RatedEntries places
    → RatedEntries appended
    → RatedEntries (overlay places appended manual)
unfolding overlay
overlay-Rated [] places appended m h k = Rated-append places appended h k
overlay-Rated (p ∷ manual) places appended m h k =
    overlay-Rated manual (override_entry p places) _ m.1 (override_entry-Rated p places m.0 h)
      (kept p m.0)
  where
    kept :
        (p : ModelPrice)
        → IsRated p
        → RatedEntries
            (if any (same_key p) places then appended else appended ++ manual_entry p ∷ [])
    kept p r = elim (Bool-cases (any (same_key p) places)) [
      | inl e ↦ rw e k
      | inr e ↦ rw e (Rated-append appended (manual_entry p ∷ []) k (r, tt))
    ]

pub published-Rated :
    (catalog manual : List ModelPrice)
    → AllRated catalog
    → AllRated manual
    → AllRated (published catalog manual)
unfolding published entries
published-Rated catalog manual c m = priced _ (
    All-sort_by (λ e. IsRated e.price) entry_lt _
      (overlay-Rated manual (map catalog_entry catalog) [] m (placed catalog c) tt))
  where
    placed : (ps : List ModelPrice) → AllRated ps → RatedEntries (map catalog_entry ps)
    placed [] h = tt
    placed (p ∷ ps) h = (h.0, placed ps h.1)

    priced : (es : List Entry) → RatedEntries es → AllRated (map (λ e. e.price) es)
    priced [] h = tt
    priced (e ∷ es) h = (h.0, priced es h.1)

-- What the checks of a list establish.
pub validate_prices_from-Rated :
    (index : ℕ) (seen prices : List ModelPrice)
    → validate_prices_from index seen prices ≡ none
    → AllRated prices
unfolding validate_prices_from
validate_prices_from-Rated index seen [] h = tt
validate_prices_from-Rated index seen (p ∷ prices) h = elim (Option-cases (bad_field p)) [
  | inr (field, e) ↦ ground arith
  | inl e ↦ elim (Bool-cases (any (λ q. is_for q p.provider p.model) seen)) [
    | inl again ↦ ground arith
    | inr new ↦ (e, validate_prices_from-Rated (suc index) (p ∷ seen) prices (ground arith))
  ]
]

pub validate_prices-Rated :
    (prices : List ModelPrice) → validate_prices prices ≡ none → AllRated prices
unfolding validate_prices
validate_prices-Rated prices h = validate_prices_from-Rated 0 [] prices h

pub accept_catalog-Rated :
    (name : ℕ × Option PriceField → Text) (prices : List ModelPrice)
    → accept_catalog name prices ≡ none
    → AllRated prices × (prices_some prices ≡ true)
unfolding accept_catalog validate_prices
accept_catalog-Rated name prices h = elim (Bool-cases (is_empty_list prices)) [
  | inl e ↦ ground arith
  | inr e ↦ elim (Bool-cases (prices_some prices)) [
    | inr f ↦ ground arith
    | inl f ↦ elim (Option-cases (validate_prices_from 0 [] prices)) [
      | inl g ↦ (validate_prices_from-Rated 0 [] prices g, f)
      | inr (k, g) ↦ ground arith
    ]
  ]
]
