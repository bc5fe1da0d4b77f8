-- ===== src/Pricing/Entries/InForce.antt =====
-- A price in force is the administrator's, or else the catalog's.
use llm_proxy_backend.Prelude.{
  sym, ap, ◌∙◌, inl, inr, Bool-cases, ◌≡◌, refl, true, false, Option, some, List, [], ◌∷◌, map, any,
  arith,
}
use mathlib.Core.List.{append-nil}
use llm_proxy_backend.Prelude.Text.{Text}
use llm_proxy_backend.Prelude.Sorting.{text_lt, insert_by, sort_by}
use llm_proxy_backend.Pricing.{ModelPrice, price_table}
use llm_proxy_backend.Pricing.Entries.{
  Entry, is_for, catalog_entry, overlay, entry_lt, entries, published,
}
use llm_proxy_backend.Pricing.Entries.Override.{
  or_else, or_else-none, price_in, price_in-cons, is_for-keys, one,
}
use llm_proxy_backend.Pricing.Entries.Overlay.{overlay-price}

text_lt-irreflexive : (s : Text) → text_lt s s ≡ false
unfolding text_lt
text_lt-irreflexive [] = refl
text_lt-irreflexive (c ∷ s) = ground (arith, text_lt-irreflexive s)

-- An order under which no entry stands before one of the same key.
entry_lt-ne :
    (a b : Entry) (p k : Text)
    → entry_lt a b ≡ true
    → is_for a.price p k ≡ true
    → is_for b.price p k ≡ false
entry_lt-ne a b p k h f = elim (Bool-cases (is_for b.price p k)) [
  | inr other ↦ other
  | inl g ↦
      let (pa, ka) = is_for-keys a.price p k f in
      let (pb, kb) = is_for-keys b.price p k g in
      let not_p : text_lt a.price.provider b.price.provider ≡ false =
        ap (λ x. text_lt x b.price.provider) (pa ∙ sym pb) ∙ text_lt-irreflexive b.price.provider in
      let not_k : text_lt a.price.model b.price.model ≡ false =
        ap (λ x. text_lt x b.price.model) (ka ∙ sym kb) ∙ text_lt-irreflexive b.price.model in
      let never : entry_lt a b ≡ false = ground arith in absurd (cc)
]

swap_one :
    (o : Option ModelPrice) (a b : Entry) (p k : Text)
    → entry_lt a b ≡ true
    → or_else (or_else o (one b.price p k)) (one a.price p k)
      ≡ or_else (or_else o (one a.price p k)) (one b.price p k)
swap_one o a b p k h = elim (Bool-cases (is_for a.price p k)) [
  | inl f ↦
      rw (f, entry_lt-ne a b p k h f)
        (ap (λ x. or_else x (some a.price)) (or_else-none o)
          ∙ sym (or_else-none (or_else o (some a.price))))
  | inr f ↦ rw f (
      or_else-none (or_else o (one b.price p k))
      ∙ ap (λ x. or_else x (one b.price p k)) (sym (or_else-none o)))
]

insert_by-price :
    (e : Entry) (es : List Entry) (p k : Text)
    → price_in (insert_by entry_lt e es) p k ≡ price_in (e ∷ es) p k
unfolding insert_by
insert_by-price e [] p k = refl
insert_by-price e (b ∷ es) p k = elim (Bool-cases (entry_lt b e)) [
  | inr stays ↦ rw stays refl
  | inl moves ↦ rw moves (
      price_in-cons b (insert_by entry_lt e es) p k
      ∙ ap (λ x. or_else x (one b.price p k)) (insert_by-price e es p k ∙ price_in-cons e es p k)
      ∙ swap_one (price_in es p k) b e p k moves
      ∙ ap (λ x. or_else x (one e.price p k)) (sym (price_in-cons b es p k))
      ∙ sym (price_in-cons e (b ∷ es) p k))
]

sort_by-price :
    (es : List Entry) (p k : Text) → price_in (sort_by entry_lt es) p k ≡ price_in es p k
unfolding sort_by
sort_by-price [] p k = refl
sort_by-price (e ∷ es) p k =
    insert_by-price e (sort_by entry_lt es) p k
    ∙ price_in-cons e (sort_by entry_lt es) p k
    ∙ ap (λ x. or_else x (one e.price p k)) (sort_by-price es p k)
    ∙ sym (price_in-cons e es p k)

catalog-price :
    (catalog : List ModelPrice) (p k : Text)
    → price_in (map catalog_entry catalog) p k ≡ price_table catalog p k
catalog-price catalog p k = ap (λ ps. price_table ps p k) (same catalog)
  where
    same : (ps : List ModelPrice) → map (λ e. e.price) (map catalog_entry ps) ≡ ps
    same [] = refl
    same (q ∷ ps) = ap (λ qs. q ∷ qs) (same ps)

-- No model of a provider stands twice in the list.
abbrev pub HasNoRepeat : List ModelPrice → Type 0
HasNoRepeat [] = Unit
HasNoRepeat (p ∷ ps) = (any (λ q. is_for q p.provider p.model) ps ≡ false) × HasNoRepeat ps

-- If neither the catalog's prices nor the administrator's have a model of a provider twice, the price
-- of a model of a provider in the list that the sink is handed is the administrator's, if there is
-- one, and else the catalog's, if there is one.
pub published-price :
    (catalog manual : List ModelPrice) (provider model : Text)
    → HasNoRepeat catalog
    → HasNoRepeat manual
    → price_table (published catalog manual) provider model
      ≡ or_else (price_table manual provider model) (price_table catalog provider model)
unfolding published entries
published-price catalog manual provider model once once_too =
    sort_by-price (overlay (map catalog_entry catalog) [] manual) provider model
    ∙ overlay-price manual (map catalog_entry catalog) [] provider model tt
    ∙ ap (λ es. or_else (price_table manual provider model) (price_in es provider model))
        (append-nil (map catalog_entry catalog))
    ∙ ap (or_else (price_table manual provider model)) (catalog-price catalog provider model)
