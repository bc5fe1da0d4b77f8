-- ===== src/Pricing/Entries/Overlay.antt =====
-- The prices behind the loop that lays the administrator's prices over the catalog's.
use mathlib.Core.List.{append_assoc}
use llm_proxy_backend.Prelude.{
  sym, ap, ◌∙◌, inl, inr, Bool-cases, Option-cases, ◌≡◌, refl, true, false, none, List, [], ◌∷◌,
  ◌++◌, arith, if◌then◌else◌, any, All,
}
use llm_proxy_backend.Prelude.Text.{Text}
use llm_proxy_backend.Pricing.{ModelPrice, price_table}
use llm_proxy_backend.Pricing.Entries.{
  Entry, is_for, same_key, manual_entry, override_entry, overlay,
}
use llm_proxy_backend.Pricing.Entries.Override.{
  or_else, price_in, price_in-cons, or_else_assoc, price_in-append, is_for-keys, price_in-absent,
  one, override_entry-price, override_entry-same, override_entry-keys,
}

-- What was appended has no place.
abbrev pub Placeless : List Entry → List Entry → Type 0
Placeless places = All λ e. any (same_key e.price) places ≡ false

Placeless-append :
    (places es : List Entry) (m : ModelPrice)
    → any (same_key m) places ≡ false
    → Placeless places es
    → Placeless places (es ++ manual_entry m ∷ [])
Placeless-append places [] m h a = (h, tt)
Placeless-append places (e ∷ es) m h a = (a.0, Placeless-append places es m h a.1)

Placeless-override :
    (places es : List Entry) (m : ModelPrice)
    → Placeless places es
    → Placeless (override_entry m places) es
Placeless-override places [] m a = tt
Placeless-override places (e ∷ es) m a =
    (override_entry-keys m e.price places ∙ a.0, Placeless-override places es m a.1)

any-same_key :
    (m : ModelPrice) (e : Entry) (es : List Entry)
    → same_key m e ≡ true
    → any (same_key e.price) es ≡ any (same_key m) es
any-same_key m e es h =
    let (same_p, same_k) = is_for-keys e.price m.provider m.model h in
    ap (λ x. any (λ o. is_for o.price x e.price.model) es) same_p
    ∙ ap (λ x. any (λ o. is_for o.price m.provider x) es) same_k

Placeless-absent :
    (places es : List Entry) (m : ModelPrice)
    → any (same_key m) places ≡ true
    → Placeless places es
    → any (same_key m) es ≡ false
Placeless-absent places [] m h a = refl
Placeless-absent places (e ∷ es) m h a = elim (Bool-cases (same_key m e)) [
  | inl same ↦
      let placed : any (same_key e.price) places ≡ true = any-same_key m e places same ∙ h in
      absurd (cc)
  | inr other ↦ rw other (Placeless-absent places es m h a.1)
]

overlay_step :
    (places appended : List Entry) (m : ModelPrice) (p k : Text)
    → Placeless places appended
    → price_in
        (override_entry m places
          ++ (if any (same_key m) places then appended else appended ++ manual_entry m ∷ []))
        p
        k
      ≡ or_else (one m p k) (price_in (places ++ appended) p k)
unfolding price_table
overlay_step places appended m p k a = elim (Bool-cases (any (same_key m) places)) [
  | inl placed ↦ rw placed (
      price_in-append (override_entry m places) appended p k
      ∙ ap (or_else (price_in appended p k)) (override_entry-price m places p k placed)
      ∙ swap (price_in-absent m appended p k (Placeless-absent places appended m placed a))
      ∙ ap (or_else (one m p k)) (sym (price_in-append places appended p k)))
  | inr none_of ↦
      rw (none_of, override_entry-same m places none_of)
        (ap (λ es. price_in es p k) (sym (append_assoc places appended (manual_entry m ∷ [])))
          ∙ price_in-append (places ++ appended) (manual_entry m ∷ []) p k
          ∙ ap (λ x. or_else x (price_in (places ++ appended) p k))
              (price_in-cons (manual_entry m) [] p k))
]
  where
    swap :
        (is_for m p k ≡ true → price_in appended p k ≡ none)
        → or_else (price_in appended p k) (or_else (one m p k) (price_in places p k))
          ≡ or_else (one m p k) (or_else (price_in appended p k) (price_in places p k))
    swap gone = elim (Bool-cases (is_for m p k)) [ inl f ↦ rw (f, gone f) refl | inr f ↦ rw f refl ]

price_table-cons :
    (m : ModelPrice) (ms : List ModelPrice) (p k : Text)
    → price_table (m ∷ ms) p k ≡ or_else (price_table ms p k) (one m p k)
unfolding price_table
price_table-cons m ms p k = elim (Option-cases (price_table ms p k)) [
  | inl h ↦ ground arith
  | inr (q, h) ↦ ground arith
]

pub overlay-price :
    (manual : List ModelPrice) (places appended : List Entry) (p k : Text)
    → Placeless places appended
    → price_in (overlay places appended manual) p k
      ≡ or_else (price_table manual p k) (price_in (places ++ appended) p k)
unfolding overlay
overlay-price [] places appended p k a = unfold price_table in refl
overlay-price (m ∷ manual) places appended p k a =
    overlay-price manual (override_entry m places) _ p k (kept m)
    ∙ ap (or_else (price_table manual p k)) (overlay_step places appended m p k a)
    ∙ sym (or_else_assoc (price_table manual p k) (one m p k) (price_in (places ++ appended) p k))
    ∙ ap (λ x. or_else x (price_in (places ++ appended) p k)) (sym (price_table-cons m manual p k))
  where
    kept :
        (m : ModelPrice)
        → Placeless
            (override_entry m places)
            (if any (same_key m) places then appended else appended ++ manual_entry m ∷ [])
    kept m = elim (Bool-cases (any (same_key m) places)) [
      | inl placed ↦ rw placed (Placeless-override places appended m a)
      | inr none_of ↦ rw none_of (
          Placeless-override places (appended ++ manual_entry m ∷ []) m
            (Placeless-append places appended m none_of a))
    ]
