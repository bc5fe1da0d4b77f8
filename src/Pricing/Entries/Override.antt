-- ===== src/Pricing/Entries/Override.antt =====
-- The prices behind one entry written over the catalog's.
use llm_proxy_backend.Prelude.{
  sym, ap, ◌∙◌, inl, inr, Bool-cases, Option-cases, ◌≡◌, refl, Bool, true, false, ◌&&◌, ◌||◌,
  Option, none, some, List, [], ◌∷◌, ◌++◌, map, arith, if◌then◌else◌, any,
}
use llm_proxy_backend.Prelude.Text.{Text, ◌=t◌, eq_of_=t}
use llm_proxy_backend.Pricing.{ModelPrice, price_table}
use llm_proxy_backend.Pricing.Entries.{Entry, is_for, same_key, manual_entry, override_entry}

abbrev pub or_else : Option ModelPrice → Option ModelPrice → Option ModelPrice
or_else none b = b
or_else (some a) b = some a

abbrev pub price_in : List Entry → Text → Text → Option ModelPrice
price_in es = price_table (map (λ e. e.price) es)

pub price_in-cons :
    (e : Entry) (es : List Entry) (p k : Text)
    → price_in (e ∷ es) p k
      ≡ or_else (price_in es p k) (if is_for e.price p k then some e.price else none)
unfolding price_table
price_in-cons e es p k = elim (Option-cases (price_in es p k)) [
  | inl h ↦ ground arith
  | inr (q, h) ↦ ground arith
]

pub or_else_assoc : (a b c : Option ModelPrice) → or_else (or_else a b) c ≡ or_else a (or_else b c)
or_else_assoc none b c = refl
or_else_assoc (some a) b c = refl

pub or_else-none : (a : Option ModelPrice) → or_else a none ≡ a
or_else-none none = refl
or_else-none (some a) = refl

pub price_in-append :
    (es fs : List Entry) (p k : Text)
    → price_in (es ++ fs) p k ≡ or_else (price_in fs p k) (price_in es p k)
price_in-append [] fs p k = unfold price_table in sym (or_else-none (price_in fs p k))
price_in-append (e ∷ es) fs p k =
    price_in-cons e (es ++ fs) p k
    ∙ ap (λ x. or_else x (if is_for e.price p k then some e.price else none))
        (price_in-append es fs p k)
    ∙ or_else_assoc (price_in fs p k) (price_in es p k) _
    ∙ ap (or_else (price_in fs p k)) (sym (price_in-cons e es p k))

-- Keys that are the same fit the same questions.
pub is_for-same :
    (m : ModelPrice) (e : Entry) (p k : Text)
    → same_key m e ≡ true
    → is_for e.price p k ≡ is_for m p k
is_for-same m e p k h =
    ap (λ x. (x =t p) && (e.price.model =t k)) (eq_of_=t e.price.provider m.provider (both h).0)
    ∙ ap (λ x. (m.provider =t p) && (x =t k)) (eq_of_=t e.price.model m.model (both h).1)
  where
    both : {a b : Bool} → (a && b) ≡ true → (a ≡ true) × (b ≡ true)
    both h = ground arith

pub is_for-keys :
    (m : ModelPrice) (p k : Text) → is_for m p k ≡ true → (m.provider ≡ p) × (m.model ≡ k)
is_for-keys m p k h = (eq_of_=t m.provider p (both h).0, eq_of_=t m.model k (both h).1)
  where
    both : {a b : Bool} → (a && b) ≡ true → (a ≡ true) × (b ≡ true)
    both h = ground arith

pub price_in-absent_key :
    (m : ModelPrice) (es : List Entry)
    → any (same_key m) es ≡ false
    → price_in es m.provider m.model ≡ none
price_in-absent_key m [] h = unfold price_table in refl
price_in-absent_key m (e ∷ es) h =
    let here : same_key m e ≡ false = ground arith in
    let there : any (same_key m) es ≡ false = ground arith in
    price_in-cons e es m.provider m.model
    ∙ ap (λ x. or_else (price_in es m.provider m.model) (if x then some e.price else none)) here
    ∙ or_else-none (price_in es m.provider m.model)
    ∙ price_in-absent_key m es there

pub price_in-absent :
    (m : ModelPrice) (es : List Entry) (p k : Text)
    → any (same_key m) es ≡ false
    → is_for m p k ≡ true
    → price_in es p k ≡ none
price_in-absent m es p k h f =
    let (same_p, same_k) = is_for-keys m p k f in
    ap (λ x. price_in es x k) (sym same_p)
    ∙ ap (price_in es m.provider) (sym same_k)
    ∙ price_in-absent_key m es h

abbrev pub one : ModelPrice → Text → Text → Option ModelPrice
one m p k = if is_for m p k then some m else none

pub override_entry-price :
    (m : ModelPrice) (es : List Entry) (p k : Text)
    → any (same_key m) es ≡ true
    → price_in (override_entry m es) p k ≡ or_else (one m p k) (price_in es p k)
unfolding override_entry
override_entry-price m [] p k h = absurd (cc)
override_entry-price m (e ∷ es) p k h = elim (Bool-cases (any (same_key m) es)) [
  | inl later ↦ rw later (
      price_in-cons e (override_entry m es) p k
      ∙ ap (λ x. or_else x (one e.price p k)) (override_entry-price m es p k later)
      ∙ or_else_assoc (one m p k) (price_in es p k) (one e.price p k)
      ∙ ap (or_else (one m p k)) (sym (price_in-cons e es p k)))
  | inr last ↦
      let same : same_key m e ≡ true = ground arith in
      let alike = is_for-same m e p k same in
      rw (last, same)
        (price_in-cons (manual_entry m) es p k
          ∙ fits alike (price_in-absent m es p k last)
          ∙ ap (or_else (one m p k)) (sym (price_in-cons e es p k)))
]
  where
    fits :
        is_for e.price p k ≡ is_for m p k
        → (is_for m p k ≡ true → price_in es p k ≡ none)
        → or_else (price_in es p k) (one m p k)
          ≡ or_else (one m p k) (or_else (price_in es p k) (one e.price p k))
    fits alike gone = elim (Bool-cases (is_for m p k)) [
      | inl f ↦ rw (f, gone f) refl
      | inr f ↦ rw (f, alike ∙ f) refl
    ]

pub override_entry-same :
    (m : ModelPrice) (es : List Entry) → any (same_key m) es ≡ false → override_entry m es ≡ es
unfolding override_entry
override_entry-same m [] h = refl
override_entry-same m (e ∷ es) h =
    let here : same_key m e ≡ false = ground arith in
    let there : any (same_key m) es ≡ false = ground arith in rw (there, here) refl

-- The keys stay what they were.
pub override_entry-keys :
    (m x : ModelPrice) (es : List Entry)
    → any (same_key x) (override_entry m es) ≡ any (same_key x) es
unfolding override_entry
override_entry-keys m x [] = refl
override_entry-keys m x (e ∷ es) = elim (Bool-cases (any (same_key m) es)) [
  | inl later ↦ rw later (ap (λ b. same_key x e || b) (override_entry-keys m x es))
  | inr last ↦ elim (Bool-cases (same_key m e)) [
    | inl same ↦
        rw (last, same)
          (ap (λ b. b || any (same_key x) es) (sym (is_for-same m e x.provider x.model same)))
    | inr other ↦ rw (last, other) refl
  ]
]
