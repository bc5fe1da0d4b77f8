-- ===== src/Usage/Priced.antt =====
-- What the policy gate lets a limited account ask for, the usage sink can price.
use mathlib.Core.Path.{subst}
use llm_proxy_backend.Prelude.{
  ℕ, ◌≡◌, refl, sym, ap, ◌∙◌, ◌⊎◌, inl, inr, Bool-cases, Option-cases, ◌&&◌, Bool, true, false,
  Option, some, List, [], ◌∷◌, arith, ◌==◌, any, all,
}
use llm_proxy_backend.Prelude.Text.{Text, ◌=t◌, eq_of_=t}
use llm_proxy_backend.Access.Policy.{Catalog, is_empty, routed, covers}
use llm_proxy_backend.Store.{Store}
use llm_proxy_backend.Tokens.Resolver.{Principal, Grant}
use llm_proxy_backend.Pricing.{
  ModelPrice, PriceLookup, PricingCatalog, is_priced, name_of, priced_name, priced_everywhere,
}
use llm_proxy_backend.Gateway.Gate.{SpendCheck, next, limits_of, admit_spend, gate_model}
use llm_proxy_backend.Usage.Detail.{Tokens}
use llm_proxy_backend.Usage.Cost.{
  FloatArith, UsageCost, kinds_of, classified, unclassified_count, cost_at, price_usage,
}
use llm_proxy_backend.Usage.Event.{
  UsageRecord, policy_provider, price_by_alias, event_price, tokens_of, event_of,
}

abbrev pub is_among : Text → List Text → Bool
is_among provider = any (λ p. p =t provider)

&&-left : (a b : Bool) → (a && b) ≡ true → a ≡ true
&&-left a b h = ground arith

all-among :
    (prices : PriceLookup) (name provider : Text) (providers : List Text)
    → all (λ p. is_priced (prices p name)) providers ≡ true
    → is_among provider providers ≡ true
    → is_priced (prices provider name) ≡ true
all-among prices name provider [] h m = cc
all-among prices name provider (p ∷ providers) h m = elim (Bool-cases (p =t provider)) [
  | inl e ↦
      subst (λ x. is_priced (prices x name) ≡ true) (eq_of_=t p provider e)
        (&&-left (is_priced (prices p name)) _ h)
  | inr e ↦ all-among prices name provider providers (ground arith) (ground arith)
]

-- The name and the providers that the prices were asked for.
abbrev pub Asked : PricingCatalog → PriceLookup → Text → Type 0
Asked catalog prices requested =
    (name : Text) × (providers : List Text) × (priced_name catalog requested
      ≡ some (name, providers))
    × (all (λ p. is_priced (prices p name)) providers ≡ true)
    × (providers ≡ (routed catalog.providers_for requested).1)

name_of-providers :
    (routed_to : Text × List Text) (known : Text → Option Text) (name : Text)
    (providers : List Text)
    → name_of routed_to known ≡ some (name, providers)
    → providers ≡ routed_to.1
unfolding name_of
name_of-providers (model, served) known name providers h = ground arith

priced_everywhere-Asked :
    (catalog : PricingCatalog) (prices : PriceLookup) (requested : Text)
    → priced_everywhere catalog prices requested ≡ true
    → Asked catalog prices requested
unfolding priced_everywhere priced_name
priced_everywhere-Asked catalog prices requested h =
    elim (Option-cases (priced_name catalog requested)) [
      | inl e ↦ ground arith
      | inr ((name, providers), e) ↦ (
        name,
        providers,
        e,
        ground arith,
        name_of-providers (routed catalog.providers_for requested) catalog.known_model name
            providers e,
      )
    ]

event_price-some :
    (catalog : PricingCatalog) (prices : PriceLookup) (provider model requested : Text)
    → priced_everywhere catalog prices requested ≡ true
    → is_among provider (routed catalog.providers_for requested).1 ≡ true
    → (requested =t []) ≡ false
    → (p : ModelPrice) × (event_price prices catalog provider model requested ≡ some p)
unfolding event_price price_by_alias
event_price-some catalog prices provider model requested h m named =
    let (name, providers, asked, priced, same) =
      priced_everywhere-Asked catalog prices requested h in
    elim (Option-cases (prices provider model)) [
      | inr (p, e) ↦ (p, ground arith)
      | inl e ↦ elim (Option-cases (prices provider name)) [
        | inr (p, f) ↦ (p, ground arith)
        | inl f ↦
            let found : is_priced (prices provider name) ≡ true =
              all-among prices name provider providers priced
                (subst (λ x. is_among provider x ≡ true) (sym same) m) in
            absurd (cc)
      ]
    ]

-- A cost in which every token of a known kind has a price.
abbrev pub IsPricedCost : Tokens → UsageCost → Type 0
IsPricedCost t c =
    (c.unpriced_tokens ≡ unclassified_count t (kinds_of t))
    × ((c.priced ≡ true) ⊎ ((classified (kinds_of t) == 0) ≡ true))

price_usage-IsPricedCost :
    (fl : FloatArith) (t : Tokens) (price : ModelPrice)
    → IsPricedCost t (price_usage fl t (some price))
unfolding price_usage cost_at
price_usage-IsPricedCost fl t price = elim (Bool-cases (classified (kinds_of t) == 0)) [
  | inl e ↦ rw e (refl, inr refl)
  | inr e ↦ rw e (refl, inl refl)
]

admit_spend-priced :
    (spend : SpendCheck) (grant : Grant) (principal q : Principal) (requested r : Text)
    (s s' : Store)
    → admit_spend (some spend) grant principal requested s ≡ (next q r, s')
    → is_empty (limits_of (some spend) grant s) ≡ false
    → priced_everywhere spend.catalog spend.prices requested ≡ true
unfolding admit_spend
admit_spend-priced spend grant principal q requested r s s' h limited =
    elim (Bool-cases (priced_everywhere spend.catalog spend.prices requested)) [
      | inl e ↦ e
      | inr e ↦ ground arith
    ]

gate_model-priced :
    (lower : ℕ → ℕ) (catalog : Catalog) (spend : SpendCheck) (grant : Grant)
    (principal q : Principal) (requested r : Text) (s s' : Store)
    → gate_model lower catalog (some spend) grant principal requested s ≡ (next q r, s')
    → is_empty (limits_of (some spend) grant s) ≡ false
    → priced_everywhere spend.catalog spend.prices requested ≡ true
unfolding gate_model
gate_model-priced lower catalog spend grant principal q requested r s s' h limited =
    elim (Bool-cases
      (covers lower grant.policy (routed catalog requested).0 (routed catalog requested).1)) [
        | inl e ↦ admit_spend-priced spend grant principal q requested r s s' (ground arith) limited
        | inr e ↦ ground arith
      ]

-- If the gate lets an account with spend limits ask for a model by a name that is not empty, then,
-- with the same prices and catalogue, a usage record of that name from one of the providers serving
-- it, whatever upstream's name of the model, gives a ledger row whose cost leaves unpriced exactly the
-- tokens that are of no known kind, and is a priced one unless it has no others.
pub event_of-priced :
    (lower : ℕ → ℕ) (catalog : Catalog) (spend : SpendCheck) (grant : Grant)
    (principal q : Principal) (requested r : Text) (s s' : Store) (print_id : ℕ → Text)
    (parse_id : Text → Option ℕ) (fl : FloatArith) (now : ℕ) (u : UsageRecord)
    → gate_model lower catalog (some spend) grant principal requested s ≡ (next q r, s')
    → is_empty (limits_of (some spend) grant s) ≡ false
    → u.alias ≡ requested
    → (requested =t []) ≡ false
    → is_among (policy_provider u.provider) (routed spend.catalog.providers_for requested).1 ≡ true
    → let ev = event_of lower print_id parse_id fl spend.prices spend.catalog now u in
      IsPricedCost ev.tokens ev.cost
unfolding event_of
event_of-priced lower catalog spend grant principal q requested r s s' print_id parse_id fl now u
      passed limited same named serves =
    let t = tokens_of lower print_id parse_id fl spend.prices spend.catalog u in
    let (price, found) =
      event_price-some spend.catalog spend.prices (policy_provider u.provider) u.model requested
        (gate_model-priced lower catalog spend grant principal q requested r s s' passed limited)
        serves named in
    subst (λ o. IsPricedCost t (price_usage fl t o))
      (sym (
        ap (event_price spend.prices spend.catalog (policy_provider u.provider) u.model) same
        ∙ found))
      (price_usage-IsPricedCost fl t price)
