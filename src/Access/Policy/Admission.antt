-- ===== src/Access/Policy/Admission.antt =====
-- What an admitted request may reach.
use mathlib.Core.Path.{subst}
use llm_proxy_backend.Prelude.{
  sym, ℕ, ◌≡◌, refl, ◌↔◌, Bool, true, false, ◌||◌, List, [], ◌∷◌, ◌++◌, arith, all, All, Bool-cases,
  inl, inr,
}
use llm_proxy_backend.Prelude.Text.{Text, ◌=t◌, trim_space}
use llm_proxy_backend.Access.Policy.{
  Policy, Catalog, is_empty, thinking_base, auto_name, routed, allows, covers, admits,
}

is_empty-nil : (l : List Text) → is_empty l ≡ true → l ≡ []
unfolding is_empty
is_empty-nil [] h = refl
is_empty-nil (_ ∷ _) h = cc

-- Whether a name asks upstream for whichever model it finds first.
abbrev pub is_auto : Text → Bool
is_auto requested = (requested =t auto_name) || (thinking_base requested =t auto_name)

routed-auto :
    (catalog : Catalog) (requested : Text)
    → is_auto requested ≡ true
    → (routed catalog requested).1 ≡ []
unfolding routed
routed-auto catalog requested h = rw h

-- Otherwise the providers are all those that serve the model it is resolved to.
routed-catalog :
    (catalog : Catalog) (requested : Text)
    → is_auto requested ≡ false
    → (routed catalog requested).1 ≡ catalog (routed catalog requested).0
unfolding routed
routed-catalog catalog requested h =
    let trimmed = trim_space (thinking_base requested) in
    rw h (ground (arith, is_empty-nil (catalog trimmed)))

all-All :
    (lower : ℕ → ℕ) (policy : Policy) (model : Text) (providers : List Text)
    → (all (λ p. allows lower policy p model) providers ≡ true)
      ↔ All (λ p. allows lower policy p model ≡ true) providers
all-All lower policy model [] = ground arith
all-All lower policy model (p ∷ providers) = ground (arith, all-All lower policy model providers)

covers_iff :
    (lower : ℕ → ℕ) (policy : Policy) (model : Text) (providers : List Text)
    → (covers lower policy model providers ≡ true)
      ↔ ((is_empty providers ≡ false) × All (λ p. allows lower policy p model ≡ true) providers)
unfolding covers
covers_iff lower policy model providers = ground (arith, all-All lower policy model providers)

-- A request is admitted exactly when it does not ask for "auto", bare or with a suffix, some provider
-- serves the model it is routed to now, and the policy allows that model on every one of them.
pub admits_iff :
    (lower : ℕ → ℕ) (policy : Policy) (catalog : Catalog) (requested : Text)
    → let model = (routed catalog requested).0 in
      (admits lower policy catalog requested ≡ true) ↔ (
        (is_auto requested ≡ false)
        × (is_empty (catalog model) ≡ false)
        × All (λ p. allows lower policy p model ≡ true) (catalog model))
unfolding admits is_empty
admits_iff lower policy catalog requested =
    let (model, providers) = routed catalog requested in
    let covered = covers_iff lower policy model providers in
    let allowed = λ (l : List Text). All (λ p. allows lower policy p model ≡ true) l in
    elim (Bool-cases (is_auto requested)) [
      | inl auto ↦ (
        λ h. absurd (not-empty-nil (routed-auto catalog requested auto) (covered.0 h).0),
        λ c. cc,
      )
      | inr named ↦
          let e = routed-catalog catalog requested named in
          (
            λ h.
                let c = covered.0 h in
                (named, subst (λ l. is_empty l ≡ false) e c.0, subst allowed e c.1),
            λ c. covered.1 (subst (λ l. is_empty l ≡ false) (sym e) c.1, subst allowed (sym e) c.2),
          )
    ]
  where
    not-empty-nil : {l : List Text} → l ≡ [] → is_empty l ≡ false → ⊥
    not-empty-nil p h = cc (subst (λ l. is_empty l ≡ false) p h)

allows-append :
    (lower : ℕ → ℕ) (p q : Policy) (provider model : Text)
    → allows lower (p ++ q) provider model
      ≡ (allows lower p provider model || allows lower q provider model)
unfolding allows
allows-append lower [] q provider model = refl
allows-append lower (r ∷ p) q provider model =
    ground (arith, allows-append lower p q provider model)
