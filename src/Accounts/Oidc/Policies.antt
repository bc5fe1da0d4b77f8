-- ===== src/Accounts/Oidc/Policies.antt =====
-- The policy of the groups (`policyFor`, internal/app/auth/oidc.go).
use mathlib.Core.Path.{subst}
use llm_proxy_backend.Prelude.{
  inl, inr, Bool-cases, arith, refl, ◌≡◌, ◌&&◌, ◌||◌, not, Bool, true, false, List, [], ◌∷◌, ◌++◌,
  any, if◌then◌else◌,
}
use llm_proxy_backend.Prelude.Text.{Text, ◌=t◌, eq_of_=t, =t_comm}
use llm_proxy_backend.Access.Rule.{Rule, string}
use llm_proxy_backend.Access.Policy.{Policy}

pub record GroupGrant : Type 0 where
  pub group : Text
  pub policy : Policy

abbrev pub contains : List Text → Text → Bool
contains groups group = any (λ g. g =t group) groups

-- `len(s.grants) > 0`.
unfoldable pub is_mapped : List GroupGrant → Bool
is_mapped [] = false
is_mapped (_ ∷ _) = true

-- The rules' texts that `seen` holds are those of the policy so far.
abbrev pub holds_rule : Text → Policy → Bool
holds_rule key policy = any (λ r. string r =t key) policy

unfoldable pub add_rule : Policy → Rule → Policy
add_rule policy r = if holds_rule (string r) policy then policy else policy ++ r ∷ []

unfoldable pub add_rules : Policy → Policy → Policy
unfolding add_rule
add_rules policy [] = policy
add_rules policy (r ∷ rules) = add_rules (add_rule policy r) rules

unfoldable pub add_grants : Policy → List GroupGrant → List Text → Policy
unfolding add_rules
add_grants policy [] groups = policy
add_grants policy (g ∷ grants) groups =
    add_grants (if contains groups g.group then add_rules policy g.policy else policy) grants groups

unfoldable pub policy_for : List GroupGrant → List Text → Policy
unfolding add_grants
policy_for grants groups = add_grants [] grants groups

holds-append :
    (key : Text) (policy : Policy) (r : Rule)
    → holds_rule key (policy ++ r ∷ []) ≡ (holds_rule key policy || (string r =t key))
holds-append key [] r = ground arith
holds-append key (q ∷ policy) r = ground (arith, holds-append key policy r)

holds-add_rule :
    (key : Text) (policy : Policy) (r : Rule)
    → holds_rule key (add_rule policy r) ≡ (holds_rule key policy || (string r =t key))
unfolding add_rule
holds-add_rule key policy r = elim (Bool-cases (holds_rule (string r) policy)) [
  | inl there ↦ elim (Bool-cases (string r =t key)) [
    | inl same ↦
        let k = eq_of_=t (string r) key same in
        let here = subst (λ k. holds_rule k policy ≡ true) k there in ground arith
    | inr other ↦ ground arith
  ]
  | inr absent ↦ ground (arith, holds-append key policy r)
]

holds-add_rules :
    (key : Text) (policy rules : Policy)
    → holds_rule key (add_rules policy rules) ≡ (holds_rule key policy || holds_rule key rules)
unfolding add_rules
holds-add_rules key policy [] = ground arith
holds-add_rules key policy (r ∷ rules) =
    ground (arith, holds-add_rules key (add_rule policy r) rules, holds-add_rule key policy r)

holds-add_grants :
    (key : Text) (policy : Policy) (grants : List GroupGrant) (groups : List Text)
    → holds_rule key (add_grants policy grants groups) ≡ (
        holds_rule key policy
        || any (λ g. contains groups g.group && holds_rule key g.policy) grants)
unfolding add_grants
holds-add_grants key policy [] groups = ground arith
holds-add_grants key policy (g ∷ grants) groups = elim (Bool-cases (contains groups g.group)) [
  | inl e ↦ ground (
    arith,
    holds-add_grants key (add_rules policy g.policy) grants groups,
    holds-add_rules key policy g.policy,
  )
  | inr e ↦ ground (arith, holds-add_grants key policy grants groups)
]

-- No text twice.
abbrev pub distinct : Policy → Bool
distinct [] = true
distinct (r ∷ policy) = not (holds_rule (string r) policy) && distinct policy

distinct-append :
    (policy : Policy) (r : Rule)
    → distinct policy ≡ true
    → holds_rule (string r) policy ≡ false
    → distinct (policy ++ r ∷ []) ≡ true
distinct-append [] r d h = refl
distinct-append (q ∷ policy) r d h = ground (
  arith,
  distinct-append policy r,
  holds-append (string q) policy r,
  =t_comm (string q) (string r),
)

distinct-add_rule :
    (policy : Policy) (r : Rule) → distinct policy ≡ true → distinct (add_rule policy r) ≡ true
unfolding add_rule
distinct-add_rule policy r d = ground (arith, distinct-append policy r d)

distinct-add_rules :
    (policy rules : Policy) → distinct policy ≡ true → distinct (add_rules policy rules) ≡ true
unfolding add_rules
distinct-add_rules policy [] d = d
distinct-add_rules policy (r ∷ rules) d =
    distinct-add_rules (add_rule policy r) rules (distinct-add_rule policy r d)

distinct-add_grants :
    (policy : Policy) (grants : List GroupGrant) (groups : List Text)
    → distinct policy ≡ true
    → distinct (add_grants policy grants groups) ≡ true
unfolding add_grants
distinct-add_grants policy [] groups d = d
distinct-add_grants policy (g ∷ grants) groups d = ground (
  arith,
  distinct-add_rules policy g.policy d,
  distinct-add_grants (add_rules policy g.policy) grants groups,
  distinct-add_grants policy grants groups,
)

-- A rule's text stands in the policy of a person's groups exactly when the policy of a mapped group that
-- the person holds has it, and none stands there twice.
pub policy_for-union :
    (key : Text) (grants : List GroupGrant) (groups : List Text)
    → (holds_rule key (policy_for grants groups)
        ≡ any (λ g. contains groups g.group && holds_rule key g.policy) grants)
      × (distinct (policy_for grants groups) ≡ true)
unfolding policy_for
policy_for-union key grants groups =
    (holds-add_grants key [] grants groups, distinct-add_grants [] grants groups refl)
