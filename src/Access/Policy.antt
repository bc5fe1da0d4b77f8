-- ===== src/Access/Policy.antt =====
-- `Policy` and the routing it is asked about (internal/domain/access/policy.go). The catalogue is a
-- function: the providers serving a model right now.
pub mod Admission
use llm_proxy_backend.Prelude.{
  ℕ, Bool, true, false, ◌&&◌, ◌||◌, not, Option, none, some, List, [], ◌∷◌, ◌==◌, if◌then◌else◌,
  any, all,
}
use llm_proxy_backend.Prelude.Text.{Text, ◌=t◌, codes, trim_space}
use llm_proxy_backend.Access.Rule.{Rule, matches}

abbrev pub Policy : Type 0
Policy = List Rule

abbrev pub Catalog : Type 0
Catalog = Text → List Text

unfoldable pub is_empty {ℓ} : {A : Type ℓ} → List A → Bool
is_empty [] = true
is_empty (_ ∷ _) = false

-- The text before the last `k`, if there is one (model[:strings.LastIndex]).
unfoldable pub before_last : ℕ → Text → Option Text
before_last k [] = none
before_last k (c ∷ s) = elim (before_last k s) [
  | some a ↦ some (c ∷ a)
  | none ↦ if c == k then some [] else none
]

-- strings.HasSuffix of one character.
unfoldable pub ends_in : ℕ → Text → Bool
ends_in k [] = false
ends_in k (c ∷ []) = c == k
ends_in k (c ∷ d ∷ s) = ends_in k (d ∷ s)

unfoldable pub thinking_base : Text → Text
thinking_base model = elim (before_last b'(' model) [
  | none ↦ model
  | some base ↦ if not (ends_in b')' model) then model else base
]

abbrev pub auto_name : Text
auto_name = codes "auto"

-- The registered model the providers were found for, and the providers.
unfoldable pub routed : Catalog → Text → Text × List Text
routed catalog requested =
    let base = thinking_base requested in
    let trimmed = trim_space base in
    if (requested =t auto_name) || (base =t auto_name)
    then ([], [])
    else if not (is_empty (catalog trimmed))
    then (trimmed, catalog trimmed)
    else if not (trimmed =t requested)
    then (requested, catalog requested)
    else (trimmed, [])

module _ (lower : ℕ → ℕ) where
  unfoldable pub allows : Policy → Text → Text → Bool
  allows policy provider model = any (λ r. matches lower r provider model) policy

  unfoldable pub covers : Policy → Text → List Text → Bool
  covers policy model providers =
      if is_empty providers then false else all (λ p. allows policy p model) providers

  unfoldable pub admits : Policy → Catalog → Text → Bool
  unfolding covers
  admits policy catalog requested =
      let (model, providers) = routed catalog requested in covers policy model providers
