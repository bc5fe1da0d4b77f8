-- ===== src/Samples/Access.antt =====
-- Policies at work.
use llm_proxy_backend.Prelude.{◌≡◌, ◌↔◌, true, false, [], ◌∷◌, All}
use llm_proxy_backend.Prelude.Text.{Text, codes}
use llm_proxy_backend.Access.Glob.{compile_glob, match_string}
use llm_proxy_backend.Access.Glob.Meaning.{Globs, match_string_iff}
use llm_proxy_backend.Access.Policy.{Catalog, is_empty, routed, allows, admits}
use llm_proxy_backend.Access.Policy.Admission.{is_auto, admits_iff}
use llm_proxy_backend.Samples.{keep_code, any_claude}

abbrev opus : Text
opus = codes "claude-opus"

-- Two providers serve every model.
abbrev two_providers : Catalog
two_providers _ = codes "claude" ∷ codes "codex" ∷ []

admits_iff_example :
    let model = (routed two_providers opus).0 in
    (admits keep_code (any_claude ∷ []) two_providers opus ≡ true) ↔ (
      (is_auto opus ≡ false)
      × (is_empty (two_providers model) ≡ false)
      × All (λ p. allows keep_code (any_claude ∷ []) p model ≡ true) (two_providers model))
admits_iff_example = admits_iff keep_code (any_claude ∷ []) two_providers opus

match_string_iff_example :
    (match_string (compile_glob (codes "claude-*")) opus ≡ true) ↔ Globs (codes "claude-*") opus
match_string_iff_example = match_string_iff (codes "claude-*") opus
