-- ===== src/Access/Rule.antt =====
-- `Rule`, `ParseRule` and `matches` (internal/domain/access/policy.go), over unicode.ToLower of one
-- code point.
use llm_proxy_backend.Prelude.{
  ℕ, Bool, true, false, ◌&&◌, ◌||◌, not, Option, none, some, [], ◌∷◌, ◌++◌, map, if◌then◌else◌,
}
use llm_proxy_backend.Prelude.Text.{Text, ◌=t◌, cut, trim_space}
use llm_proxy_backend.Access.Glob.{Regexp, compile_glob, match_string}

-- `re` is `none` in a rule built by hand.
pub record Rule : Type 0 where
  pub provider : Text
  pub model_pattern : Text
  pub re : Option Regexp

abbrev pub any_text : Text
any_text = b'*' ∷ []

unfoldable pub string : Rule → Text
string r = r.provider ++ b':' ∷ r.model_pattern

module _ (lower : ℕ → ℕ) where
  -- The checks on the two halves, which are trimmed already.
  unfoldable pub checked_rule : Text → Text → Option Rule
  checked_rule provider pattern =
      if (provider =t []) || (pattern =t [])
      then none
      else some (record {
        provider = map lower provider;
        model_pattern = map lower pattern;
        re = some (compile_glob (map lower pattern));
      })

  -- `none` is ErrMalformedRule. A quoted glob always compiles.
  unfoldable pub parse_rule : Text → Option Rule
  unfolding checked_rule
  parse_rule raw = elim (cut b':' (trim_space raw)) [
    | none ↦ none
    | some (provider, pattern) ↦ checked_rule (trim_space provider) (trim_space pattern)
  ]

  -- The compiled pattern, compiled on demand.
  abbrev pub pattern_of : Rule → Option Regexp → Regexp
  pattern_of r none = compile_glob r.model_pattern
  pattern_of r (some re) = re

  unfoldable pub matches : Rule → Text → Text → Bool
  matches r provider model =
      if not (r.provider =t any_text) && not (r.provider =t map lower provider)
      then false
      else if r.model_pattern =t any_text
      then true
      else match_string (pattern_of r r.re) (map lower model)
