-- ===== src/Gateway/Catalog/Reserved.antt =====
-- What the refusal of a name keeps (`compatNameRefused`, internal/infra/gateway/catalog.go).
use llm_proxy_backend.Prelude.{
  ℕ, ◌≡◌, refl, ◌∙◌, Bool, true, false, ◌&&◌, ◌||◌, not, List, [], ◌∷◌, ◌++◌, map, arith, all, All,
  leb, ◌==◌, if◌then◌else◌, Bool-cases, inl, inr,
}
use llm_proxy_backend.Prelude.Text.{Text, codes, ◌=t◌, =t_comm, eq_of_=t, trim_space}
use llm_proxy_backend.Access.Rule.{Rule, matches, any_text}
use llm_proxy_backend.Usage.Detail.{openai_compatibility_key, openai_compatible_prefix}
use llm_proxy_backend.Usage.Event.{trim_prefix, policy_provider, codex_provider_key}
use llm_proxy_backend.Gateway.Catalog.{
  compat_provider_key, compat_name_refused, reserved_among, reserved_provider_name,
  builtin_providers,
}

-- Small letters of ASCII and the dash.
abbrev pub is_plain : ℕ → Bool
is_plain c = (leb 97 c && leb c 122) || c == 45

module _ (lower : ℕ → ℕ) (lower_lower : (c : ℕ) → lower (lower c) ≡ lower c)
    (lower_plain : (c : ℕ) → is_plain c ≡ true → lower c ≡ c) where
  map_lower-map : (s : Text) → map lower (map lower s) ≡ map lower s
  map_lower-map [] = refl
  map_lower-map (c ∷ s) = cc (lower_lower c, map_lower-map s)

  map_lower-plain : (s : Text) → all is_plain s ≡ true → map lower s ≡ s
  map_lower-plain [] h = refl
  map_lower-plain (c ∷ s) h = ground (arith, lower_plain c, map_lower-plain s)

  map_lower-append : (s t : Text) → map lower (s ++ t) ≡ map lower s ++ map lower t
  map_lower-append [] t = refl
  map_lower-append (c ∷ s) t = cc (map_lower-append s t)

  trim_prefix-lower :
      (s p whole : Text)
      → map lower s ≡ s
      → map lower whole ≡ whole
      → map lower (trim_prefix s p whole) ≡ trim_prefix s p whole
  unfolding trim_prefix
  trim_prefix-lower s [] whole h w = h
  trim_prefix-lower [] (c ∷ p) whole h w = w
  trim_prefix-lower (d ∷ s) (c ∷ p) whole h w = ground (arith, trim_prefix-lower s p whole)

  map_lower-if :
      (b : Bool) (s t : Text)
      → map lower s ≡ s
      → map lower t ≡ t
      → map lower (if b then s else t) ≡ (if b then s else t)
  map_lower-if true s t h k = h
  map_lower-if false s t h k = k

  policy_provider-lower :
      (key : Text) → map lower key ≡ key → map lower (policy_provider key) ≡ policy_provider key
  unfolding policy_provider
  policy_provider-lower key h =
      map_lower-if (key =t codex_provider_key) (codes "chatgpt") _
        (map_lower-plain (codes "chatgpt") refl)
        (map_lower-if _ key _ h (trim_prefix-lower key openai_compatible_prefix key h h))

  compat_provider_key-lower :
      (name : Text) → map lower (compat_provider_key lower name) ≡ compat_provider_key lower name
  unfolding compat_provider_key
  compat_provider_key-lower name =
      let key = map lower (trim_space name) in
      let fixed = map_lower-map (trim_space name) in
      map_lower-if (key =t []) openai_compatibility_key _
        (map_lower-plain openai_compatibility_key refl)
        (map_lower-if _ key (openai_compatible_prefix ++ key) fixed (
          map_lower-append openai_compatible_prefix key
          ∙ cc (map_lower-plain openai_compatible_prefix refl, fixed)))

-- A rule for the provider of a key, by either of its names, reaches no model of the provider `name`.
unfoldable pub IsApart : (ℕ → ℕ) → Text → Text → Type 0
IsApart lower name key =
    (r : Rule) (model : Text)
    → ((r.provider =t key) || (r.provider =t policy_provider key)) ≡ true
    → matches lower r name model ≡ false

-- A key whose names are not the pattern for every provider.
abbrev is_named : Text → Bool
is_named key = not (key =t any_text) && not (policy_provider key =t any_text)

matches-other :
    (lower : ℕ → ℕ) (r : Rule) (name model key : Text)
    → map lower name ≡ name
    → (name =t key) ≡ false
    → (key =t any_text) ≡ false
    → (r.provider =t key) ≡ true
    → matches lower r name model ≡ false
unfolding matches
matches-other lower r name model key fixed other named h =
    let e = eq_of_=t r.provider key h in
    let apart : (r.provider =t map lower name) ≡ false = cc (e, fixed, =t_comm key name, other) in
    let own : (r.provider =t any_text) ≡ false = cc (e, named) in ground (arith, apart, own)

is_named-builtin : all is_named builtin_providers ≡ true
unfolding policy_provider
is_named-builtin = refl

module _ (lower : ℕ → ℕ) (name : Text) (fixed : map lower name ≡ name) where
  reserved_among-IsApart :
      (keys : List Text)
      → reserved_among name keys ≡ false
      → all is_named keys ≡ true
      → All (IsApart lower name) keys
  unfolding reserved_among IsApart
  reserved_among-IsApart [] h n = tt
  reserved_among-IsApart (k ∷ keys) h n =
      let apart : (name =t k) ≡ false = ground arith in
      let apart_too : (name =t policy_provider k) ≡ false = ground arith in
      (
        (λ r model at. elim (Bool-cases (r.provider =t k)) [
          | inl own ↦ matches-other lower r name model k fixed apart (ground arith) own
          | inr not_own ↦
              matches-other lower r name model (policy_provider k) fixed apart_too (ground arith)
                (ground arith)
        ]),
        reserved_among-IsApart keys (ground arith) (ground arith),
      )

or_false : (a b : Bool) → (a || b) ≡ false → b ≡ false
or_false a b h = ground arith

not_reserved :
    (lower : ℕ → ℕ) (name : Text)
    → compat_name_refused lower name ≡ false
    → reserved_among (policy_provider (compat_provider_key lower name)) builtin_providers ≡ false
unfolding compat_name_refused reserved_provider_name
not_reserved lower name h = or_false _ _ h

-- If lower casing is idempotent and keeps the small letters of ASCII and the dash, and the name of a
-- compatibility entry is not refused, then no rule for a built-in provider, under its upstream key or
-- the name that policies call it by, matches any model of the provider that the entry becomes.
pub compat_name_refused-IsApart :
    (lower : ℕ → ℕ)
    → ((c : ℕ) → lower (lower c) ≡ lower c)
    → ((c : ℕ) → is_plain c ≡ true → lower c ≡ c)
    → (name : Text) → compat_name_refused lower name ≡ false
    → All (IsApart lower (policy_provider (compat_provider_key lower name))) builtin_providers
compat_name_refused-IsApart lower lower_lower lower_plain name h =
    let key = compat_provider_key lower name in
    reserved_among-IsApart lower (policy_provider key)
      (policy_provider-lower lower lower_lower lower_plain key
        (compat_provider_key-lower lower lower_lower lower_plain name))
      builtin_providers (not_reserved lower name h) is_named-builtin
