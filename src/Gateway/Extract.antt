-- ===== src/Gateway/Extract.antt =====
-- Which model a request names (internal/infra/gateway/model_extract.go). What gjson reads of a body is a
-- parameter, as is the form that gin parses; lower casing and strings.EqualFold are parameters.
pub mod Cloak
use llm_proxy_backend.Prelude.{
  ℕ, suc, ◌+◌, Bool, true, false, ◌&&◌, ◌||◌, not, Option, none, some, List, [], ◌∷◌, ◌++◌, map,
  length, ltb, ◌==◌, if◌then◌else◌,
}
use llm_proxy_backend.Prelude.Text.{Text, codes, ◌=t◌, trim_space}
use llm_proxy_backend.Access.Policy.{ends_in}
use llm_proxy_backend.Usage.Detail.{has_prefix}
use llm_proxy_backend.Usage.Event.{trim_prefix}
use llm_proxy_backend.Gateway.Catalog.{xai_provider_key}

-- What gjson reads of a body: whether it is JSON, its keys at the top in order, and two fields as text.
pub record Json : Type 0 where
  pub valid : Bool
  pub keys : List Text
  pub model_field : Text
  pub agent_field : Text

-- A parsed multipart form: its fields with their values, and what PostForm("model") gives.
pub record Form : Type 0 where
  pub fields : List (Text × List Text)
  pub model_value : Text

-- The text before and after the last `k`.
unfoldable pub cut_last : ℕ → Text → Option (Text × Text)
cut_last k [] = none
cut_last k (c ∷ s) = elim (cut_last k s) [
  | some (a, b) ↦ some (c ∷ a, b)
  | none ↦ if c == k then some ([], s) else none
]

unfoldable pub drop_last : Text → Text
drop_last [] = []
drop_last (c ∷ []) = []
drop_last (c ∷ d ∷ s) = c ∷ drop_last (d ∷ s)

unfoldable pub reversed : Text → Text
reversed [] = []
reversed (c ∷ s) = reversed s ++ c ∷ []

-- strings.CutPrefix.
unfoldable pub cut_prefix : (s prefix : Text) → Option Text
cut_prefix s [] = some s
cut_prefix [] (c ∷ p) = none
cut_prefix (d ∷ s) (c ∷ p) = if d == c then cut_prefix s p else none

abbrev pub claude_dd_model_prefix : Text
claude_dd_model_prefix = codes "claude-fable-5-dd-"

-- The name a text encodes, with a suffix put back; `id` where it encodes none.
unfoldable pub decoded_base : (id base suffix : Text) → Text
unfolding cut_prefix reversed
decoded_base id base suffix = elim (cut_prefix base claude_dd_model_prefix) [
  | none ↦ id
  | some encoded ↦ if encoded =t [] then id else reversed encoded ++ suffix
]

unfoldable pub decode_claude_model_id : Text → Text
unfolding cut_last drop_last decoded_base ends_in
decode_claude_model_id id = elim (cut_last b'(' id) [
  | none ↦ decoded_base id id []
  | some (base, rest) ↦
      if ends_in b')' id
      then decoded_base id base (b'(' ∷ drop_last rest ++ b')' ∷ [])
      else decoded_base id id []
]

abbrev pub default_image_model : Text
default_image_model = codes "gpt-image-2"

abbrev pub xai_image_model : Text
xai_image_model = codes "grok-imagine-image"

abbrev pub xai_image_quality_model : Text
xai_image_quality_model = codes "grok-imagine-image-quality"

abbrev pub xai_image20_model : Text
xai_image20_model = codes "grok-imagine-image-2.0"

module _ (lower : ℕ → ℕ) (equal_fold : Text → Text → Bool) where
  unfoldable pub model_keys : List Text → ℕ
  model_keys [] = 0
  model_keys (k ∷ ks) =
      let rest = model_keys ks in if equal_fold k (codes "model") then suc rest else rest

  unfoldable pub repeats_model_key : Json → Bool
  unfolding model_keys
  repeats_model_key raw = ltb 1 (model_keys raw.keys)

  unfoldable pub json_model : Json → Option Text
  unfolding repeats_model_key trim_space
  json_model raw =
      if not raw.valid || repeats_model_key raw
      then none
      else if trim_space raw.model_field =t []
      then none
      else some raw.model_field

  unfoldable pub claude_model : Json → Option Text
  unfolding json_model decode_claude_model_id
  claude_model raw = elim (json_model raw) [
    | none ↦ none
    | some model ↦ some (decode_claude_model_id model)
  ]

  unfoldable pub without_models : Text → Text
  unfolding cut_prefix
  without_models field = elim (cut_prefix field (codes "models/")) [
    | none ↦ field
    | some rest ↦ if rest =t [] then field else rest
  ]

  unfoldable pub interactions_model : Json → Option Text
  unfolding repeats_model_key trim_space without_models
  interactions_model raw =
      if not raw.valid || repeats_model_key raw || not (trim_space raw.agent_field =t [])
      then none
      else let field = trim_space raw.model_field in
        let model = without_models field in if model =t [] then none else some model

  -- strings.Split at one code point, with what is read of the part at hand.
  unfoldable pub split_from : ℕ → (part text : Text) → List Text
  split_from sep part [] = part ∷ []
  split_from sep part (c ∷ s) =
      if c == sep then part ∷ split_from sep [] s else split_from sep (part ++ c ∷ []) s

  unfoldable pub action_parts : List Text → Option Text
  action_parts [] = none
  action_parts (model ∷ []) = none
  action_parts (model ∷ method ∷ []) = if model =t [] then none else some model
  action_parts (model ∷ method ∷ another ∷ parts) = none

  unfoldable pub gemini_action_model : (action : Text) → Json → Option Text
  unfolding repeats_model_key split_from action_parts trim_prefix
  gemini_action_model action raw =
      let path = trim_prefix action (codes "/") action in
      let model = action_parts (split_from b':' [] path) in
      if raw.valid && repeats_model_key raw then none else model

  -- The canonical name of an xAI image model; the name as given for another.
  unfoldable pub xai_image : (model base : Text) → Text
  xai_image model base =
      if base =t xai_image_quality_model
      then xai_image_quality_model
      else if base =t xai_image20_model
      then xai_image20_model
      else if base =t xai_image_model
      then xai_image_model
      else model

  unfoldable pub split_image : Text → Text × Text
  unfolding cut_last trim_space
  split_image model = elim (cut_last b'/' model) [
    | none ↦ ([], model)
    | some (a, b) ↦ if b =t [] then ([], model) else (trim_space a, trim_space b)
  ]

  unfoldable pub image_route_model : Text → Text
  unfolding trim_space split_image xai_image
  image_route_model requested =
      let model = trim_space requested in
      let (prefix, base) = split_image model in
      let vendor = map lower prefix in
      if model =t []
      then default_image_model
      else if (vendor =t [])
          || (vendor =t xai_provider_key)
          || (vendor =t codes "x-ai")
          || (vendor =t codes "grok")
      then xai_image model (map lower base)
      else model

  unfoldable pub image_generation_model : Json → Option Text
  unfolding repeats_model_key image_route_model
  image_generation_model raw =
      if not raw.valid || repeats_model_key raw
      then none
      else some (image_route_model raw.model_field)

  unfoldable pub model_fields : List (Text × List Text) → ℕ
  model_fields [] = 0
  model_fields ((key, values) ∷ rest) =
      let n = model_fields rest in if equal_fold key (codes "model") then length values + n else n

  -- `form` is `none` where the body does not parse as one.
  unfoldable pub image_edit_model : (content_type : Text) → Option Form → Json → Option Text
  unfolding image_generation_model image_route_model model_fields trim_space has_prefix
  image_edit_model content_type form raw =
      let media = map lower (trim_space content_type) in
      if has_prefix media (codes "application/json")
      then image_generation_model raw
      else if (media =t []) || has_prefix media (codes "multipart/form-data")
      then elim form [
        | none ↦ none
        | some f ↦
            if ltb 1 (model_fields f.fields) then none else some (image_route_model f.model_value)
      ]
      else none
