-- ===== src/Gateway/Routes.antt =====
-- The table of routes (internal/infra/gateway/routes.go). A key is a method and a gin route pattern.
use llm_proxy_backend.Prelude.{
  ℕ, Bool, ◌&&◌, not, Option, none, some, List, [], ◌∷◌, ◌++◌, map, ltb, if◌then◌else◌,
}
use llm_proxy_backend.Prelude.Text.{Text, codes, ◌=t◌, trim_space}
use llm_proxy_backend.Usage.Detail.{has_prefix}
use llm_proxy_backend.Gateway.Budget.{max_json_body, max_multipart_body as multipart_limit}
use llm_proxy_backend.Gateway.Gate.{
  RouteKind, route_denied, route_public, route_listing, route_model,
}

-- Where a model route's model is read from.
pub data ModelSource : Type 0 where
  body_model claude_model gemini_action_model interactions_model : ModelSource
  image_generation_model image_edit_model : ModelSource

pub data Listing : Type 0 where
  v1_models v1_model gemini_models gemini_model : Listing

pub data Decodes : Type 0 where
  never always json_content : Decodes

-- `model` and `listing` are nil where the kind has none; a limit of 0 is not set.
pub record Route : Type 0 where
  pub kind : RouteKind
  pub model : Option ModelSource
  pub max_body : ℕ
  pub max_multipart_body : ℕ
  pub decodes : Decodes
  pub listing : Option Listing

-- The zero route.
abbrev pub denied : Route
denied = record {
  kind = route_denied;
  model = none;
  max_body = 0;
  max_multipart_body = 0;
  decodes = never;
  listing = none;
}

abbrev pub public : Route
public = record denied { kind = route_public }

abbrev pub listing_of : Listing → Route
listing_of l = record denied { kind = route_listing; listing = some l }

abbrev pub plain_body : ModelSource → Route
plain_body m = record denied { kind = route_model; model = some m; max_body = max_json_body }

abbrev pub decoded : ModelSource → Route
decoded m = record (plain_body m) { decodes = always }

abbrev pub image_edit : Route
image_edit = record (plain_body image_edit_model) {
  max_multipart_body = multipart_limit;
  decodes = json_content;
}

abbrev pub route : Text → Route → Text × Route
route key r = (key, r)

unfoldable pub routes : List (Text × Route)
routes =
    route (codes "GET /healthz") public
    ∷ route (codes "HEAD /healthz") public
    ∷ route (codes "GET /v1/models") (listing_of v1_models)
    ∷ route (codes "GET /v1/models/*model") (listing_of v1_model)
    ∷ route (codes "GET /v1beta/models") (listing_of gemini_models)
    ∷ route (codes "GET /v1beta/models/*action") (listing_of gemini_model)
    ∷ route (codes "POST /v1/chat/completions") (decoded body_model)
    ∷ route (codes "POST /v1/completions") (decoded body_model)
    ∷ route (codes "POST /v1/responses") (decoded body_model)
    ∷ route (codes "POST /v1/responses/compact") (decoded body_model)
    ∷ route (codes "POST /backend-api/codex/responses") (decoded body_model)
    ∷ route (codes "POST /backend-api/codex/responses/compact") (decoded body_model)
    ∷ route (codes "POST /v1/messages") (plain_body claude_model)
    ∷ route (codes "POST /v1/messages/count_tokens") (plain_body claude_model)
    ∷ route (codes "POST /v1beta/models/*action") (plain_body gemini_action_model)
    ∷ route (codes "POST /v1beta/interactions") (plain_body interactions_model)
    ∷ route (codes "POST /v1/images/generations") (decoded image_generation_model)
    ∷ route (codes "POST /v1/images/edits") image_edit
    ∷ route (codes "GET /v1/ws") denied
    ∷ route (codes "GET /v1/responses") denied
    ∷ route (codes "GET /backend-api/codex/responses") denied
    ∷ route (codes "POST /v1/live") denied
    ∷ route (codes "GET /v1/live/:call_id") denied
    ∷ route (codes "GET /v1/realtime") denied
    ∷ route (codes "POST /v1/realtime") denied
    ∷ route (codes "POST /v1/realtime/calls") denied
    ∷ route (codes "GET /v1/realtime/calls/:call_id") denied
    ∷ route (codes "POST /v1/realtime/client_secrets") denied
    ∷ route (codes "POST /v1/realtime/sessions") denied
    ∷ route (codes "POST /v1/realtime/transcription_sessions") denied
    ∷ route (codes "GET /v1/realtime/translations") denied
    ∷ route (codes "POST /v1/realtime/translations") denied
    ∷ route (codes "POST /v1/realtime/translations/client_secrets") denied
    ∷ route (codes "POST /v1/realtime/calls/:call_id/hangup") denied
    ∷ route (codes "POST /v1/realtime/calls/:call_id/accept") denied
    ∷ route (codes "POST /v1/realtime/calls/:call_id/reject") denied
    ∷ route (codes "POST /v1/realtime/calls/:call_id/refer") denied
    ∷ route (codes "POST /v1/alpha/search") denied
    ∷ route (codes "POST /backend-api/codex/alpha/search") denied
    ∷ route (codes "POST /v1/videos") denied
    ∷ route (codes "POST /v1/videos/generations") denied
    ∷ route (codes "POST /v1/videos/edits") denied
    ∷ route (codes "POST /v1/videos/extensions") denied
    ∷ route (codes "GET /v1/videos/:request_id") denied
    ∷ route (codes "POST /openai/v1/videos") denied
    ∷ route (codes "GET /openai/v1/videos/:video_id") denied
    ∷ route (codes "GET /openai/v1/videos/:video_id/content") denied
    ∷ route (codes "POST /v1/audio/speech") denied
    ∷ route (codes "POST /v1/tts") denied
    ∷ route (codes "GET /") denied
    ∷ route (codes "GET /management.html") denied
    ∷ route (codes "GET /anthropic/callback") denied
    ∷ route (codes "GET /codex/callback") denied
    ∷ route (codes "GET /antigravity/callback") denied
    ∷ route (codes "GET /callback") denied
    ∷ route (codes "GET /devin/callback") denied
    ∷ []

unfoldable pub route_at : Text → List (Text × Route) → Route
route_at key [] = denied
route_at key ((k, r) ∷ rs) = if k =t key then r else route_at key rs

unfoldable pub classify : (method pattern : Text) → Route
unfolding routes route_at
classify method pattern = route_at (method ++ codes " " ++ pattern) routes

-- `jsonContent`, of a Content-Type.
unfoldable pub is_json_content : (ℕ → ℕ) → Text → Bool
unfolding has_prefix
is_json_content lower content_type =
    has_prefix (map lower (trim_space content_type)) (codes "application/json")

unfoldable pub body_limit_for : (ℕ → ℕ) → Text → Route → ℕ
unfolding is_json_content
body_limit_for lower content_type r =
    if ltb 0 r.max_multipart_body && not (is_json_content lower content_type)
    then r.max_multipart_body
    else r.max_body
