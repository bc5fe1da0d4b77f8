-- ===== src/Usage/Event.antt =====
-- How a record of upstream becomes a row of the ledger: `eventOf`
-- (internal/infra/gateway/usage/sink.go) and `PolicyProvider` (internal/infra/gateway/catalog.go).
-- Lower casing, uuid, the arithmetic of float64, the prices in memory and the catalogue are parameters.
-- Durations are in nanoseconds and not negative, times are counted from the zero time.
use llm_proxy_backend.Prelude.{ℕ, ◌-◌, ◌/◌, Bool, Option, none, some, [], ◌∷◌, ◌==◌, if◌then◌else◌}
use llm_proxy_backend.Prelude.Text.{Text, codes, ◌=t◌}
use llm_proxy_backend.Pricing.{ModelPrice, PriceLookup, PricingCatalog, priced_name}
use llm_proxy_backend.Tokens.Principal.{parse_principal}
use llm_proxy_backend.Usage.Detail.{Detail, Tokens, partition_detail, openai_compatible_prefix}
use llm_proxy_backend.Usage.Cost.{FloatArith, price_usage}
use llm_proxy_backend.Usage.Row.{UsageEvent}

-- What `eventOf` reads of upstream's record. `breakdown` is its token breakdown, where that is valid.
pub record UsageRecord : Type 0 where
  pub provider : Text
  pub model : Text
  pub alias : Text
  pub api_key : Text
  pub auth_id : Text
  pub stream : Bool
  pub service_tier : Text
  pub response_service_tier : Text
  pub requested_at : ℕ
  pub latency : ℕ
  pub ttft : ℕ
  pub failed : Bool
  pub status_code : ℕ
  pub detail : Detail
  pub breakdown : Option Tokens

abbrev pub codex_provider_key : Text
codex_provider_key = codes "codex"

-- strings.TrimPrefix.
unfoldable pub trim_prefix : (s prefix : Text) → Text → Text
trim_prefix s [] whole = s
trim_prefix [] (c ∷ p) whole = whole
trim_prefix (d ∷ s) (c ∷ p) whole = if d == c then trim_prefix s p whole else whole

unfoldable pub policy_provider : Text → Text
unfolding trim_prefix
policy_provider key =
    if key =t codex_provider_key
    then codes "chatgpt"
    else let name = trim_prefix key openai_compatible_prefix key in if name =t [] then key else name

module _ (prices : PriceLookup) (catalog : PricingCatalog) where
  unfoldable pub price_by_alias : Text → Text → Option ModelPrice
  price_by_alias provider alias = elim (priced_name catalog alias) [
    | none ↦ none
    | some (name, _) ↦ prices provider name
  ]

  -- The price under upstream's name, or else under the name that the client asked for.
  unfoldable pub event_price : (provider model alias : Text) → Option ModelPrice
  unfolding price_by_alias
  event_price provider model alias = elim (prices provider model) [
    | some p ↦ some p
    | none ↦ if alias =t [] then none else price_by_alias provider alias
  ]

module _ (lower : ℕ → ℕ) (print_id : ℕ → Text) (parse_id : Text → Option ℕ) (fl : FloatArith)
    (prices : PriceLookup) (catalog : PricingCatalog) where
  unfoldable pub user_of : Text → ℕ
  user_of key = elim (parse_principal print_id parse_id key) [ none ↦ 0 | some p ↦ p.user_id ]

  unfoldable pub token_of : Text → ℕ
  token_of key = elim (parse_principal print_id parse_id key) [ none ↦ 0 | some p ↦ p.token_id ]

  unfoldable pub tokens_of : UsageRecord → Tokens
  tokens_of r = elim r.breakdown [ some t ↦ t | none ↦ partition_detail lower r.provider r.detail ]

  unfoldable pub event_of : (now : ℕ) → UsageRecord → UsageEvent
  unfolding event_price user_of token_of tokens_of policy_provider
  event_of now r = record {
    at = if r.requested_at == 0 then now - r.latency else r.requested_at;
    user_id = user_of r.api_key;
    token_id = token_of r.api_key;
    provider = policy_provider r.provider;
    model = r.model;
    alias = r.alias;
    stream = r.stream;
    service_tier =
        if r.response_service_tier =t [] then r.service_tier else r.response_service_tier;
    tokens = tokens_of r;
    latency_ms = r.latency / 1000000;
    ttft_ms = r.ttft / 1000000;
    status_code = r.status_code;
    failed = r.failed;
    vendor_account_id = r.auth_id;
    cost =
        price_usage fl (tokens_of r)
          (event_price prices catalog (policy_provider r.provider) r.model r.alias);
  }
