-- ===== src/Samples/Gate.antt =====
-- A request through the gate.
use llm_proxy_backend.Prelude.{
  arith, ℕ, ◌+◌, ◌≡◌, refl, leb, ◌&&◌, if◌then◌else◌, none, Any, not, true, false, some, [], ◌∷◌,
}
use llm_proxy_backend.Prelude.Text.{Text, codes, cut, trim_space}
use llm_proxy_backend.Prelude.Float.{plus, fle}
use llm_proxy_backend.Identity.{label}
use llm_proxy_backend.Access.Policy.{
  Catalog, is_empty, admits, routed, covers, thinking_base, before_last, allows,
}
use llm_proxy_backend.Access.Rule.{Rule, matches}
use llm_proxy_backend.Limits.Decide.{decide}
use llm_proxy_backend.Limits.Rules.{effective}
use llm_proxy_backend.Store.{effects, Store}
use llm_proxy_backend.Spend.Windows.{windows_of, open_windows}
use llm_proxy_backend.Spend.Service.{admit, read_windows, write_windows}
use llm_proxy_backend.Tokens.Resolver.{Grant, resolve}
use llm_proxy_backend.Pricing.{ModelPrice, price_table, priced_everywhere}
use llm_proxy_backend.Gateway.Credentials.{Source, authenticate, credential_candidates}
use llm_proxy_backend.Gateway.Credentials.Sound.{IsBackedBy}
use llm_proxy_backend.Gateway.Gate.{
  Request, route_model, named, SpendCheck, policy_gate, listing_filter, gate_model,
}
use llm_proxy_backend.Gateway.Gate.Passes.{IsWithinLimits, policy_gate_next}
use llm_proxy_backend.Gateway.Gate.Listing.{is_denied, listing_filter-gate_model}
use llm_proxy_backend.Usage.Event.{policy_provider}
use llm_proxy_backend.Gateway.Catalog.{compat_name_refused, compat_provider_key}
use llm_proxy_backend.Gateway.Extract.{decode_claude_model_id}
use llm_proxy_backend.Gateway.Extract.Cloak.{decode_claude_model_id-reverse}
use llm_proxy_backend.Gateway.Catalog.Reserved.{IsApart, compat_name_refused-IsApart}
use llm_proxy_backend.Samples.{keep_code, keep_text, store_of_alice}
use llm_proxy_backend.Samples.Keys.{alice_principal, alice_grant, alice_headers}

abbrev pub opus : Text
opus = codes "claude-opus"

abbrev pub claude_only : Catalog
claude_only _ = codes "claude" ∷ []

abbrev pub opus_price : ModelPrice
opus_price = record {
  provider = codes "claude";
  model = opus;
  input = plus 1;
  output = plus 1;
  cache_read = plus 1;
  cache_write = plus 1;
  updated_at = 0;
}

abbrev pub opus_priced : SpendCheck
opus_priced = record {
  prices = price_table (opus_price ∷ []);
  catalog = record { providers_for = claude_only; known_model = λ model. some model };
}

abbrev ask_opus : Request
ask_opus = record {
  kind = route_model;
  encoded = false;
  decodes = false;
  headers = alice_headers;
  received = named opus;
}

abbrev after_gate : Store
after_gate =
    (policy_gate keep_code claude_only (λ _ _. true) keep_text (some opus_priced) ask_opus
      store_of_alice).1

policy_gate_next_example :
    (ask_opus.kind ≡ route_model)
    × (ask_opus.received ≡ named opus)
    × (g : Grant) × (source : Source) × Any
        (IsBackedBy keep_text store_of_alice.tokens store_of_alice.users alice_principal g source)
        (credential_candidates (λ _ _. true) ask_opus.headers)
    × (admits keep_code g.policy claude_only opus ≡ true)
    × IsWithinLimits (some opus_priced) g 1 opus store_of_alice
unfolding policy_gate resolve effects label cut trim_space is_empty routed price_table
    priced_everywhere admit read_windows write_windows decide fle windows_of open_windows
    authenticate covers thinking_base before_last allows matches effective
policy_gate_next_example =
    policy_gate_next keep_code claude_only (λ _ _. true) keep_text (some opus_priced) ask_opus
      store_of_alice after_gate alice_principal opus refl

listing_filter-gate_model_example :
    listing_filter keep_code claude_only (some opus_priced) alice_grant store_of_alice opus
    ≡ not (
        is_denied
          (gate_model keep_code claude_only
            (some opus_priced)
            alice_grant
            alice_principal
            opus
            store_of_alice).0)
listing_filter-gate_model_example =
    listing_filter-gate_model keep_code claude_only (some opus_priced) alice_grant alice_principal
      opus store_of_alice

-- The lower case of a capital of ASCII.
abbrev ascii_lower : ℕ → ℕ
ascii_lower c = if leb 65 c && leb c 90 then c + 32 else c

abbrev codex_rule : Rule
codex_rule = record { provider = codes "codex"; model_pattern = codes "*"; re = none }

compat_name_refused-IsApart_example :
    matches ascii_lower codex_rule
      (policy_provider (compat_provider_key ascii_lower (codes " Acme")))
      (codes "gpt-5")
    ≡ false
unfolding compat_name_refused IsApart
compat_name_refused-IsApart_example =
    (compat_name_refused-IsApart ascii_lower (λ c. ground arith) (λ c h. ground arith)
        (codes " Acme") refl).0
      codex_rule (codes "gpt-5") refl

decode_claude_model_id-reverse_example :
    (decode_claude_model_id (codes "claude-fable-5-dd-6.5-tpg") ≡ codes "gpt-5.6")
    × (decode_claude_model_id (codes "claude-fable-5-dd-6.5-tpg(high)") ≡ codes "gpt-5.6(high)")
decode_claude_model_id-reverse_example =
    decode_claude_model_id-reverse (codes "gpt-5.6") (codes "high") refl refl refl
