-- ===== src/Usage/Row.antt =====
-- `UsageEvent`, a row of the ledger (internal/app/ports.go), and `completedAt`
-- (internal/infra/gateway/usage/sink.go).
use llm_proxy_backend.Prelude.{ℕ, ◌+◌, ◌*◌, Bool}
use llm_proxy_backend.Prelude.Text.{Text}
use llm_proxy_backend.Usage.Detail.{Tokens}
use llm_proxy_backend.Usage.Cost.{UsageCost}

-- The token counts and their quality are together in `tokens`.
pub record UsageEvent : Type 0 where
  pub at : ℕ
  pub user_id : ℕ
  pub token_id : ℕ
  pub provider : Text
  pub model : Text
  pub alias : Text
  pub stream : Bool
  pub service_tier : Text
  pub tokens : Tokens
  pub latency_ms : ℕ
  pub ttft_ms : ℕ
  pub status_code : ℕ
  pub failed : Bool
  pub vendor_account_id : Text
  pub cost : UsageCost

unfoldable pub completed_at : UsageEvent → ℕ
completed_at ev = ev.at + ev.latency_ms * 1000000
