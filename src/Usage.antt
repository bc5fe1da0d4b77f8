-- ===== src/Usage.antt =====
-- Usage: the token kinds of a raw record (internal/infra/gateway/usage/sink.go) and their cost at list
-- prices (internal/app/usage_cost.go).
pub mod Int64
pub mod Detail
pub mod Row
pub mod Event
pub mod Priced
pub mod Ledger
pub mod Quota
pub mod Process
pub mod Labels
pub mod Stamps
pub mod Cost
pub mod Total
pub mod Counted
pub mod Worker
