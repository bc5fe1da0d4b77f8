-- ===== src/Spend.antt =====
-- Spend limits in force: the service (internal/app/spendlimits/spendlimits.go) over the stores of
-- accounts, settings and windows.
pub mod Windows
pub mod Service
