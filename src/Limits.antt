-- ===== src/Limits.antt =====
-- internal/domain/limits/limits.go: what an account may spend per window, when a window opens and
-- ends, and whether one more request is admitted. A time.Duration is a number of nanoseconds, and a
-- time.Time the number of them since the zero time.
pub mod Rules
pub mod Decide
pub mod States
