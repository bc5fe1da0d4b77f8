-- ===== src/Gateway/Drain.antt =====
-- `requestDrain` (internal/infra/gateway/drain.go): each method, under its mutex.
pub mod Steps
use llm_proxy_backend.Prelude.{
  ℕ, suc, ◌-◌, Bool, true, false, ◌&&◌, Option, none, some, ◌==◌, if◌then◌else◌,
}

-- `idle` is nil until the drain starts, and then open or closed.
pub data Idle : Type 0 where
  unset open_chan closed : Idle

pub record RequestDrain : Type 0 where
  pub in_flight : ℕ
  pub idle : Idle

unfoldable pub enter : RequestDrain → Bool × RequestDrain
enter d = elim d.idle [ unset ↦ (true, record d { in_flight = suc d.in_flight }) | _ ↦ (false, d) ]

-- close: of nil or of a closed channel it panics, which is `none`.
unfoldable pub close_idle : RequestDrain → Option RequestDrain
close_idle d = elim d.idle [ open_chan ↦ some (record d { idle = closed }) | _ ↦ none ]

abbrev pub is_started : Idle → Bool
is_started unset = false
is_started _ = true

-- Called once for each `enter` that reported true, so the count is positive.
unfoldable pub leave : RequestDrain → Option RequestDrain
unfolding close_idle
leave d =
    if (d.in_flight - 1 == 0) && is_started d.idle
    then close_idle (record d { in_flight = d.in_flight - 1 })
    else some (record d { in_flight = d.in_flight - 1 })

unfoldable pub stop : RequestDrain → Option RequestDrain
unfolding close_idle
stop d = elim d.idle [
  | unset ↦
      if d.in_flight == 0
      then close_idle (record d { idle = open_chan })
      else some (record d { idle = open_chan })
  | _ ↦ some d
]
