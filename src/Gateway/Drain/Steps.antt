-- ===== src/Gateway/Drain/Steps.antt =====
-- The drain under any order of requests and shutdowns.
use mathlib.Core.Path.{subst}
use llm_proxy_backend.Prelude.{
  sym, ◌∙◌, inl, inr, Bool-cases, ℕ, ◌-◌, ◌<◌, ◌≡◌, refl, ◌&&◌, Bool, true, false, some, arith,
  ◌==◌,
}
use llm_proxy_backend.Gateway.Drain.{
  RequestDrain, Idle, unset, open_chan, closed, enter, leave, stop, close_idle, is_started,
}

-- A request leaves only after it was let in.
pub data Reaches : RequestDrain → Type 0 where
  start : Reaches (record { in_flight = 0; idle = unset })
  then_enter : (d : RequestDrain) → Reaches d → Reaches (enter d).1
  then_leave : (d d' : RequestDrain) → Reaches d → 0 < d.in_flight → leave d ≡ some d' → Reaches d'
  then_stop : (d d' : RequestDrain) → Reaches d → stop d ≡ some d' → Reaches d'

abbrev pub is_closed : Idle → Bool
is_closed closed = true
is_closed _ = false

-- The channel is closed exactly when the drain has started and no request is in flight.
abbrev pub IsSettled : RequestDrain → Type 0
IsSettled d = is_closed d.idle ≡ (is_started d.idle && (d.in_flight == 0))

enter-IsSettled :
    (n : ℕ) (i : Idle)
    → IsSettled (record { in_flight = n; idle = i })
    → IsSettled (enter (record { in_flight = n; idle = i })).1
unfolding enter
enter-IsSettled n unset h = refl
enter-IsSettled n open_chan h = h
enter-IsSettled n closed h = h

leave-IsSettled :
    (n : ℕ) (i : Idle)
    → IsSettled (record { in_flight = n; idle = i })
    → 0 < n
    → (d : RequestDrain) × (leave (record { in_flight = n; idle = i }) ≡ some d) × IsSettled d
unfolding leave close_idle
leave-IsSettled n unset h p = (record { in_flight = n - 1; idle = unset }, ground arith, refl)
leave-IsSettled n open_chan h p = elim (Bool-cases (n - 1 == 0)) [
  | inl e ↦ (record { in_flight = n - 1; idle = closed }, ground arith, ground arith)
  | inr e ↦ (record { in_flight = n - 1; idle = open_chan }, ground arith, ground arith)
]
leave-IsSettled n closed h p = ground arith

stop-IsSettled :
    (n : ℕ) (i : Idle)
    → IsSettled (record { in_flight = n; idle = i })
    → (d : RequestDrain) × (stop (record { in_flight = n; idle = i }) ≡ some d) × IsSettled d
unfolding stop close_idle
stop-IsSettled n unset h = elim (Bool-cases (n == 0)) [
  | inl e ↦ (record { in_flight = n; idle = closed }, ground arith, ground arith)
  | inr e ↦ (record { in_flight = n; idle = open_chan }, ground arith, ground arith)
]
stop-IsSettled n open_chan h = (record { in_flight = n; idle = open_chan }, refl, h)
stop-IsSettled n closed h = (record { in_flight = n; idle = closed }, refl, h)

some_inj : {d e : RequestDrain} → some d ≡ some e → d ≡ e
some_inj h = ground arith

Reaches-IsSettled : (d : RequestDrain) → Reaches d → IsSettled d
Reaches-IsSettled _ start = refl
Reaches-IsSettled _ (then_enter d r) = enter-IsSettled d.in_flight d.idle (Reaches-IsSettled d r)
Reaches-IsSettled _ (then_leave d d' r p h) =
    let (e, same, settled) = leave-IsSettled d.in_flight d.idle (Reaches-IsSettled d r) p in
    subst IsSettled (some_inj (sym same ∙ h)) settled
Reaches-IsSettled _ (then_stop d d' r h) =
    let (e, same, settled) = stop-IsSettled d.in_flight d.idle (Reaches-IsSettled d r) in
    subst IsSettled (some_inj (sym same ∙ h)) settled

-- In every order of requests coming and going and of shutdowns starting, the channel that a shutdown
-- waits on is closed exactly when the drain has started and no request is in flight; and one more
-- shutdown never closes it a second time, which would panic.
pub drain_settles :
    (d : RequestDrain)
    → Reaches d
    → IsSettled d × ((d' : RequestDrain) × (stop d ≡ some d') × IsSettled d')
drain_settles d r =
    let settled = Reaches-IsSettled d r in (settled, stop-IsSettled d.in_flight d.idle settled)

-- In every such order, a request in flight that leaves never closes the channel a second time, and
-- closes it if it is the last one and the drain has started.
pub drain-leave :
    (d : RequestDrain)
    → Reaches d
    → 0 < d.in_flight
    → (d' : RequestDrain) × (leave d ≡ some d') × IsSettled d'
drain-leave d r p = leave-IsSettled d.in_flight d.idle (Reaches-IsSettled d r) p
