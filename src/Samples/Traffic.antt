-- ===== src/Samples/Traffic.antt =====
-- Requests in flight.
use llm_proxy_backend.Prelude.{◌≡◌, refl, some, [], ◌∷◌, arith}
use llm_proxy_backend.Gateway.Budget.{new_body_charge, grow_share, granted, put_held}
use llm_proxy_backend.Gateway.Budget.Steps.{
  State, arrive, share, grant, Reaches, start, then_step, initial, IsAccounted, Reaches-IsAccounted,
}
use llm_proxy_backend.Gateway.Drain.{RequestDrain, unset, open_chan, stop, enter}
use llm_proxy_backend.Gateway.Drain.Steps.{
  Reaches as DrainReaches, start as drain_start, then_enter, then_stop, IsSettled, drain_settles,
}

-- Owner 1's request counts 16 of 400 bytes, and is granted them.
abbrev waiting : State
waiting = record {
  charges = record { n = 0; pending = 16; owner = 1; share = 100 } ∷ [];
  held = put_held 1 16 (λ _. 0);
  used = 0;
}

abbrev holding : State
holding = record {
  charges = record { n = 16; pending = 0; owner = 1; share = 100 } ∷ [];
  held = put_held 1 16 (λ _. 0);
  used = 16;
}

arrives-Reaches : Reaches 400 (record {
  charges = record { n = 0; pending = 0; owner = 1; share = 100 } ∷ [];
  held = λ _. 0;
  used = 0;
})
unfolding new_body_charge
arrives-Reaches = then_step initial _ start (arrive 1 50 [] (λ _. 0) 0)

waiting-Reaches : Reaches 400 waiting
unfolding grow_share
waiting-Reaches =
    then_step _ waiting arrives-Reaches (
      share [] [] (record { n = 0; pending = 0; owner = 1; share = 100 }) 16 (λ _. 0) _ 0 refl refl)

holding-Reaches : Reaches 400 holding
unfolding granted
holding-Reaches = then_step waiting holding waiting-Reaches (
    grant [] [] (record { n = 0; pending = 16; owner = 1; share = 100 }) (put_held 1 16 (λ _. 0)) 0
      (omega arith))

Reaches-IsAccounted_example : IsAccounted 400 holding
Reaches-IsAccounted_example = Reaches-IsAccounted 400 holding holding-Reaches

-- A request is in flight when a shutdown starts.
abbrev draining : RequestDrain
draining = record { in_flight = 1; idle = open_chan }

draining-Reaches : DrainReaches draining
unfolding enter stop
draining-Reaches =
    then_stop (record { in_flight = 1; idle = unset }) draining
      (then_enter (record { in_flight = 0; idle = unset }) drain_start) refl

drain_settles_example :
    IsSettled draining × ((d' : RequestDrain) × (stop draining ≡ some d') × IsSettled d')
drain_settles_example = drain_settles draining draining-Reaches
