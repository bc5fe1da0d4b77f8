-- ===== src/Gateway/Budget.antt =====
-- The budget of request bodies (internal/infra/gateway/body_budget.go): what each request's body is
-- charged, what each owner's charges hold together, and what is taken of the process-wide semaphore.
pub mod Steps
pub mod Buffer
use llm_proxy_backend.Prelude.{
  ℕ, ◌+◌, ◌-◌, ◌*◌, ◌^◌, ◌/◌, max, min, Bool, true, false, Option, none, some, ltb, leb, ◌==◌,
  if◌then◌else◌,
}

-- maxJSONBody and maxMultipartBody (internal/infra/gateway/routes.go).
abbrev pub max_json_body : ℕ
max_json_body = 64 * 2 ^ 20

abbrev pub max_multipart_body : ℕ
max_multipart_body = 256 * 2 ^ 20

abbrev pub max_bodies_in_flight : ℕ
max_bodies_in_flight = 2 * max_multipart_body

-- `pending` is the amount that a `grow` in progress has counted to the owner's share and waits for.
pub record Charge : Type 0 where
  pub n : ℕ
  pub pending : ℕ
  pub owner : ℕ
  pub share : ℕ

-- bodyShares.held: an owner with no entry reads 0.
abbrev pub Held : Type 0
Held = ℕ → ℕ

unfoldable pub put_held : ℕ → ℕ → Held → Held
put_held owner amount held o = if o == owner then amount else held o

unfoldable pub new_body_charge : (budget owner most : ℕ) → Charge
new_body_charge budget owner most = record {
  n = 0;
  pending = 0;
  owner = owner;
  share = max (budget / 4) most;
}

-- The first half of `grow`, under the shares' mutex: `none` is errBodyShare.
unfoldable pub grow_share : Charge → ℕ → Held → Option Held
unfolding put_held
grow_share b amount held =
    if ltb b.share (held b.owner + amount)
    then none
    else some (put_held b.owner (held b.owner + amount) held)

-- The second half, where the semaphore grants the amount.
unfoldable pub granted : Charge → Charge
granted b = record b { n = b.n + b.pending; pending = 0 }

unfoldable pub unshare : Charge → ℕ → Held → Held
unfolding put_held
unshare b n held = put_held b.owner (held b.owner - n) held

-- The second half, where it does not within bodyWait (errBodyBusy).
unfoldable pub refused_charge : Charge → Charge
refused_charge b = record b { pending = 0 }

-- `shrinkTo`: the charge, the shares and what is taken of the semaphore, in one step.
unfoldable pub shrink_to : Charge → ℕ → Held → ℕ → Charge × Held × ℕ
unfolding unshare
shrink_to b keep held used =
    if leb b.n keep
    then (b, held, used)
    else (record b { n = keep }, unshare b (b.n - keep) held, used - (b.n - keep))

unfoldable pub release : Charge → Held → ℕ → Charge × Held × ℕ
unfolding shrink_to
release b held used = shrink_to b 0 held used

-- bodyChargeCeiling (internal/infra/gateway/policy_gate.go).
unfoldable pub body_charge_ceiling : ℕ → Bool → ℕ
body_charge_ceiling limit encoded = if encoded then limit + max_json_body else limit
