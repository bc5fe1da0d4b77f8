-- ===== src/Gateway/Gate/Passes.antt =====
-- What a request that the gate lets through has shown.
use mathlib.Core.Path.{subst, ap}
use llm_proxy_backend.Prelude.{
  ℕ, suc, ◌≡◌, refl, ◌⊎◌, inl, inr, not, Any, Bool, true, false, Option, none, some, arith,
  if◌then◌else◌,
}
use llm_proxy_backend.Prelude.Text.{Text}
use llm_proxy_backend.Access.Policy.{Catalog, is_empty, admits}
use llm_proxy_backend.Limits.Rules.{effective}
use llm_proxy_backend.Limits.Decide.{Decision, decide}
use llm_proxy_backend.Store.{Store, Result, ok, err}
use llm_proxy_backend.Tokens.Resolver.{Principal, Grant}
use llm_proxy_backend.Spend.Windows.{windows_of}
use llm_proxy_backend.Spend.Service.{admit}
use llm_proxy_backend.Spend.Service.Refusals.{admit_effect}
use llm_proxy_backend.Pricing.{priced_everywhere}
use llm_proxy_backend.Gateway.Credentials.{
  Source, Authentication, admitted, rejected, authenticate, credential_candidates,
}
use llm_proxy_backend.Gateway.Credentials.Sound.{IsBackedBy, authenticate_sound}
use llm_proxy_backend.Gateway.Gate.{
  RouteKind, route_denied, route_public, route_listing, route_model, Received, named, unreceived,
  Request, SpendCheck, next, denied, unpriced_model, limits_of, after_admit, admit_spend,
  gate_model, gate_listing, gate_received, policy_gate,
}

-- The owner's limits, where they are enforced and there are any, have a price for the model on every
-- provider, and did not block at some reading of the clock.
abbrev pub IsWithinLimits : Option SpendCheck → Grant → ℕ → Text → Store → Type 0
IsWithinLimits none g user requested s = Unit
IsWithinLimits (some spend) g user requested s =
    (is_empty (effective g.spend_limits s.defaults) ≡ true)
    ⊎ ((priced_everywhere spend.catalog spend.prices requested ≡ true)
        × (k : ℕ) × ((decide (effective g.spend_limits s.defaults) (windows_of user s.windows)
              (s.clock k)).blocked
            ≡ false))

after_admit_next :
    (p q : Principal) (a b : Text) (x : Result Decision × Store) (s' : Store)
    → after_admit p a x ≡ (next q b, s')
    → (p ≡ q) × (a ≡ b) × (d : Decision) × (x ≡ (ok d, s')) × (d.blocked ≡ false)
unfolding after_admit
after_admit_next p q a b (ok d, s) s' h =
    (ground arith, ground arith, d, ground arith, ground arith)
after_admit_next p q a b (err e, s) s' h = ground arith

admit_spend_next :
    (spend : Option SpendCheck) (g : Grant) (p q : Principal) (a b : Text) (s s' : Store)
    → admit_spend spend g p a s ≡ (next q b, s')
    → (p ≡ q) × (a ≡ b) × IsWithinLimits spend g p.user_id a s
unfolding admit_spend limits_of
admit_spend_next none g p q a b s s' h = ground arith
admit_spend_next (some c) g p q a b s s' h =
    let set = effective g.spend_limits s.defaults in
    split (is_empty set) (priced_everywhere c.catalog c.prices a) h
  where
    split :
        (e r : Bool)
        → (if e
            then (next p a, s)
            else if not r
            then (denied unpriced_model, s)
            else after_admit p a (admit p.user_id (effective g.spend_limits s.defaults) s))
          ≡ (next q b, s')
        → (p ≡ q)
          × (a ≡ b)
          × ((e ≡ true)
              ⊎ ((r ≡ true)
                  × (k : ℕ) × ((decide
                        (effective g.spend_limits s.defaults)
                        (windows_of p.user_id s.windows)
                        (s.clock k)).blocked
                      ≡ false)))
    split true r k = (ground arith, ground arith, inl refl)
    split false false k = ground arith
    split false true k =
        let (x, y, d, m, n) =
          after_admit_next p q a b (admit p.user_id (effective g.spend_limits s.defaults) s) s' k in
        let (u, v) = admit_effect p.user_id (effective g.spend_limits s.defaults) s s' d m in
        (x, y, inr (refl, suc s.calls, subst (λ (d : Decision). d.blocked ≡ false) u n))

module _ (lower : ℕ → ℕ) (catalog : Catalog) where
  gate_model_next :
      (spend : Option SpendCheck) (g : Grant) (p q : Principal) (a b : Text) (s s' : Store)
      → gate_model lower catalog spend g p a s ≡ (next q b, s')
      → (admits lower g.policy catalog a ≡ true) × (admit_spend spend g p a s ≡ (next q b, s'))
  unfolding gate_model admits
  gate_model_next spend g p q a b s s' h = ground arith

  gate_listing_next :
      (spend : Option SpendCheck) (x : Authentication × Store) (q : Principal) (b : Text)
      (s' : Store)
      → gate_listing lower catalog spend x ≡ (next q b, s')
      → ⊥
  unfolding gate_listing
  gate_listing_next spend (rejected e, s) q b s' h = ground arith
  gate_listing_next spend (admitted p g source, s) q b s' h = ground arith

  gate_received_next :
      (spend : Option SpendCheck) (received : Received) (x : Authentication × Store) (q : Principal)
      (b : Text) (s' : Store)
      → gate_received lower catalog spend received x ≡ (next q b, s')
      → (received ≡ named b)
        × (g : Grant) × (source : Source) × (s : Store) × (x ≡ (admitted q g source, s))
        × (admits lower g.policy catalog b ≡ true)
        × IsWithinLimits spend g q.user_id b s
  unfolding gate_received
  gate_received_next spend received (rejected e, s) q b s' h = ground arith
  gate_received_next spend (unreceived status) (admitted p g source, s) q b s' h = ground arith
  gate_received_next spend (named a) (admitted p g source, s) q b s' h =
      let (policy, spent) = gate_model_next spend g p q a b s s' h in
      let (same_p, same_a, within) = admit_spend_next spend g p q a b s s' spent in
      (
        ap named same_a,
        g,
        source,
        s,
        ap (λ p. (admitted p g source, s)) same_p,
        subst (λ a. admits lower g.policy catalog a ≡ true) same_a policy,
        subst (λ a. IsWithinLimits spend g q.user_id a s) same_a
            (subst (λ (p : Principal). IsWithinLimits spend g p.user_id a s) same_p within),
      )

-- The limits are read in the stores as the request met them.
within_before :
    (spend : Option SpendCheck) (g : Grant) (user : ℕ) (b : Text) (s s1 : Store)
    → s1 ≡ record s { calls = s1.calls }
    → IsWithinLimits spend g user b s1
    → IsWithinLimits spend g user b s
within_before none g user b s s1 e h = h
within_before (some c) g user b s s1 e h = subst (IsWithinLimits (some c) g user b) e h

-- The gate lets a request go on with a model only on a model route whose body named that model, if
-- the request presents the secret of a stored live key whose owner may use the API, the owner's policy
-- admits the model, and the owner's spend limits, where they are enforced, are empty or have a
-- price for the model on every provider serving it and do not block at a reading of the clock.
pub policy_gate_next :
    (lower : ℕ → ℕ) (catalog : Catalog) (equal_fold : Text → Text → Bool)
    (hash_secret : Text → Text) (spend : Option SpendCheck) (r : Request) (s s' : Store)
    (p : Principal) (requested : Text)
    → policy_gate lower catalog equal_fold hash_secret spend r s ≡ (next p requested, s')
    → (r.kind ≡ route_model)
      × (r.received ≡ named requested)
      × (g : Grant) × (source : Source) × Any
          (IsBackedBy hash_secret s.tokens s.users p g source)
          (credential_candidates equal_fold r.headers)
      × (admits lower g.policy catalog requested ≡ true)
      × IsWithinLimits spend g p.user_id requested s
unfolding policy_gate
policy_gate_next lower catalog equal_fold hash_secret spend r s s' p requested h =
    let (kind, reached) = routed_here r.kind h in
    let (body, g, source, s1, seen, policy, within) =
      gate_received_next lower catalog spend r.received _ p requested s' reached in
    let (backed, same) = authenticate_sound hash_secret equal_fold r.headers s s1 p g source seen in
    (
      kind,
      body,
      g,
      source,
      backed,
      policy,
      within_before spend g p.user_id requested s s1 same within,
    )
  where
    routed_here :
        (k : RouteKind)
        → policy_gate lower catalog equal_fold hash_secret spend (record r { kind = k }) s
          ≡ (next p requested, s')
        → (k ≡ route_model)
          × (gate_received lower catalog spend r.received
                (authenticate equal_fold hash_secret r.headers s)
              ≡ (next p requested, s'))
    routed_here route_denied h = ground arith
    routed_here route_public h = ground arith
    routed_here route_listing h = ground (
      arith,
      gate_listing_next lower catalog spend (authenticate equal_fold hash_secret r.headers s) p
          requested s',
    )
    routed_here route_model h = ground arith
