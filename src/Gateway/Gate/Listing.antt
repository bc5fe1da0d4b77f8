-- ===== src/Gateway/Gate/Listing.antt =====
-- A listing and the gate agree on what an account may use.
use llm_proxy_backend.Prelude.{ℕ, ◌≡◌, refl, not, Bool, true, false, Option, none, some, arith}
use llm_proxy_backend.Prelude.Text.{Text}
use llm_proxy_backend.Access.Policy.{Catalog, admits}
use llm_proxy_backend.Limits.Rules.{effective}
use llm_proxy_backend.Limits.Decide.{Decision}
use llm_proxy_backend.Store.{Store, Result, ok, err}
use llm_proxy_backend.Tokens.Resolver.{Principal, Grant}
use llm_proxy_backend.Spend.Service.{admit}
use llm_proxy_backend.Gateway.Gate.{
  SpendCheck, Answer, denied, limits_of, after_admit, admit_spend, listing_filter, gate_model,
}

-- Whether an answer denies the model itself, not the moment.
unfoldable pub is_denied : Answer → Bool
is_denied (denied _) = true
is_denied _ = false

after_admit-is_denied :
    (p : Principal) (a : Text) (x : Result Decision × Store)
    → is_denied (after_admit p a x).0 ≡ false
unfolding is_denied after_admit
after_admit-is_denied p a (ok d, s) = ground arith
after_admit-is_denied p a (err e, s) = refl

-- A listing leaves out exactly the models that the gate, at the same moment, would answer with a
-- denial of the model: not allowed, unknown, or without a price.
pub listing_filter-gate_model :
    (lower : ℕ → ℕ) (catalog : Catalog) (spend : Option SpendCheck) (g : Grant) (p : Principal)
    (model : Text) (s : Store)
    → listing_filter lower catalog spend g s model
      ≡ not (is_denied (gate_model lower catalog spend g p model s).0)
unfolding listing_filter gate_model admit_spend limits_of is_denied admits
listing_filter-gate_model lower catalog none g p model s = ground arith
listing_filter-gate_model lower catalog (some c) g p model s =
    let rest =
      after_admit-is_denied p model (admit p.user_id (effective g.spend_limits s.defaults) s) in
    ground arith
