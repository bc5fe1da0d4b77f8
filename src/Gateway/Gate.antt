-- ===== src/Gateway/Gate.antt =====
-- `policyGate` (internal/infra/gateway/policy_gate.go), as the decision it takes on one request: what
-- it answers, or that it lets the request go on. How the body is received and which model it names
-- (requestedModel, behind the body budget) is given as `received`.
pub mod Passes
pub mod Listing
use llm_proxy_backend.Prelude.{
  ℕ, Bool, true, false, ◌&&◌, not, Option, none, some, List, [], if◌then◌else◌,
}
use llm_proxy_backend.Prelude.Text.{Text}
use llm_proxy_backend.Access.Policy.{Catalog, is_empty, routed, covers, admits}
use llm_proxy_backend.Limits.Rules.{RuleSet, effective}
use llm_proxy_backend.Limits.Decide.{Decision}
use llm_proxy_backend.Store.{Store, Error, Result, ok, err}
use llm_proxy_backend.Tokens.Resolver.{Principal, Grant}
use llm_proxy_backend.Spend.Service.{admit}
use llm_proxy_backend.Pricing.{PriceLookup, PricingCatalog, priced_everywhere}
use llm_proxy_backend.Gateway.Credentials.{
  Headers, AuthError, Authentication, admitted, rejected, authenticate,
}

pub data RouteKind : Type 0 where
  route_denied route_public route_listing route_model : RouteKind

-- The model the body names, or the status the gate answers where the body is refused.
pub data Received : Type 0 where
  named : Text → Received
  unreceived : ℕ → Received

pub record Request : Type 0 where
  pub kind : RouteKind
  -- A Content-Encoding other than identity, and whether the route's handler decodes one.
  pub encoded : Bool
  pub decodes : Bool
  pub headers : Headers
  pub received : Received

pub record SpendCheck : Type 0 where
  pub prices : PriceLookup
  pub catalog : PricingCatalog

-- The reasons of a 403. The source's other two, of a route and of a spend limit, are the answers
-- `not_found` and `spend_limit`.
pub data DenyReason : Type 0 where
  model_not_allowed unknown_model unpriced_model : DenyReason

-- 404, 415, the authentication's error, the body's status, 403, 500 and 429; or the request goes on,
-- for a listing with the models its response keeps.
pub data Answer : Type 0 where
  not_found unsupported_encoding : Answer
  unauthenticated : AuthError → Answer
  body_refused : ℕ → Answer
  denied : DenyReason → Answer
  limits_unavailable : Answer
  spend_limit : Decision → Answer
  public_next : Answer
  listing : (Text → Bool) → Answer
  next : Principal → Text → Answer

-- The set in force for an owner; empty where limits are not enforced (`spendCheck.effective`, and
-- `Service.Effective` behind it).
unfoldable pub limits_of : Option SpendCheck → Grant → Store → RuleSet
limits_of none grant s = []
limits_of (some _) grant s = effective grant.spend_limits s.defaults

-- What `Admit` answered.
unfoldable pub after_admit : Principal → Text → Result Decision × Store → Answer × Store
after_admit principal requested (ok d, s) =
    if not d.blocked then (next principal requested, s) else (spend_limit d, s)
after_admit principal requested (err _, s) = (limits_unavailable, s)

unfoldable pub admit_spend : Option SpendCheck → Grant → Principal → Text → Store → Answer × Store
unfolding limits_of after_admit
admit_spend none grant principal requested s = (next principal requested, s)
admit_spend (some spend) grant principal requested s =
    if is_empty (limits_of (some spend) grant s)
    then (next principal requested, s)
    else if not (priced_everywhere spend.catalog spend.prices requested)
    then (denied unpriced_model, s)
    else after_admit principal requested
        (admit principal.user_id (limits_of (some spend) grant s) s)

module _ (lower : ℕ → ℕ) (catalog : Catalog) where
  unfoldable pub listing_filter : Option SpendCheck → Grant → Store → Text → Bool
  unfolding limits_of
  listing_filter none grant s model = admits lower grant.policy catalog model
  listing_filter (some spend) grant s model =
      if is_empty (limits_of (some spend) grant s)
      then admits lower grant.policy catalog model
      else admits lower grant.policy catalog model
        && priced_everywhere spend.catalog spend.prices model

  unfoldable pub gate_model : Option SpendCheck → Grant → Principal → Text → Store → Answer × Store
  unfolding admit_spend
  gate_model spend grant principal requested s =
      let (model, providers) = routed catalog requested in
      if not (covers lower grant.policy model providers)
      then (denied (if is_empty providers then unknown_model else model_not_allowed), s)
      else admit_spend spend grant principal requested s

  -- What follows the authentication, on a listing and on a model route.
  unfoldable pub gate_listing : Option SpendCheck → Authentication × Store → Answer × Store
  unfolding listing_filter
  gate_listing spend (rejected e, s) = (unauthenticated e, s)
  gate_listing spend (admitted principal grant _, s) = (listing (listing_filter spend grant s), s)

  unfoldable pub gate_received :
      Option SpendCheck → Received → Authentication × Store → Answer × Store
  unfolding gate_model
  gate_received spend received (rejected e, s) = (unauthenticated e, s)
  gate_received spend (unreceived status) (admitted principal grant _, s) = (body_refused status, s)
  gate_received spend (named requested) (admitted principal grant _, s) =
      gate_model spend grant principal requested s

  module _ (equal_fold : Text → Text → Bool) (hash_secret : Text → Text) where
    unfoldable pub policy_gate : Option SpendCheck → Request → Store → Answer × Store
    unfolding gate_listing gate_received
    policy_gate spend r s = elim r.kind [
      | route_denied ↦ (not_found, s)
      | route_public ↦ if r.encoded then (unsupported_encoding, s) else (public_next, s)
      | route_listing ↦
          if r.encoded
          then (unsupported_encoding, s)
          else gate_listing spend (authenticate equal_fold hash_secret r.headers s)
      | route_model ↦
          if r.encoded && not r.decodes
          then (unsupported_encoding, s)
          else gate_received spend r.received (authenticate equal_fold hash_secret r.headers s)
    ]
