-- ===== src/Usage/Total.antt =====
-- A price counts every token of a total once.
use llm_proxy_backend.Prelude.{ℕ, ◌+◌, ◌-◌, ◌<◌, ◌≤◌, ◌≡◌, Option, none, some, arith, if◌then◌else◌}
use llm_proxy_backend.Pricing.{ModelPrice}
use llm_proxy_backend.Usage.Int64.{two63, add64, positive, add64-small, sub64-small}
use llm_proxy_backend.Usage.Detail.{Tokens}
use llm_proxy_backend.Usage.Cost.{
  FloatArith, kinds_of, classified, unclassified_count, cost_at, price_usage,
}

-- The kinds together, as a number without a bound.
abbrev pub kinds_sum : Tokens → ℕ
kinds_sum t =
    t.tokens_input + t.tokens_output + t.tokens_reasoning + t.tokens_cache_read
    + t.tokens_cache_write

-- The kinds are a part of a total that int64 holds.
abbrev pub IsPartition : Tokens → Type 0
IsPartition t = (kinds_sum t ≤ t.tokens_total) × (t.tokens_total < two63)

positive-small : (a : ℕ) → a < two63 → positive a ≡ a
unfolding positive
positive-small a h = ground arith

added :
    (i o r c w : ℕ)
    → i + o + r + c + w < two63
    → add64 (add64 (add64 i (add64 o r)) c) w ≡ i + o + r + c + w
unfolding add64
added i o r c w h = omega (arith, h)

classified-sum : (t : Tokens) → IsPartition t → classified (kinds_of t) ≡ kinds_sum t
unfolding classified kinds_of
classified-sum t (part, bound) =
    let i = positive-small t.tokens_input (omega (arith, part, bound)) in
    let o = positive-small t.tokens_output (omega (arith, part, bound)) in
    let r = positive-small t.tokens_reasoning (omega (arith, part, bound)) in
    let c = positive-small t.tokens_cache_read (omega (arith, part, bound)) in
    let w = positive-small t.tokens_cache_write (omega (arith, part, bound)) in
    let e =
      added t.tokens_input t.tokens_output t.tokens_reasoning t.tokens_cache_read
        t.tokens_cache_write (omega (arith, part, bound)) in
    ground (arith, i, o, r, c, w, e)

unclassified_count-rest :
    (t : Tokens) → IsPartition t → unclassified_count t (kinds_of t) ≡ t.tokens_total - kinds_sum t
unfolding unclassified_count
unclassified_count-rest t (part, bound) =
    let whole = positive-small t.tokens_total bound in
    let sum = classified-sum t (part, bound) in
    let rest = sub64-small t.tokens_total (kinds_sum t) bound (ground (arith, part)) in
    let small = positive-small (t.tokens_total - kinds_sum t) (omega (arith, bound)) in
    ground (arith, whole, sum, rest, small)

-- The tokens that have a price and those that do not are together the total.
pub price_usage-counted :
    (fl : FloatArith) (t : Tokens) (price : Option ModelPrice)
    → IsPartition t
    → (price_usage fl t price).unpriced_tokens
        + (if (price_usage fl t price).priced then kinds_sum t else 0)
      ≡ t.tokens_total
unfolding price_usage cost_at
price_usage-counted fl t none (part, bound) =
    let sum = classified-sum t (part, bound) in
    let rest = unclassified_count-rest t (part, bound) in
    let all =
      add64-small (t.tokens_total - kinds_sum t) (kinds_sum t) (omega (arith, bound))
        (omega (arith, part, bound)) in
    ground (arith, sum, rest, part)
price_usage-counted fl t (some price) (part, bound) =
    let sum = classified-sum t (part, bound) in
    let rest = unclassified_count-rest t (part, bound) in ground (arith, sum, rest, part)
