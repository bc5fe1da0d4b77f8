-- ===== src/Usage/Cost.antt =====
-- `UsageCost` and `PriceUsage` (internal/app/usage_cost.go). The arithmetic of float64 is a parameter.
use llm_proxy_backend.Prelude.{ℕ, Bool, true, false, ◌||◌, Option, none, some, ◌==◌, if◌then◌else◌}
use llm_proxy_backend.Prelude.Float.{Float64, plus}
use llm_proxy_backend.Pricing.{ModelPrice}
use llm_proxy_backend.Usage.Int64.{add64, sub64, positive}
use llm_proxy_backend.Usage.Detail.{Tokens}

-- float64(n), and the operations.
pub record FloatArith : Type 0 where
  pub of_int : ℕ → Float64
  pub add : Float64 → Float64 → Float64
  pub sub : Float64 → Float64 → Float64
  pub mul : Float64 → Float64 → Float64
  pub div : Float64 → Float64 → Float64
  pub million : Float64

pub record UsageCost : Type 0 where
  pub input_usd : Float64
  pub output_usd : Float64
  pub cache_read_usd : Float64
  pub cache_write_usd : Float64
  pub cache_savings_usd : Float64
  pub unpriced_tokens : ℕ
  pub priced : Bool

-- `== 0` of a float64.
abbrev pub is_zero : Float64 → Bool
is_zero (plus n) = n == 0
is_zero _ = false

abbrev pub unpriced_cost : ℕ → UsageCost
unpriced_cost n = record {
  input_usd = plus 0;
  output_usd = plus 0;
  cache_read_usd = plus 0;
  cache_write_usd = plus 0;
  cache_savings_usd = plus 0;
  unpriced_tokens = n;
  priced = false;
}

-- `in`, `out`, `cacheRead` and `cacheWrite`.
pub record Priced : Type 0 where
  pub input : ℕ
  pub output : ℕ
  pub cache_read : ℕ
  pub cache_write : ℕ

unfoldable pub kinds_of : Tokens → Priced
kinds_of t = record {
  input = positive t.tokens_input;
  output = add64 (positive t.tokens_output) (positive t.tokens_reasoning);
  cache_read = positive t.tokens_cache_read;
  cache_write = positive t.tokens_cache_write;
}

unfoldable pub classified : Priced → ℕ
classified k = add64 (add64 (add64 k.input k.output) k.cache_read) k.cache_write

unfoldable pub unclassified_count : Tokens → Priced → ℕ
unfolding classified
unclassified_count t k = positive (sub64 (positive t.tokens_total) (classified k))

module _ (fl : FloatArith) where
  unfoldable pub total_usd : UsageCost → Float64
  total_usd c = fl.add (fl.add (fl.add c.input_usd c.output_usd) c.cache_read_usd) c.cache_write_usd

  unfoldable pub add_cost : UsageCost → UsageCost → UsageCost
  add_cost c other = record {
    input_usd = fl.add c.input_usd other.input_usd;
    output_usd = fl.add c.output_usd other.output_usd;
    cache_read_usd = fl.add c.cache_read_usd other.cache_read_usd;
    cache_write_usd = fl.add c.cache_write_usd other.cache_write_usd;
    cache_savings_usd = fl.add c.cache_savings_usd other.cache_savings_usd;
    unpriced_tokens = add64 c.unpriced_tokens other.unpriced_tokens;
    priced = c.priced || other.priced;
  }

  unfoldable pub cost_at : ModelPrice → Priced → ℕ → UsageCost
  cost_at price k unclassified =
      let write_rate = if is_zero price.cache_write then price.input else price.cache_write in
      record {
        input_usd = fl.div (fl.mul (fl.of_int k.input) price.input) fl.million;
        output_usd = fl.div (fl.mul (fl.of_int k.output) price.output) fl.million;
        cache_read_usd = fl.div (fl.mul (fl.of_int k.cache_read) price.cache_read) fl.million;
        cache_write_usd = fl.div (fl.mul (fl.of_int k.cache_write) write_rate) fl.million;
        cache_savings_usd =
            fl.div
              (fl.sub (fl.mul (fl.of_int k.cache_read) (fl.sub price.input price.cache_read))
                (fl.mul (fl.of_int k.cache_write) (fl.sub write_rate price.input)))
              fl.million;
        unpriced_tokens = unclassified;
        priced = true;
      }

  -- `none` is a model without a price.
  unfoldable pub price_usage : Tokens → Option ModelPrice → UsageCost
  unfolding kinds_of classified unclassified_count cost_at
  price_usage t none =
      let k = kinds_of t in unpriced_cost (add64 (unclassified_count t k) (classified k))
  price_usage t (some price) =
      let k = kinds_of t in
      if classified k == 0
      then unpriced_cost (unclassified_count t k)
      else cost_at price k (unclassified_count t k)
