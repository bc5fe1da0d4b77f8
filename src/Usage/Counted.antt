-- ===== src/Usage/Counted.antt =====
-- Every token of a record is counted once.
use mathlib.Core.Path.{subst}
use llm_proxy_backend.Prelude.{
  ℕ, ◌+◌, ◌<◌, ◌≡◌, inl, inr, Bool, true, false, ◌&&◌, ◌||◌, Option, arith, Bool-cases,
  if◌then◌else◌, sym, ◌⊎◌, refl, not,
}
use llm_proxy_backend.Prelude.Text.{Text}
use llm_proxy_backend.Pricing.{ModelPrice}
use llm_proxy_backend.Usage.Int64.{
  two63, modest, add64, sub64, lt64, max64, positive, add64-small, sub64-small, lt64-small,
}
use llm_proxy_backend.Usage.Detail.{
  Detail, Quality, Tokens, Semantics, Counts, counts_of, unclassified_tokens, classified_tokens,
  taken_out, sum_of, against_total, is_inconsistent, partition_counts, partition_detail,
  detail_semantics, reconstructed, unclassified, inconsistent,
}
use llm_proxy_backend.Usage.Cost.{FloatArith, price_usage}
use llm_proxy_backend.Usage.Total.{kinds_sum, IsPartition, price_usage-counted}

-- Counts of which no sum overflows.
abbrev IsModest : Counts → Type 0
IsModest c =
    (c.input < modest)
    × (c.output < modest)
    × (c.reasoning < modest)
    × (c.cache_read < modest)
    × (c.cache_write < modest)
    × (c.cached < modest)
    × (c.total < modest)

sum_of-exact :
    (c : Counts)
    → IsModest c
    → sum_of c ≡ c.input + c.output + c.reasoning + c.cache_read + c.cache_write
unfolding sum_of add64
sum_of-exact c (i, o, r, cr, cw, _, _) = omega (arith, i, o, r, cr, cw)

max64-modest : (a b n : ℕ) → a < n → b < n → max64 a b < n
unfolding max64
max64-modest a b n h k = ground (arith, h, k)

unclassified-IsPartition :
    (q : Quality) (c : Counts) → IsModest c → IsPartition (unclassified_tokens q c)
unfolding unclassified_tokens
unclassified-IsPartition q c (i, o, r, cr, cw, l, t) =
    let cache = add64-small c.cache_read c.cache_write (omega (arith, cr)) (omega (arith, cw)) in
    let a =
      max64-modest c.input (add64 c.cache_read c.cache_write) (modest + modest) (omega (arith, i))
        (omega (arith, cache, cr, cw)) in
    let b =
      max64-modest (max64 c.input (add64 c.cache_read c.cache_write)) c.cached (modest + modest) a
        (omega (arith, l)) in
    let d = max64-modest c.output c.reasoning modest o r in
    let e =
      add64-small (max64 (max64 c.input (add64 c.cache_read c.cache_write)) c.cached)
        (max64 c.output c.reasoning) (omega (arith, b)) (omega (arith, d)) in
    ground (arith, e, b, d, t)

against_total-IsPartition : (c : Counts) → IsModest c → IsPartition (against_total c)
unfolding against_total classified_tokens
against_total-IsPartition c (i, o, r, cr, cw, l, t) =
    let m : IsModest c = (i, o, r, cr, cw, l, t) in
    let sum = sum_of-exact c m in
    let bound : sum_of c < two63 = omega (arith, sum, i, o, r, cr, cw) in
    let less = lt64-small c.total (sum_of c) (omega (arith, t)) bound in
    let (part, whole) = unclassified-IsPartition Quality.inconsistent c m in
    ground (arith, sum, bound, less, t, part, whole)

reduced :
    (b : Bool) (x y : ℕ)
    → x < modest
    → y < two63
    → (b && lt64 x y) ≡ false
    → (if b then sub64 x y else x) < modest
reduced false x y h k e = h
reduced true x y h k e =
    let less = lt64-small x y (omega (arith, h)) k in
    ground (arith, h, less, sub64-small x y (omega (arith, h)))

both-false : (a b : Bool) → (a || b) ≡ false → (a ≡ false) × (b ≡ false)
both-false a b h = ground arith

taken_out-IsModest :
    (sem : Semantics) (c : Counts)
    → IsModest c
    → is_inconsistent sem c ≡ false
    → IsModest (taken_out sem c)
unfolding taken_out is_inconsistent
taken_out-IsModest sem c (i, o, r, cr, cw, l, t) consistent =
    let cache = add64-small c.cache_read c.cache_write (omega (arith, cr)) (omega (arith, cw)) in
    let (input, output) = both-false _ _ consistent in
    (
      reduced sem.cache_in_input c.input (add64 c.cache_read c.cache_write) i
          (omega (arith, cache, cr, cw)) input,
      reduced sem.reasoning_in_output c.output c.reasoning o (omega (arith, r)) output,
      r,
      cr,
      cw,
      l,
      t,
    )

partition_counts-IsPartition :
    (sem : Semantics) (c : Counts) → IsModest c → IsPartition (partition_counts sem c)
unfolding partition_counts
partition_counts-IsPartition sem c m = elim (Bool-cases (is_inconsistent sem c)) [
  | inl e ↦
      let u = unclassified-IsPartition Quality.unclassified c m in
      let v = unclassified-IsPartition Quality.inconsistent c m in ground (arith, e, u, v)
  | inr e ↦
      let u = unclassified-IsPartition Quality.unclassified c m in
      let v = against_total-IsPartition (taken_out sem c) (taken_out-IsModest sem c m e) in
      ground (arith, e, u, v)
]

-- No count of the raw detail is 2 ^ 60 or more; a negative one counts as zero.
abbrev pub HasModestCounts : Detail → Type 0
HasModestCounts d =
    (positive d.input_tokens < modest)
    × (positive d.output_tokens < modest)
    × (positive d.reasoning_tokens < modest)
    × (positive d.cache_read_tokens < modest)
    × (positive d.cache_creation_tokens < modest)
    × (positive d.cached_tokens < modest)
    × (positive d.total_tokens < modest)

counts_of-IsModest : (d : Detail) → HasModestCounts d → IsModest (counts_of d)
unfolding counts_of
counts_of-IsModest d (i, o, r, cr, cw, l, t) = (i, o, r, ground (arith, cr, l), cw, l, t)

abbrev is_reconstructed : Quality → Bool
is_reconstructed reconstructed = true
is_reconstructed _ = false

-- The raw input and output counts are those kinds again, with what the vendor counts into them.
abbrev pub Restores : Semantics → Counts → Tokens → Type 0
Restores sem c t =
    (is_reconstructed t.breakdown_quality ≡ false)
    ⊎ ((t.tokens_input
            + (if sem.cache_in_input then t.tokens_cache_read + t.tokens_cache_write else 0)
          ≡ c.input)
        × (t.tokens_output + (if sem.reasoning_in_output then t.tokens_reasoning else 0)
            ≡ c.output))

restored :
    (b : Bool) (x y : ℕ)
    → x < modest
    → y < two63
    → (b && lt64 x y) ≡ false
    → (if b then sub64 x y else x) + (if b then y else 0) ≡ x
restored false x y h k e = omega arith
restored true x y h k e =
    let less = lt64-small x y (omega (arith, h)) k in
    ground (arith, less, sub64-small x y (omega (arith, h)))

against_total-kinds :
    (c : Counts)
    → (is_reconstructed (against_total c).breakdown_quality ≡ false)
      ⊎ ((against_total c) ≡ classified_tokens c (against_total c).tokens_total)
unfolding against_total classified_tokens unclassified_tokens
against_total-kinds c = ground arith

taken_out-Restores :
    (sem : Semantics) (c : Counts) (n : ℕ)
    → IsModest c
    → is_inconsistent sem c ≡ false
    → Restores sem c (classified_tokens (taken_out sem c) n)
unfolding taken_out is_inconsistent classified_tokens
taken_out-Restores sem c n (i, o, r, cr, cw, l, t) consistent =
    let cache = add64-small c.cache_read c.cache_write (omega (arith, cr)) (omega (arith, cw)) in
    let (input, output) = both-false _ _ consistent in
    let back =
      restored sem.cache_in_input c.input (add64 c.cache_read c.cache_write) i
        (omega (arith, cache, cr, cw)) input in
    inr (
      subst
          (λ k.
            (if sem.cache_in_input
                then sub64 c.input (add64 c.cache_read c.cache_write)
                else c.input)
              + (if sem.cache_in_input then k else 0)
            ≡ c.input)
          cache back,
      restored sem.reasoning_in_output c.output c.reasoning o (omega (arith, r)) output,
    )

partition_counts-Restores :
    (sem : Semantics) (c : Counts) → IsModest c → Restores sem c (partition_counts sem c)
unfolding partition_counts unclassified_tokens
partition_counts-Restores sem c m = judged sem.known (is_inconsistent sem c) refl
  where
    judged :
        (known e : Bool)
        → is_inconsistent sem c ≡ e
        → Restores sem c (
            if not known
            then unclassified_tokens unclassified c
            else if e
            then unclassified_tokens inconsistent c
            else against_total (taken_out sem c))
    judged false e h = inl refl
    judged true true h = inl refl
    judged true false h = elim (against_total-kinds (taken_out sem c)) [
      | inl other ↦ inl other
      | inr same ↦
          subst (Restores sem c) (sym same)
            (taken_out-Restores sem c (against_total (taken_out sem c)).tokens_total m h)
    ]

-- For a raw detail none of whose counts is 2 ^ 60 or more, the kinds together are at most the total, which
-- int64 holds; if they are reconstructed, the raw input and output counts are the kinds again, with the
-- cache and the reasoning where the vendor counts them in; and the tokens that a price applies to, if one
-- does, and those it does not are together the total.
pub partition_detail-counted :
    (fl : FloatArith) (lower : ℕ → ℕ) (provider_key : Text) (d : Detail) (price : Option ModelPrice)
    → HasModestCounts d
    → IsPartition (partition_detail lower provider_key d)
      × Restores
          (detail_semantics lower provider_key)
          (counts_of d)
          (partition_detail lower provider_key d)
      × ((price_usage fl (partition_detail lower provider_key d) price).unpriced_tokens
            + (if (price_usage fl (partition_detail lower provider_key d) price).priced
                then kinds_sum (partition_detail lower provider_key d)
                else 0)
          ≡ (partition_detail lower provider_key d).tokens_total)
unfolding partition_detail
partition_detail-counted fl lower provider_key d price h =
    let sem = detail_semantics lower provider_key in
    let c = counts_of d in
    let m = counts_of-IsModest d h in
    let part = partition_counts-IsPartition sem c m in
    (
      part,
      partition_counts-Restores sem c m,
      price_usage-counted fl (partition_counts sem c) price part,
    )
