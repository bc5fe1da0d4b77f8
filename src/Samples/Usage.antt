-- ===== src/Samples/Usage.antt =====
-- A usage record, a principal's text and a request's body at work.
use llm_proxy_backend.Prelude.{
  ℕ, zero, suc, ◌+◌, ◌-◌, ◌<◌, ◌≤◌, ◌≡◌, ◌↔◌, Bool, false, Option, some, none, [], ◌∷◌, leb, ◌==◌,
  length, arith, if◌then◌else◌,
}
use llm_proxy_backend.Prelude.Text.{Text, codes, any_is}
use llm_proxy_backend.Prelude.Float.{Float64, plus}
use llm_proxy_backend.Tokens.Resolver.{Principal}
use llm_proxy_backend.Tokens.Principal.{print_principal, parse_principal, parse_principal_iff}
use llm_proxy_backend.Usage.Detail.{Detail, counts_of, detail_semantics, partition_detail}
use llm_proxy_backend.Usage.Cost.{FloatArith, price_usage}
use llm_proxy_backend.Usage.Int64.{positive}
use llm_proxy_backend.Usage.Counted.{Restores, partition_detail-counted}
use llm_proxy_backend.Usage.Total.{kinds_sum, IsPartition}
use llm_proxy_backend.Gateway.Budget.Buffer.{going, end_of_file, ReadOut, buffer_body, size_of}
use llm_proxy_backend.Gateway.Budget.Buffer.Ends.{IsEnded, buffer_body-ends}
use llm_proxy_backend.Samples.{keep_code}

-- An id printed as one character beyond the colon.
abbrev print_id : ℕ → Text
print_id id = (id + 100) ∷ []

abbrev parse_id : Text → Option ℕ
parse_id [] = none
parse_id (c ∷ []) = some (c - 100)
parse_id (c ∷ d ∷ s) = none

parse-print : (id : ℕ) → parse_id (print_id id) ≡ some id
parse-print id = ground arith

no_colon : (id : ℕ) → any_is b':' (print_id id) ≡ false
no_colon id = ground arith

abbrev principal : Principal
principal = record { user_id = 1; token_id = 7; owner = [] }

parse_principal_iff_example :
    (parse_principal print_id parse_id (101 ∷ b':' ∷ 107 ∷ []) ≡ some principal) ↔ (
      (print_principal print_id parse_id principal ≡ 101 ∷ b':' ∷ 107 ∷ [])
      × ((principal.user_id == 0) ≡ false)
      × ((principal.token_id == 0) ≡ false)
      × (principal.owner ≡ []))
parse_principal_iff_example =
    parse_principal_iff print_id parse_id parse-print no_colon (101 ∷ b':' ∷ 107 ∷ []) principal

-- Codex counts 10 cached of 100 input tokens, and 5 reasoning of 50 output tokens.
abbrev codex_detail : Detail
codex_detail = record {
  input_tokens = 100;
  output_tokens = 50;
  reasoning_tokens = 5;
  cache_read_tokens = 10;
  cache_creation_tokens = 0;
  cached_tokens = 10;
  total_tokens = 150;
}

abbrev left_one : Float64 → Float64 → Float64
left_one a b = a

abbrev rough : FloatArith
rough = record {
  of_int = plus;
  add = left_one;
  sub = left_one;
  mul = left_one;
  div = left_one;
  million = plus 1;
}

partition_detail-counted_example :
    IsPartition (partition_detail keep_code (codes "codex") codex_detail)
    × Restores
        (detail_semantics keep_code (codes "codex"))
        (counts_of codex_detail)
        (partition_detail keep_code (codes "codex") codex_detail)
    × ((price_usage rough
            (partition_detail keep_code (codes "codex") codex_detail)
            none).unpriced_tokens
          + (if (price_usage rough
                (partition_detail keep_code (codes "codex") codex_detail)
                none).priced
              then kinds_sum (partition_detail keep_code (codes "codex") codex_detail)
              else 0)
        ≡ (partition_detail keep_code (codes "codex") codex_detail).tokens_total)
unfolding positive
partition_detail-counted_example =
    partition_detail-counted rough keep_code (codes "codex") codex_detail none
      (omega arith, omega arith, omega arith, omega arith, omega arith, omega arith, omega arith)

-- A body of so many bytes, which come one by one.
abbrev read_one : ℕ → ℕ → ReadOut ℕ
read_one zero n = record { bytes = []; error = end_of_file; rest = 0 }
read_one (suc left) zero = record { bytes = []; error = going; rest = suc left }
read_one (suc left) (suc n) = record { bytes = 1 ∷ []; error = going; rest = left }

read_one-progress : (s n : ℕ) → 0 < n → (read_one s n).error ≡ going → (read_one s n).rest < s
read_one-progress zero n p h = ground arith
read_one-progress (suc left) zero p h = omega arith
read_one-progress (suc left) (suc n) p h = omega arith

read_one-fits : (s n : ℕ) → length (read_one s n).bytes ≤ n
read_one-fits zero n = omega arith
read_one-fits (suc left) zero = omega arith
read_one-fits (suc left) (suc n) = omega arith

abbrev generous : ℕ → Bool
generous n = leb n 1000000

buffer_body-ends_example :
    IsEnded (size_of read_one none 2) (buffer_body read_one generous 6 4 none 2)
buffer_body-ends_example =
    buffer_body-ends read_one (λ left. left) read_one-progress read_one-fits generous 6 4 none 2
      (omega arith)
