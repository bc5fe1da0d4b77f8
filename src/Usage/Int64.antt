-- ===== src/Usage/Int64.antt =====
-- int64 as the word below 2 ^ 64 that holds it, with its wrap-around: the upper half is negative.
use llm_proxy_backend.Prelude.{
  ℕ, ◌+◌, ◌-◌, ◌%◌, ◌<◌, ◌≡◌, ◌∙◌, ap, Bool, true, leb→le, arith, ltb, leb, if◌then◌else◌,
}

abbrev pub two64 : ℕ
two64 = 18_446_744_073_709_551_616

abbrev pub two63 : ℕ
two63 = 9_223_372_036_854_775_808

-- A count that no sum of seven like it overflows.
abbrev pub modest : ℕ
modest = 1_152_921_504_606_846_976

unfoldable pub add64 : ℕ → ℕ → ℕ
add64 a b = (a + b) % two64

unfoldable pub sub64 : ℕ → ℕ → ℕ
sub64 a b = (a + (two64 - b)) % two64

unfoldable pub lt64 : ℕ → ℕ → Bool
lt64 a b = ltb ((a + two63) % two64) ((b + two63) % two64)

unfoldable pub max64 : ℕ → ℕ → ℕ
unfolding lt64
max64 a b = if lt64 a b then b else a

-- max(n, 0).
unfoldable pub positive : ℕ → ℕ
positive n = if leb two63 n then 0 else n

pub add64-small : (a b : ℕ) → a < two63 → b < two63 → add64 a b ≡ a + b
unfolding add64
add64-small a b h k = omega arith

pub sub64-small : (a b : ℕ) → a < two63 → leb b a ≡ true → sub64 a b ≡ a - b
unfolding sub64
sub64-small a b h k = let le = leb→le b a k in omega (arith, le)

shifted : (a : ℕ) → a < two63 → (a + two63) % two64 ≡ a + two63
shifted a h = omega arith

ltb_shift : (a b c : ℕ) → ltb (a + c) (b + c) ≡ ltb a b
ltb_shift a b c = ground arith

pub lt64-small : (a b : ℕ) → a < two63 → b < two63 → lt64 a b ≡ ltb a b
unfolding lt64
lt64-small a b h k =
    ap (λ x. ltb x ((b + two63) % two64)) (shifted a h)
    ∙ ap (ltb (a + two63)) (shifted b k)
    ∙ ltb_shift a b two63
