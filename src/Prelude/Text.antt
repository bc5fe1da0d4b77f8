-- ===== src/Prelude/Text.antt =====
-- Texts as lists of code points, with the functions of Go's strings package the source calls.
-- unicode.ToLower of one code point is a parameter of the definitions that use it.
use Prim.Native.Nat.{ℕ}
use Prim.Native.Char.{code}
use Prim.Native.String.{String}
use mathlib.Core.Path.{◌≡◌, refl}
use mathlib.Core.Logic.{inl, inr}
use mathlib.Core.Bool.{Bool, true, false, ◌&&◌, ◌||◌}
use mathlib.Core.Option.{Option, none, some}
use mathlib.Core.List.{List, [], ◌∷◌, ◌++◌}
use native.Mathlib.Omega.{arith}
use llm_proxy_backend.Prelude.Tests.{leb, ◌==◌, if◌then◌else◌, Option-cases}

abbrev pub Text : Type 0
Text = List ℕ

abbrev pub codes : String → Text
codes String.[] = []
codes (String.◌∷◌ c s) = code c ∷ codes s

infix 50 ◌=t◌
abbrev pub ◌=t◌ : Text → Text → Bool
[] =t [] = true
[] =t (_ ∷ _) = false
(_ ∷ _) =t [] = false
(a ∷ s) =t (b ∷ t) = (a == b) && (s =t t)

pub =t_refl : (s : Text) → (s =t s) ≡ true
=t_refl [] = refl
=t_refl (a ∷ s) = ground (arith, =t_refl s)

pub eq_of_=t : (s t : Text) → (s =t t) ≡ true → s ≡ t
eq_of_=t [] [] h = refl
eq_of_=t [] (b ∷ t) h = ground arith
eq_of_=t (a ∷ s) [] h = ground arith
eq_of_=t (a ∷ s) (b ∷ t) h = ground (arith, eq_of_=t s t)

pub =t_comm : (s t : Text) → (s =t t) ≡ (t =t s)
=t_comm [] [] = refl
=t_comm [] (b ∷ t) = refl
=t_comm (a ∷ s) [] = refl
=t_comm (a ∷ s) (b ∷ t) = ground (arith, =t_comm s t)

-- unicode.IsSpace.
abbrev pub is_space : ℕ → Bool
is_space c =
    (leb 9 c && leb c 13)
    || c == 32
    || c == 0x85
    || c == 0xA0
    || c == 0x1680
    || (leb 0x2000 c && leb c 0x200a)
    || c == 0x2028
    || c == 0x2029
    || c == 0x202f
    || c == 0x205f
    || c == 0x3000

pub trim_left : Text → Text
trim_left [] = []
trim_left (c ∷ s) = if is_space c then trim_left s else c ∷ s

-- Drops the spaces at the end.
pub trim_right : Text → Text
trim_right [] = []
trim_right (c ∷ s) = elim (trim_right s) [
  | [] ↦ if is_space c then [] else c ∷ []
  | d ∷ r ↦ c ∷ d ∷ r
]

-- strings.TrimSpace.
unfoldable pub trim_space : Text → Text
unfolding trim_left trim_right
trim_space s = trim_right (trim_left s)

-- Whether a code point occurs.
abbrev pub any_is : ℕ → Text → Bool
any_is sep [] = false
any_is sep (c ∷ s) = c == sep || any_is sep s

-- strings.Cut at one code point: the text before and after its first occurrence.
unfoldable pub cut : ℕ → Text → Option (Text × Text)
cut sep [] = none
cut sep (c ∷ s) =
    if c == sep
    then some ([], s)
    else elim (cut sep s) [ none ↦ none | some (a, b) ↦ some (c ∷ a, b) ]

pub cut_sound :
    (sep : ℕ) (s a b : Text) → cut sep s ≡ some (a, b) → (s ≡ a ++ sep ∷ b) × (any_is sep a ≡ false)
unfolding cut
cut_sound sep [] a b h = ground arith
cut_sound sep (c ∷ s) a b h = elim (Option-cases (cut sep s)) [
  | inl e ↦ ground arith
  | inr ((x, y), e) ↦ ground (arith, cut_sound sep s x y e)
]
