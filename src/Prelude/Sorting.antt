-- ===== src/Prelude/Sorting.antt =====
-- Orders of texts and sorting, as slices.Sort, slices.SortFunc and strings.Compare are used.
use mathlib.Core.Bool.{Bool, true, false, ◌&&◌, ◌||◌}
use mathlib.Core.List.{List, [], ◌∷◌}
use llm_proxy_backend.Prelude.Tests.{ltb, ◌==◌, if◌then◌else◌}
use llm_proxy_backend.Prelude.Text.{Text}

-- strings.Compare below zero.
unfoldable pub text_lt : Text → Text → Bool
text_lt [] [] = false
text_lt [] (_ ∷ _) = true
text_lt (_ ∷ _) [] = false
text_lt (a ∷ s) (b ∷ t) = ltb a b || (a == b && text_lt s t)

-- Sorting, by insertion before the first element that is not less.
unfoldable pub insert_by : {A : Type 0} → (A → A → Bool) → A → List A → List A
insert_by lt a [] = a ∷ []
insert_by lt a (b ∷ xs) = if lt b a then b ∷ insert_by lt a xs else a ∷ b ∷ xs

unfoldable pub sort_by : {A : Type 0} → (A → A → Bool) → List A → List A
unfolding insert_by
sort_by lt [] = []
sort_by lt (a ∷ xs) = insert_by lt a (sort_by lt xs)
