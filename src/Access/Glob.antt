-- ===== src/Access/Glob.antt =====
-- `compileGlob` (internal/domain/access/policy.go), and the anchored match of the regexp it builds.
pub mod Meaning
use llm_proxy_backend.Prelude.{
  ℕ, Bool, true, false, ◌&&◌, ◌||◌, not, List, [], ◌∷◌, ◌==◌, if◌then◌else◌,
}
use llm_proxy_backend.Prelude.Text.{Text}

-- What the loop writes for one character: `.*`, `.`, or the character quoted.
pub data Piece : Type 0 where
  any_run : Piece
  any_one : Piece
  literal : ℕ → Piece

abbrev pub Regexp : Type 0
Regexp = List Piece

unfoldable pub compile_glob : Text → Regexp
compile_glob [] = []
compile_glob (c ∷ pattern) =
    (if c == b'*' then any_run else if c == b'?' then any_one else literal c) ∷ compile_glob pattern

-- What `.` matches in a Go regexp without the s flag.
abbrev pub dot : ℕ → Bool
dot c = not (c == 10)

-- MatchString of `^`, the pieces, `$`.
unfoldable pub match_string : Regexp → Text → Bool
match_string [] [] = true
match_string [] (c ∷ s) = false
match_string (literal k ∷ re) [] = false
match_string (literal k ∷ re) (c ∷ s) = (k == c) && match_string re s
match_string (any_one ∷ re) [] = false
match_string (any_one ∷ re) (c ∷ s) = dot c && match_string re s
match_string (any_run ∷ re) [] = match_string re []
match_string (any_run ∷ re) (c ∷ s) =
    match_string re (c ∷ s) || (dot c && match_string (any_run ∷ re) s)
