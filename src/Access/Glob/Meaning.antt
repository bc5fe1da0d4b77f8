-- ===== src/Access/Glob/Meaning.antt =====
-- What a model glob matches, stated with no regexp in it.
use llm_proxy_backend.Prelude.{
  ℕ, ◌≡◌, refl, ◌≢◌, ◌↔◌, true, false, [], ◌∷◌, arith, ◌==◌, Bool-cases, inl, inr,
}
use llm_proxy_backend.Prelude.Text.{Text, any_is}
use llm_proxy_backend.Access.Glob.{any_run, any_one, literal, Regexp, compile_glob, match_string}

pub data Globs : Text → Text → Type 0 where
  finish : Globs [] []
  same : {k c : ℕ} {p s : Text} → k ≢ b'*' → k ≢ b'?' → k ≡ c → Globs p s → Globs (k ∷ p) (c ∷ s)
  one : {k c : ℕ} {p s : Text} → k ≡ b'?' → c ≢ 10 → Globs p s → Globs (k ∷ p) (c ∷ s)
  stop : {k : ℕ} {p s : Text} → k ≡ b'*' → Globs p s → Globs (k ∷ p) s
  more : {k c : ℕ} {p s : Text} → k ≡ b'*' → c ≢ 10 → Globs (k ∷ p) s → Globs (k ∷ p) (c ∷ s)

module _ (k : ℕ) (p : Text) where
  run-Globs :
      k ≡ b'*'
      → ((s : Text) → match_string (compile_glob p) s ≡ true → Globs p s)
      → (s : Text) → match_string (any_run ∷ compile_glob p) s ≡ true
      → Globs (k ∷ p) s
  unfolding match_string
  run-Globs e ih [] h = stop e (ih [] h)
  run-Globs e ih (c ∷ s) h = elim (Bool-cases (match_string (compile_glob p) (c ∷ s))) [
    | inl now ↦ stop e (ih (c ∷ s) now)
    | inr later ↦ more e (ground arith) (run-Globs e ih s (ground arith))
  ]

  one-Globs :
      k ≡ b'?'
      → ((s : Text) → match_string (compile_glob p) s ≡ true → Globs p s)
      → (s : Text) → match_string (any_one ∷ compile_glob p) s ≡ true
      → Globs (k ∷ p) s
  unfolding match_string
  one-Globs e ih [] h = cc
  one-Globs e ih (c ∷ s) h = one e (ground arith) (ih s (ground arith))

  same-Globs :
      k ≢ b'*'
      → k ≢ b'?'
      → ((s : Text) → match_string (compile_glob p) s ≡ true → Globs p s)
      → (s : Text) → match_string (literal k ∷ compile_glob p) s ≡ true
      → Globs (k ∷ p) s
  unfolding match_string
  same-Globs n m ih [] h = cc
  same-Globs n m ih (c ∷ s) h = same n m (ground arith) (ih s (ground arith))

nil-Globs : (s : Text) → match_string [] s ≡ true → Globs [] s
unfolding match_string
nil-Globs [] h = finish
nil-Globs (c ∷ s) h = cc

match_string-Globs : (p s : Text) → match_string (compile_glob p) s ≡ true → Globs p s
unfolding compile_glob
match_string-Globs [] s h = nil-Globs s h
match_string-Globs (k ∷ p) s h = elim (Bool-cases (k == b'*')) [
  | inl star ↦ run-Globs k p (ground arith) (match_string-Globs p) s (rw star at h)
  | inr other ↦ elim (Bool-cases (k == b'?')) [
    | inl mark ↦ one-Globs k p (ground arith) (match_string-Globs p) s (rw (other, mark) at h)
    | inr plain ↦
        same-Globs k p (ground arith) (ground arith) (match_string-Globs p) s
          (rw (other, plain) at h)
  ]
]

match_string-any_run :
    (re : Regexp) (s : Text) → match_string re s ≡ true → match_string (any_run ∷ re) s ≡ true
unfolding match_string
match_string-any_run re [] h = h
match_string-any_run re (c ∷ s) h = rw h

Globs-match_string : {p s : Text} → Globs p s → match_string (compile_glob p) s ≡ true
unfolding compile_glob match_string
Globs-match_string finish = refl
Globs-match_string (same n m e g) = ground (arith, Globs-match_string g)
Globs-match_string (one e n g) = ground (arith, Globs-match_string g)
Globs-match_string (stop {k} {p} {s} e g) =
    ground (arith, match_string-any_run (compile_glob p) s (Globs-match_string g))
Globs-match_string (more e n g) = ground (arith, Globs-match_string g)

-- The compiled glob matches a name exactly when the glob does: `*` stands for any run of characters
-- but newlines, `?` for one character but a newline, and every other character for itself.
pub match_string_iff :
    (pattern name : Text) → (match_string (compile_glob pattern) name ≡ true) ↔ Globs pattern name
match_string_iff pattern name = (match_string-Globs pattern name, Globs-match_string)

Globs-newline : {p s : Text} → Globs p s → any_is 10 p ≡ false → any_is 10 s ≡ false
Globs-newline finish h = refl
Globs-newline (same n m e g) h = ground (arith, Globs-newline g)
Globs-newline (one e n g) h = ground (arith, Globs-newline g)
Globs-newline (stop e g) h = ground (arith, Globs-newline g)
Globs-newline (more e n g) h = ground (arith, Globs-newline g)

-- A glob without a newline matches no name with one, whatever wildcards it has.
pub match_string-newline :
    (pattern name : Text)
    → any_is 10 pattern ≡ false
    → any_is 10 name ≡ true
    → match_string (compile_glob pattern) name ≡ false
match_string-newline pattern name h k =
    elim (Bool-cases (match_string (compile_glob pattern) name)) [
      | inl hit ↦ cc (Globs-newline (match_string-Globs pattern name hit) h)
      | inr miss ↦ miss
    ]
