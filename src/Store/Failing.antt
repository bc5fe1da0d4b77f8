-- ===== src/Store/Failing.antt =====
-- Facts about the stores that an operation keeps if it fails, and steps that know how the step before
-- them ended.
use llm_proxy_backend.Prelude.{◌≡◌, refl, inl, inr, arith}
use llm_proxy_backend.Store.{Store, Error, Result, ok, err, Op, after, ◌>>=◌, ◌>>◌, return}
use llm_proxy_backend.Store.Keeping.{Keeps}
use llm_proxy_backend.Store.Inversion.{bind-err}
use mathlib.Core.Path.{subst}

abbrev pub FailsKeeping : {A : Type 0} → (Store → Type 0) → Op A → Type 0
FailsKeeping P m = (s s' : Store) (e : Error) → P s → m s ≡ (err e, s') → P s'

module _ (P : Store → Type 0) where
  pub Keeps-FailsKeeping : {A : Type 0} (m : Op A) → Keeps P m → FailsKeeping P m
  Keeps-FailsKeeping m k s s' e p h = subst (λ r. P r.1) h (k s p)

  pub bind-FailsKeeping :
      {A B : Type 0} (m : Op A) (f : A → Op B)
      → Keeps P m
      → ((a : A) → FailsKeeping P (f a))
      → FailsKeeping P (m >>= f)
  bind-FailsKeeping m f k l s s' e p h = elim (bind-err m f s e s' h) [
    | inl failed ↦ Keeps-FailsKeeping m k s s' e p failed
    | inr (a, s1, h1, r1) ↦ l a s1 s' e (subst (λ r. P r.1) h1 (k s p)) r1
  ]

  pub then-FailsKeeping :
      {A B : Type 0} (m : Op A) (n : Op B) → Keeps P m → FailsKeeping P n → FailsKeeping P (m >> n)
  unfolding ◌>>◌
  then-FailsKeeping m n k l = bind-FailsKeeping m (λ _. n) k (λ _. l)

  -- The last step that may fail, and the answer.
  pub last-FailsKeeping :
      {A B : Type 0} (m : Op A) (b : B) → FailsKeeping P m → FailsKeeping P (m >> return b)
  unfolding ◌>>◌ return
  last-FailsKeeping m b l s s' e p h = elim (bind-err m (λ _. return b) s e s' h) [
    | inl failed ↦ l s s' e p failed
    | inr (a, s1, h1, r1) ↦ ground arith
  ]

  -- The rest knows what the first step returned, and where.
  after_known-Keeps :
      {A B : Type 0} (r : Result A × Store) (f : A → Op B)
      → P r.1
      → ((a : A) (s1 : Store) → r ≡ (ok a, s1) → P s1 → P (f a s1).1)
      → P (after r f).1
  unfolding after
  after_known-Keeps (ok a, s1) f p k = k a s1 refl p
  after_known-Keeps (err e, s1) f p k = p

  pub bind_known-Keeps :
      {A B : Type 0} (m : Op A) (f : A → Op B) (s : Store)
      → P (m s).1
      → ((a : A) (s1 : Store) → m s ≡ (ok a, s1) → P s1 → P (f a s1).1)
      → P ((m >>= f) s).1
  unfolding ◌>>=◌
  bind_known-Keeps m f s p k = after_known-Keeps (m s) f p k

  pub then_known-Keeps :
      {A B : Type 0} (m : Op A) (n : Op B) (s : Store)
      → P (m s).1
      → ((a : A) (s1 : Store) → m s ≡ (ok a, s1) → P s1 → P (n s1).1)
      → P ((m >> n) s).1
  unfolding ◌>>◌
  then_known-Keeps m n s p k = bind_known-Keeps m (λ _. n) s p k
