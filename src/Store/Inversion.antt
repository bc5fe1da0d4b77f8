-- ===== src/Store/Inversion.antt =====
-- What a step of an operation that succeeded did.
use llm_proxy_backend.Prelude.{◌≡◌, refl, ◌⊎◌, inl, inr, Bool, true, false, arith}
use llm_proxy_backend.Store.{
  Store, Error, Result, ok, err, Op, after, caught, catch, ◌>>=◌, ◌>>◌, require,
}

after-ok :
    {A B : Type 0} (x : Result A × Store) (f : A → Op B) (b : B) (s' : Store)
    → after x f ≡ (ok b, s')
    → (a : A) × (s1 : Store) × (x ≡ (ok a, s1)) × (f a s1 ≡ (ok b, s'))
unfolding after
after-ok (ok a, s) f b s' h = (a, s, refl, h)
after-ok (err e, s) f b s' h = ground arith

pub bind-ok :
    {A B : Type 0} (m : Op A) (f : A → Op B) (s : Store) (b : B) (s' : Store)
    → (m >>= f) s ≡ (ok b, s')
    → (a : A) × (s1 : Store) × (m s ≡ (ok a, s1)) × (f a s1 ≡ (ok b, s'))
unfolding ◌>>=◌
bind-ok m f s b s' h = after-ok (m s) f b s' h

pub then-ok :
    {A B : Type 0} (m : Op A) (n : Op B) (s : Store) (b : B) (s' : Store)
    → (m >> n) s ≡ (ok b, s')
    → (a : A) × (s1 : Store) × (m s ≡ (ok a, s1)) × (n s1 ≡ (ok b, s'))
unfolding ◌>>◌
then-ok m n s b s' h = bind-ok m (λ _. n) s b s' h

caught-ok :
    {A B : Type 0} (x : Result A × Store) (f : A → Op B) (g : Error → Op B) (b : B) (s' : Store)
    → caught x f g ≡ (ok b, s')
    → ((a : A) × (s1 : Store) × (x ≡ (ok a, s1)) × (f a s1 ≡ (ok b, s')))
      ⊎ ((e : Error) × (s1 : Store) × (x ≡ (err e, s1)) × (g e s1 ≡ (ok b, s')))
unfolding caught
caught-ok (ok a, s) f g b s' h = inl (a, s, refl, h)
caught-ok (err e, s) f g b s' h = inr (e, s, refl, h)

pub catch-ok :
    {A B : Type 0} (m : Op A) (f : A → Op B) (g : Error → Op B) (s : Store) (b : B) (s' : Store)
    → catch m f g s ≡ (ok b, s')
    → ((a : A) × (s1 : Store) × (m s ≡ (ok a, s1)) × (f a s1 ≡ (ok b, s')))
      ⊎ ((e : Error) × (s1 : Store) × (m s ≡ (err e, s1)) × (g e s1 ≡ (ok b, s')))
unfolding catch
catch-ok m f g s b s' h = caught-ok (m s) f g b s' h

pub require-ok :
    (c : Bool) (e : Error) (s s' : Store) (u : Unit {0})
    → require c e s ≡ (ok u, s')
    → (c ≡ true) × (s' ≡ s)
unfolding require
require-ok c e s s' u h = ground arith

-- Which step of an operation failed.
after-err :
    {A B : Type 0} (x : Result A × Store) (f : A → Op B) (e : Error) (s' : Store)
    → after x f ≡ (err e, s')
    → (x ≡ (err e, s')) ⊎ ((a : A) × (s1 : Store) × (x ≡ (ok a, s1)) × (f a s1 ≡ (err e, s')))
unfolding after
after-err (ok a, s) f e s' h = inr (a, s, refl, h)
after-err (err k, s) f e s' h = inl (ground arith)

pub bind-err :
    {A B : Type 0} (m : Op A) (f : A → Op B) (s : Store) (e : Error) (s' : Store)
    → (m >>= f) s ≡ (err e, s')
    → (m s ≡ (err e, s')) ⊎ ((a : A) × (s1 : Store) × (m s ≡ (ok a, s1)) × (f a s1 ≡ (err e, s')))
unfolding ◌>>=◌
bind-err m f s e s' h = after-err (m s) f e s' h

pub then-err :
    {A B : Type 0} (m : Op A) (n : Op B) (s : Store) (e : Error) (s' : Store)
    → (m >> n) s ≡ (err e, s')
    → (m s ≡ (err e, s')) ⊎ ((a : A) × (s1 : Store) × (m s ≡ (ok a, s1)) × (n s1 ≡ (err e, s')))
unfolding ◌>>◌
then-err m n s e s' h = bind-err m (λ _. n) s e s' h

pub require-err :
    (c : Bool) (k e : Error) (s s' : Store)
    → require c k s ≡ (err e, s')
    → (c ≡ false) × (k ≡ e) × (s ≡ s')
unfolding require
require-err true k e s s' h = ground arith
require-err false k e s s' h = (refl, ground arith, ground arith)
