-- ===== src/Store/Keeping.antt =====
-- Facts about the stores that an operation keeps whether it succeeds or fails.
use llm_proxy_backend.Prelude.{◌≡◌, refl, Bool, true, false, if◌then◌else◌}
use llm_proxy_backend.Store.{
  Store, Error, Result, ok, err, Op, after, ◌>>=◌, ◌>>◌, caught, catch, require, return, fail, lift,
  call, failed, tick, read_clock,
}

abbrev pub Keeps : {A : Type 0} → (Store → Type 0) → Op A → Type 0
Keeps P m = (s : Store) → P s → P (m s).1

-- For a fact that does not depend on the count of calls.
module _ (P : Store → Type 0) where
  after-Keeps :
      {A B : Type 0} (r : Result A × Store) (f : A → Op B)
      → P r.1
      → ((a : A) → Keeps P (f a))
      → P (after r f).1
  unfolding after
  after-Keeps (ok a, s) f p k = k a s p
  after-Keeps (err e, s) f p k = p

  caught-Keeps :
      {A B : Type 0} (r : Result A × Store) (f : A → Op B) (g : Error → Op B)
      → P r.1
      → ((a : A) → Keeps P (f a))
      → ((e : Error) → Keeps P (g e))
      → P (caught r f g).1
  unfolding caught
  caught-Keeps (ok a, s) f g p k l = k a s p
  caught-Keeps (err e, s) f g p k l = l e s p

  pub bind-Keeps :
      {A B : Type 0} (m : Op A) (f : A → Op B)
      → Keeps P m
      → ((a : A) → Keeps P (f a))
      → Keeps P (m >>= f)
  unfolding ◌>>=◌
  bind-Keeps m f p k s h = after-Keeps (m s) f (p s h) k

  pub then-Keeps : {A B : Type 0} (m : Op A) (n : Op B) → Keeps P m → Keeps P n → Keeps P (m >> n)
  unfolding ◌>>◌
  then-Keeps m n p k = bind-Keeps m (λ _. n) p (λ _. k)

  pub catch-Keeps :
      {A B : Type 0} (m : Op A) (f : A → Op B) (g : Error → Op B)
      → Keeps P m
      → ((a : A) → Keeps P (f a))
      → ((e : Error) → Keeps P (g e))
      → Keeps P (catch m f g)
  unfolding catch
  catch-Keeps m f g p k l s h = caught-Keeps (m s) f g (p s h) k l

  pub require-Keeps : (b : Bool) (e : Error) → Keeps P (require b e)
  unfolding require
  require-Keeps true e s h = h
  require-Keeps false e s h = h

  pub return-Keeps : {A : Type 0} (a : A) → Keeps P (return a)
  unfolding return
  return-Keeps a s h = h

  pub fail-Keeps : (A : Type 0) (e : Error) → Keeps P (fail {A = A} e)
  unfolding fail
  fail-Keeps A e s h = h

  -- What the pure function returned is known to what follows.
  pub lift-Keeps :
      {A B : Type 0} (r : Result A) (f : A → Op B) (g : Error → Op B)
      → ((a : A) → r ≡ ok a → Keeps P (f a))
      → ((e : Error) → Keeps P (g e))
      → Keeps P (catch (lift r) f g)
  unfolding catch lift caught
  lift-Keeps (ok a) f g k l = k a refl
  lift-Keeps (err e) f g k l = l e

  pub lift_bind-Keeps :
      {A B : Type 0} (r : Result A) (f : A → Op B)
      → ((a : A) → r ≡ ok a → Keeps P (f a))
      → Keeps P (lift r >>= f)
  unfolding ◌>>=◌ lift after
  lift_bind-Keeps (ok a) f k s h = k a refl s h
  lift_bind-Keeps (err e) f k s h = h

  pub pure-Keeps : {A : Type 0} (r : Result A) → Keeps P (lift r)
  unfolding lift
  pure-Keeps r s h = h

  -- A call keeps what its effect keeps: if it fails, nothing has changed but the count.
  pub call-Keeps :
      {A : Type 0} (op : Op A) → ((s : Store) → P s → P (tick s)) → Keeps P op → Keeps P (call op)
  unfolding call
  call-Keeps op timeless k s h = split (s.fault s.calls)
    where
      split : (b : Bool) → P (if b then (err failed, tick s) else op (tick s)).1
      split true = timeless s h
      split false = k (tick s) (timeless s h)

  pub read_clock-Keeps : ((s : Store) → P s → P (tick s)) → Keeps P read_clock
  unfolding read_clock
  read_clock-Keeps timeless s h = timeless s h
