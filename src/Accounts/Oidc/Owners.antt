-- ===== src/Accounts/Oidc/Owners.antt =====
-- The account that a lookup answers with may sign in.
use mathlib.Core.Path.{subst}
use llm_proxy_backend.Prelude.{
  ℕ, ◌≡◌, refl, inl, inr, Bool, true, false, Option, some, none, List, [], ◌∷◌, arith, find,
  Option-cases, ◌==◌, if◌then◌else◌,
}
use llm_proxy_backend.Prelude.Text.{Text}
use llm_proxy_backend.Identity.{User, can_sign_in}
use llm_proxy_backend.Store.{
  effects, Store, Error, ok, err, return, fail, catch, require, read_clock, conflict,
}
use llm_proxy_backend.Accounts.Oidc.{
  is_conflict, Claims, eligible, redeem, if_not_found, own_account,
}
use llm_proxy_backend.Accounts.Oidc.Repo.{
  owner_of_pending, is_link, by_subject, link, consume_pending, pending_by_email,
}
use llm_proxy_backend.Store.Tables.{Pending}
use llm_proxy_backend.Store.Inversion.{bind-ok, then-ok, catch-ok}
use llm_proxy_backend.Store.Keeping.{Keeps, bind-Keeps, call-Keeps, read_clock-Keeps}
use llm_proxy_backend.Accounts.Repo.{create_user_row, is_taken}
use llm_proxy_backend.Accounts.Oidc.Resolution.{eligible-ok, return-same}

pub eligible-may :
    (id : ℕ) (s s' : Store) (u v : User)
    → eligible id s ≡ (ok u, s')
    → find (λ w. w.id == u.id) s.users ≡ some v
    → can_sign_in v ≡ true
eligible-may id s s' u v h f =
    let (same, _, may, found) = eligible-ok id s s' u h in
    let f' = subst (λ i. find (λ (w : User). w.id == i) s.users ≡ some v) same f in
    let u_v : u ≡ v = ground (arith, found, f') in subst (λ w. can_sign_in w ≡ true) u_v may

abbrev pub HasSameUsers : Store → Store → Type 0
HasSameUsers s s' = s'.users ≡ s.users

pub by_subject-users :
    (issuer subject : Text) (s : Store) → HasSameUsers s (by_subject issuer subject s).1
unfolding by_subject effects
by_subject-users issuer subject s =
    elim (Option-cases (find (is_link issuer subject) s.identities)) [
      | inl e ↦ ground arith
      | inr (l, e) ↦ ground arith
    ]

owner_of_pending-users :
    (s0 : Store) (o : Option Pending) → Keeps (HasSameUsers s0) (owner_of_pending o)
owner_of_pending-users s0 none s h = h
owner_of_pending-users s0 (some p) s h = h

pub pending_by_email-users :
    (lower : Text → Text) (issuer email : Text) (s : Store)
    → HasSameUsers s (pending_by_email lower issuer email s).1
unfolding pending_by_email
pending_by_email-users lower issuer email s =
    let P = HasSameUsers s in
    call-Keeps P _ (λ s h. h)
      (bind-Keeps P read_clock _ (read_clock-Keeps P (λ s h. h))
        λ now s1 h. owner_of_pending-users s _ s1 h)
      s refl

pub read_clock-users : (s s' : Store) (n : ℕ) → read_clock s ≡ (ok n, s') → HasSameUsers s s'
unfolding effects
read_clock-users s s' n h = ground arith

pub require-users :
    (b : Bool) (e : Error) (s s' : Store) → require b e s ≡ (ok tt, s') → HasSameUsers s s'
unfolding effects
require-users b e s s' h = ground arith

-- The account created is a new one; the tables are as they were if none was.
pub create_user_row-fresh :
    (lower : Text → Text) (u v : User) (s s' : Store)
    → create_user_row lower u s ≡ (ok tt, s')
    → find (λ w. w.id == u.id) s.users ≡ some v
    → ⊥
unfolding create_user_row effects
create_user_row-fresh lower u v s s' h f = ground (arith, not_taken s.users)
  where
    not_taken :
        (us : List User)
        → is_taken lower u us ≡ false
        → find (λ (w : User). w.id == u.id) us ≡ some v
        → ⊥
    not_taken [] t f = ground arith
    not_taken (w ∷ us) t f = ground (arith, not_taken us)

pub create_user_row-users :
    (lower : Text → Text) (u : User) (e : Error) (s s' : Store)
    → create_user_row lower u s ≡ (err e, s')
    → HasSameUsers s s'
unfolding create_user_row effects
create_user_row-users lower u e s s' h = ground arith

pub redeem-may :
    (claims : Claims) (invited : ℕ) (s s' : Store) (u v : User)
    → redeem claims invited s ≡ (ok u, s')
    → find (λ w. w.id == u.id) s.users ≡ some v
    → can_sign_in v ≡ true
unfolding redeem
redeem-may claims invited s s' u v h f =
    let (w, s1, h1, r1) = bind-ok (eligible invited) _ s u s' h in
    let (_, s2, h2, r2) = then-ok (consume_pending w.id) _ s1 u s' r1 in
    let (_, s3, h3, r3) = then-ok (link w.id claims.issuer claims.subject) _ s2 u s' r2 in
    let (same, _) = return-same w u s3 s' r3 in
    eligible-may invited s s1 u v (subst (λ x. eligible invited s ≡ (ok x, s1)) same h1) f

not_found-fails :
    (e k : Error) (s s' : Store) (u : User) → if_not_found (fail k) e s ≡ (ok u, s') → ⊥
unfolding if_not_found effects
not_found-fails e k s s' u h = ground arith

fail_no_ok : (e : Error) (s s' : Store) (u : User) → fail e s ≡ (ok u, s') → ⊥
unfolding fail
fail_no_ok e s s' u h = ground arith

pub own_account-may :
    (id : ℕ) (e : Error) (s s' : Store) (u v : User)
    → own_account id e s ≡ (ok u, s')
    → find (λ w. w.id == u.id) s.users ≡ some v
    → can_sign_in v ≡ true
unfolding own_account
own_account-may id e s s' u v h f = split (is_conflict e) h
  where
    split :
        (b : Bool)
        → (if b then catch (eligible id) return (if_not_found (fail conflict)) else fail e) s
          ≡ (ok u, s')
        → can_sign_in v ≡ true
    split true k = elim (catch-ok (eligible id) return (if_not_found (fail conflict)) s u s' k) [
      | inl (w, s1, h1, r1) ↦
          let (same, _) = return-same w u s1 s' r1 in
          eligible-may id s s1 u v (subst (λ x. eligible id s ≡ (ok x, s1)) same h1) f
      | inr (e, s1, h1, r1) ↦ elim (not_found-fails e conflict s1 s' u r1) [ ]
    ]
    split false k = elim (fail_no_ok e s s' u k) [ ]
