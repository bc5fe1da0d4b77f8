-- ===== src/Accounts/Oidc/Resolution.antt =====
-- Each way of resolving claims ends with the subject linked to the account.
use mathlib.Core.Path.{subst}
use llm_proxy_backend.Prelude.{
  ℕ, ◌≡◌, sym, inl, inr, Bool, true, false, not, ◌&&◌, some, List, [], ◌∷◌, arith, find, find-some,
  any, Option-cases, ◌==◌, if◌then◌else◌,
}
use llm_proxy_backend.Prelude.Text.{Text, ◌=t◌, =t_refl}
use llm_proxy_backend.Identity.{User, can_sign_in}
use llm_proxy_backend.Store.{
  effects, Store, Error, Op, ok, return, fail, catch, require, forbidden, read_clock, ◌>>◌,
}
use llm_proxy_backend.Store.Tables.{Link}
use llm_proxy_backend.Store.Inversion.{bind-ok, then-ok, catch-ok}
use llm_proxy_backend.Tokens.Repo.{user_by_id}
use llm_proxy_backend.Accounts.Repo.{create_user_row}
use llm_proxy_backend.Accounts.Oidc.Repo.{
  is_link, by_subject, link, consume_pending, fill_display_name, save_identity_state,
  pending_by_email,
}
use llm_proxy_backend.Accounts.Oidc.{
  Claims, Oidc, eligible, redeem, if_not_found, own_account, signed_up_user, sign_up, stranger,
  invited_or_stranger, resolve_claims, with_name, with_policy,
}

-- The subject is linked to the account.
abbrev pub IsLinkedTo : Claims → ℕ → Store → Type 0
IsLinkedTo claims id s =
    any (λ l. is_link claims.issuer claims.subject l && (l.user_id == id)) s.identities ≡ true

link-ok :
    (claims : Claims) (id : ℕ) (s s' : Store)
    → link id claims.issuer claims.subject s ≡ (ok tt, s')
    → IsLinkedTo claims id s'
unfolding link effects
link-ok claims id s s' h = ground (arith, =t_refl claims.issuer, =t_refl claims.subject)

pub return-same : (u u' : User) (s s' : Store) → return u s ≡ (ok u', s') → (u ≡ u') × (s ≡ s')
unfolding return
return-same u u' s s' h = (ground arith, ground arith)

linked-return :
    (claims : Claims) (u u' : User) (s s' : Store)
    → (link u.id claims.issuer claims.subject >> return u) s ≡ (ok u', s')
    → IsLinkedTo claims u'.id s'
linked-return claims u u' s s' h =
    let (_, s1, h1, r1) = then-ok (link u.id claims.issuer claims.subject) _ s u' s' h in
    let (same, stays) = return-same u u' s1 s' r1 in
    subst (λ x. IsLinkedTo claims u'.id x) stays
      (subst (λ (x : User). IsLinkedTo claims x.id s1) same (link-ok claims u.id s s1 h1))

any-find :
    (issuer subject : Text) (ls : List Link) (l : Link)
    → find (is_link issuer subject) ls ≡ some l
    → any (λ k. is_link issuer subject k && (k.user_id == l.user_id)) ls ≡ true
any-find issuer subject [] l h = ground arith
any-find issuer subject (k ∷ ls) l h = ground (arith, any-find issuer subject ls l)

by_subject-ok :
    (claims : Claims) (id : ℕ) (s s' : Store)
    → by_subject claims.issuer claims.subject s ≡ (ok id, s')
    → IsLinkedTo claims id s'
unfolding by_subject effects
by_subject-ok claims id s s' h =
    elim (Option-cases (find (is_link claims.issuer claims.subject) s.identities)) [
      | inl e ↦ ground arith
      | inr (l, e) ↦ ground (arith, any-find claims.issuer claims.subject s.identities l e)
    ]

pub eligible-ok :
    (id : ℕ) (s s' : Store) (u : User)
    → eligible id s ≡ (ok u, s')
    → (u.id ≡ id)
      × (s'.identities ≡ s.identities)
      × (can_sign_in u ≡ true)
      × (find (λ u. u.id == id) s.users ≡ some u)
unfolding eligible user_by_id effects
eligible-ok id s s' u h = elim (Option-cases (find (λ u. u.id == id) s.users)) [
  | inl e ↦ ground arith
  | inr (v, e) ↦ (
    ground (arith, find-some (λ (u : User). u.id == id) s.users v e),
    ground arith,
    ground arith,
    ground arith,
  )
]

redeem-ok :
    (claims : Claims) (invited : ℕ) (s s' : Store) (u : User)
    → redeem claims invited s ≡ (ok u, s')
    → IsLinkedTo claims u.id s'
unfolding redeem
redeem-ok claims invited s s' u h =
    let (v, s1, h1, r1) = bind-ok (eligible invited) _ s u s' h in
    let (_, s2, h2, r2) = then-ok (consume_pending v.id) _ s1 u s' r1 in
    linked-return claims v u s2 s' r2

pub if_not_found-ok :
    {A : Type 0} (m : Op A) (e : Error) (s s' : Store) (a : A)
    → if_not_found m e s ≡ (ok a, s')
    → m s ≡ (ok a, s')
unfolding if_not_found fail
if_not_found-ok m e s s' a h = ground arith

module _ (cfg : Oidc) (lower : Text → Text) (sign_up_id : Text → Text → ℕ) where
  sign_up-ok :
      (claims : Claims) (s s' : Store) (u : User)
      → sign_up cfg lower sign_up_id claims s ≡ (ok u, s')
      → IsLinkedTo claims u.id s'
  unfolding sign_up
  sign_up-ok claims s s' u h =
      let (now, s1, h1, r1) = bind-ok read_clock _ s u s' h in
      let new = signed_up_user cfg (sign_up_id claims.issuer claims.subject) claims now in
      let (v, s2, h2, r2) =
        bind-ok (catch (create_user_row lower new) (λ _. return new) (own_account new.id)) _ s1 u s'
          r1 in
      linked-return claims v u s2 s' r2

  stranger-ok :
      (claims : Claims) (s s' : Store) (u : User)
      → stranger cfg lower sign_up_id claims s ≡ (ok u, s')
      → IsLinkedTo claims u.id s'
  unfolding stranger
  stranger-ok claims s s' u h =
      let (_, s1, h1, r1) = then-ok (require cfg.allow_sign_up forbidden) _ s u s' h in
      sign_up-ok claims s1 s' u r1

  invited_or_stranger-ok :
      (claims : Claims) (s s' : Store) (u : User)
      → invited_or_stranger cfg lower sign_up_id claims s ≡ (ok u, s')
      → IsLinkedTo claims u.id s'
  unfolding invited_or_stranger
  invited_or_stranger-ok claims s s' u h =
      split (claims.email_verified && not (claims.email =t [])) h
    where
      split :
          (b : Bool)
          → (if b
                then catch
                    (pending_by_email lower claims.issuer claims.email)
                    (redeem claims)
                    (if_not_found (stranger cfg lower sign_up_id claims))
                else stranger cfg lower sign_up_id claims)
              s
            ≡ (ok u, s')
          → IsLinkedTo claims u.id s'
      split true k =
          elim (catch-ok (pending_by_email lower claims.issuer claims.email) (redeem claims)
            (if_not_found (stranger cfg lower sign_up_id claims)) s u s' k) [
              | inl (id, s1, h1, r1) ↦ redeem-ok claims id s1 s' u r1
              | inr (e, s1, h1, r1) ↦
                  stranger-ok claims s1 s' u
                    (if_not_found-ok (stranger cfg lower sign_up_id claims) e s1 s' u r1)
            ]
      split false k = stranger-ok claims s s' u k

  pub resolve_claims-ok :
      (claims : Claims) (s s' : Store) (u : User)
      → resolve_claims cfg lower sign_up_id claims s ≡ (ok u, s')
      → IsLinkedTo claims u.id s'
  unfolding resolve_claims
  resolve_claims-ok claims s s' u h =
      elim (catch-ok (by_subject claims.issuer claims.subject) eligible
        (if_not_found (invited_or_stranger cfg lower sign_up_id claims)) s u s' h) [
          | inl (id, s1, h1, r1) ↦
              let (same, stays, _, _) = eligible-ok id s1 s' u r1 in
              subst (λ i. IsLinkedTo claims i s') (sym same)
                (subst
                  (λ ls.
                    any (λ (l : Link). is_link claims.issuer claims.subject l && (l.user_id == id))
                      ls
                    ≡ true)
                  (sym stays) (by_subject-ok claims id s s1 h1))
          | inr (e, s1, h1, r1) ↦
              invited_or_stranger-ok claims s1 s' u
                (if_not_found-ok (invited_or_stranger cfg lower sign_up_id claims) e s1 s' u r1)
        ]

  pub with_name-ok :
      (claims : Claims) (u v : User) (s s' : Store)
      → with_name cfg lower sign_up_id claims u s ≡ (ok v, s')
      → (v.id ≡ u.id) × (s'.identities ≡ s.identities)
  unfolding with_name fill_display_name effects
  with_name-ok claims u v s s' h = (ground arith, ground arith)

  pub with_policy-ok :
      (claims : Claims) (u v : User) (s s' : Store)
      → with_policy cfg lower sign_up_id claims u s ≡ (ok v, s')
      → (v.id ≡ u.id) × (s'.identities ≡ s.identities)
  unfolding with_policy save_identity_state effects
  with_policy-ok claims u v s s' h = (ground arith, ground arith)
