-- ===== src/Tokens/Resolver/Refusals.antt =====
-- What a resolved secret guarantees, and what a refusal gives away.
use llm_proxy_backend.Prelude.{
  ◌≡◌, ◌⊎◌, inl, inr, true, some, arith, find, Option-cases, ◌==◌, not, [], sym, ℕ,
}
use llm_proxy_backend.Prelude.Text.{Text, ◌=t◌}
use llm_proxy_backend.Identity.{User, can_use_api, label}
use llm_proxy_backend.Store.Inversion.{bind-err, then-err, require-err}
use llm_proxy_backend.Store.{
  require, catch, return, fail, effects, Store, Error, invalid_credentials, failed, ok, err,
}
use llm_proxy_backend.Store.Tables.{Token}
use llm_proxy_backend.Tokens.Key.{is_live}
use llm_proxy_backend.Tokens.Repo.{user_by_id, token_by_hash}
use llm_proxy_backend.Tokens.Resolver.{Principal, Grant, refused, resolve}

owner_lookup_refusal :
    (id : ℕ) (s s' : Store) (e : Error)
    → catch (user_by_id id) return (λ e. fail (refused e)) s ≡ (err e, s')
    → (e ≡ invalid_credentials) ⊎ (e ≡ failed)
unfolding effects user_by_id
owner_lookup_refusal id s s' e h = elim (Option-cases (find (λ u. u.id == id) s.users)) [
  | inl absent ↦ ground arith
  | inr (u, present) ↦ ground arith
]

return_no_err : {A : Type 0} (a : A) (s s' : Store) (e : Error) → return a s ≡ (err e, s') → ⊥
unfolding return
return_no_err a s s' e h = ground arith

module _ (hash_secret : Text → Text) where
  -- A resolved secret is not empty; its key is stored under its hash and not revoked; the key's owner is
  -- stored and may use the API; and the principal and the grant are that key's and that owner's.
  pub resolve_sound :
      (secret : Text) (s s' : Store) (p : Principal) (g : Grant)
      → resolve hash_secret secret s ≡ (ok (p, g), s')
      → (t : Token) × (u : User) × (find (λ t. t.hash =t hash_secret secret) s.tokens ≡ some t)
        × (find (λ u. u.id == t.user_id) s.users ≡ some u)
        × (is_live t ≡ true)
        × (can_use_api u ≡ true)
        × (p ≡ record { user_id = t.user_id; token_id = t.id; owner = label u })
        × (g ≡ record { policy = u.policy; spend_limits = u.spend_limits })
  unfolding resolve effects
  resolve_sound secret s s' p g h =
      elim (Option-cases (find (λ t. t.hash =t hash_secret secret) s.tokens)) [
        | inl e ↦ ground arith
        | inr (t, e) ↦ elim (Option-cases (find (λ u. u.id == t.user_id) s.users)) [
          | inl e' ↦ ground arith
          | inr (u, e') ↦ (t, u, e, e', ground arith, ground arith, ground arith, ground arith)
        ]
      ]

  token_lookup_refusal :
      (secret : Text) (s s' : Store) (e : Error)
      → catch (token_by_hash (hash_secret secret)) return (λ e. fail (refused e)) s ≡ (err e, s')
      → (e ≡ invalid_credentials) ⊎ (e ≡ failed)
  unfolding effects token_by_hash
  token_lookup_refusal secret s s' e h =
      elim (Option-cases (find (λ t. t.hash =t hash_secret secret) s.tokens)) [
        | inl absent ↦ ground arith
        | inr (t, present) ↦ ground arith
      ]

  -- Whatever the reason, a refusal is the one error, so a caller cannot tell a revoked or blocked key
  -- from one that never existed; the only other error is a failed lookup.
  pub resolve_refusal :
      (secret : Text) (s s' : Store) (e : Error)
      → resolve hash_secret secret s ≡ (err e, s')
      → (e ≡ invalid_credentials) ⊎ (e ≡ failed)
  unfolding resolve
  resolve_refusal secret s s' e h =
      elim (then-err (require (not (secret =t [])) invalid_credentials) _ s e s' h) [
        | inl bad ↦ inl (sym (require-err _ invalid_credentials e s s' bad).1)
        | inr (_, s1, _, h1) ↦
            elim (bind-err
              (catch (token_by_hash (hash_secret secret)) return (λ e. fail (refused e))) _ s1 e s'
              h1) [
                | inl bad ↦ token_lookup_refusal secret s1 s' e bad
                | inr (t, s2, _, h2) ↦
                    elim (then-err (require (is_live t) invalid_credentials) _ s2 e s' h2) [
                      | inl bad ↦ inl (sym (require-err _ invalid_credentials e s2 s' bad).1)
                      | inr (_, s3, _, h3) ↦
                          elim (bind-err
                            (catch (user_by_id t.user_id) return (λ e. fail (refused e))) _ s3 e s'
                            h3) [
                              | inl bad ↦ owner_lookup_refusal t.user_id s3 s' e bad
                              | inr (u, s4, _, h4) ↦
                                  elim (then-err (require (can_use_api u) invalid_credentials) _ s4
                                    e s' h4) [
                                      | inl bad ↦
                                          inl
                                            (sym (require-err _ invalid_credentials e s4 s' bad).1)
                                      | inr (_, s5, _, h5) ↦ absurd (return_no_err _ s5 s' e h5)
                                    ]
                            ]
                    ]
              ]
      ]
