-- ===== src/Tokens/Service/Revocation.antt =====
-- A revoked key stops working with the next request.
use llm_proxy_backend.Prelude.{
  ℕ, suc, ◌≡◌, refl, ◌≢◌, inl, inr, ◌⊎◌, ◌<◌, Bool-cases, Bool, true, false, some, List, [], ◌∷◌,
  arith, find, find-some, Option-cases, ◌==◌,
}
use llm_proxy_backend.Prelude.Text.{Text, ◌=t◌}
use llm_proxy_backend.Identity.{User, is_admin}
use llm_proxy_backend.Store.{effects, Store, ok}
use llm_proxy_backend.Store.Tables.{Token}
use llm_proxy_backend.Tokens.Key.{is_live, revoke_key}
use llm_proxy_backend.Tokens.Repo.{token_by_id, save_token, record_event, update_row}
use llm_proxy_backend.Tokens.Service.{manages, revoke}
use llm_proxy_backend.Tokens.Resolver.{Principal, Grant, resolve}
use llm_proxy_backend.Tokens.Resolver.Refusals.{resolve_sound}

find-update_row :
    (p : Token → Bool) (r t : Token) (rows : List Token)
    → is_live r ≡ false
    → find p (update_row r rows) ≡ some t
    → is_live t ≡ true
    → t.id ≢ r.id
unfolding update_row is_live
find-update_row p r t [] d h l = ground arith
find-update_row p r t (row ∷ rows) d h l = ground (arith, find-update_row p r t rows d)

-- The key as `revoke` saves it.
abbrev revoked_at_call : User → Store → Token → Token
revoked_at_call actor s t = record t {
  revoked_at = some (s.clock (suc s.calls));
  revoked_by = some actor.id;
}

revoke_inv :
    (actor : User) (id : ℕ) (s s' : Store)
    → revoke actor id s ≡ (ok tt, s')
    → (t : Token) × (find (λ t. t.id == id) s.tokens ≡ some t)
      × (manages actor t.user_id ≡ true)
      × (s'.tokens ≡ update_row (revoked_at_call actor s t) s.tokens)
unfolding revoke effects token_by_id save_token record_event revoke_key
revoke_inv actor id s s' h = elim (Option-cases (find (λ t. t.id == id) s.tokens)) [
  | inl e ↦ ground arith
  | inr (t, e) ↦ (t, e, ground arith, ground arith)
]

-- An actor with an id who is the owner or an administrator.
abbrev pub IsManager : User → ℕ → Type 0
IsManager actor owner = (0 < actor.id) × ((actor.id ≡ owner) ⊎ (is_admin actor.role ≡ true))

manages-IsManager : (actor : User) (owner : ℕ) → manages actor owner ≡ true → IsManager actor owner
unfolding manages
manages-IsManager actor owner h = elim (Bool-cases (actor.id == owner)) [
  | inl own ↦ (ground arith, inl (ground arith))
  | inr other ↦ (ground arith, inr (ground arith))
]

-- A revocation is reported done only for a stored key, and only to an actor with an id who owns the key
-- or is an administrator; and from then on no secret resolves to that key.
pub revoke-resolve :
    (hash_secret : Text → Text) (actor : User) (id : ℕ) (s s' s'' : Store) (secret : Text)
    (p : Principal) (g : Grant)
    → revoke actor id s ≡ (ok tt, s')
    → resolve hash_secret secret s' ≡ (ok (p, g), s'')
    → ((t : Token) × (find (λ t. t.id == id) s.tokens ≡ some t) × IsManager actor t.user_id)
      × (p.token_id ≢ id)
unfolding is_live
revoke-resolve hash_secret actor id s s' s'' secret p g h k =
    let (t, found, may, rows) = revoke_inv actor id s s' h in
    let (t', u, found', _, live, _, same, _) = resolve_sound hash_secret secret s' s'' p g k in
    let same_id = find-some (λ t. t.id == id) s.tokens t found in
    (
      (t, found, manages-IsManager actor t.user_id may),
      ground (
        arith,
        find-update_row (λ t. t.hash =t hash_secret secret) (revoked_at_call actor s t) t' s.tokens
            refl,
      ),
    )
