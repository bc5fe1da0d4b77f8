-- ===== src/Gateway/Credentials/Sound.antt =====
-- What an admitted request presented.
use mathlib.Core.Path.{subst, ap}
use llm_proxy_backend.Prelude.{
  ◌≡◌, refl, if◌then◌else◌, ◌⊎◌, inl, inr, Any, Bool, true, List, [], ◌∷◌, arith, find, some, ◌==◌,
}
use llm_proxy_backend.Prelude.Text.{Text, ◌=t◌}
use llm_proxy_backend.Identity.{User, can_use_api, label}
use llm_proxy_backend.Access.Policy.{is_empty}
use llm_proxy_backend.Store.{effects, Store, invalid_credentials, Result, ok, err}
use llm_proxy_backend.Store.Tables.{Token}
use llm_proxy_backend.Tokens.Key.{is_live}
use llm_proxy_backend.Tokens.Repo.{user_by_id, token_by_hash}
use llm_proxy_backend.Tokens.Resolver.{Principal, Grant, resolve}
use llm_proxy_backend.Tokens.Resolver.Refusals.{resolve_sound}
use llm_proxy_backend.Gateway.Credentials.{
  rejected, AuthError, Headers, Source, Candidate, Authentication, admitted, try_next,
  resolve_first, authenticate, credential_candidates,
}

-- Nothing but the count of calls may differ.
abbrev pub IsSameButCalls : Store → Store → Type 0
IsSameButCalls s s' = s' ≡ record s { calls = s'.calls }

IsSameButCalls-trans :
    (s s' s'' : Store) → IsSameButCalls s s' → IsSameButCalls s' s'' → IsSameButCalls s s''
IsSameButCalls-trans s s' s'' h k = ground arith

-- Resolving only counts its calls.
resolve_frame :
    (hash_secret : Text → Text) (secret : Text) (s : Store)
    → IsSameButCalls s (resolve hash_secret secret s).1
unfolding resolve effects token_by_hash user_by_id
resolve_frame hash_secret secret s = ground arith

-- A secret of a stored live key, with the key's owner, who may use the API, and the principal and
-- the grant that are theirs.
abbrev pub IsResolved : (Text → Text) → List Token → List User → Principal → Grant → Text → Type 0
IsResolved hash_secret tokens users p g secret =
    (t : Token) × (u : User) × (find (λ t. t.hash =t hash_secret secret) tokens ≡ some t)
    × (find (λ u. u.id == t.user_id) users ≡ some u)
    × (is_live t ≡ true)
    × (can_use_api u ≡ true)
    × (p ≡ record { user_id = t.user_id; token_id = t.id; owner = label u })
    × (g ≡ record { policy = u.policy; spend_limits = u.spend_limits })

abbrev pub IsBackedBy :
    (Text → Text) → List Token → List User → Principal → Grant → Source → Candidate → Type 0
IsBackedBy hash_secret tokens users p g source c =
    (source ≡ c.source) × IsResolved hash_secret tokens users p g c.secret

try_next_frame :
    (s : Store) (r : Result (Principal × Grant) × Store) (source : Source)
    (next : Store → Authentication × Store)
    → IsSameButCalls s r.1
    → ((s' : Store) → IsSameButCalls s' (next s').1)
    → IsSameButCalls s (try_next r source next).1
unfolding try_next
try_next_frame s (ok (p, g), s') source next h k = h
try_next_frame s (err invalid_credentials, s') source next h k =
    IsSameButCalls-trans s s' (next s').1 h (k s')
try_next_frame s (err _, s') source next h k = h

-- Only the first candidate that resolves admits.
try_next_inv :
    (r : Result (Principal × Grant) × Store) (source : Source)
    (next : Store → Authentication × Store) (p : Principal) (g : Grant) (from : Source) (s' : Store)
    → try_next r source next ≡ (admitted p g from, s')
    → ((from ≡ source) × (r ≡ (ok (p, g), s'))) ⊎ (next r.1 ≡ (admitted p g from, s'))
unfolding try_next
try_next_inv (ok (p', g'), s'') source next p g from s' h = ground arith
try_next_inv (err invalid_credentials, s'') source next p g from s' h = inr h
try_next_inv (err _, s'') source next p g from s' h = ground arith

module _ (hash_secret : Text → Text) where
  resolve_first_frame :
      (cs : List Candidate) (s : Store) → IsSameButCalls s (resolve_first hash_secret cs s).1
  unfolding resolve_first
  resolve_first_frame [] s = refl
  resolve_first_frame (c ∷ cs) s =
      try_next_frame s (resolve hash_secret c.secret s) c.source (resolve_first hash_secret cs)
        (resolve_frame hash_secret c.secret s) (resolve_first_frame cs)

  resolve_first_sound :
      (cs : List Candidate) (s s' : Store) (p : Principal) (g : Grant) (source : Source)
      → resolve_first hash_secret cs s ≡ (admitted p g source, s')
      → Any (IsBackedBy hash_secret s.tokens s.users p g source) cs
  unfolding resolve_first
  resolve_first_sound [] s s' p g source h = ground arith
  resolve_first_sound (c ∷ cs) s s' p g source h =
      elim (try_next_inv (resolve hash_secret c.secret s) c.source (resolve_first hash_secret cs) p
        g source s' h) [
          | inl (e, r) ↦ inl (e, resolve_sound hash_secret c.secret s s' p g r)
          | inr r ↦ inr (
              subst (λ (st : Store). Any (IsBackedBy hash_secret st.tokens st.users p g source) cs)
                (resolve_frame hash_secret c.secret s)
                (resolve_first_sound cs (resolve hash_secret c.secret s).1 s' p g source r))
        ]

  -- A request is admitted only for a credential it presents in one of the five places: the secret of a
  -- stored, live key whose owner may use the API; the principal and the grant are that key's and
  -- that owner's, and the stores are as they were but for the count of calls.
  pub authenticate_sound :
      (equal_fold : Text → Text → Bool) (r : Headers) (s s' : Store) (p : Principal) (g : Grant)
      (source : Source)
      → authenticate equal_fold hash_secret r s ≡ (admitted p g source, s')
      → Any
          (IsBackedBy hash_secret s.tokens s.users p g source)
          (credential_candidates equal_fold r)
        × IsSameButCalls s s'
  unfolding authenticate
  authenticate_sound equal_fold r s s' p g source h =
      let cs = credential_candidates equal_fold r in
      let reached = resolved (is_empty cs) _ _ h in
      (
        resolve_first_sound cs s s' p g source reached,
        subst (IsSameButCalls s) (ap (λ x. x.1) reached) (resolve_first_frame cs s),
      )
    where
      resolved :
          (b : Bool) (e : AuthError) (x : Authentication × Store)
          → (if b then (rejected e, s) else x) ≡ (admitted p g source, s')
          → x ≡ (admitted p g source, s')
      resolved b e x k = ground arith
