-- ===== src/Auth/Password/Change.antt =====
-- What a changed password takes and what it leaves.
use mathlib.Core.Path.{ap, subst, sym, ◌∙◌}
use llm_proxy_backend.Prelude.{
  ℕ, ◌≤◌, ◌≡◌, ◌⊎◌, inl, inr, ◌&&◌, not, Bool, true, false, none, some, List, [], ◌∷◌, arith, find,
  Option-cases, All, keep, length, ◌==◌,
}
use llm_proxy_backend.Prelude.Text.{Text, ◌=t◌}
use llm_proxy_backend.Identity.{User, can_sign_in}
use llm_proxy_backend.Store.{
  effects, Store, ok, forbidden, invalid_credentials, require, call, return,
}
use llm_proxy_backend.Store.Tables.{Session, Password}
use llm_proxy_backend.Store.Inversion.{bind-ok, then-ok, require-ok}
use llm_proxy_backend.Tokens.Repo.{user_by_id, record_event}
use llm_proxy_backend.Auth.Repo.{
  get_password, put_password, set_password, set_must_change_password, delete_by_user_except,
  with_must_change,
}
use llm_proxy_backend.Auth.Password.{
  replace_password, change_password, check_current, check_new_password, verify_password, is_over,
}

-- The sessions that the change leaves.
abbrev pub IsEnded : ℕ → Text → Session → Type 0
IsEnded user hash x = ((x.user_id == user) && not (x.id_hash =t hash)) ≡ false

keep-IsEnded :
    (user : ℕ) (hash : Text) (xs : List Session)
    → All (IsEnded user hash) (keep (λ x. not ((x.user_id == user) && not (x.id_hash =t hash))) xs)
keep-IsEnded user hash [] = tt
keep-IsEnded user hash (x ∷ xs) = ground (arith, keep-IsEnded user hash xs)

pub find-put_password :
    (p : Password) (rows : List Password)
    → find (λ q. q.user_id == p.user_id) (put_password p rows) ≡ some p
unfolding put_password
find-put_password p [] = ground arith
find-put_password p (q ∷ rows) = ground (arith, find-put_password p rows)

replace_password-tables :
    (user : ℕ) (hash : Text) (sess : Session) (s s' : Store)
    → replace_password user hash sess s ≡ (ok tt, s')
    → (s'.passwords
        ≡ put_password (record { user_id = user; hash = hash; expires_at = none }) s.passwords)
      × (s'.users ≡ with_must_change user false s.users)
      × (s'.sessions
          ≡ keep (λ x. not ((x.user_id == user) && not (x.id_hash =t sess.id_hash))) s.sessions)
unfolding replace_password effects set_password set_must_change_password delete_by_user_except
    record_event
replace_password-tables user hash sess s s' h = (ground arith, ground arith, ground arith)

replace_password-ok :
    (user : ℕ) (hash : Text) (sess : Session) (s s' : Store)
    → replace_password user hash sess s ≡ (ok tt, s')
    → (find (λ q. q.user_id == user) s'.passwords
        ≡ some (record { user_id = user; hash = hash; expires_at = none }))
      × All (IsEnded user sess.id_hash) s'.sessions
replace_password-ok user hash sess s s' h =
    let p : Password = record { user_id = user; hash = hash; expires_at = none } in
    let (passwords, _, sessions) = replace_password-tables user hash sess s s' h in
    (
      ap (find (λ q. q.user_id == user)) passwords ∙ find-put_password p s.passwords,
      subst (All (IsEnded user sess.id_hash)) (sym sessions)
          (keep-IsEnded user sess.id_hash s.sessions),
    )

user_by_id-ok :
    (id : ℕ) (s s' : Store) (u : User)
    → user_by_id id s ≡ (ok u, s')
    → (find (λ u. u.id == id) s.users ≡ some u) × (s'.passwords ≡ s.passwords)
unfolding user_by_id effects
user_by_id-ok id s s' u h = elim (Option-cases (find (λ u. u.id == id) s.users)) [
  | inl e ↦ ground arith
  | inr (v, e) ↦ ground arith
]

get_password-ok :
    (user : ℕ) (s s' : Store) (p : Password)
    → get_password user s ≡ (ok p, s')
    → find (λ p. p.user_id == user) s.passwords ≡ some p
unfolding get_password effects
get_password-ok user s s' p h = elim (Option-cases (find (λ p. p.user_id == user) s.passwords)) [
  | inl e ↦ ground arith
  | inr (v, e) ↦ ground arith
]

hash-ok : (hash plain : Text) (s s' : Store) → call (return plain) s ≡ (ok hash, s') → hash ≡ plain
unfolding effects
hash-ok hash plain s s' h = ground arith

check_current-ok :
    (verify : Text → Text → Bool) (user : User) (current : Password) (plain : Text) (s s' : Store)
    → check_current verify user current plain s ≡ (ok tt, s')
    → (user.must_change_password ≡ true) ⊎ (verify current.hash plain ≡ true)
unfolding check_current verify_password effects
check_current-ok verify user current plain s s' h = ground arith

check_new_password-ok :
    (plain : Text) (s s' : Store) → check_new_password plain s ≡ (ok tt, s') → 12 ≤ length plain
unfolding check_new_password effects
check_new_password-ok plain s s' h = ground arith

module _ (verify : Text → Text → Bool) (hash_password : Text → Text) where
  -- A changed password is that of a stored account that may sign in. Its owner gave the current
  -- password, unless the stored account is flagged to change a temporary one, whatever the session
  -- says; the new one has at least 12 characters. It is then the account's stored password, with no
  -- expiry, and the account has no session but the one the change was made from.
  pub change_password-ok :
      (sess : Session) (current_plain new_plain : Text) (s s' : Store)
      → change_password verify hash_password sess current_plain new_plain s ≡ (ok tt, s')
      → (user : User) × (current : Password) × (find (λ u. u.id == sess.user_id) s.users
          ≡ some user)
        × (can_sign_in user ≡ true)
        × (find (λ p. p.user_id == user.id) s.passwords ≡ some current)
        × ((user.must_change_password ≡ true) ⊎ (verify current.hash current_plain ≡ true))
        × (12 ≤ length new_plain)
        × (find (λ q. q.user_id == user.id) s'.passwords
            ≡ some
                (record { user_id = user.id; hash = hash_password new_plain; expires_at = none }))
        × All (IsEnded user.id sess.id_hash) s'.sessions
  unfolding change_password
  change_password-ok sess current_plain new_plain s s' h =
      let (user, s1, h1, r1) = bind-ok (user_by_id sess.user_id) _ s tt s' h in
      let (_, s2, h2, r2) = then-ok (require (can_sign_in user) forbidden) _ s1 tt s' r1 in
      let (current, s3, h3, r3) = bind-ok (get_password user.id) _ s2 tt s' r2 in
      let (over, s4, h4, r4) = bind-ok (is_over current.expires_at) _ s3 tt s' r3 in
      let (_, s5, h5, r5) = then-ok (require (not over) invalid_credentials) _ s4 tt s' r4 in
      let (_, s6, h6, r6) =
        then-ok (check_current verify user current current_plain) _ s5 tt s' r5 in
      let (_, s7, h7, r7) = then-ok (check_new_password new_plain) _ s6 tt s' r6 in
      let (hash, s8, h8, r8) = bind-ok (call (return (hash_password new_plain))) _ s7 tt s' r7 in
      let (found, same) = user_by_id-ok sess.user_id s s1 user h1 in
      let (may, stay) = require-ok (can_sign_in user) forbidden s1 s2 tt h2 in
      let stored = get_password-ok user.id s2 s3 current h3 in
      let (written, ended) = replace_password-ok user.id hash sess s8 s' r8 in
      (
        user,
        current,
        found,
        may,
        ap (find (λ (p : Password). p.user_id == user.id))
              (sym same ∙ ap (λ (st : Store). st.passwords) (sym stay))
            ∙ stored,
        check_current-ok verify user current current_plain s5 s6 h6,
        check_new_password-ok new_plain s6 s7 h7,
        subst
            (λ k.
              find (λ q. q.user_id == user.id) s'.passwords
              ≡ some (record { user_id = user.id; hash = k; expires_at = none }))
            (hash-ok hash (hash_password new_plain) s7 s8 h8) written,
        ended,
      )
