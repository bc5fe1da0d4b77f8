-- ===== src/Auth/Password/SignIn.antt =====
-- Who is signed in.
use mathlib.Core.Path.{ap, subst, sym, ◌∙◌}
use llm_proxy_backend.Prelude.{
  ℕ, ◌≡◌, inl, inr, Bool, true, Option, some, List, [], arith, find, Option-cases, ◌==◌,
  if◌then◌else◌,
}
use llm_proxy_backend.Prelude.Text.{Text, ◌=t◌}
use llm_proxy_backend.Identity.{User, can_sign_in}
use llm_proxy_backend.Store.{effects, Store, Result, ok, invalid_credentials, require, return}
use llm_proxy_backend.Store.Tables.{Session, Password, auth_signin}
use llm_proxy_backend.Store.Inversion.{bind-ok, then-ok, require-ok}
use llm_proxy_backend.Auth.Throttle.{
  check, charge, clear, read_lock, compare_lock, charge_call, clear_call,
}
use llm_proxy_backend.Auth.Repo.{get_password, has_address, user_by_email}
use llm_proxy_backend.Auth.Session.{Meta, open_session}
use llm_proxy_backend.Auth.Session.Opened.{IsOpened, open_session-IsOpened}
use llm_proxy_backend.Auth.Password.{
  SignInAttempt, sign_in, resolve_attempt, attempt_by, attempt_of, is_over, verify_attempt,
  verify_password, owner_of,
}

-- Throttling touches neither accounts nor passwords.
abbrev HasSameAccounts : Store → Store → Type 0
HasSameAccounts s s' = (s'.users ≡ s.users) × (s'.passwords ≡ s.passwords)

check_frame :
    (lower : Text → Text) (max lock : ℕ) (email : Text) (s : Store)
    → HasSameAccounts s (check lower max lock email s).1
unfolding check effects read_lock compare_lock
check_frame lower max lock email s = ground arith

charge_frame :
    (lower : Text → Text) (max lock : ℕ) (email : Text) (s : Store)
    → HasSameAccounts s (charge lower max lock email s).1
unfolding charge effects charge_call
charge_frame lower max lock email s = ground arith

-- An account that may sign in with the password stored for it, which is not over.
abbrev pub IsEligible :
    (Text → Text) → Text → List User → List Password → Option User → Text → Type 0
IsEligible lower email users passwords user hash =
    (u : User) × (p : Password) × (find (has_address lower email) users ≡ some u)
    × (can_sign_in u ≡ true)
    × (find (λ p. p.user_id == u.id) passwords ≡ some p)
    × (user ≡ some u)
    × (hash ≡ p.hash)

resolve_attempt-eligible :
    (lower : Text → Text) (email : Text) (s s' : Store) (a : SignInAttempt)
    → resolve_attempt lower email s ≡ (ok a, s')
    → a.eligible ≡ true
    → IsEligible lower email s.users s.passwords a.user a.hash
unfolding resolve_attempt attempt_by attempt_of is_over user_by_email get_password effects
resolve_attempt-eligible lower email s s' a h e =
    elim (Option-cases (find (has_address lower email) s.users)) [
      | inl none_found ↦ ground arith
      | inr (u, found) ↦ elim (Option-cases (find (λ p. p.user_id == u.id) s.passwords)) [
        | inl none_found ↦ ground arith
        | inr (p, found') ↦ (u, p, found, ground arith, found', ground arith, ground arith)
      ]
    ]

verify_attempt-ok :
    (verify : Text → Text → Bool) (decoy : Text) (a : SignInAttempt) (plain : Text) (s s' : Store)
    (b : Bool)
    → verify_attempt verify decoy a plain s ≡ (ok b, s')
    → b ≡ true
    → (verify (if a.hash =t [] then decoy else a.hash) plain ≡ true) × (a.eligible ≡ true)
unfolding verify_attempt verify_password effects
verify_attempt-ok verify decoy a plain s s' b h e = ground arith

owner_of-ok :
    (a : SignInAttempt) (s s' : Store) (u : User) → owner_of a s ≡ (ok u, s') → a.user ≡ some u
unfolding effects
owner_of-ok a s s' u h = elim (Option-cases a.user) [
  | inl e ↦ ground arith
  | inr (v, e) ↦ ground arith
]

return-ok : {A : Type 0} (a b : A) (s s' : Store) → return a s ≡ (ok b, s') → (a ≡ b) × (s ≡ s')
unfolding return
return-ok a b s s' h = (ground arith, ground arith)

kept :
    {A : Type 0} {r : Result A × Store} {a : A} {s' : Store} {rows : List Session}
    → r ≡ (ok a, s')
    → r.1.sessions ≡ rows
    → s'.sessions ≡ rows
kept {rows = rows} h k = subst (λ r. r.1.sessions ≡ rows) h k

check_sessions :
    (lower : Text → Text) (max lock : ℕ) (email : Text) (s : Store)
    → (check lower max lock email s).1.sessions ≡ s.sessions
unfolding check effects read_lock compare_lock
check_sessions lower max lock email s = ground arith

charge_sessions :
    (lower : Text → Text) (max lock : ℕ) (email : Text) (s : Store)
    → (charge lower max lock email s).1.sessions ≡ s.sessions
unfolding charge effects charge_call
charge_sessions lower max lock email s = ground arith

clear_sessions :
    (lower : Text → Text) (max lock : ℕ) (email : Text) (s : Store)
    → (clear lower max lock email s).1.sessions ≡ s.sessions
unfolding clear effects clear_call
clear_sessions lower max lock email s = ground arith

resolve_attempt_sessions :
    (lower : Text → Text) (email : Text) (s : Store)
    → (resolve_attempt lower email s).1.sessions ≡ s.sessions
unfolding resolve_attempt attempt_by attempt_of is_over user_by_email get_password effects
resolve_attempt_sessions lower email s = ground arith

verify_attempt_sessions :
    (verify : Text → Text → Bool) (decoy : Text) (a : SignInAttempt) (plain : Text) (s : Store)
    → (verify_attempt verify decoy a plain s).1.sessions ≡ s.sessions
unfolding verify_attempt verify_password effects
verify_attempt_sessions verify decoy a plain s = ground arith

owner_of_sessions : (a : SignInAttempt) (s : Store) → (owner_of a s).1.sessions ≡ s.sessions
unfolding effects
owner_of_sessions a s = ground arith

module _ (lower : Text → Text) (max_failures lock_for : ℕ) (verify : Text → Text → Bool)
    (hash_session : Text → Text) where
  -- The session is the account's, and its row is added to those there were.
  sign_in-IsOpened :
      (decoy email plain : Text) (meta : Meta) (id : Text) (s s' : Store) (x : Session) (u : User)
      → sign_in lower max_failures lock_for verify hash_session decoy email plain meta id s
        ≡ (ok (x, u), s')
      → IsOpened hash_session u id s.sessions s'.sessions x
  unfolding sign_in
  sign_in-IsOpened decoy email plain meta id s s' x u h =
      let (_, s1, h1, r1) = then-ok (check lower max_failures lock_for email) _ s (x, u) s' h in
      let (_, s2, h2, r2) = then-ok (charge lower max_failures lock_for email) _ s1 (x, u) s' r1 in
      let (a, s3, h3, r3) = bind-ok (resolve_attempt lower email) _ s2 (x, u) s' r2 in
      let (b, s4, h4, r4) = bind-ok (verify_attempt verify decoy a plain) _ s3 (x, u) s' r3 in
      let (_, s5, h5, r5) = then-ok (require b invalid_credentials) _ s4 (x, u) s' r4 in
      let (_, s6, h6, r6) = then-ok (clear lower max_failures lock_for email) _ s5 (x, u) s' r5 in
      let (v, s7, h7, r7) = bind-ok (owner_of a) _ s6 (x, u) s' r6 in
      let (y, s8, h8, r8) =
        bind-ok (open_session hash_session v auth_signin meta id) _ s7 (x, u) s' r7 in
      let same : s7.sessions ≡ s.sessions =
        kept h7 (owner_of_sessions a s6)
        ∙ kept h6 (clear_sessions lower max_failures lock_for email s5)
        ∙ ap (λ (t : Store). t.sessions) (require-ok b invalid_credentials s4 s5 tt h5).1
        ∙ kept h4 (verify_attempt_sessions verify decoy a plain s3)
        ∙ kept h3 (resolve_attempt_sessions lower email s2)
        ∙ kept h2 (charge_sessions lower max_failures lock_for email s1)
        ∙ kept h1 (check_sessions lower max_failures lock_for email s) in
      let (result, last) = return-ok (y, v) (x, u) s8 s' r8 in
      subst (λ (z : Session × User). IsOpened hash_session z.1 id s.sessions s'.sessions z.0) result
        (subst (λ (t : Store). IsOpened hash_session v id s.sessions t.sessions y) last
          (subst (λ rows. IsOpened hash_session v id rows s8.sessions y) same
            (open_session-IsOpened hash_session v auth_signin meta id s7 s8 y h8)))

  -- Someone is signed in only as the stored account of the address given, which may sign in, and only
  -- with a password that verifies against the hash stored for that account (or, where the stored
  -- hash is empty, against the decoy); and the session is that account's, under the id drawn, with
  -- its row added to the table of sessions, which is otherwise as it was.
  pub sign_in_sound :
      (decoy email plain : Text) (meta : Meta) (id : Text) (s s' : Store) (x : Session) (u : User)
      → sign_in lower max_failures lock_for verify hash_session decoy email plain meta id s
        ≡ (ok (x, u), s')
      → (p : Password) × (find (has_address lower email) s.users ≡ some u)
        × (can_sign_in u ≡ true)
        × (find (λ p. p.user_id == u.id) s.passwords ≡ some p)
        × (verify (if p.hash =t [] then decoy else p.hash) plain ≡ true)
        × IsOpened hash_session u id s.sessions s'.sessions x
  unfolding sign_in
  sign_in_sound decoy email plain meta id s s' x u h =
      let (_, s1, h1, r1) = then-ok (check lower max_failures lock_for email) _ s (x, u) s' h in
      let (_, s2, h2, r2) = then-ok (charge lower max_failures lock_for email) _ s1 (x, u) s' r1 in
      let (a, s3, h3, r3) = bind-ok (resolve_attempt lower email) _ s2 (x, u) s' r2 in
      let (b, s4, h4, r4) = bind-ok (verify_attempt verify decoy a plain) _ s3 (x, u) s' r3 in
      let (_, s5, h5, r5) = then-ok (require b invalid_credentials) _ s4 (x, u) s' r4 in
      let (_, s6, h6, r6) = then-ok (clear lower max_failures lock_for email) _ s5 (x, u) s' r5 in
      let (v, s7, h7, r7) = bind-ok (owner_of a) _ s6 (x, u) s' r6 in
      let (y, s8, h8, r8) =
        bind-ok (open_session hash_session v auth_signin meta id) _ s7 (x, u) s' r7 in
      let (passed, _) = require-ok b invalid_credentials s4 s5 tt h5 in
      let (verified, eligible) = verify_attempt-ok verify decoy a plain s3 s4 b h4 passed in
      let (users1, passwords1) =
        subst (λ r. HasSameAccounts s r.1) h1 (check_frame lower max_failures lock_for email s) in
      let (users2, passwords2) =
        subst (λ r. HasSameAccounts s1 r.1) h2
          (charge_frame lower max_failures lock_for email s1) in
      let (w, p, found, may, stored, owner, hash) =
        resolve_attempt-eligible lower email s2 s3 a h3 eligible in
      let opened = sign_in-IsOpened decoy email plain meta id s s' x u h in
      signed_in v w p opened (owner_of-ok a s6 s7 v h7) owner
        (ap (λ (z : Session × User). z.1) (return-ok (y, v) (x, u) s8 s' r8).0)
        (ap (find (has_address lower email)) (sym (users2 ∙ users1)) ∙ found) may
        (ap (find (λ (p : Password). p.user_id == w.id)) (sym (passwords2 ∙ passwords1)) ∙ stored)
        (subst (λ k. verify (if k =t [] then decoy else k) plain ≡ true) hash verified)
    where
      signed_in :
          (v w : User) (p : Password) {o : Option User}
          → IsOpened hash_session u id s.sessions s'.sessions x
          → o ≡ some v
          → o ≡ some w
          → v ≡ u
          → find (has_address lower email) s.users ≡ some w
          → can_sign_in w ≡ true
          → find (λ p. p.user_id == w.id) s.passwords ≡ some p
          → verify (if p.hash =t [] then decoy else p.hash) plain ≡ true
          → (p : Password) × (find (has_address lower email) s.users ≡ some u)
            × (can_sign_in u ≡ true)
            × (find (λ p. p.user_id == u.id) s.passwords ≡ some p)
            × (verify (if p.hash =t [] then decoy else p.hash) plain ≡ true)
            × IsOpened hash_session u id s.sessions s'.sessions x
      signed_in v w p opened e f g found may stored verified =
          let same : w ≡ u = ground arith in
          (
            p,
            found ∙ ap some same,
            subst (λ w. can_sign_in w ≡ true) same may,
            subst (λ (w : User). find (λ p. p.user_id == w.id) s.passwords ≡ some p) same stored,
            verified,
            opened,
          )
