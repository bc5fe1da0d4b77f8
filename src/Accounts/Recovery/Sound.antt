-- ===== src/Accounts/Recovery/Sound.antt =====
-- Whom the shell lets back in.
use mathlib.Core.Path.{subst}
use llm_proxy_backend.Prelude.{
  ℕ, ◌≡◌, ◌∙◌, ◌⊎◌, ap, refl, sym, inl, inr, Bool, true, false, not, ◌&&◌, ◌||◌, some, List, [],
  ◌∷◌, map, arith, find, any, All, keep, Option-cases, ◌==◌, if◌then◌else◌,
}
use llm_proxy_backend.Prelude.Text.{Text, trim_space, ◌=t◌}
use llm_proxy_backend.Identity.{User, is_human, is_active, is_admin, can_sign_in}
use llm_proxy_backend.Store.{
  effects, Store, tick, ok, return, not_local, blocked, require, read_clock, ◌>>=◌, ◌>>◌,
}
use llm_proxy_backend.Store.Tables.{AuditEvent, Attempt, Password, user_password_reset, of_expiry}
use llm_proxy_backend.Store.Inversion.{bind-ok, then-ok, require-ok}
use llm_proxy_backend.Tokens.Repo.{record_event}
use llm_proxy_backend.Auth.Throttle.{clear_call}
use llm_proxy_backend.Auth.Repo.{user_by_email, has_address}
use llm_proxy_backend.Accounts.Repo.{list_users, view_of}
use llm_proxy_backend.Accounts.Temporary.{reset_password}
use llm_proxy_backend.Accounts.Temporary.Reset.{IsReset, IsElsewhere, reset_password-IsReset}
use llm_proxy_backend.Accounts.Recovery.{
  Recovered, shell_event, is_other_admin, other_active_admin, can_unblock, check_blocked,
  unblock_if, recover,
}

-- An administrator other than `id` who can sign in.
abbrev pub is_other : ℕ → User → Bool
is_other id v = not (v.id == id) && is_admin v.role && can_sign_in v

any-view :
    (id now : ℕ) (s : Store) (us : List User)
    → any (is_other_admin id) (map (λ u. view_of u now s) us) ≡ any (is_other id) us
unfolding view_of
any-view id now s [] = refl
any-view id now s (u ∷ us) = ap (λ b. is_other id u || b) (any-view id now s us)

other_active_admin-ok :
    (id : ℕ) (s s' : Store) (b : Bool)
    → other_active_admin id s ≡ (ok b, s')
    → b ≡ any (is_other id) s.users
unfolding other_active_admin list_users effects
other_active_admin-ok id s s' b h =
    ground (arith, any-view id ((tick s).clock (tick s).calls) (read_clock (tick s)).1 s.users)

-- The account is active, or the operator asked to unblock it, it is an administrator's, and nobody
-- else could.
abbrev pub IsReachable : User → Bool → List User → Type 0
IsReachable user wanted users =
    (is_active user.status ≡ true)
    ⊎ ((wanted ≡ true) × (is_admin user.role ≡ true) × (any (is_other user.id) users ≡ false))

return-true : (b : Bool) (s s' : Store) → return (not b) s ≡ (ok true, s') → b ≡ false
unfolding return
return-true b s s' h = ground arith

return-false : (s s' : Store) → return false s ≡ (ok true, s') → ⊥
unfolding return
return-false s s' h = ground arith

can_unblock-ok :
    (user : User) (s s' : Store)
    → can_unblock user s ≡ (ok true, s')
    → (is_admin user.role ≡ true) × (any (is_other user.id) s.users ≡ false)
unfolding can_unblock
can_unblock-ok user s s' h = split (is_admin user.role) h
  where
    split :
        (b : Bool)
        → (if b then (other_active_admin user.id >>= λ other. return (not other)) else return false)
            s
          ≡ (ok true, s')
        → (b ≡ true) × (any (is_other user.id) s.users ≡ false)
    split true h =
        let (other, s1, h1, r1) = bind-ok (other_active_admin user.id) _ s true s' h in
        (refl, sym (other_active_admin-ok user.id s s1 other h1) ∙ return-true other s1 s' r1)
    split false h = elim (return-false s s' h) [ ]

check_blocked-ok :
    (user : User) (wanted b : Bool) (s s' : Store)
    → check_blocked user wanted s ≡ (ok b, s')
    → IsReachable user wanted s.users
unfolding check_blocked
check_blocked-ok user wanted b s s' h = split (is_active user.status) h
  where
    asked : (may : Bool) → (wanted && may) ≡ true → (wanted ≡ true) × (may ≡ true)
    asked may e = (ground arith, ground arith)

    split :
        (active : Bool)
        → (if active
              then return false
              else (can_unblock user >>= λ may.
                  require (wanted && may) (blocked may) >> return true))
            s
          ≡ (ok b, s')
        → (active ≡ true)
          ⊎ ((wanted ≡ true)
              × (is_admin user.role ≡ true)
              × (any (is_other user.id) s.users ≡ false))
    split true h = inl refl
    split false h =
        let (may, s1, h1, r1) = bind-ok (can_unblock user) _ s b s' h in
        let (_, s2, h2, r2) = then-ok (require (wanted && may) (blocked may)) _ s1 b s' r1 in
        let (both, _) = require-ok (wanted && may) (blocked may) s1 s2 tt h2 in
        let (wished, possible) = asked may both in
        let (admin, alone) =
          can_unblock-ok user s s1 (subst (λ m. can_unblock user s ≡ (ok m, s1)) possible h1) in
        inr (wished, admin, alone)

user_by_email-ok :
    (lower : Text → Text) (email : Text) (s s' : Store) (u : User)
    → user_by_email lower email s ≡ (ok u, s')
    → (find (has_address lower email) s.users ≡ some u) × (s'.users ≡ s.users)
unfolding user_by_email effects
user_by_email-ok lower email s s' u h =
    elim (Option-cases (find (has_address lower email) s.users)) [
      | inl e ↦ ground arith
      | inr (v, e) ↦ (ground arith, ground arith)
    ]

-- No failed sign-in is counted against the address.
abbrev pub IsUncharged : Text → List Attempt → Type 0
IsUncharged key attempts = All (λ a. (a.email =t key) ≡ false) attempts

keep-IsUncharged :
    (key : Text) (rows : List Attempt) → IsUncharged key (keep (λ a. not (a.email =t key)) rows)
keep-IsUncharged key [] = tt
keep-IsUncharged key (a ∷ rows) = ground (arith, keep-IsUncharged key rows)

tail-frame :
    (lower : Text → Text) (email : Text) (e : AuditEvent) (out out' : Recovered) (s s' : Store)
    → (clear_call lower email >> (record_event e >> return out)) s ≡ (ok out', s')
    → (out' ≡ out)
      × (s'.users ≡ s.users)
      × (s'.passwords ≡ s.passwords)
      × (s'.sessions ≡ s.sessions)
      × (s'.attempts ≡ keep (λ a. not (a.email =t lower email)) s.attempts)
unfolding clear_call record_event effects
tail-frame lower email e out out' s s' h =
    (ground arith, ground arith, ground arith, ground arith, ground arith)

tail-kept :
    (lower hash : Text → Text) (email drawn : Text) (id : ℕ) (e : AuditEvent) (out out' : Recovered)
    (s s' : Store)
    → (clear_call lower email >> (record_event e >> return out)) s ≡ (ok out', s')
    → IsReset hash drawn id out.password s
    → IsReset hash drawn id out'.password s' × IsUncharged (lower email) s'.attempts
tail-kept lower hash email drawn id e out out' s s' h (a, b, (u, c, d), f) =
    let (told, users, passwords, sessions, attempts) = tail-frame lower email e out out' s s' h in
    (
      subst (λ (x : Recovered). IsReset hash drawn id x.password s') (sym told)
          (
            a,
            ap (find (λ (q : Password). q.user_id == id)) passwords ∙ b,
            (u, ap (find (λ (x : User). x.id == id)) users ∙ c, d),
            subst (All (IsElsewhere id)) (sym sessions) f,
          ),
      subst (IsUncharged (lower email)) (sym attempts) (keep-IsUncharged (lower email) s.attempts),
    )

-- What the operator gets: the account of the address, a temporary password for it, no session and no
-- failed sign-in.
abbrev pub IsRecovered :
    (Text → Text) → (Text → Text) → Text → Bool → Text → Recovered → Store → Store → Type 0
IsRecovered lower hash email wanted drawn out s s' =
    (user : User) × (find (has_address lower (trim_space email)) s.users ≡ some user)
    × (is_human user.kind ≡ true)
    × IsReachable user wanted s.users
    × IsReset hash drawn user.id out.password s'
    × IsUncharged (lower user.email) s'.attempts

-- A recovery that succeeded is of the stored human account of the address given, which was active, or
-- which the operator asked to unblock and which is an administrator's where no other administrator can
-- sign in. The operator holds its temporary password, whose hash is stored with the end that was told; it
-- must be changed; the account has no session, and its address no counted failure.
pub recover-IsRecovered :
    (lower hash : Text → Text) (email : Text) (wanted : Bool) (drawn : Text) (s s' : Store)
    (out : Recovered)
    → recover lower hash email wanted drawn s ≡ (ok out, s')
    → IsRecovered lower hash email wanted drawn out s s'
unfolding recover
recover-IsRecovered lower hash email wanted drawn s s' out h =
    let (user, s1, h1, r1) = bind-ok (user_by_email lower (trim_space email)) _ s out s' h in
    let (_, s2, h2, r2) = then-ok (require (is_human user.kind) not_local) _ s1 out s' r1 in
    let (unblocking, s3, h3, r3) = bind-ok (check_blocked user wanted) _ s2 out s' r2 in
    let (now, s4, h4, r4) = bind-ok read_clock _ s3 out s' r3 in
    let (active, s5, h5, r5) = bind-ok (unblock_if unblocking user now) _ s4 out s' r4 in
    let (password, s6, h6, r6) = bind-ok (reset_password hash drawn user.id now) _ s5 out s' r5 in
    let (found, same1) = user_by_email-ok lower (trim_space email) s s1 user h1 in
    let (human, same2) = require-ok (is_human user.kind) not_local s1 s2 tt h2 in
    let event = shell_event now user_password_reset user.id (of_expiry true password.expires_at) in
    let answer : Recovered = record {
      user = record active { must_change_password = true };
      password = password;
      unblocked = unblocking;
    } in
    let (reset, uncharged) =
      tail-kept lower hash user.email drawn user.id event answer out s6 s' r6
        (reset_password-IsReset hash drawn user.id now s5 s6 password h6) in
    (
      user,
      found,
      human,
      subst (IsReachable user wanted) (ap (λ (x : Store). x.users) same2 ∙ same1)
          (check_blocked-ok user wanted unblocking s2 s3 h3),
      reset,
      uncharged,
    )
