-- ===== src/Accounts/Admin/Blocking.antt =====
-- What blocking an account leaves of it.
use mathlib.Core.Path.{subst}
use llm_proxy_backend.Prelude.{
  refl, ℕ, ◌≡◌, ◌≢◌, ◌∙◌, ap, sym, inl, inr, true, false, not, ◌&&◌, some, List, [], ◌∷◌, arith,
  find, keep, All, Option-cases, ◌==◌, if◌then◌else◌,
}
use llm_proxy_backend.Prelude.Text.{Text}
use llm_proxy_backend.Identity.{User, Status, can_use_api, require_admin}
use llm_proxy_backend.Store.{
  err, Result, effects, Store, ok, forbidden, self_lockout, require, read_clock, ◌>>=◌, ◌>>◌,
}
use llm_proxy_backend.Store.Tables.{AuditEvent}
use llm_proxy_backend.Store.Inversion.{bind-ok, then-ok}
use llm_proxy_backend.Tokens.Repo.{user_by_id, record_event}
use llm_proxy_backend.Tokens.Resolver.{Principal, Grant, resolve}
use llm_proxy_backend.Tokens.Resolver.Refusals.{resolve_sound}
use llm_proxy_backend.Accounts.Repo.{
  AdminChange, UserView, with_change, change_rows, delete_by_user, update_admin_state, view_user,
  find_view,
}
use llm_proxy_backend.Accounts.Temporary.Reset.{IsElsewhere, keep-IsElsewhere}
use llm_proxy_backend.Accounts.Provision.{Config}
use llm_proxy_backend.Accounts.Admin.{
  UserChanges, admin_change, sets_nothing, locks_out, check_change, end_sessions_of_blocked,
  apply_change, update_user,
}

with_change-id : (ch : AdminChange) (u : User) → (with_change ch u).id ≡ u.id
unfolding with_change
with_change-id ch u = elim (Option-cases ch.policy) [
  | inl e ↦ ground arith
  | inr (p, e) ↦ ground arith
]

with_change-status :
    (ch : AdminChange) (u : User) (x : Status) → ch.status ≡ some x → (with_change ch u).status ≡ x
unfolding with_change
with_change-status ch u x h = elim (Option-cases ch.policy) [
  | inl e ↦ ground arith
  | inr (p, e) ↦ ground arith
]

find-change_rows :
    (id : ℕ) (ch : AdminChange) (us : List User) (u : User)
    → find (λ u. u.id == id) us ≡ some u
    → find (λ u. u.id == id) (change_rows id ch us) ≡ some (with_change ch u)
unfolding change_rows
find-change_rows id ch [] u h = ground arith
find-change_rows id ch (v ∷ us) u h =
    ground (arith, with_change-id ch v, find-change_rows id ch us u)

update_admin_state-ok :
    (id : ℕ) (ch : AdminChange) (s s' : Store)
    → update_admin_state id ch s ≡ (ok tt, s')
    → (u : User) × (find (λ u. u.id == id) s'.users ≡ some (with_change ch u))
unfolding update_admin_state effects
update_admin_state-ok id ch s s' h = elim (Option-cases (find (λ u. u.id == id) s.users)) [
  | inl e ↦ ground arith
  | inr (u, e) ↦
      (u, ap (find λ (u : User). u.id == id) (ground arith) ∙ find-change_rows id ch s.users u e)
]

end_sessions-ok :
    (lower : ℕ → ℕ) (cfg : Config) (id : ℕ) (s s' : Store)
    → end_sessions_of_blocked lower cfg id (some Status.blocked) s ≡ (ok tt, s')
    → (s'.users ≡ s.users) × (s'.sessions ≡ keep (λ x. not (x.user_id == id)) s.sessions)
unfolding end_sessions_of_blocked delete_by_user effects
end_sessions-ok lower cfg id s s' h = (ground arith, ground arith)

admin_change-ok :
    (lower : ℕ → ℕ) (cfg : Config) (ch : UserChanges) (s s' : Store) (change : AdminChange)
    → admin_change lower cfg ch s ≡ (ok change, s')
    → change.status ≡ ch.status
unfolding admin_change effects
admin_change-ok lower cfg ch s s' change h = ground arith

audited_view-frame :
    (e : ℕ → AuditEvent) (id : ℕ) (s s' : Store) (v : UserView)
    → (read_clock >>= λ now. record_event (e now) >> view_user id) s ≡ (ok v, s')
    → (s'.users ≡ s.users) × (s'.sessions ≡ s.sessions)
unfolding record_event view_user find_view effects
audited_view-frame e id s s' v h = elim (Option-cases (find (λ u. u.id == id) s.users)) [
  | inl e ↦ (ground arith, ground arith)
  | inr (u, e) ↦ (ground arith, ground arith)
]

-- The account stands in the store as blocked, and has no session there.
abbrev pub IsShutOut : ℕ → Store → Type 0
IsShutOut id s =
    (u : User) × (find (λ u. u.id == id) s.users ≡ some u)
    × (u.status ≡ Status.blocked)
    × All (IsElsewhere id) s.sessions

apply_change-IsShutOut :
    (lower : ℕ → ℕ) (cfg : Config) (actor : User) (id : ℕ) (change : AdminChange) (s s' : Store)
    (v : UserView)
    → change.status ≡ some Status.blocked
    → apply_change lower cfg actor id change s ≡ (ok v, s')
    → IsShutOut id s'
unfolding apply_change
apply_change-IsShutOut lower cfg actor id change s s' v b h =
    let (user, s1, h1, r1) = bind-ok (user_by_id id) _ s v s' h in
    let (_, s2, h2, r2) = then-ok (check_change lower cfg change user) _ s1 v s' r1 in
    let (_, s3, h3, r3) = then-ok (update_admin_state id change) _ s2 v s' r2 in
    let (_, s4, h4, r4) =
      then-ok (end_sessions_of_blocked lower cfg id change.status) _ s3 v s' r3 in
    let (u, found) = update_admin_state-ok id change s2 s3 h3 in
    let (users, ended) =
      end_sessions-ok lower cfg id s3 s4
        (subst (λ x. end_sessions_of_blocked lower cfg id x s3 ≡ (ok tt, s4)) b h4) in
    let (users', sessions') = audited_view-frame _ id s4 s' v r4 in
    (
      with_change change u,
      ap (find (λ (u : User). u.id == id)) (users' ∙ users) ∙ found,
      with_change-status change u Status.blocked b,
      subst (All (IsElsewhere id)) (sym (sessions' ∙ ended)) (keep-IsElsewhere id s3.sessions),
    )

sets_nothing-status :
    (change : AdminChange) (x : Status) → change.status ≡ some x → sets_nothing change ≡ false
sets_nothing-status change x h = ground arith

module _ (lower : ℕ → ℕ) (cfg : Config) where
  update_user-IsShutOut :
      (actor : User) (id : ℕ) (ch : UserChanges) (s s' : Store) (v : UserView)
      → ch.status ≡ some Status.blocked
      → update_user lower cfg actor id ch s ≡ (ok v, s')
      → IsShutOut id s'
  unfolding update_user
  update_user-IsShutOut actor id ch s s' v b h =
      let (_, s1, h1, r1) = then-ok (require (require_admin actor) forbidden) _ s v s' h in
      let (change, s2, h2, r2) = bind-ok (admin_change lower cfg ch) _ s1 v s' r1 in
      let (_, s3, h3, r3) =
        then-ok (require (not ((id == actor.id) && locks_out ch)) self_lockout) _ s2 v s' r2 in
      let b' = admin_change-ok lower cfg ch s1 s2 change h2 ∙ b in
      apply_change-IsShutOut lower cfg actor id change s3 s' v b' (
        subst
          (λ x.
            (if x then view_user id else apply_change lower cfg actor id change) s3 ≡ (ok v, s'))
          (sets_nothing-status change Status.blocked b') r3)

blocked_User-refused : (u : User) → u.status ≡ Status.blocked → can_use_api u ≡ true → ⊥
unfolding can_use_api
blocked_User-refused u h c = ground arith

IsShutOut-owner :
    (id k : ℕ) (s : Store) (w : User)
    → IsShutOut id s
    → find (λ u. u.id == k) s.users ≡ some w
    → can_use_api w ≡ true
    → k ≢ id
IsShutOut-owner id k s w (u, found, status, _) owner may same =
    let found' = subst (λ i. find (λ u. u.id == i) s.users ≡ some w) same owner in
    let u_w : u ≡ w = ground (arith, found, found') in
    blocked_User-refused w (subst (λ (x : User). x.status ≡ Status.blocked) u_w status) may

-- The secret is not answered with the account.
abbrev pub IsNotOf : ℕ → Result (Principal × Grant) → Type 0
IsNotOf id (ok (p, _)) = p.user_id ≢ id
IsNotOf id (err e) = Unit

module _ (hash_secret : Text → Text) where
  IsShutOut-IsNotOf :
      (id : ℕ) (s : Store) (secret : Text) (r : Result (Principal × Grant) × Store)
      → IsShutOut id s
      → resolve hash_secret secret s ≡ r
      → IsNotOf id r.0
  IsShutOut-IsNotOf id s secret (ok (p, g), s') shut e = λ same.
      let (t, w, _, owner, _, may, principal, _) = resolve_sound hash_secret secret s s' p g e in
      IsShutOut-owner id t.user_id s w shut owner may
        (sym (ap (λ (p : Principal). p.user_id) principal) ∙ same)
  IsShutOut-IsNotOf id s secret (err k, s') shut e = tt

  -- Once an administrator's edit that blocks an account has been reported done, no secret resolves to
  -- that account, the stored account is blocked, and no session of it is stored.
  pub update_user-revokes :
      (lower : ℕ → ℕ) (cfg : Config) (actor : User) (id : ℕ) (ch : UserChanges) (s s' : Store)
      (v : UserView) (secret : Text)
      → ch.status ≡ some Status.blocked
      → update_user lower cfg actor id ch s ≡ (ok v, s')
      → IsNotOf id (resolve hash_secret secret s').0 × IsShutOut id s'
  update_user-revokes lower cfg actor id ch s s' v secret b h =
      let shut = update_user-IsShutOut lower cfg actor id ch s s' v b h in
      (IsShutOut-IsNotOf id s' secret (resolve hash_secret secret s') shut refl, shut)
