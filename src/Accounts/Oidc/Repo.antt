-- ===== src/Accounts/Oidc/Repo.antt =====
-- The links, invitations and accounts, as sign-in through a provider calls them
-- (internal/infra/postgres/identities/identities.go, internal/infra/postgres/users/users.go).
use llm_proxy_backend.Prelude.{
  ℕ, Bool, true, false, ◌&&◌, not, Option, none, some, [], ◌∷◌, map, ltb, ◌==◌, if◌then◌else◌, any,
  keep, find,
}
use llm_proxy_backend.Prelude.Text.{Text, ◌=t◌}
use llm_proxy_backend.Identity.{User}
use llm_proxy_backend.Store.{Op, not_found, conflict, ok, err, call, read_clock, ◌>>=◌}
use llm_proxy_backend.Store.Tables.{Link, Pending}
use llm_proxy_backend.Auth.Repo.{has_address}

abbrev pub is_link : Text → Text → Link → Bool
is_link issuer subject l = (l.issuer =t issuer) && (l.subject =t subject)

abbrev owner_of_link : Option Link → Op ℕ
owner_of_link none s = (err not_found, s)
owner_of_link (some l) s = (ok l.user_id, s)

unfoldable pub by_subject : Text → Text → Op ℕ
by_subject issuer subject = call λ s. owner_of_link (find (is_link issuer subject) s.identities) s

unfoldable pub link : ℕ → Text → Text → Op (Unit {0})
link user issuer subject = call λ s.
    if any (is_link issuer subject) s.identities then (err conflict, s) else (
      ok tt,
      record s {
        identities = record { user_id = user; issuer = issuer; subject = subject } ∷ s.identities;
      },
    )

unfoldable pub consume_pending : ℕ → Op (Unit {0})
consume_pending user =
    call λ s. (ok tt, record s { invitations = keep (λ p. not (p.user_id == user)) s.invitations })

abbrev pub owner_of_pending : Option Pending → Op ℕ
owner_of_pending none s = (err not_found, s)
owner_of_pending (some p) s = (ok p.user_id, s)

-- One statement: the row is met only while its name is empty.
abbrev named_row : ℕ → Text → User → User
named_row id name u =
    if (u.id == id) && (u.display_name =t []) then record u { display_name = name } else u

unfoldable pub fill_display_name : ℕ → Text → Op Bool
fill_display_name id name = call λ s.
    if any (λ u. (u.id == id) && (u.display_name =t [])) s.users
    then (ok true, record s { users = map (named_row id name) s.users })
    else if any (λ u. u.id == id) s.users
    then (ok false, s)
    else (err not_found, s)

abbrev with_identity : User → User → User
with_identity u v =
    if v.id == u.id
    then record v { policy = u.policy; policy_source = u.policy_source; email = u.email }
    else v

module _ (lower : Text → Text) where
  -- The database's clock decides what has expired.
  unfoldable pub pending_by_email : Text → Text → Op ℕ
  pending_by_email issuer email = call (
      read_clock >>= λ now. λ s.
        owner_of_pending
          (find
            (λ p.
              (p.issuer =t issuer)
              && (lower p.expected_email =t lower email)
              && ltb now p.expires_at)
            s.invitations)
          s)

  -- The address is unique among the other accounts.
  unfoldable pub save_identity_state : User → Op (Unit {0})
  save_identity_state u = call λ s.
      if any (λ v. v.id == u.id) s.users
      then if not (u.email =t [])
          && any (λ v. not (v.id == u.id) && has_address lower u.email v) s.users
        then (err conflict, s)
        else (ok tt, record s { users = map (with_identity u) s.users })
      else (err not_found, s)
