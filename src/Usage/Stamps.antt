-- ===== src/Usage/Stamps.antt =====
-- When a key and an account were last used: `touch` (internal/infra/gateway/usage/sink.go), over the
-- stores' TouchLastUsed (internal/infra/postgres/tokens/tokens.go) and TouchLastSeen
-- (internal/infra/postgres/users/users.go).
use llm_proxy_backend.Prelude.{
  ℕ, Option, none, some, List, [], ◌∷◌, map, max, ltb, ◌==◌, if◌then◌else◌,
}
use llm_proxy_backend.Usage.Row.{UsageEvent, completed_at}
use llm_proxy_backend.Store.{Op, ok, call, catch, return, ◌>>◌}

-- GREATEST, which ignores a NULL.
abbrev pub greatest : Option ℕ → ℕ → Option ℕ
greatest none at = some at
greatest (some then_at) at = some (max then_at at)

unfoldable pub touch_last_used : ℕ → ℕ → Op (Unit {0})
touch_last_used id at = call λ s. (
  ok tt,
  record s {
    tokens =
        map (λ t. if t.id == id then record t { last_used_at = greatest t.last_used_at at } else t)
          s.tokens;
  },
)

unfoldable pub touch_last_seen : ℕ → ℕ → Op (Unit {0})
touch_last_seen id at = call λ s. (
  ok tt,
  record s {
    users =
        map (λ u. if u.id == id then record u { last_seen_at = greatest u.last_seen_at at } else u)
          s.users;
  },
)

abbrev pub Stamps : Type 0
Stamps = List (ℕ × ℕ)

-- The entry of an id, the zero time where there is none.
unfoldable pub stamp_of : ℕ → Stamps → ℕ
stamp_of id [] = 0
stamp_of id ((k, at) ∷ stamps) = if k == id then at else stamp_of id stamps

unfoldable pub put_stamp : ℕ → ℕ → Stamps → Stamps
put_stamp id at [] = (id, at) ∷ []
put_stamp id at ((k, before) ∷ stamps) =
    if k == id then (id, at) ∷ stamps else (k, before) ∷ put_stamp id at stamps

-- An id's latest time; the nil id has none.
unfoldable pub note : ℕ → ℕ → Stamps → Stamps
unfolding stamp_of put_stamp
note id at stamps =
    if id == 0
    then stamps
    else if ltb (stamp_of id stamps) at
    then put_stamp id at stamps
    else stamps

unfoldable pub token_stamps : List UsageEvent → Stamps → Stamps
unfolding note completed_at
token_stamps [] stamps = stamps
token_stamps (ev ∷ events) stamps = token_stamps events (note ev.token_id (completed_at ev) stamps)

unfoldable pub user_stamps : List UsageEvent → Stamps → Stamps
unfolding note completed_at
user_stamps [] stamps = stamps
user_stamps (ev ∷ events) stamps = user_stamps events (note ev.user_id (completed_at ev) stamps)

-- A stamp that fails is logged, and the next one is written.
unfoldable pub stamp_each : (ℕ → ℕ → Op (Unit {0})) → Stamps → Op (Unit {0})
stamp_each stamp [] = return tt
stamp_each stamp ((id, at) ∷ stamps) =
    catch (stamp id at) return (λ _. return tt) >> stamp_each stamp stamps

unfoldable pub touch : List UsageEvent → Op (Unit {0})
unfolding token_stamps user_stamps stamp_each touch_last_used touch_last_seen
touch events =
    stamp_each touch_last_used (token_stamps events [])
    >> stamp_each touch_last_seen (user_stamps events [])
