-- ===== src/Tokens/Service/Limit.antt =====
-- The bound on the live keys of an owner.
use llm_proxy_backend.Prelude.{ℕ, ◌≤◌, ◌≡◌, false, List, [], ◌∷◌, arith, length}
use llm_proxy_backend.Prelude.Text.{Text}
use llm_proxy_backend.Identity.{User}
use llm_proxy_backend.Store.{Store, Error, ok}
use llm_proxy_backend.Store.Tables.{Token, AuditEvent}
use llm_proxy_backend.Store.{effects}
use llm_proxy_backend.Store.Keeping.{
  Keeps, bind-Keeps, then-Keeps, catch-Keeps, require-Keeps, return-Keeps, fail-Keeps, lift-Keeps,
  read_clock-Keeps,
}
use llm_proxy_backend.Tokens.Key.{generate, Draw, is_live, revoke_key}
use llm_proxy_backend.Tokens.Repo.{
  live_keys, update_row, max_live_tokens_per_owner, create_token, save_token, user_by_id,
  token_by_id, record_event,
}
use llm_proxy_backend.Tokens.Service.{issue, retract}

-- No owner holds more live keys than the limit.
pub record IsWithinLimit (s : Store) : Type 0 where
  pub bound : (owner : ℕ) → length (live_keys owner s.tokens) ≤ max_live_tokens_per_owner

length-live-update_row :
    (owner : ℕ) (t : Token) (rows : List Token)
    → is_live t ≡ false
    → length (live_keys owner (update_row t rows)) ≤ length (live_keys owner rows)
unfolding update_row is_live
length-live-update_row owner t [] h = omega arith
length-live-update_row owner t (row ∷ rows) h =
    ground (arith, length-live-update_row owner t rows h)

save-IsWithinLimit :
    (t : Token) (s : Store) → is_live t ≡ false → IsWithinLimit s → IsWithinLimit (save_token t s).1
unfolding save_token effects
save-IsWithinLimit t s h w = record {
  bound = λ owner. ground (arith, w.bound owner, length-live-update_row owner t s.tokens h);
}

create-IsWithinLimit :
    (t : Token) (s : Store) → IsWithinLimit s → IsWithinLimit (create_token t s).1
unfolding create_token effects
create-IsWithinLimit t s w = record { bound = λ owner. ground (arith, w.bound owner) }

revoke_key-live : (t r : Token) (by at : ℕ) → revoke_key t by at ≡ ok r → is_live r ≡ false
unfolding revoke_key is_live
revoke_key-live t r by at h = ground arith

retract-Keeps :
    (t : Token) (by now : ℕ) (cause : Error) → Keeps IsWithinLimit (retract t by now cause)
unfolding retract
retract-Keeps t by now cause =
    lift-Keeps IsWithinLimit (revoke_key t by now) _ _
      (λ r e.
        catch-Keeps IsWithinLimit (save_token r) _ _
          (λ s. save-IsWithinLimit r s (revoke_key-live t r by now e))
          (λ _. fail-Keeps IsWithinLimit _ cause) (λ _. fail-Keeps IsWithinLimit _ cause))
      (λ _. fail-Keeps IsWithinLimit _ cause)

user_by_id-Keeps : (id : ℕ) → Keeps IsWithinLimit (user_by_id id)
unfolding user_by_id effects
user_by_id-Keeps id s w = record { bound = λ o. ground (arith, w.bound o) }

token_by_id-Keeps : (id : ℕ) → Keeps IsWithinLimit (token_by_id id)
unfolding token_by_id effects
token_by_id-Keeps id s w = record { bound = λ o. ground (arith, w.bound o) }

record_event-Keeps : (e : AuditEvent) → Keeps IsWithinLimit (record_event e)
unfolding record_event effects
record_event-Keeps e s w = record { bound = λ o. ground (arith, w.bound o) }

module _ (hash_secret : Text → Text) where
  generate-Keeps :
      (owner : ℕ) (label : Text) (draw : Draw)
      → Keeps IsWithinLimit (generate hash_secret owner label draw)
  unfolding generate effects
  generate-Keeps owner label draw s w = record { bound = λ o. ground (arith, w.bound o) }

  -- Issuing a key, whether it succeeds or fails at any step, leaves every owner within the limit.
  pub issue-IsWithinLimit :
      (actor : User) (owner : ℕ) (label : Text) (draw : Draw) (s : Store)
      → IsWithinLimit s
      → IsWithinLimit (issue hash_secret actor owner label draw s).1
  unfolding issue
  issue-IsWithinLimit actor owner label draw = then-Keeps P _ _ (require-Keeps P _ _) (
      then-Keeps P _ _ (user_by_id-Keeps owner) (
        bind-Keeps P _ _ (generate-Keeps owner label draw) λ (drawn, secret).
          bind-Keeps P _ _ (read_clock-Keeps P λ s w. record { bound = w.bound }) λ now.
            then-Keeps P _ _ (create-IsWithinLimit _) (
              catch-Keeps P _ _ _ (record_event-Keeps _) (λ _. return-Keeps P _)
                (retract-Keeps _ _ _))))
    where
      P : Store → Type 0
      P = IsWithinLimit
