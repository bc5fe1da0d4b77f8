-- ===== src/Samples/SignIn.antt =====
-- Passwords and sessions at work.
use llm_proxy_backend.Prelude.{
  suc, ◌&&◌, ◌+◌, ◌*◌, ◌≤◌, ◌≡◌, refl, ◌⊎◌, true, false, some, none, List, [], ◌∷◌, arith, find,
  ltb, length, All, ◌==◌, if◌then◌else◌,
}
use llm_proxy_backend.Prelude.Text.{Text, codes, ◌=t◌}
use llm_proxy_backend.Identity.{User, can_sign_in}
use llm_proxy_backend.Store.{effects, Store, failed}
use llm_proxy_backend.Store.Tables.{Session, Password, Attempt, auth_signin}
use llm_proxy_backend.Tokens.Repo.{user_by_id, record_event}
use llm_proxy_backend.Auth.Throttle.{
  check, charge, clear, read_lock, compare_lock, charge_call, clear_call,
}
use llm_proxy_backend.Auth.Throttle.Admission.{let_through, let_through-limit}
use llm_proxy_backend.Auth.Repo.{
  session_by_hash, delete_session, create_session, get_password, set_password,
  set_must_change_password, delete_by_user_except, user_by_email, has_address,
}
use llm_proxy_backend.Auth.Session.{Meta, resolve_session, open_session, drop_session}
use llm_proxy_backend.Auth.Session.Compensation.{open_session-failed}
use llm_proxy_backend.Auth.Session.Opened.{IsOpened}
use llm_proxy_backend.Auth.Session.Sound.{resolve_session_sound}
use llm_proxy_backend.Auth.Password.{
  sign_in, change_password, replace_password, check_current, check_new_password, verify_password,
  is_over, resolve_attempt, attempt_by, attempt_of, verify_attempt,
}
use llm_proxy_backend.Auth.Password.Change.{IsEnded, change_password-ok}
use llm_proxy_backend.Auth.Password.SignIn.{sign_in_sound}
use llm_proxy_backend.Samples.{keep_text, hour, alice, alice_session, store_of_alice}

-- A row whose lock of five failures ended at 90, and eight attempts after it.
abbrev locked_row : Attempt
locked_row = record {
  email = codes "alice";
  failures = 5;
  locked_until = some 90;
  last_failure_at = 80;
}

-- The clock shows 100, and the seventh call fails.
abbrev attacked : Store
attacked = record store_of_alice { attempts = locked_row ∷ []; fault = λ n. n == 6 }

abbrev attempts : List Text
attempts =
    codes "alice"
    ∷ codes "bob"
    ∷ codes "alice"
    ∷ codes "alice"
    ∷ codes "alice"
    ∷ codes "alice"
    ∷ codes "alice"
    ∷ codes "alice"
    ∷ codes "alice"
    ∷ []

let_through-limit_example : let_through keep_text 5 60 (codes "alice") attempts attacked ≤ 5
let_through-limit_example =
    let_through-limit keep_text 5 100 60 (codes "alice") attempts attacked
      (λ _. (omega arith, omega arith)) (omega arith)

abbrev correct : Text
correct = codes "correct horse"

abbrev better : Text
better = codes "battery staple"

abbrev resolved : Store
resolved = (resolve_session keep_text (codes "cookie") store_of_alice).1

resolve_session_sound_example :
    (stored : Session) × (alice_session ≡ record stored { restricted = alice.must_change_password })
    × (find
          (λ x.
            (x.id_hash =t codes "cookie")
            && ltb (store_of_alice.clock (suc store_of_alice.calls)) x.expires_at)
          store_of_alice.sessions
        ≡ some stored)
    × (find (λ u. u.id == stored.user_id) store_of_alice.users ≡ some alice)
    × (can_sign_in alice ≡ true)
unfolding resolve_session effects session_by_hash user_by_id
resolve_session_sound_example =
    resolve_session_sound keep_text (codes "cookie") store_of_alice resolved alice_session alice
      refl

abbrev changed : Store
changed = (change_password ◌=t◌ keep_text alice_session correct better store_of_alice).1

change_password-ok_example :
    (user : User) × (current : Password) × (find
        (λ u. u.id == alice_session.user_id)
        store_of_alice.users
      ≡ some user)
    × (can_sign_in user ≡ true)
    × (find (λ p. p.user_id == user.id) store_of_alice.passwords ≡ some current)
    × ((user.must_change_password ≡ true) ⊎ ((current.hash =t correct) ≡ true))
    × (12 ≤ length better)
    × (find (λ q. q.user_id == user.id) changed.passwords
        ≡ some (record { user_id = user.id; hash = better; expires_at = none }))
    × All (IsEnded user.id alice_session.id_hash) changed.sessions
unfolding change_password can_sign_in user_by_id get_password is_over check_current verify_password
    check_new_password replace_password set_password set_must_change_password delete_by_user_except
    record_event effects
change_password-ok_example =
    change_password-ok ◌=t◌ keep_text alice_session correct better store_of_alice changed refl

abbrev browser : Meta
browser = record { ip = []; user_agent = [] }

abbrev signed_in : Store
signed_in =
    (sign_in keep_text 5 60 ◌=t◌ keep_text [] (codes "alice") correct browser (codes "new")
      store_of_alice).1

abbrev new_session : Session
new_session = record {
  id = codes "new";
  id_hash = codes "new";
  user_id = 1;
  restricted = false;
  ip = [];
  user_agent = [];
  created_at = 100;
  expires_at = 100 + 12 * hour;
}

sign_in_sound_example :
    (p : Password) × (find (has_address keep_text (codes "alice")) store_of_alice.users
      ≡ some alice)
    × (can_sign_in alice ≡ true)
    × (find (λ p. p.user_id == alice.id) store_of_alice.passwords ≡ some p)
    × (((if p.hash =t [] then [] else p.hash) =t correct) ≡ true)
    × IsOpened keep_text alice (codes "new") store_of_alice.sessions signed_in.sessions new_session
unfolding sign_in check charge clear read_lock compare_lock charge_call clear_call resolve_attempt
    attempt_by attempt_of user_by_email get_password can_sign_in is_over verify_attempt
    verify_password open_session create_session record_event effects
sign_in_sound_example =
    sign_in_sound keep_text 5 60 ◌=t◌ keep_text [] (codes "alice") correct browser (codes "new")
      store_of_alice signed_in new_session alice refl

-- The fourth call, the audit's, fails.
abbrev unaudited : Store
unaudited = record store_of_alice { fault = λ n. n == 3 }

abbrev after_open : Store
after_open = (open_session keep_text alice auth_signin browser (codes "new") unaudited).1

open_session-failed_example :
    (after_open.sessions ≡ unaudited.sessions) ⊎ (unaudited.fault (4 + unaudited.calls) ≡ true)
unfolding open_session drop_session create_session delete_session record_event effects
open_session-failed_example =
    open_session-failed keep_text alice auth_signin browser (codes "new") unaudited after_open
      failed refl
