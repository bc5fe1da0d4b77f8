-- ===== src/Samples.antt =====
-- The theorems applied to concrete accounts, keys, limits and requests.
mod Limits
mod Access
pub mod Keys
pub mod Gate
mod SignIn
mod Traffic
mod Accounts
mod Federated
mod Usage
mod Sink
mod Prices
use llm_proxy_backend.Prelude.{ℕ, Bool, true, false, Option, none, some, [], ◌∷◌}
use llm_proxy_backend.Prelude.Text.{Text, codes}
use llm_proxy_backend.Prelude.Float.{plus}
use llm_proxy_backend.Access.Rule.{Rule, any_text}
use llm_proxy_backend.Identity.{User, Kind, Role, Status, PolicySource}
use llm_proxy_backend.Limits.Rules.{RuleSet}
use llm_proxy_backend.Pricing.Book.{no_prices}
use llm_proxy_backend.Store.{Store}
use llm_proxy_backend.Store.Tables.{Token, Session, Password}

-- The functions that the definitions leave open.
abbrev pub keep_code : ℕ → ℕ
keep_code c = c

abbrev pub keep_text : Text → Text
keep_text s = s

abbrev pub hour : ℕ
hour = 3_600_000_000_000

-- At most 5 units an hour.
abbrev pub hourly : RuleSet
hourly = record { window = hour; amount_usd = plus 5 } ∷ []

abbrev pub any_claude : Rule
any_claude = record { provider = codes "claude"; model_pattern = any_text; re = none }

abbrev pub alice : User
alice = record {
  id = 1;
  kind = Kind.human;
  email = codes "alice";
  display_name = [];
  role = Role.plain;
  status = Status.active;
  policy = any_claude ∷ [];
  policy_source = PolicySource.local;
  spend_limits = none;
  must_change_password = false;
  last_seen_at = none;
  created_at = 0;
}

abbrev pub alice_key : Token
alice_key = record {
  id = 7;
  user_id = 1;
  label = codes "laptop";
  hash = codes "sk-1";
  prefix = codes "sk-1";
  created_at = 0;
  last_used_at = none;
  revoked_at = none;
  revoked_by = none;
}

abbrev pub alice_session : Session
alice_session = record {
  id = [];
  id_hash = codes "cookie";
  user_id = 1;
  restricted = false;
  ip = [];
  user_agent = [];
  created_at = 0;
  expires_at = hour;
}

abbrev pub alice_password : Password
alice_password = record { user_id = 1; hash = codes "correct horse"; expires_at = none }

-- No call fails, and the clock stands at 100.
abbrev pub store_of_alice : Store
store_of_alice = record {
  users = alice ∷ [];
  tokens = alice_key ∷ [];
  sessions = alice_session ∷ [];
  passwords = alice_password ∷ [];
  identities = [];
  invitations = [];
  attempts = [];
  audit = [];
  windows = [];
  ledger = [];
  prices = no_prices;
  stored_defaults = hourly;
  defaults = hourly;
  calls = 0;
  fault = λ _. false;
  clock = λ _. 100;
}
