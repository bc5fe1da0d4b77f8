-- ===== src/Usage/Quota.antt =====
-- Vendor quota signals: `observeQuota`, its parsers, `QuotaSignals`' store and `ForgetAccount`
-- (internal/infra/gateway/usage/sink.go). strconv, time.Parse, http.Header.Get and the arithmetic of
-- float64 are parameters; an int64 is the word below 2 ^ 64 that holds it, and a time that was not
-- given is `none`.
use llm_proxy_backend.Prelude.{
  ℕ, ◌+◌, ◌-◌, ◌*◌, ◌/◌, ◌%◌, ◌||◌, not, Option, none, some, List, [], ◌∷◌, ◌++◌, leb, ◌==◌,
  if◌then◌else◌, keep,
}
use llm_proxy_backend.Prelude.Text.{Text, codes, ◌=t◌, trim_space}
use llm_proxy_backend.Prelude.Float.{Float64, nan, pos_inf, neg_inf, minus, plus, flt, whole}
use llm_proxy_backend.Usage.Int64.{two63, two64, positive}
use llm_proxy_backend.Usage.Cost.{FloatArith}
use llm_proxy_backend.Usage.Event.{codex_provider_key}

pub record QuotaSignal : Type 0 where
  pub account : Text
  pub provider : Text
  pub window : Text
  pub used_ratio : Float64
  pub reset_at : Option ℕ
  pub observed_at : ℕ

-- What the source uses of Go's library. `unix` is time.Unix(sec, 0), in nanoseconds.
pub record Parsers : Type 0 where
  pub parse_float : Text → Option Float64
  pub parse_int : Text → Option ℕ
  pub print_int : ℕ → Text
  pub parse_rfc3339 : Text → Option ℕ
  pub unix : ℕ → ℕ

-- A time.Time plus a time.Duration.
abbrev pub add_duration : ℕ → ℕ → ℕ
add_duration at d = if leb two63 d then at - (two64 - d) else at + d

-- min(v, 1), for v that is no NaN.
abbrev pub at_most_one : Float64 → Float64
at_most_one v = if flt (whole 1) v then whole 1 else v

module _ (go : Parsers) where
  unfoldable pub share_of : FloatArith → Float64 → Float64 → Option Float64
  share_of fl scale nan = none
  share_of fl scale neg_inf = none
  share_of fl scale pos_inf = none
  share_of fl scale (minus _) = none
  share_of fl scale (plus n) = some (at_most_one (fl.div (plus n) scale))

  unfoldable pub parse_share : FloatArith → Text → Float64 → Option Float64
  unfolding share_of
  parse_share fl raw scale = elim (go.parse_float (trim_space raw)) [
    | none ↦ none
    | some v ↦ share_of fl scale v
  ]

  unfoldable pub parse_epoch_or_rfc3339 : Text → Option ℕ
  parse_epoch_or_rfc3339 raw =
      let text = trim_space raw in
      if text =t [] then none else elim (go.parse_int text) [
        | none ↦ go.parse_rfc3339 text
        | some sec ↦ if positive sec == 0 then none else some (go.unix sec)
      ]

  unfoldable pub after_seconds : Text → ℕ → Option ℕ
  after_seconds raw at = elim (go.parse_int (trim_space raw)) [
    | none ↦ none
    | some sec ↦
        if leb two63 sec then none else some (add_duration at (sec * 1_000_000_000 % two64))
  ]

  unfoldable pub window_name : ℕ → Text
  window_name minutes =
      if minutes % 1440 == 0
      then go.print_int (minutes / 1440) ++ codes "d"
      else if minutes % 60 == 0
      then go.print_int (minutes / 60) ++ codes "h"
      else go.print_int minutes ++ codes "m"

  unfoldable pub window_of : (raw fallback : Text) → Text
  unfolding window_name
  window_of raw fallback = elim (go.parse_int (trim_space raw)) [
    | none ↦ fallback
    | some minutes ↦ if positive minutes == 0 then fallback else window_name minutes
  ]

  module _ (fl : FloatArith) (get : Text → Text) (account provider : Text) (observed_at : ℕ) where
    abbrev pub signal : Text → Float64 → Option ℕ → QuotaSignal
    signal window ratio reset = record {
      account = account;
      provider = provider;
      window = window;
      used_ratio = ratio;
      reset_at = reset;
      observed_at = observed_at;
    }

    unfoldable pub claude_signal : Text → List QuotaSignal
    unfolding parse_share parse_epoch_or_rfc3339
    claude_signal window =
        let prefix = codes "Anthropic-Ratelimit-Unified-" ++ window ++ codes "-" in
        elim (parse_share fl (get (prefix ++ codes "Utilization")) (whole 1)) [
          | none ↦ []
          | some ratio ↦
              signal window ratio (parse_epoch_or_rfc3339 (get (prefix ++ codes "Reset"))) ∷ []
        ]

    unfoldable pub codex_reset : Text → Option ℕ
    unfolding parse_epoch_or_rfc3339 after_seconds
    codex_reset prefix = elim (parse_epoch_or_rfc3339 (get (prefix ++ codes "Reset-At"))) [
      | some reset ↦ some reset
      | none ↦ after_seconds (get (prefix ++ codes "Reset-After-Seconds")) observed_at
    ]

    unfoldable pub codex_signal : (position fallback : Text) → List QuotaSignal
    unfolding parse_share window_of codex_reset
    codex_signal position fallback =
        let prefix = codes "X-Codex-" ++ position ++ codes "-" in
        elim (parse_share fl (get (prefix ++ codes "Used-Percent")) (whole 100)) [
          | none ↦ []
          | some ratio ↦
              signal (window_of (get (prefix ++ codes "Window-Minutes")) fallback) ratio
                (codex_reset prefix)
              ∷ []
        ]

    -- The snapshot of a response, by upstream's provider key.
    unfoldable pub snapshot_of : Text → List QuotaSignal
    unfolding claude_signal codex_signal
    snapshot_of key =
        if key =t codes "claude"
        then claude_signal (codes "5h") ++ claude_signal (codes "7d")
        else if key =t codex_provider_key
        then codex_signal (codes "Primary") (codes "5h")
          ++ codex_signal (codes "Secondary") (codes "7d")
        else []

-- The signals of all accounts, each window of an account once.
abbrev pub Signals : Type 0
Signals = List QuotaSignal

unfoldable pub forget_account : Text → Signals → Signals
forget_account account = keep λ q. not (q.account =t account)

unfoldable pub last_reset : Text → Text → Signals → Option ℕ
last_reset account window [] = none
last_reset account window (q ∷ qs) =
    if not (q.account =t account) || not (q.window =t window)
    then last_reset account window qs
    else q.reset_at

unfoldable pub with_last_reset : Signals → QuotaSignal → QuotaSignal
unfolding last_reset
with_last_reset before q = elim q.reset_at [
  | some _ ↦ q
  | none ↦ record q { reset_at = last_reset q.account q.window before }
]

unfoldable pub put_signal : QuotaSignal → Signals → Signals
put_signal q [] = q ∷ []
put_signal q (p ∷ qs) =
    if not (p.account =t q.account) || not (p.window =t q.window)
    then p ∷ put_signal q qs
    else q ∷ qs

unfoldable pub put_all : Signals → List QuotaSignal → Signals → Signals
unfolding put_signal with_last_reset
put_all before [] qs = qs
put_all before (q ∷ snapshot) qs =
    put_all before snapshot (put_signal (with_last_reset before q) qs)

-- A snapshot that holds a signal replaces the account's.
unfoldable pub replace_snapshot : Text → List QuotaSignal → Signals → Signals
unfolding put_all forget_account
replace_snapshot account [] before = before
replace_snapshot account (q ∷ snapshot) before =
    put_all before (q ∷ snapshot) (forget_account account before)
