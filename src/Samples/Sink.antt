-- ===== src/Samples/Sink.antt =====
-- The usage sink at work: its queue, a batch, the labels and the charges.
use llm_proxy_backend.Prelude.{
  ℕ, ◌+◌, ◌*◌, ◌<◌, ◌≤◌, ◌≡◌, refl, ◌⊎◌, true, false, Option, some, none, List, [], ◌∷◌, ◌++◌,
  arith, length,
}
use llm_proxy_backend.Prelude.Text.{Text, codes, trim_space}
use llm_proxy_backend.Prelude.Float.{Float64, nan, neg_inf, minus, plus, pos_inf, fle, flt, is_nan}
use llm_proxy_backend.Access.Policy.{is_empty, routed, covers, thinking_base, before_last, allows}
use llm_proxy_backend.Access.Rule.{matches}
use llm_proxy_backend.Limits.Rules.{effective}
use llm_proxy_backend.Limits.Decide.{decide}
use llm_proxy_backend.Store.{Store, effects}
use llm_proxy_backend.Store.Tables.{Row}
use llm_proxy_backend.Spend.Windows.{windows_of, open_windows}
use llm_proxy_backend.Spend.Service.{admit, read_windows, write_windows}
use llm_proxy_backend.Pricing.{price_table, priced_everywhere}
use llm_proxy_backend.Gateway.Gate.{gate_model, limits_of}
use llm_proxy_backend.Usage.Detail.{Tokens, Quality}
use llm_proxy_backend.Usage.Cost.{FloatArith, unpriced_cost, total_usd}
use llm_proxy_backend.Usage.Row.{UsageEvent}
use llm_proxy_backend.Usage.Event.{UsageRecord, policy_provider, event_of}
use llm_proxy_backend.Usage.Priced.{IsPricedCost, event_of-priced}
use llm_proxy_backend.Usage.Labels.{get_label}
use llm_proxy_backend.Usage.Labels.Fresh.{Call, IsFresh, cache_after, get_label-IsFresh}
use llm_proxy_backend.Usage.Ledger.{append_batch}
use llm_proxy_backend.Usage.Ledger.Charged.{AddGrows, append_batch-stays_blocked}
use llm_proxy_backend.Usage.Process.{Linked, Arrival, Watch, in_event, process}
use llm_proxy_backend.Usage.Process.Rows.{IsAppended, rows_of, process-rows}
use llm_proxy_backend.Usage.Worker.{
  Sink, new_sink, handle_usage, send, hand_over, work, handles, sends, Reaches, start,
  then_meanwhile, Run, here, and_meanwhile, and_works,
}
use llm_proxy_backend.Usage.Worker.Kept.{IsKept, Reaches-IsKept}
use llm_proxy_backend.Usage.Worker.Counted.{IsCounted, Reaches-IsCounted}
use llm_proxy_backend.Usage.Worker.Answers.{flush-answered}
use llm_proxy_backend.Samples.{keep_code, hourly, store_of_alice}
use llm_proxy_backend.Samples.Keys.{alice_principal, alice_grant}
use llm_proxy_backend.Samples.Gate.{opus, claude_only, opus_priced}

-- A record is handed in and queued.
abbrev offered : Sink ℕ
offered = handle_usage 5 new_sink

abbrev queued : Sink ℕ
queued = send 5 [] offered

offered-Reaches : Reaches offered
offered-Reaches = then_meanwhile new_sink offered start (handles 5)

queued-Reaches : Reaches queued
unfolding handle_usage
queued-Reaches = then_meanwhile offered queued offered-Reaches (sends 5 [] [] refl)

Reaches-IsKept_example : IsKept queued
Reaches-IsKept_example = Reaches-IsKept queued queued-Reaches

Reaches-IsCounted_example : IsCounted queued
Reaches-IsCounted_example = Reaches-IsCounted queued queued-Reaches

-- A flush is handed over, another record comes in, and the worker takes a step.
abbrev flushed : Sink ℕ
flushed = elim (hand_over queued) [ none ↦ queued | some u ↦ u ]

abbrev pressed : Sink ℕ
pressed = handle_usage 6 flushed

abbrev stepped : Sink ℕ
stepped = elim (work pressed) [ none ↦ pressed | some u ↦ u ]

flush-Run : Run flushed 1 stepped
unfolding handle_usage send hand_over work
flush-Run = and_works 0 pressed stepped (and_meanwhile 0 flushed pressed here (handles 6)) refl

flush-answered_example :
    ((1 < 4 * length queued.queue + 2) × ((v : Sink ℕ) × (work stepped ≡ some v)))
    ⊎ ((queued.answered < stepped.answered)
        × ((rest : List ℕ) × (stepped.processed ≡ queued.accepted ++ rest)))
unfolding handle_usage send hand_over
flush-answered_example = flush-answered queued flushed stepped 1 queued-Reaches refl flush-Run

-- float64 without rounding.
abbrev exact_add : Float64 → Float64 → Float64
exact_add (plus a) (plus b) = plus (a + b)
exact_add _ _ = pos_inf

abbrev left_one : Float64 → Float64 → Float64
left_one a b = a

abbrev exact : FloatArith
exact = record {
  of_int = plus;
  add = exact_add;
  sub = left_one;
  mul = left_one;
  div = left_one;
  million = plus 1;
}

fle-pos_inf : (x a : Float64) → fle x a ≡ true → fle x pos_inf ≡ true
unfolding fle flt is_nan
fle-pos_inf nan a h = h
fle-pos_inf neg_inf a h = refl
fle-pos_inf (minus n) a h = refl
fle-pos_inf (plus n) a h = refl
fle-pos_inf pos_inf a h = refl

fle-plus : (x : Float64) (m n : ℕ) → fle x (plus m) ≡ true → fle x (plus (m + n)) ≡ true
unfolding fle flt is_nan
fle-plus nan m n h = h
fle-plus neg_inf m n h = refl
fle-plus (minus k) m n h = refl
fle-plus (plus k) m n h = ground arith
fle-plus pos_inf m n h = h

exact-AddGrows : AddGrows exact
exact-AddGrows x (plus m) (plus n) p q h = fle-plus x m n h
exact-AddGrows x nan b p q h = fle-pos_inf x nan h
exact-AddGrows x neg_inf b p q h = fle-pos_inf x neg_inf h
exact-AddGrows x (minus m) b p q h = fle-pos_inf x (minus m) h
exact-AddGrows x pos_inf b p q h = fle-pos_inf x pos_inf h
exact-AddGrows x (plus m) nan p q h = fle-pos_inf x (plus m) h
exact-AddGrows x (plus m) neg_inf p q h = fle-pos_inf x (plus m) h
exact-AddGrows x (plus m) (minus n) p q h = fle-pos_inf x (plus m) h
exact-AddGrows x (plus m) pos_inf p q h = fle-pos_inf x (plus m) h

abbrev opus_tokens : Tokens
opus_tokens = record {
  tokens_input = 100;
  tokens_output = 50;
  tokens_reasoning = 0;
  tokens_cache_read = 0;
  tokens_cache_write = 0;
  tokens_total = 150;
  breakdown_quality = Quality.reported (codes "complete");
}

-- Upstream's name of the model has no price, the name that was asked for has one.
abbrev opus_record : UsageRecord
opus_record = record {
  provider = codes "claude";
  model = codes "claude-opus-20260101";
  alias = opus;
  api_key = [];
  auth_id = [];
  stream = false;
  service_tier = [];
  response_service_tier = [];
  requested_at = 40;
  latency = 2_000_000;
  ttft = 1_000_000;
  failed = false;
  status_code = 200;
  detail = record {
    input_tokens = 0;
    output_tokens = 0;
    reasoning_tokens = 0;
    cache_read_tokens = 0;
    cache_creation_tokens = 0;
    cached_tokens = 0;
    total_tokens = 0;
  };
  breakdown = some opus_tokens;
}

abbrev print_nothing : ℕ → Text
print_nothing _ = []

abbrev parse_nothing : Text → Option ℕ
parse_nothing _ = none

abbrev after_opus : Store
after_opus =
    (gate_model keep_code claude_only (some opus_priced) alice_grant alice_principal opus
      store_of_alice).1

abbrev opus_event : UsageEvent
opus_event =
    event_of keep_code print_nothing parse_nothing exact opus_priced.prices opus_priced.catalog 0
      opus_record

event_of-priced_example : IsPricedCost opus_event.tokens opus_event.cost
unfolding gate_model effects trim_space is_empty routed price_table priced_everywhere admit
    read_windows write_windows decide fle windows_of open_windows covers thinking_base before_last
    allows matches effective limits_of policy_provider
event_of-priced_example =
    event_of-priced keep_code claude_only opus_priced alice_grant alice_principal alice_principal
      opus opus store_of_alice after_opus print_nothing parse_nothing exact 0 opus_record refl refl
      refl refl refl

-- The label of account 1 was found at 10, and is asked for at 20, when a lookup would fail.
abbrev first_call : Call
first_call = record { now = 10; id = 1; found = some (codes "alice") }

abbrev next_call : Call
next_call = record { now = 20; id = 1; found = none }

get_label-IsFresh_example :
    IsFresh 20 1
      (get_label 20 1 none (cache_after (first_call ∷ []))).0
      (next_call ∷ first_call ∷ [])
    × (length (get_label 20 1 none (cache_after (first_call ∷ []))).1 ≤ 10_000)
get_label-IsFresh_example = get_label-IsFresh (first_call ∷ []) next_call

-- The hour's window of account 1 is spent, and a row of account 1 is charged to it.
abbrev spent_row : Row
spent_row = record { user_id = 1; window_minutes = 60; started_at = 0; spent_usd = plus 6 }

abbrev spent_store : Store
spent_store = record store_of_alice { windows = spent_row ∷ [] }

abbrev charged_event : UsageEvent
charged_event = record opus_event { user_id = 1; cost = unpriced_cost 3 }

abbrev charged_store : Store
charged_store = (append_batch exact (charged_event ∷ []) spent_store).1

append_batch-stays_blocked_example :
    (decide hourly (windows_of 1 charged_store.windows) 100).blocked ≡ true
unfolding append_batch effects decide windows_of fle total_usd
append_batch-stays_blocked_example =
    append_batch-stays_blocked exact exact-AddGrows (charged_event ∷ []) spent_store charged_store
      (1 ∷ []) hourly 1 100 (refl, tt) (refl, tt) (refl, tt) refl refl

-- The mapping of the first of two records panics.
abbrev linked : Linked
linked = record {
  lower = keep_code;
  print_id = print_nothing;
  parse_id = parse_nothing;
  float = exact;
  prices = opus_priced.prices;
  catalog = opus_priced.catalog;
  go = record {
    parse_float = λ _. none;
    parse_int = λ _. none;
    print_int = λ _. [];
    parse_rfc3339 = λ _. none;
    unix = λ n. n;
  };
}

abbrev calm : Arrival
calm = record {
  usage = opus_record;
  headers = none;
  now = 50;
  label_now = 50;
  found = none;
  panic = none;
}

abbrev two_records : List Arrival
two_records = record calm { panic = some in_event } ∷ calm ∷ []

abbrev idle_watch : Watch
idle_watch = record { labels = []; quota = []; panics = 0; seen = [] }

process-rows_example :
    IsAppended linked
      (rows_of linked two_records)
      spent_store
      (process linked two_records none idle_watch spent_store).1
process-rows_example = process-rows linked two_records none idle_watch spent_store
