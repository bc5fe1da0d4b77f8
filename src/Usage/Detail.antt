-- ===== src/Usage/Detail.antt =====
-- `partitionDetail` and `detailSemantics` (internal/infra/gateway/usage/sink.go). The raw counts are
-- upstream's; the kinds that the record starts with are zero.
use llm_proxy_backend.Prelude.{
  ℕ, Bool, true, false, ◌&&◌, ◌||◌, not, List, [], ◌∷◌, map, any, ◌==◌, if◌then◌else◌,
}
use llm_proxy_backend.Prelude.Text.{Text, codes, ◌=t◌, trim_space}
use llm_proxy_backend.Usage.Int64.{add64, sub64, lt64, max64, positive}

pub record Detail : Type 0 where
  pub input_tokens : ℕ
  pub output_tokens : ℕ
  pub reasoning_tokens : ℕ
  pub cache_read_tokens : ℕ
  pub cache_creation_tokens : ℕ
  pub cached_tokens : ℕ
  pub total_tokens : ℕ

-- Of a row's kinds: derived by the sink, or as upstream's breakdown says.
pub data Quality : Type 0 where
  reconstructed unclassified inconsistent : Quality
  reported : Text → Quality

-- The token fields of a UsageEvent.
pub record Tokens : Type 0 where
  pub tokens_input : ℕ
  pub tokens_output : ℕ
  pub tokens_reasoning : ℕ
  pub tokens_cache_read : ℕ
  pub tokens_cache_write : ℕ
  pub tokens_total : ℕ
  pub breakdown_quality : Quality

pub record Semantics : Type 0 where
  pub cache_in_input : Bool
  pub reasoning_in_output : Bool
  pub known : Bool

-- strings.HasPrefix and strings.Contains.
unfoldable pub has_prefix : Text → Text → Bool
has_prefix s [] = true
has_prefix [] (c ∷ p) = false
has_prefix (d ∷ s) (c ∷ p) = d == c && has_prefix s p

unfoldable pub contains_text : Text → Text → Bool
unfolding has_prefix
contains_text [] p = has_prefix [] p
contains_text (c ∷ s) p = has_prefix (c ∷ s) p || contains_text s p

abbrev pub openai_compatibility_key : Text
openai_compatibility_key = codes "openai-compatibility"

abbrev pub openai_compatible_prefix : Text
openai_compatible_prefix = codes "openai-compatible-"

abbrev pub gemini_markers : List Text
gemini_markers =
    codes "gemini"
    ∷ codes "aistudio"
    ∷ codes "antigravity"
    ∷ codes "vertex"
    ∷ codes "interaction"
    ∷ []

abbrev pub openai_markers : List Text
openai_markers =
    codes "openai"
    ∷ codes "codex"
    ∷ codes "xai"
    ∷ codes "grok"
    ∷ codes "kimi"
    ∷ codes "qwen"
    ∷ codes "deepseek"
    ∷ codes "openrouter"
    ∷ []

abbrev pub semantics_of_key : Text → Semantics
semantics_of_key key =
    if (key =t openai_compatibility_key) || has_prefix key openai_compatible_prefix
    then record { cache_in_input = true; reasoning_in_output = true; known = true }
    else if contains_text key (codes "claude") || contains_text key (codes "anthropic")
    then record { cache_in_input = false; reasoning_in_output = true; known = true }
    else if any (contains_text key) gemini_markers
    then record { cache_in_input = true; reasoning_in_output = false; known = true }
    else if any (contains_text key) openai_markers
    then record { cache_in_input = true; reasoning_in_output = true; known = true }
    else record { cache_in_input = false; reasoning_in_output = false; known = false }

unfoldable pub detail_semantics : (ℕ → ℕ) → Text → Semantics
unfolding has_prefix contains_text
detail_semantics lower provider_key = semantics_of_key (map lower (trim_space provider_key))

-- The counts before they are judged, none negative.
pub record Counts : Type 0 where
  pub input : ℕ
  pub output : ℕ
  pub reasoning : ℕ
  pub cache_read : ℕ
  pub cache_write : ℕ
  pub cached : ℕ
  pub total : ℕ

-- A legacy cached count stands for the cache reads only when neither cache count is set.
unfoldable pub counts_of : Detail → Counts
counts_of d =
    let read = positive d.cache_read_tokens in
    let write = positive d.cache_creation_tokens in
    record {
      input = positive d.input_tokens;
      output = positive d.output_tokens;
      reasoning = positive d.reasoning_tokens;
      cache_read = if (read == 0) && (write == 0) then positive d.cached_tokens else read;
      cache_write = write;
      cached = positive d.cached_tokens;
      total = positive d.total_tokens;
    }

-- Every token unclassified: the total, or the least the counts imply.
unfoldable pub unclassified_tokens : Quality → Counts → Tokens
unclassified_tokens quality c = record {
  tokens_input = 0;
  tokens_output = 0;
  tokens_reasoning = 0;
  tokens_cache_read = 0;
  tokens_cache_write = 0;
  tokens_total =
      if c.total == 0
      then add64 (max64 (max64 c.input (add64 c.cache_read c.cache_write)) c.cached)
          (max64 c.output c.reasoning)
      else c.total;
  breakdown_quality = quality;
}

unfoldable pub classified_tokens : Counts → ℕ → Tokens
classified_tokens c total = record {
  tokens_input = c.input;
  tokens_output = c.output;
  tokens_reasoning = c.reasoning;
  tokens_cache_read = c.cache_read;
  tokens_cache_write = c.cache_write;
  tokens_total = total;
  breakdown_quality = reconstructed;
}

-- What is counted twice, taken out.
unfoldable pub taken_out : Semantics → Counts → Counts
taken_out sem c = record c {
  input = if sem.cache_in_input then sub64 c.input (add64 c.cache_read c.cache_write) else c.input;
  output = if sem.reasoning_in_output then sub64 c.output c.reasoning else c.output;
}

unfoldable pub sum_of : Counts → ℕ
sum_of c = add64 (add64 (add64 (add64 c.input c.output) c.reasoning) c.cache_read) c.cache_write

-- The last case of the switch.
unfoldable pub against_total : Counts → Tokens
unfolding classified_tokens unclassified_tokens sum_of
against_total c =
    if c.total == 0
    then classified_tokens c (sum_of c)
    else if lt64 c.total (sum_of c)
    then unclassified_tokens inconsistent c
    else classified_tokens c c.total

unfoldable pub is_inconsistent : Semantics → Counts → Bool
is_inconsistent sem c =
    (sem.cache_in_input && lt64 c.input (add64 c.cache_read c.cache_write))
    || (sem.reasoning_in_output && lt64 c.output c.reasoning)

unfoldable pub partition_counts : Semantics → Counts → Tokens
unfolding against_total taken_out is_inconsistent
partition_counts sem c =
    if not sem.known
    then unclassified_tokens unclassified c
    else if is_inconsistent sem c
    then unclassified_tokens inconsistent c
    else against_total (taken_out sem c)

unfoldable pub partition_detail : (ℕ → ℕ) → Text → Detail → Tokens
unfolding partition_counts counts_of detail_semantics
partition_detail lower provider_key d =
    partition_counts (detail_semantics lower provider_key) (counts_of d)
