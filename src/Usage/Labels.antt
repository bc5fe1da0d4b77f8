-- ===== src/Usage/Labels.antt =====
-- `labelCache` and `userLabel` (internal/infra/gateway/usage/sink.go). A map is a list that holds each
-- key once; times are in nanoseconds.
pub mod Fresh
use llm_proxy_backend.Prelude.{
  ℕ, ◌+◌, ◌*◌, Option, none, some, List, [], ◌∷◌, ltb, leb, ◌==◌, if◌then◌else◌, length,
}
use llm_proxy_backend.Prelude.Text.{Text, codes, ◌=t◌}

abbrev pub label_ttl : ℕ
label_ttl = 60 * 1_000_000_000

abbrev pub label_cache_max : ℕ
label_cache_max = 10_000

abbrev pub unknown_label : Text
unknown_label = codes "unknown"

pub record CachedLabel : Type 0 where
  pub label : Text
  pub expires : ℕ

abbrev pub LabelCache : Type 0
LabelCache = List (ℕ × CachedLabel)

unfoldable pub cached : ℕ → LabelCache → Option CachedLabel
cached id [] = none
cached id ((k, l) ∷ c) = if k == id then some l else cached id c

unfoldable pub put_label : ℕ → CachedLabel → LabelCache → LabelCache
put_label id l [] = (id, l) ∷ []
put_label id l ((k, m) ∷ c) = if k == id then (id, l) ∷ c else (k, m) ∷ put_label id l c

abbrev pub or_unknown : Text → Text
or_unknown label = if label =t [] then unknown_label else label

-- What the lookup answered; a full cache is emptied first.
unfoldable pub looked_up : (now id : ℕ) → Option Text → LabelCache → Text × LabelCache
unfolding put_label
looked_up now id none c = (unknown_label, c)
looked_up now id (some label) c = (
  or_unknown label,
  put_label id (record { label = or_unknown label; expires = now + label_ttl })
      (if leb label_cache_max (length c) then [] else c),
)

-- With the entry of the id, if there is one.
unfoldable pub reused :
    (now id : ℕ) → Option Text → LabelCache → Option CachedLabel → Text × LabelCache
unfolding looked_up
reused now id found c none = looked_up now id found c
reused now id found c (some l) =
    if ltb now l.expires then (l.label, c) else looked_up now id found c

-- `get`, at a time, for an id, with what a lookup would answer then: `none` is an error.
unfoldable pub get_label : (now id : ℕ) → Option Text → LabelCache → Text × LabelCache
unfolding cached reused
get_label now id found c =
    if id == 0 then (unknown_label, c) else reused now id found c (cached id c)
