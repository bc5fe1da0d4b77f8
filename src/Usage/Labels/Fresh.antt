-- ===== src/Usage/Labels/Fresh.antt =====
-- The label cache is bounded, and what it gives was looked up within the last minute.
use mathlib.Core.Path.{subst}
use llm_proxy_backend.Prelude.{
  inl, inr, ◌⊎◌, Bool-cases, ==_iff, ℕ, ◌+◌, ◌≤◌, ◌<◌, ◌≡◌, refl, Option, none, some, List, [], ◌∷◌,
  arith, ltb, leb, ltb→lt, ◌==◌, length, All, Any,
}
use llm_proxy_backend.Prelude.Text.{Text}
use llm_proxy_backend.Usage.Labels.{
  label_ttl, label_cache_max, unknown_label, CachedLabel, LabelCache, cached, put_label, or_unknown,
  looked_up, reused, get_label,
}

-- One call of `get`, with what a lookup would answer at that time.
pub record Call : Type 0 where
  pub now : ℕ
  pub id : ℕ
  pub found : Option Text

-- The cache after some calls, the last one first.
pub cache_after : List Call → LabelCache
unfolding get_label
cache_after [] = []
cache_after (c ∷ before) = (get_label c.now c.id c.found (cache_after before)).1

-- A call looked the label of an id up, and its entry ends then.
abbrev pub Found : ℕ → CachedLabel → Call → Type 0
Found id l c =
    (c.id ≡ id)
    × ((text : Text) × (c.found ≡ some text) × (l.label ≡ or_unknown text))
    × (l.expires ≡ c.now + label_ttl)

abbrev pub IsFrom : List Call → LabelCache → Type 0
IsFrom calls = All λ e. Any (Found e.0 e.1) calls

IsFrom-later :
    (call : Call) (calls : List Call) (c : LabelCache) → IsFrom calls c → IsFrom (call ∷ calls) c
IsFrom-later call calls [] h = tt
IsFrom-later call calls (e ∷ c) h = (inr h.0, IsFrom-later call calls c h.1)

IsFrom-put :
    (calls : List Call) (id : ℕ) (l : CachedLabel) (c : LabelCache)
    → Any (Found id l) calls
    → IsFrom calls c
    → IsFrom calls (put_label id l c)
unfolding put_label
IsFrom-put calls id l [] f h = (f, tt)
IsFrom-put calls id l ((k, m) ∷ c) f h = elim (Bool-cases (k == id)) [
  | inl e ↦ rw e (f, h.1)
  | inr e ↦ rw e (h.0, IsFrom-put calls id l c f h.1)
]

length-put_label :
    (id : ℕ) (l : CachedLabel) (c : LabelCache) → length (put_label id l c) ≤ length c + 1
unfolding put_label
length-put_label id l [] = omega arith
length-put_label id l ((k, m) ∷ c) = ground (arith, length-put_label id l c)

cached-Found :
    (calls : List Call) (id : ℕ) (l : CachedLabel) (c : LabelCache)
    → IsFrom calls c
    → cached id c ≡ some l
    → Any (Found id l) calls
unfolding cached
cached-Found calls id l [] h e = ground arith
cached-Found calls id l ((k, m) ∷ c) h e = elim (Bool-cases (k == id)) [
  | inl same ↦
      let found : Any (Found k l) calls = subst (λ y. Any (Found k y) calls) (ground arith) h.0 in
      subst (λ x. Any (Found x l) calls) ((==_iff k id).0 same) found
  | inr other ↦ cached-Found calls id l c h.1 (ground arith)
]

-- A cache that is bounded and holds what was looked up.
abbrev pub IsSound : List Call → LabelCache → Type 0
IsSound calls c = (length c ≤ label_cache_max) × IsFrom calls c

-- A label given at a time: unknown, or found for the id less than a minute before.
abbrev pub IsFresh : ℕ → ℕ → Text → List Call → Type 0
IsFresh now id label calls =
    (label ≡ unknown_label)
    ⊎ ((l : CachedLabel) × (l.label ≡ label) × (now < l.expires) × Any (Found id l) calls)

abbrev pub Given : Call → List Call → Text × LabelCache → Type 0
Given call calls (label, c) =
    IsFresh call.now call.id label (call ∷ calls) × IsSound (call ∷ calls) c

looked_up-Given :
    (now id : ℕ) (found : Option Text) (calls : List Call) (c : LabelCache)
    → IsSound calls c
    → Given (record { now = now; id = id; found = found }) calls (looked_up now id found c)
unfolding looked_up
looked_up-Given now id none calls c (b, h) = (inl refl, (b, IsFrom-later _ calls c h))
looked_up-Given now id (some text) calls c (b, h) =
    let call : Call = record { now = now; id = id; found = some text } in
    let entry : CachedLabel = record { label = or_unknown text; expires = now + label_ttl } in
    let found : Any (Found id entry) (call ∷ calls) = inl (refl, (text, refl, refl), refl) in
    (
      inr (entry, refl, omega arith, found),
      elim (Bool-cases (leb label_cache_max (length c))) [
        | inl full ↦ rw full (omega arith, (found, tt))
        | inr room ↦ rw room (
          ground (arith, length-put_label id entry c),
          IsFrom-put (call ∷ calls) id entry c found (IsFrom-later call calls c h),
        )
      ],
    )

reused-Given :
    (now id : ℕ) (found : Option Text) (calls : List Call) (c : LabelCache) (o : Option CachedLabel)
    → IsSound calls c
    → cached id c ≡ o
    → Given (record { now = now; id = id; found = found }) calls (reused now id found c o)
unfolding reused
reused-Given now id found calls c none h e = looked_up-Given now id found calls c h
reused-Given now id found calls c (some l) h e = elim (Bool-cases (ltb now l.expires)) [
  | inl live ↦ rw live (
    inr (l, refl, ltb→lt now l.expires live, inr (cached-Found calls id l c h.1 e)),
    (h.0, IsFrom-later (record { now = now; id = id; found = found }) calls c h.1),
  )
  | inr expired ↦ rw expired (looked_up-Given now id found calls c h)
]

get_label-Given :
    (now id : ℕ) (found : Option Text) (calls : List Call) (c : LabelCache)
    → IsSound calls c
    → Given (record { now = now; id = id; found = found }) calls (get_label now id found c)
unfolding get_label
get_label-Given now id found calls c h = elim (Bool-cases (id == 0)) [
  | inl nil ↦
      rw nil
        (inl refl, (h.0, IsFrom-later (record { now = now; id = id; found = found }) calls c h.1))
  | inr other ↦ rw other (reused-Given now id found calls c (cached id c) h refl)
]

cache_after-IsSound : (calls : List Call) → IsSound calls (cache_after calls)
unfolding cache_after
cache_after-IsSound [] = (omega arith, tt)
cache_after-IsSound (c ∷ calls) =
    (get_label-Given c.now c.id c.found calls (cache_after calls) (cache_after-IsSound calls)).1

-- However the calls before went, on whatever clock, a call of the cache gives "unknown", or a label
-- that one of the calls, the present one included, looked up for the same id less than a minute
-- before the present call's time; and the cache holds at most 10,000 labels.
pub get_label-IsFresh :
    (calls : List Call) (c : Call)
    → let (label, cache) = get_label c.now c.id c.found (cache_after calls) in
      IsFresh c.now c.id label (c ∷ calls) × (length cache ≤ label_cache_max)
get_label-IsFresh calls c =
    let (fresh, (bound, _)) =
      get_label-Given c.now c.id c.found calls (cache_after calls) (cache_after-IsSound calls) in
    (fresh, bound)
