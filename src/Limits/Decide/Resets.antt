-- ===== src/Limits/Decide/Resets.antt =====
-- Which window a refusal of `decide` names, and how long it says to wait.
use llm_proxy_backend.Prelude.{
  ℕ, ◌+◌, ◌≤◌, ◌<◌, ◌≡◌, refl, ◌⊎◌, inl, inr, Bool-cases, ◌∙◌, Bool, true, false, ◌&&◌, Option,
  none, some, [], ◌∷◌, List, arith, ltb, ◌==◌, any,
}
use llm_proxy_backend.Limits.Rules.{Rule, RuleSet}
use llm_proxy_backend.Limits.Decide.{
  Window, ends_at, live_at, get, delete, store, Decision, undecided, judge, supersedes,
  decide_rules, settle, decide,
}
use llm_proxy_backend.Limits.Decide.Blocking.{IsDistinct, exhausted_by, any-delete}

abbrev pub end_by : Option Window → ℕ
end_by none = 0
end_by (some w) = ends_at w

-- An exhausted window that ends after `t`.
unfoldable pub exhausted_after : ℕ → ℕ → Rule → Option Window → Bool
exhausted_after now t r o = exhausted_by now r o && ltb t (end_by o)

-- The exhausted window that a decision names and whose end it gives.
unfoldable pub named_by : ℕ → Decision → Rule → Option Window → Bool
named_by now d r o =
    exhausted_by now r o && (end_by o == d.resets_at) && (r.window == d.rule.window)

judge-grows :
    (now : ℕ) (r : Rule) (o : Option Window) (d : Decision)
    → d.blocked ≡ true
    → ((judge now r o d).blocked ≡ true) × (d.resets_at ≤ (judge now r o d).resets_at)
unfolding judge supersedes
judge-grows now r none d h = ground arith
judge-grows now r (some w) d h = ground arith

judge-covers :
    (now : ℕ) (r : Rule) (o : Option Window) (d : Decision)
    → exhausted_by now r o ≡ true
    → ((judge now r o d).blocked ≡ true) × (end_by o ≤ (judge now r o d).resets_at)
unfolding judge supersedes exhausted_by
judge-covers now r none d h = ground arith
judge-covers now r (some w) d h = ground arith

decide_rules-grows :
    (now : ℕ) (set : RuleSet) (stored : List Window) (d : Decision)
    → d.blocked ≡ true
    → d.resets_at ≤ (decide_rules now set stored d).0.resets_at
unfolding decide_rules
decide_rules-grows now [] stored d h = omega arith
decide_rules-grows now (r ∷ set) stored d h =
    let step = judge-grows now r (get r.window stored) d h in
    omega (
      arith,
      step.1,
      decide_rules-grows now set (delete r.window stored) (judge now r (get r.window stored) d)
          step.0,
    )

exhausted_after-false :
    (now : ℕ) {j t : ℕ} (r : Rule) (o : Option Window)
    → (exhausted_by now r o ≡ true → (j ≤ t) × (end_by o ≤ j))
    → exhausted_after now t r o ≡ false
unfolding exhausted_after
exhausted_after-false now r o h = ground arith

decide_rules-covers :
    (now : ℕ) (set : RuleSet) (stored : List Window) (d : Decision) (t : ℕ)
    → IsDistinct set
    → (decide_rules now set stored d).0.resets_at ≤ t
    → any (λ r. exhausted_after now t r (get r.window stored)) set ≡ false
unfolding decide_rules
decide_rules-covers now [] stored d t u h = refl
decide_rules-covers now (r ∷ set) stored d t (apart, u) h =
    let o = get r.window stored in
    let left = delete r.window stored in
    let next = judge now r o d in
    let rest = decide_rules-covers now set left next t u h in
    rw
      (
        exhausted_after-false now {j = next.resets_at} {t = t} r o (λ e.
            let c = judge-covers now r o d e in
            let g = decide_rules-grows now set left next c.0 in (omega arith, c.1)),
        ← any-delete (exhausted_after now t) r stored set apart,
      )
      rest

-- One step either names this rule or leaves what was named.
judge-named :
    (now : ℕ) (r : Rule) (o : Option Window) (d : Decision)
    → (judge now r o d).blocked ≡ true
    → (named_by now (judge now r o d) r o ≡ true)
      ⊎ ((d.blocked ≡ true)
          × ((judge now r o d).resets_at ≡ d.resets_at)
          × ((judge now r o d).rule ≡ d.rule))
unfolding judge supersedes named_by exhausted_by
judge-named now r none d h = ground arith
judge-named now r (some w) d h = ground arith

named_by-congr :
    (now : ℕ) (d e : Decision) (r : Rule) (o : Option Window)
    → d.resets_at ≡ e.resets_at
    → d.rule ≡ e.rule
    → named_by now d r o ≡ named_by now e r o
unfolding named_by
named_by-congr now d e r o p q = rw (p, q)

decide_rules-named :
    (now : ℕ) (set : RuleSet) (stored : List Window) (d : Decision)
    → IsDistinct set
    → (decide_rules now set stored d).0.blocked ≡ true
    → let e = (decide_rules now set stored d).0 in
      (any (λ r. named_by now e r (get r.window stored)) set ≡ true)
      ⊎ ((d.blocked ≡ true) × (e.resets_at ≡ d.resets_at) × (e.rule ≡ d.rule))
unfolding decide_rules
decide_rules-named now [] stored d u h = inr (h, refl, refl)
decide_rules-named now (r ∷ set) stored d (apart, u) h =
    let o = get r.window stored in
    let left = delete r.window stored in
    let next = judge now r o d in
    let e = (decide_rules now set left next).0 in
    let same = any-delete (named_by now e) r stored set apart in
    elim (decide_rules-named now set left next u h) [
      | inl later ↦ inl (ground (arith, same))
      | inr (b, p, q) ↦ elim (judge-named now r o d b) [
        | inl here ↦ inl (rw (named_by-congr now e next r o p q, here))
        | inr (b', p', q') ↦ inr (b', p ∙ p', q ∙ q')
      ]
    ]

named-lt :
    (now : ℕ) (d : Decision) (r : Rule) (o : Option Window)
    → named_by now d r o ≡ true
    → now < d.resets_at
unfolding named_by exhausted_by live_at
named-lt now d r none h = ground arith
named-lt now d r (some w) h = ground arith

any-named-lt :
    (now : ℕ) (d : Decision) (stored : List Window) (set : RuleSet)
    → any (λ r. named_by now d r (get r.window stored)) set ≡ true
    → now < d.resets_at
any-named-lt now d stored [] h = cc
any-named-lt now d stored (r ∷ set) h = elim (Bool-cases (named_by now d r (get r.window stored))) [
  | inl e ↦ named-lt now d r (get r.window stored) e
  | inr e ↦ any-named-lt now d stored set (rw e at h)
]

-- A blocked decision gives the end of the exhausted window that ends last, names that window's rule,
-- and waits exactly until then, which lies ahead.
pub decide-resets_at :
    (set : RuleSet) (rows : List Window) (now : ℕ)
    → IsDistinct set
    → (decide set rows now).blocked ≡ true
    → let d = decide set rows now in
      (any (λ r. exhausted_after now d.resets_at r (get r.window (store rows))) set ≡ false)
      × (any (λ r. named_by now d r (get r.window (store rows))) set ≡ true)
      × (now + d.wait ≡ d.resets_at)
      × (now < d.resets_at)
unfolding decide settle named_by
decide-resets_at set rows now u h =
    let e = (decide_rules now set (store rows) undecided).0 in
    let b : e.blocked ≡ true = ground arith in
    let covers = decide_rules-covers now set (store rows) undecided e.resets_at u (omega arith) in
    elim (decide_rules-named now set (store rows) undecided u b) [
      | inl named ↦
          let ahead = any-named-lt now e (store rows) set named in
          (rw b covers, rw b named, rw b (omega arith), rw b ahead)
      | inr absent ↦ cc absent.0
    ]
