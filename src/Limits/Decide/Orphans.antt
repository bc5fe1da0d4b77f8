-- ===== src/Limits/Decide/Orphans.antt =====
-- The stored windows that no rule has.
use llm_proxy_backend.Prelude.{
  Bool-cases, inl, inr, ℕ, ◌≤◌, ◌≡◌, refl, ◌∙◌, ap, Bool, false, ◌&&◌, ◌||◌, not, List, [], ◌∷◌,
  map, arith, ◌==◌, any,
}
use llm_proxy_backend.Limits.Rules.{RuleSet}
use llm_proxy_backend.Limits.Decide.{
  Window, put, get, delete, store_from, store, Decision, undecided, judge, decide_rules,
  insert_sorted, sorted, settle, decide,
}

abbrev pub holds : ℕ → List Window → Bool
holds k m = any (λ w. w.length == k) m

-- Each length stands once.
abbrev IsKeyed : List Window → Type 0
IsKeyed [] = Unit
IsKeyed (w ∷ m) = (holds w.length m ≡ false) × IsKeyed m

holds-put :
    (k : ℕ) (w : Window) (m : List Window) → holds k (put w m) ≡ (holds k m || (w.length == k))
unfolding put
holds-put k w [] = ground arith
holds-put k w (v ∷ m) = ground (arith, holds-put k w m)

put-IsKeyed : (w : Window) (m : List Window) → IsKeyed m → IsKeyed (put w m)
unfolding put
put-IsKeyed w [] u = ground arith
put-IsKeyed w (v ∷ m) u = ground (arith, put-IsKeyed w m u.1, holds-put v.length w m)

store_from-IsKeyed : (m rows : List Window) → IsKeyed m → IsKeyed (store_from m rows)
unfolding store_from
store_from-IsKeyed m [] u = u
store_from-IsKeyed m (w ∷ rows) u = store_from-IsKeyed (put w m) rows (put-IsKeyed w m u)

holds-store_from :
    (k : ℕ) (m rows : List Window) → holds k (store_from m rows) ≡ (holds k m || holds k rows)
unfolding store_from
holds-store_from k m [] = ground arith
holds-store_from k m (w ∷ rows) = ground (arith, holds-store_from k (put w m) rows, holds-put k w m)

holds-delete :
    (k j : ℕ) (m : List Window) → IsKeyed m → holds k (delete j m) ≡ (holds k m && not (j == k))
unfolding delete
holds-delete k j [] u = refl
holds-delete k j (v ∷ m) u = ground (arith, holds-delete k j m u.1)

delete-IsKeyed : (j : ℕ) (m : List Window) → IsKeyed m → IsKeyed (delete j m)
unfolding delete
delete-IsKeyed j [] u = tt
delete-IsKeyed j (v ∷ m) u = ground (arith, delete-IsKeyed j m u.1, holds-delete v.length j m u.1)

holds-decide_rules :
    (k now : ℕ) (set : RuleSet) (stored : List Window) (d : Decision)
    → IsKeyed stored
    → holds k (decide_rules now set stored d).1
      ≡ (holds k stored && not (any (λ r. r.window == k) set))
unfolding decide_rules
holds-decide_rules k now [] stored d u = ground arith
holds-decide_rules k now (r ∷ set) stored d u =
    holds-decide_rules k now set (delete r.window stored) (judge now r (get r.window stored) d)
      (delete-IsKeyed r.window stored u)
    ∙ ground (arith, holds-delete k r.window stored u)

abbrev has : ℕ → List ℕ → Bool
has k = any (λ a. a == k)

has-insert_sorted : (k a : ℕ) (l : List ℕ) → has k (insert_sorted a l) ≡ ((a == k) || has k l)
unfolding insert_sorted
has-insert_sorted k a [] = refl
has-insert_sorted k a (b ∷ l) = ground (arith, has-insert_sorted k a l)

has-sorted : (k : ℕ) (l : List ℕ) → has k (sorted l) ≡ has k l
unfolding sorted
has-sorted k [] = refl
has-sorted k (a ∷ l) = has-insert_sorted k a (sorted l) ∙ ap (λ b. (a == k) || b) (has-sorted k l)

has-map_length : (k : ℕ) (m : List Window) → has k (map (λ w. w.length) m) ≡ holds k m
has-map_length k [] = refl
has-map_length k (w ∷ m) = rw (has-map_length k m)

-- In ascending order, from a bound on.
abbrev pub IsAscending : ℕ → List ℕ → Type 0
IsAscending low [] = Unit
IsAscending low (a ∷ l) = (low ≤ a) × IsAscending a l

insert_sorted-IsAscending :
    (low a : ℕ) (l : List ℕ) → low ≤ a → IsAscending low l → IsAscending low (insert_sorted a l)
unfolding insert_sorted
insert_sorted-IsAscending low a [] h s = (h, tt)
insert_sorted-IsAscending low a (b ∷ l) h s = ground (arith, insert_sorted-IsAscending b a l)

sorted-IsAscending : (l : List ℕ) → IsAscending 0 (sorted l)
unfolding sorted
sorted-IsAscending [] = tt
sorted-IsAscending (a ∷ l) =
    insert_sorted-IsAscending 0 a (sorted l) (omega arith) (sorted-IsAscending l)

-- The orphans, blocked or not, are in ascending order, and are exactly the lengths of stored windows
-- that no rule of the set has.
pub decide-orphans :
    (set : RuleSet) (rows : List Window) (now k : ℕ)
    → IsAscending 0 (decide set rows now).orphans
      × (any (λ a. a == k) (decide set rows now).orphans
          ≡ (any (λ w. w.length == k) rows && not (any (λ r. r.window == k) set)))
unfolding decide settle store
decide-orphans set rows now k =
    let left = decide_rules now set (store_from [] rows) undecided in
    let asc = sorted-IsAscending (map (λ w. w.length) left.1) in
    let keyed = store_from-IsKeyed [] rows tt in
    let e =
      has-sorted k (map (λ w. w.length) left.1)
      ∙ has-map_length k left.1
      ∙ holds-decide_rules k now set (store_from [] rows) undecided keyed
      ∙ ap (λ b. b && not (any (λ r. r.window == k) set)) (holds-store_from k [] rows) in
    elim (Bool-cases left.0.blocked) [ inl b ↦ rw b (asc, e) | inr b ↦ rw b (asc, e) ]
