-- ===== src/Gateway/Budget/Steps.antt =====
-- Requests in flight, each growing and giving back its own charge, in any order.
use llm_proxy_backend.Prelude.{
  sym, ◌∙◌, ap, inl, inr, Bool-cases, ==_iff, ℕ, ◌+◌, ◌-◌, ◌≤◌, ◌≡◌, refl, some, List, [], ◌∷◌,
  ◌++◌, arith, ◌==◌, if◌then◌else◌, leb,
}
use llm_proxy_backend.Gateway.Budget.{
  Charge, Held, put_held, new_body_charge, grow_share, granted, refused_charge, unshare, shrink_to,
}

pub record State : Type 0 where
  pub charges : List Charge
  pub held : Held
  pub used : ℕ

abbrev pub with_shrunk : List Charge → List Charge → Charge × Held × ℕ → State
with_shrunk before after (b, held, used) = record {
  charges = before ++ b ∷ after;
  held = held;
  used = used;
}

-- One step of one request. The semaphore grants an amount only when that much is free.
pub data Step : (budget : ℕ) → State → State → Type 0 where
  arrive :
      {budget : ℕ} (owner most : ℕ) (cs : List Charge) (held : Held) (used : ℕ)
      → Step budget
          (record { charges = cs; held = held; used = used })
          (record { charges = new_body_charge budget owner most ∷ cs; held = held; used = used })
  share :
      {budget : ℕ} (before after : List Charge) (b : Charge) (amount : ℕ) (held held' : Held)
      (used : ℕ)
      → b.pending ≡ 0
      → grow_share b amount held ≡ some held'
      → Step budget
          (record { charges = before ++ b ∷ after; held = held; used = used })
          (record {
            charges = before ++ record b { pending = amount } ∷ after;
            held = held';
            used = used;
          })
  grant :
      {budget : ℕ} (before after : List Charge) (b : Charge) (held : Held) (used : ℕ)
      → used + b.pending ≤ budget
      → Step budget
          (record { charges = before ++ b ∷ after; held = held; used = used })
          (record { charges = before ++ granted b ∷ after; held = held; used = used + b.pending })
  give_up :
      {budget : ℕ} (before after : List Charge) (b : Charge) (held : Held) (used : ℕ)
      → Step budget
          (record { charges = before ++ b ∷ after; held = held; used = used })
          (record {
            charges = before ++ refused_charge b ∷ after;
            held = unshare b b.pending held;
            used = used;
          })
  shrink :
      {budget : ℕ} (before after : List Charge) (b : Charge) (keep : ℕ) (held : Held) (used : ℕ)
      → b.pending ≡ 0
      → Step budget
          (record { charges = before ++ b ∷ after; held = held; used = used })
          (with_shrunk before after (shrink_to b keep held used))
  leave :
      {budget : ℕ} (before after : List Charge) (b : Charge) (held : Held) (used : ℕ)
      → b.pending ≡ 0
      → b.n ≡ 0
      → Step budget
          (record { charges = before ++ b ∷ after; held = held; used = used })
          (record { charges = before ++ after; held = held; used = used })

abbrev pub initial : State
initial = record { charges = []; held = λ _. 0; used = 0 }

pub data Reaches : (budget : ℕ) → State → Type 0 where
  start : {budget : ℕ} → Reaches budget initial
  then_step : {budget : ℕ} (s s' : State) → Reaches budget s → Step budget s s' → Reaches budget s'

-- The bytes charged.
abbrev pub total : List Charge → ℕ
total [] = 0
total (b ∷ cs) = b.n + total cs

-- The bytes that an owner's charges hold or wait for.
abbrev pub total_of : ℕ → List Charge → ℕ
total_of o [] = 0
total_of o (b ∷ cs) = (if b.owner == o then b.n + b.pending else 0) + total_of o cs

pub record IsAccounted (budget : ℕ) (s : State) : Type 0 where
  pub charged : s.used ≡ total s.charges
  pub bounded : s.used ≤ budget
  pub shared : (o : ℕ) → s.held o ≡ total_of o s.charges

total-append : (before after : List Charge) → total (before ++ after) ≡ total before + total after
total-append [] after = omega arith
total-append (b ∷ before) after = omega (arith, total-append before after)

total_of-append :
    (o : ℕ) (before after : List Charge)
    → total_of o (before ++ after) ≡ total_of o before + total_of o after
total_of-append o [] after = omega arith
total_of-append o (b ∷ before) after = omega (arith, total_of-append o before after)

-- The invariant, with a charge in the middle.
module _ (before after : List Charge) where
  total-middle : (b : Charge) → total (before ++ b ∷ after) ≡ total before + (b.n + total after)
  total-middle b = total-append before (b ∷ after)

  total_of-middle :
      (o : ℕ) (b : Charge)
      → total_of o (before ++ b ∷ after)
        ≡ total_of o before + ((if b.owner == o then b.n + b.pending else 0) + total_of o after)
  total_of-middle o b = total_of-append o before (b ∷ after)

put_held-at :
    (owner : ℕ) (f : ℕ → ℕ) (held : Held) (o : ℕ)
    → put_held owner (f (held owner)) held o ≡ (if owner == o then f (held o) else held o)
unfolding put_held
put_held-at owner f held o = elim (Bool-cases (owner == o)) [
  | inl e ↦ ground (arith, same ((==_iff owner o).0 e))
  | inr e ↦ ground arith
]
  where
    same : owner ≡ o → f (held owner) ≡ f (held o)
    same e = ap (λ k. f (held k)) e

share-held :
    (b : Charge) (amount : ℕ) (held held' : Held) (o : ℕ)
    → grow_share b amount held ≡ some held'
    → held' o ≡ (if b.owner == o then held o + amount else held o)
unfolding grow_share
share-held b amount held held' o h =
    let same : put_held b.owner (held b.owner + amount) held ≡ held' = ground arith in
    sym (ap (λ (k : Held). k o) same) ∙ put_held-at b.owner (λ n. n + amount) held o

unshare-held :
    (b : Charge) (amount : ℕ) (held : Held) (o : ℕ)
    → unshare b amount held o ≡ (if b.owner == o then held o - amount else held o)
unfolding unshare
unshare-held b amount held o = put_held-at b.owner (λ n. n - amount) held o

shrink_to-IsAccounted :
    (budget : ℕ) (before after : List Charge) (b : Charge) (keep : ℕ) (held : Held) (used : ℕ)
    → b.pending ≡ 0
    → IsAccounted budget (record { charges = before ++ b ∷ after; held = held; used = used })
    → IsAccounted budget (with_shrunk before after (shrink_to b keep held used))
unfolding shrink_to
shrink_to-IsAccounted budget before after b keep held used p w = elim (Bool-cases (leb b.n keep)) [
  | inl e ↦ rw e w
  | inr e ↦ rw e (record {
    charged = ground (
      arith,
      w.charged,
      total-middle before after b,
      total-middle before after (record b { n = keep }),
    );
    bounded = ground (arith, w.bounded);
    shared = λ o. ground (
      arith,
      w.shared o,
      total_of-middle before after o b,
      total_of-middle before after o (record b { n = keep }),
      unshare-held b (b.n - keep) held o,
    );
  })
]

step-IsAccounted :
    (budget : ℕ) (s s' : State) → Step budget s s' → IsAccounted budget s → IsAccounted budget s'
unfolding new_body_charge granted refused_charge
step-IsAccounted budget _ _ (arrive owner most cs held used) w = record {
  charged = omega (arith, w.charged);
  bounded = w.bounded;
  shared = λ o. ground (arith, w.shared o);
}
step-IsAccounted budget _ _ (share before after b amount held held' used p h) w = record {
  charged = ground (
    arith,
    w.charged,
    total-middle before after b,
    total-middle before after (record b { pending = amount }),
  );
  bounded = w.bounded;
  shared = λ o. ground (
    arith,
    w.shared o,
    total_of-middle before after o b,
    total_of-middle before after o (record b { pending = amount }),
    share-held b amount held held' o h,
  );
}
step-IsAccounted budget _ _ (grant before after b held used h) w = record {
  charged =
      ground (arith, w.charged, total-middle before after b, total-middle before after (granted b));
  bounded = h;
  shared = λ o. ground (
    arith,
    w.shared o,
    total_of-middle before after o b,
    total_of-middle before after o (granted b),
  );
}
step-IsAccounted budget _ _ (give_up before after b held used) w = record {
  charged =
      ground (
        arith,
        w.charged,
        total-middle before after b,
        total-middle before after (refused_charge b),
      );
  bounded = w.bounded;
  shared = λ o. ground (
    arith,
    w.shared o,
    total_of-middle before after o b,
    total_of-middle before after o (refused_charge b),
    unshare-held b b.pending held o,
  );
}
step-IsAccounted budget _ _ (shrink before after b keep held used p) w =
    shrink_to-IsAccounted budget before after b keep held used p w
step-IsAccounted budget _ _ (leave before after b held used p h) w = record {
  charged = ground (arith, w.charged, total-middle before after b, total-append before after);
  bounded = w.bounded;
  shared = λ o.
      ground (arith, w.shared o, total_of-middle before after o b, total_of-append o before after);
}

-- However requests arrive, grow, wait, give up, shrink and leave, what is taken of the semaphore is
-- what the requests in flight are charged, never more than the budget, and each owner's share counts
-- exactly what that owner's requests hold or wait for.
pub Reaches-IsAccounted : (budget : ℕ) (s : State) → Reaches budget s → IsAccounted budget s
Reaches-IsAccounted budget _ start = record {
  charged = refl;
  bounded = omega arith;
  shared = λ o. refl;
}
Reaches-IsAccounted budget _ (then_step s s' r t) =
    step-IsAccounted budget s s' t (Reaches-IsAccounted budget s r)
