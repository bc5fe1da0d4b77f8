-- ===== src/Usage/Worker/Answers.antt =====
-- A flush is answered, however many records come in meanwhile.
use mathlib.Core.List.{append_assoc, append-nil}
use llm_proxy_backend.Prelude.{
  sym, ap, ◌∙◌, inl, inr, ◌⊎◌, Bool-cases, ℕ, zero, suc, ◌+◌, ◌-◌, ◌*◌, ◌<◌, ◌≤◌, ◌≡◌, refl, some,
  List, [], ◌∷◌, ◌++◌, arith, ltb, length,
}
use llm_proxy_backend.Usage.Worker.{
  usage_queue_size, Phase, selecting, filling, filled, flushing, taking, taken, answering, Sink,
  handle_usage, send, hand_over, hand_over_at, work_on, work, Meanwhile, handles, sends, closes,
  syncs, Reaches, then_meanwhile, then_works, Run, here, and_meanwhile, and_works,
}
use llm_proxy_backend.Usage.Worker.Kept.{
  Kept, Ensures, Ensures-some, Reaches-IsKept, Ahead-queued, length-snoc,
}

module _ {R : Type 0} where
  -- How many steps of its own the worker takes, at most, to be done with a flush.
  abbrev pub effort : Phase R → ℕ
  effort (flushing n) = 4 * n + 2
  effort (taking n k batch) = 4 * (n - (length batch + k)) + k + 4
  effort (taken n batch) = 4 * (n - length batch) + 3
  effort answering = 1
  effort _ = 0

  abbrev pub IsFlush : Phase R → Type 0
  IsFlush p = 0 < effort p

  -- The flush that began at `s` is going on, with at least `k` of its worker's steps done.
  abbrev pub GoesOn : (s : Sink R) (bound k : ℕ) → Sink R → Type 0
  GoesOn s bound k t =
      (t.answered ≡ s.answered)
      × (t.due ≡ s.due)
      × (0 < effort t.phase)
      × (effort t.phase + k ≤ bound)

  -- It was answered, and all that was due is processed.
  abbrev pub IsDone : Sink R → Sink R → Type 0
  IsDone s t = (s.answered < t.answered) × ((rest : List R) × (t.processed ≡ s.due ++ rest))

  abbrev pub IsServed : (s : Sink R) (bound k : ℕ) → Sink R → Type 0
  IsServed s bound k t = GoesOn s bound k t ⊎ IsDone s t

  -- A step of the worker in a flush comes nearer to its end, or ends it.
  work_on-IsServed :
      (s : Sink R) (bound k : ℕ) (p : Phase R) (q : List R) (t : Sink R)
      → Kept p q t.accepted t.processed t.due
      → (t.answered ≡ s.answered)
      → (t.due ≡ s.due)
      → 0 < effort p
      → effort p + k ≤ bound
      → Ensures (IsServed s bound (suc k)) (work_on p q t)
  unfolding work_on
  work_on-IsServed s bound k selecting q t h a d pos e = absurd (omega arith)
  work_on-IsServed s bound k (filling _ _) q t h a d pos e = absurd (omega arith)
  work_on-IsServed s bound k (filled _) q t h a d pos e = absurd (omega arith)
  work_on-IsServed s bound k (flushing zero) q t h a d pos e = inl (a, d, omega arith, omega arith)
  work_on-IsServed s bound k (flushing (suc n)) q t h a d pos e =
      inl (a, d, omega arith, omega arith)
  work_on-IsServed s bound k (taking n zero batch) q t h a d pos e =
      inl (a, d, omega arith, omega arith)
  work_on-IsServed s bound k (taking n (suc j) batch) [] t h a d pos e = tt
  work_on-IsServed s bound k (taking n (suc j) batch) (r ∷ q) t h a d pos e =
      inl (a, d, omega arith, omega (arith, length-snoc batch r))
  work_on-IsServed s bound k (taken n batch) q t h a d pos e = inl (a, d, omega arith, omega arith)
  work_on-IsServed s bound k answering q t (o, b, f) a d pos e =
      inr (omega arith, ([], f ∙ d ∙ sym (append-nil s.due)))

  -- In a flush the worker never waits.
  work_on-proceeds :
      (p : Phase R) (q : List R) (t : Sink R)
      → Kept p q t.accepted t.processed t.due
      → 0 < effort p
      → (u : Sink R) × (work_on p q t ≡ some u)
  unfolding work_on
  work_on-proceeds selecting q t h pos = absurd (omega arith)
  work_on-proceeds (filling _ _) q t h pos = absurd (omega arith)
  work_on-proceeds (filled _) q t h pos = absurd (omega arith)
  work_on-proceeds (flushing zero) q t h pos = (_, refl)
  work_on-proceeds (flushing (suc n)) q t h pos = (_, refl)
  work_on-proceeds (taking n zero batch) q t h pos = (_, refl)
  work_on-proceeds (taking n (suc j) batch) [] t (o, b, (m, lt, a)) pos =
      absurd (Ahead-queued n j batch t.processed t.due m a)
  work_on-proceeds (taking n (suc j) batch) (r ∷ q) t h pos = (_, refl)
  work_on-proceeds (taken n batch) q t h pos = (_, refl)
  work_on-proceeds answering q t h pos = (_, refl)

  -- What is done stays done.
  work_on-IsDone :
      (s : Sink R) (p : Phase R) (q : List R) (t : Sink R)
      → IsDone s t
      → Ensures (IsDone s) (work_on p q t)
  unfolding work_on
  work_on-IsDone s selecting [] t h = tt
  work_on-IsDone s selecting (r ∷ q) t h = h
  work_on-IsDone s (filling batch zero) q t h = h
  work_on-IsDone s (filling batch (suc n)) [] t h = h
  work_on-IsDone s (filling batch (suc n)) (r ∷ q) t h = h
  work_on-IsDone s (filled batch) q t (more, (rest, e)) =
      (more, (rest ++ batch, ap (λ x. x ++ batch) e ∙ append_assoc s.due rest batch))
  work_on-IsDone s (flushing zero) q t h = h
  work_on-IsDone s (flushing (suc n)) q t h = h
  work_on-IsDone s (taking n zero batch) q t h = h
  work_on-IsDone s (taking n (suc k) batch) [] t h = tt
  work_on-IsDone s (taking n (suc k) batch) (r ∷ q) t h = h
  work_on-IsDone s (taken n batch) q t (more, (rest, e)) =
      (more, (rest ++ batch, ap (λ x. x ++ batch) e ∙ append_assoc s.due rest batch))
  work_on-IsDone s answering q t (more, done) = (omega arith, done)

  -- The flush goes on until it is answered: no other begins.
  hand_over_at-IsServed :
      (s : Sink R) (bound k : ℕ) (p : Phase R) (t : Sink R)
      → p ≡ t.phase
      → IsServed s bound k t
      → Ensures (IsServed s bound k) (hand_over_at p t)
  unfolding hand_over_at
  hand_over_at-IsServed s bound k selecting t same (inl (a, d, pos, e)) =
      absurd (omega (arith, ap effort same))
  hand_over_at-IsServed s bound k selecting t same (inr done) = inr done
  hand_over_at-IsServed s bound k (filling _ _) t same h = tt
  hand_over_at-IsServed s bound k (filled _) t same h = tt
  hand_over_at-IsServed s bound k (flushing _) t same h = tt
  hand_over_at-IsServed s bound k (taking _ _ _) t same h = tt
  hand_over_at-IsServed s bound k (taken _ _) t same h = tt
  hand_over_at-IsServed s bound k answering t same h = tt

  Meanwhile-IsServed :
      (s : Sink R) (bound k : ℕ) {t u : Sink R}
      → Meanwhile t u
      → IsServed s bound k t
      → IsServed s bound k u
  unfolding hand_over handle_usage send
  Meanwhile-IsServed s bound k {t} (handles r) h = elim (Bool-cases t.closed) [
    | inl shut ↦ rw shut h
    | inr open_still ↦ rw open_still h
  ]
  Meanwhile-IsServed s bound k {t} (sends r before after e) h =
      elim (Bool-cases (ltb (length t.queue) usage_queue_size)) [
        | inl room ↦ rw room h
        | inr full ↦ rw full h
      ]
  Meanwhile-IsServed s bound k closes h = h
  Meanwhile-IsServed s bound k {t} (syncs u e) h =
      Ensures-some (IsServed s bound k) (hand_over t) u
        (hand_over_at-IsServed s bound k t.phase t refl h) e

  work-IsServed :
      (s : Sink R) (bound k : ℕ) (t u : Sink R)
      → Reaches t
      → work t ≡ some u
      → IsServed s bound k t
      → IsServed s bound (suc k) u
  unfolding work
  work-IsServed s bound k t u r e (inl (a, d, pos, le)) =
      Ensures-some (IsServed s bound (suc k)) (work t) u
        (work_on-IsServed s bound k t.phase t.queue t (Reaches-IsKept t r) a d pos le) e
  work-IsServed s bound k t u r e (inr done) =
      inr (Ensures-some (IsDone s) (work t) u (work_on-IsDone s t.phase t.queue t done) e)

  Run-Reaches : {s t : Sink R} {k : ℕ} → Reaches s → Run s k t → Reaches t
  Run-Reaches r here = r
  Run-Reaches r (and_meanwhile k t u run m) = then_meanwhile t u (Run-Reaches r run) m
  Run-Reaches r (and_works k t u run e) = then_works t u (Run-Reaches r run) e

  Run-IsServed :
      (s : Sink R) (bound : ℕ) {k : ℕ} {t : Sink R}
      → Reaches s
      → 0 < effort s.phase
      → effort s.phase ≤ bound
      → Run s k t
      → IsServed s bound k t
  Run-IsServed s bound r pos le here = inl (refl, refl, pos, omega arith)
  Run-IsServed s bound r pos le (and_meanwhile k t u run m) =
      Meanwhile-IsServed s bound k m (Run-IsServed s bound r pos le run)
  Run-IsServed s bound r pos le (and_works k t u run e) =
      work-IsServed s bound k t u (Run-Reaches r run) e (Run-IsServed s bound r pos le run)

  -- A flush that has begun: what is due is what was accepted before.
  abbrev pub Begun : Sink R → Sink R → Type 0
  Begun s u =
      (u.answered ≡ s.answered) × (u.due ≡ s.accepted) × (effort u.phase ≡ 4 * length s.queue + 2)

  hand_over_at-Begun : (p : Phase R) (s : Sink R) → Ensures (Begun s) (hand_over_at p s)
  unfolding hand_over_at
  hand_over_at-Begun selecting s = (refl, refl, refl)
  hand_over_at-Begun (filling _ _) s = tt
  hand_over_at-Begun (filled _) s = tt
  hand_over_at-Begun (flushing _) s = tt
  hand_over_at-Begun (taking _ _ _) s = tt
  hand_over_at-Begun (taken _ _) s = tt
  hand_over_at-Begun answering s = tt

  -- Once the worker has taken up a flush, whatever calls of HandleUsage and Drain come meanwhile: the
  -- worker can always take its next step, and after at most four of its own steps for each record
  -- that was queued, and two more, it has answered the flush, with every record that had been
  -- accepted when the flush was handed over processed, in the order of acceptance.
  pub flush-answered :
      (s u t : Sink R) (k : ℕ)
      → Reaches s
      → hand_over s ≡ some u
      → Run u k t
      → ((k < 4 * length s.queue + 2) × ((v : Sink R) × (work t ≡ some v)))
        ⊎ ((s.answered < t.answered) × ((rest : List R) × (t.processed ≡ s.accepted ++ rest)))
  unfolding hand_over work
  flush-answered s u t k r begun run =
      let (a, d, e) = Ensures-some (Begun s) (hand_over s) u (hand_over_at-Begun s.phase s) begun in
      let reached : Reaches u = then_meanwhile s u r (syncs u begun) in
      elim (Run-IsServed u (effort u.phase) reached (omega arith) (omega arith) run) [
        | inl (_, _, pos, le) ↦ inl (
          omega arith,
          work_on-proceeds t.phase t.queue t (Reaches-IsKept t (Run-Reaches reached run)) pos,
        )
        | inr (more, (rest, p)) ↦ inr (omega arith, (rest, p ∙ ap (λ x. x ++ rest) d))
      ]
