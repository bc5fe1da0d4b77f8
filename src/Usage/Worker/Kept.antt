-- ===== src/Usage/Worker/Kept.antt =====
-- No record on the queue is lost, repeated or moved, and the queue and the batches are bounded.
use mathlib.Core.Path.{subst}
use mathlib.Core.List.{append_assoc, append-nil}
use llm_proxy_backend.Prelude.{
  sym, ap, ◌∙◌, inl, inr, Bool-cases, ℕ, zero, suc, ◌+◌, ◌-◌, ◌≤◌, ◌<◌, ◌≡◌, refl, min, Option,
  none, some, List, [], ◌∷◌, ◌++◌, arith, ltb, length, length-append,
}
use llm_proxy_backend.Usage.Worker.{
  usage_queue_size, usage_batch_max, Phase, selecting, filling, filled, flushing, taking, taken,
  answering, Sink, handle_usage, send, hand_over, hand_over_at, work_on, work, Meanwhile, handles,
  sends, closes, syncs, Reaches, start, then_meanwhile, then_works,
}

module _ {R : Type 0} where
  -- The records that the worker has taken off the queue and not yet processed.
  abbrev pub held : Phase R → List R
  held (filling batch _) = batch
  held (filled batch) = batch
  held (taking _ _ batch) = batch
  held (taken _ batch) = batch
  held _ = []

  -- A flush has `n` records to go, of which the worker holds `batch`, and the others are the first on
  -- the queue; with them, what was due is processed.
  abbrev pub Ahead : (n : ℕ) (batch queue processed due : List R) → Type 0
  Ahead n batch queue processed due =
      (first : List R) × (later : List R) × (queue ≡ first ++ later)
      × (processed ++ (batch ++ first) ≡ due)
      × (length batch + length first ≡ n)

  abbrev pub Fits : Phase R → (queue processed due : List R) → Type 0
  Fits selecting q done due = Unit
  Fits (filling batch n) q done due = length batch + n ≤ usage_batch_max
  Fits (filled batch) q done due = length batch ≤ usage_batch_max
  Fits (flushing n) q done due = Ahead n [] q done due
  Fits (taking n k batch) q done due =
      (length batch + k ≡ min n usage_batch_max) × (0 < n) × Ahead n batch q done due
  Fits (taken n batch) q done due =
      (length batch ≡ min n usage_batch_max) × (0 < n) × Ahead n batch q done due
  Fits answering q done due = done ≡ due

  abbrev pub Kept : Phase R → (queue accepted processed due : List R) → Type 0
  Kept p q acc done due =
      (done ++ (held p ++ q) ≡ acc) × (length q ≤ usage_queue_size) × Fits p q done due

  abbrev pub IsKept : Sink R → Type 0
  IsKept s = Kept s.phase s.queue s.accepted s.processed s.due

  abbrev pub Ensures : (Sink R → Type 0) → Option (Sink R) → Type 0
  Ensures P none = Unit
  Ensures P (some s) = P s

  pub Ensures-some :
      (P : Sink R → Type 0) (o : Option (Sink R)) (s : Sink R) → Ensures P o → o ≡ some s → P s
  Ensures-some P none s h e = cc
  Ensures-some P (some t) s h e = subst P (some_inj e) h
    where
      some_inj : some t ≡ some s → t ≡ s
      some_inj e = ground arith

  pub length-snoc : (xs : List R) (r : R) → length (xs ++ r ∷ []) ≡ suc (length xs)
  length-snoc xs r = omega (arith, length-append xs (r ∷ []))

  snoc-append : (xs : List R) (r : R) (ys : List R) → (xs ++ r ∷ []) ++ ys ≡ xs ++ r ∷ ys
  snoc-append xs r ys = append_assoc xs (r ∷ []) ys

  -- One record more moves from the queue to the batch.
  move_one :
      (done batch q acc : List R) (r : R)
      → done ++ (batch ++ r ∷ q) ≡ acc
      → done ++ ((batch ++ r ∷ []) ++ q) ≡ acc
  move_one done batch q acc r h = rw (snoc-append batch r q) h

  process_batch :
      (done batch q acc : List R) → done ++ (batch ++ q) ≡ acc → (done ++ batch) ++ q ≡ acc
  process_batch done batch q acc h = append_assoc done batch q ∙ h

  Ahead-take :
      (n k : ℕ) (batch q done due : List R) (r : R)
      → length batch + suc k ≡ min n usage_batch_max
      → Ahead n batch (r ∷ q) done due
      → Ahead n (batch ++ r ∷ []) q done due
  Ahead-take n k batch q done due r m ([], later, e, d, l) = absurd (omega arith)
  Ahead-take n k batch q done due r m (x ∷ first, later, e, d, l) =
      let same : x ≡ r = cc in
      let rest : q ≡ first ++ later = cc in
      (
        first,
        later,
        rest,
        rw (snoc-append batch r first) (subst (λ y. done ++ (batch ++ y ∷ first) ≡ due) same d),
        omega (arith, length-snoc batch r),
      )

  -- `take` never waits: what it is told to take is queued.
  pub Ahead-queued :
      (n k : ℕ) (batch done due : List R)
      → length batch + suc k ≡ min n usage_batch_max
      → Ahead n batch [] done due
      → ⊥
  Ahead-queued n k batch done due m ([], later, e, d, l) = absurd (omega arith)
  Ahead-queued n k batch done due m (x ∷ first, later, e, d, l) = cc

  Ahead-processed :
      (n : ℕ) (batch q done due : List R)
      → Ahead n batch q done due
      → Ahead (n - length batch) [] q (done ++ batch) due
  Ahead-processed n batch q done due (first, later, e, d, l) =
      (first, later, e, process_batch done batch first due d, omega arith)

  work_on-Kept :
      (p : Phase R) (q : List R) (s : Sink R)
      → Kept p q s.accepted s.processed s.due
      → q ≡ s.queue
      → Ensures IsKept (work_on p q s)
  unfolding work_on
  work_on-Kept selecting [] s h same = tt
  work_on-Kept selecting (r ∷ q) s (o, b, f) same = (o, omega arith, omega arith)
  work_on-Kept (filling batch zero) q s (o, b, f) same =
      subst (λ x. Kept (filled batch) x s.accepted s.processed s.due) same (o, b, omega arith)
  work_on-Kept (filling batch (suc n)) [] s (o, b, f) same =
      subst (λ x. Kept (filled batch) x s.accepted s.processed s.due) same (o, b, omega arith)
  work_on-Kept (filling batch (suc n)) (r ∷ q) s (o, b, f) same =
      (move_one s.processed batch q s.accepted r o, omega arith, omega (arith, length-snoc batch r))
  work_on-Kept (filled batch) q s (o, b, f) same =
      subst (λ x. Kept selecting x s.accepted (s.processed ++ batch) s.due) same
        (process_batch s.processed batch q s.accepted o, b, tt)
  work_on-Kept (flushing zero) q s (o, b, ([], later, e, d, l)) same =
      subst (λ x. Kept answering x s.accepted s.processed s.due) same
        (o, b, sym (append-nil s.processed) ∙ d)
  work_on-Kept (flushing zero) q s (o, b, (x ∷ first, later, e, d, l)) same = absurd (omega arith)
  work_on-Kept (flushing (suc n)) q s (o, b, f) same =
      subst
        (λ x. Kept (taking (suc n) (min (suc n) usage_batch_max) []) x s.accepted s.processed s.due)
        same (o, b, (omega arith, omega arith, f))
  work_on-Kept (taking n zero batch) q s (o, b, (m, pos, a)) same =
      subst (λ x. Kept (taken n batch) x s.accepted s.processed s.due) same
        (o, b, (omega arith, pos, a))
  work_on-Kept (taking n (suc k) batch) [] s h same = tt
  work_on-Kept (taking n (suc k) batch) (r ∷ q) s (o, b, (m, pos, a)) same = (
    move_one s.processed batch q s.accepted r o,
    omega arith,
    (omega (arith, length-snoc batch r), pos, Ahead-take n k batch q s.processed s.due r m a),
  )
  work_on-Kept (taken n batch) q s (o, b, (m, pos, a)) same =
      subst (λ x. Kept (flushing (n - length batch)) x s.accepted (s.processed ++ batch) s.due) same
        (
          process_batch s.processed batch q s.accepted o,
          b,
          Ahead-processed n batch q s.processed s.due a,
        )
  work_on-Kept answering q s (o, b, f) same =
      subst (λ x. Kept selecting x s.accepted s.processed s.due) same (o, b, tt)

  -- Records that come in behind those of a flush.
  Ahead-send :
      (n : ℕ) (batch q done due : List R) (r : R)
      → Ahead n batch q done due
      → Ahead n batch (q ++ r ∷ []) done due
  Ahead-send n batch q done due r (first, later, e, d, l) =
      (first, later ++ r ∷ [], ap (λ x. x ++ r ∷ []) e ∙ append_assoc first later (r ∷ []), d, l)

  Fits-send :
      (p : Phase R) (q done due : List R) (r : R)
      → Fits p q done due
      → Fits p (q ++ r ∷ []) done due
  Fits-send selecting q done due r f = f
  Fits-send (filling batch n) q done due r f = f
  Fits-send (filled batch) q done due r f = f
  Fits-send (flushing n) q done due r f = Ahead-send n [] q done due r f
  Fits-send (taking n k batch) q done due r (m, pos, a) =
      (m, pos, Ahead-send n batch q done due r a)
  Fits-send (taken n batch) q done due r (m, pos, a) = (m, pos, Ahead-send n batch q done due r a)
  Fits-send answering q done due r f = f

  send-IsKept : (r : R) (others : List R) (s : Sink R) → IsKept s → IsKept (send r others s)
  unfolding send
  send-IsKept r others s (o, b, f) = elim (Bool-cases (ltb (length s.queue) usage_queue_size)) [
    | inl room ↦ rw room (
      ap (λ x. s.processed ++ x) (sym (append_assoc (held s.phase) s.queue (r ∷ [])))
          ∙ sym (append_assoc s.processed (held s.phase ++ s.queue) (r ∷ []))
          ∙ ap (λ x. x ++ r ∷ []) o,
      ground (arith, length-snoc s.queue r),
      Fits-send s.phase s.queue s.processed s.due r f,
    )
    | inr full ↦ rw full (o, b, f)
  ]

  handle_usage-IsKept : (r : R) (s : Sink R) → IsKept s → IsKept (handle_usage r s)
  unfolding handle_usage
  handle_usage-IsKept r s h = elim (Bool-cases s.closed) [
    | inl shut ↦ rw shut h
    | inr open_still ↦ rw open_still h
  ]

  hand_over_at-IsKept :
      (p : Phase R) (s : Sink R) → IsKept s → p ≡ s.phase → Ensures IsKept (hand_over_at p s)
  unfolding hand_over_at
  hand_over_at-IsKept selecting s (o, b, f) same = (
    subst (λ (x : Phase R). s.processed ++ (held x ++ s.queue) ≡ s.accepted) (sym same) o,
    b,
    (
      s.queue,
      [],
      sym (append-nil s.queue),
      subst (λ (x : Phase R). s.processed ++ (held x ++ s.queue) ≡ s.accepted) (sym same) o,
      omega arith,
    ),
  )
  hand_over_at-IsKept (filling _ _) s h same = tt
  hand_over_at-IsKept (filled _) s h same = tt
  hand_over_at-IsKept (flushing _) s h same = tt
  hand_over_at-IsKept (taking _ _ _) s h same = tt
  hand_over_at-IsKept (taken _ _) s h same = tt
  hand_over_at-IsKept answering s h same = tt

  pub Meanwhile-IsKept : {s t : Sink R} → Meanwhile s t → IsKept s → IsKept t
  unfolding hand_over
  Meanwhile-IsKept {s} (handles r) h = handle_usage-IsKept r s h
  Meanwhile-IsKept {s} (sends r before after e) h = send-IsKept r (before ++ after) s h
  Meanwhile-IsKept closes h = h
  Meanwhile-IsKept {s} (syncs t e) h =
      Ensures-some IsKept (hand_over s) t (hand_over_at-IsKept s.phase s h refl) e

  pub work-IsKept : (s t : Sink R) → work s ≡ some t → IsKept s → IsKept t
  unfolding work
  work-IsKept s t e h = Ensures-some IsKept (work s) t (work_on-Kept s.phase s.queue s h refl) e

  -- In every order of calls of HandleUsage and Drain and of the worker's steps, what has been
  -- processed, what the worker holds and what is queued are together the records accepted, each once
  -- and in the order of their acceptance; the queue holds at most 4096 records and a batch at most
  -- 256; and when the worker answers a flush, every record accepted before the flush was handed over
  -- has been processed.
  pub Reaches-IsKept : (s : Sink R) → Reaches s → IsKept s
  Reaches-IsKept _ start = (refl, omega arith, tt)
  Reaches-IsKept _ (then_meanwhile s t r m) = Meanwhile-IsKept m (Reaches-IsKept s r)
  Reaches-IsKept _ (then_works s t r e) = work-IsKept s t e (Reaches-IsKept s r)
