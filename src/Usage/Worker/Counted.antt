-- ===== src/Usage/Worker/Counted.antt =====
-- Every record handed in is on the queue, on its way there, or counted as dropped.
use llm_proxy_backend.Prelude.{
  ap, ◌∙◌, inl, inr, Bool-cases, ℕ, zero, suc, ◌+◌, ◌%◌, ◌^◌, ◌≡◌, refl, List, [], ◌∷◌, ◌++◌, arith,
  ltb, length, length-append,
}
use llm_proxy_backend.Usage.Worker.{
  usage_queue_size, Phase, selecting, filling, filled, flushing, taking, taken, answering, Sink,
  handle_usage, send, hand_over, hand_over_at, work_on, work, Meanwhile, handles, sends, closes,
  syncs, Reaches, start, then_meanwhile, then_works,
}
use llm_proxy_backend.Usage.Worker.Kept.{Ensures, Ensures-some}

module _ {R : Type 0} where
  -- `lost` records were dropped; the counter has 64 bits.
  abbrev pub IsCounted : Sink R → Type 0
  IsCounted s =
      (lost : ℕ) × (s.dropped ≡ lost % 2 ^ 64)
      × (length s.accepted + length s.sending + lost ≡ s.offered)

  handle_usage-IsCounted : (r : R) (s : Sink R) → IsCounted s → IsCounted (handle_usage r s)
  unfolding handle_usage
  handle_usage-IsCounted r s (lost, d, e) = elim (Bool-cases s.closed) [
    | inl shut ↦ rw shut (lost + 1, omega arith, omega arith)
    | inr open_still ↦ rw open_still (lost, d, omega arith)
  ]

  send-IsCounted :
      (r : R) (before after : List R) (s : Sink R)
      → s.sending ≡ before ++ r ∷ after
      → IsCounted s
      → IsCounted (send r (before ++ after) s)
  unfolding send
  send-IsCounted r before after s same (lost, d, e) =
      let fewer : length s.sending ≡ suc (length (before ++ after)) =
        ap length same
        ∙ omega (arith, length-append before (r ∷ after), length-append before after) in
      elim (Bool-cases (ltb (length s.queue) usage_queue_size)) [
        | inl room ↦ rw room (lost, d, omega (arith, length-append s.accepted (r ∷ [])))
        | inr full ↦ rw full (lost + 1, omega arith, omega arith)
      ]

  hand_over_at-IsCounted :
      (p : Phase R) (s : Sink R) → IsCounted s → Ensures IsCounted (hand_over_at p s)
  unfolding hand_over_at
  hand_over_at-IsCounted selecting s h = h
  hand_over_at-IsCounted (filling _ _) s h = tt
  hand_over_at-IsCounted (filled _) s h = tt
  hand_over_at-IsCounted (flushing _) s h = tt
  hand_over_at-IsCounted (taking _ _ _) s h = tt
  hand_over_at-IsCounted (taken _ _) s h = tt
  hand_over_at-IsCounted answering s h = tt

  work_on-IsCounted :
      (p : Phase R) (q : List R) (s : Sink R) → IsCounted s → Ensures IsCounted (work_on p q s)
  unfolding work_on
  work_on-IsCounted selecting [] s h = tt
  work_on-IsCounted selecting (r ∷ q) s h = h
  work_on-IsCounted (filling batch zero) q s h = h
  work_on-IsCounted (filling batch (suc n)) [] s h = h
  work_on-IsCounted (filling batch (suc n)) (r ∷ q) s h = h
  work_on-IsCounted (filled batch) q s h = h
  work_on-IsCounted (flushing zero) q s h = h
  work_on-IsCounted (flushing (suc n)) q s h = h
  work_on-IsCounted (taking n zero batch) q s h = h
  work_on-IsCounted (taking n (suc k) batch) [] s h = tt
  work_on-IsCounted (taking n (suc k) batch) (r ∷ q) s h = h
  work_on-IsCounted (taken n batch) q s h = h
  work_on-IsCounted answering q s h = h

  Meanwhile-IsCounted : {s t : Sink R} → Meanwhile s t → IsCounted s → IsCounted t
  unfolding hand_over
  Meanwhile-IsCounted {s} (handles r) h = handle_usage-IsCounted r s h
  Meanwhile-IsCounted {s} (sends r before after e) h = send-IsCounted r before after s e h
  Meanwhile-IsCounted closes h = h
  Meanwhile-IsCounted {s} (syncs t e) h =
      Ensures-some IsCounted (hand_over s) t (hand_over_at-IsCounted s.phase s h) e

  -- In every such order, each record handed to HandleUsage has been accepted, is about to be sent, or
  -- has been dropped, and `Dropped` is the number of those, on 64 bits.
  pub Reaches-IsCounted : (s : Sink R) → Reaches s → IsCounted s
  unfolding work
  Reaches-IsCounted _ start = (0, refl, refl)
  Reaches-IsCounted _ (then_meanwhile s t r m) = Meanwhile-IsCounted m (Reaches-IsCounted s r)
  Reaches-IsCounted _ (then_works s t r e) =
      Ensures-some IsCounted (work s) t
        (work_on-IsCounted s.phase s.queue s (Reaches-IsCounted s r)) e
