-- ===== src/Usage/Worker.antt =====
-- The usage sink's queue and its worker (`HandleUsage`, `Drain`, `sync`, `run`, `fill` and `take`,
-- internal/infra/gateway/usage/sink.go), one channel operation to a step. `R` is upstream's usage
-- record. `process` is one step, since it touches neither the queue nor the flush channel.
pub mod Kept
pub mod Counted
pub mod Answers
use llm_proxy_backend.Prelude.{
  ℕ, zero, suc, ◌+◌, ◌-◌, ◌%◌, ◌^◌, ◌≡◌, min, Bool, true, Option, none, some, List, [], ◌∷◌, ◌++◌,
  ltb, if◌then◌else◌, length,
}

abbrev pub usage_queue_size : ℕ
usage_queue_size = 4096

abbrev pub usage_batch_max : ℕ
usage_batch_max = 256

-- Where the worker is in `run`, with the variables of the loop it is in.
pub data Phase (R : Type 0) : Type 0 where
  -- At the select.
  selecting : Phase R
  -- In `fill`, with at most `n` records to add, and past it.
  filling : (batch : List R) (n : ℕ) → Phase R
  filled : (batch : List R) → Phase R
  -- In the flush's loop, at its test; in `take`, with `k` records to add; past it.
  flushing : (n : ℕ) → Phase R
  taking : (n k : ℕ) (batch : List R) → Phase R
  taken : (n : ℕ) (batch : List R) → Phase R
  -- Before close(done).
  answering : Phase R

pub record Sink (R : Type 0) : Type 0 where
  pub queue : List R
  pub closed : Bool
  pub dropped : ℕ
  pub phase : Phase R
  -- The calls of HandleUsage that have found the sink open and have yet to send.
  pub sending : List R
  -- What has happened: how many records were handed in, which were put on the queue, which `process`
  -- has been given, how many flushes were answered, and what was on record when the last one began.
  pub offered : ℕ
  pub accepted : List R
  pub processed : List R
  pub answered : ℕ
  pub due : List R

module _ {R : Type 0} where
  -- `New`.
  abbrev pub new_sink : Sink R
  new_sink = record {
    queue = [];
    closed = Bool.false;
    dropped = 0;
    phase = selecting;
    sending = [];
    offered = 0;
    accepted = [];
    processed = [];
    answered = 0;
    due = [];
  }

  -- `HandleUsage` up to its select.
  unfoldable pub handle_usage : R → Sink R → Sink R
  handle_usage r s =
      if s.closed
      then record s { dropped = (s.dropped + 1) % 2 ^ 64; offered = s.offered + 1 }
      else record s { sending = r ∷ s.sending; offered = s.offered + 1 }

  -- Its select, of one of the calls; `others` have yet to send.
  unfoldable pub send : R → List R → Sink R → Sink R
  send r others s =
      if ltb (length s.queue) usage_queue_size
      then record s { sending = others; queue = s.queue ++ r ∷ []; accepted = s.accepted ++ r ∷ [] }
      else record s { sending = others; dropped = (s.dropped + 1) % 2 ^ 64 }

  -- `Drain`, before its `sync`.
  abbrev pub close : Sink R → Sink R
  close s = record s { closed = true }

  -- `sync` hands a flush over when the worker is at its select, and the worker reads the length of the
  -- queue in the same step.
  unfoldable pub hand_over_at : Phase R → Sink R → Option (Sink R)
  hand_over_at selecting s = some (record s { phase = flushing (length s.queue); due = s.accepted })
  hand_over_at _ s = none

  unfoldable pub hand_over : Sink R → Option (Sink R)
  unfolding hand_over_at
  hand_over s = hand_over_at s.phase s

  -- The worker's next step in a phase, with what is queued. `none` is a receive that has to wait.
  unfoldable pub work_on : Phase R → List R → Sink R → Option (Sink R)
  work_on selecting [] s = none
  work_on selecting (r ∷ q) s =
      some (record s { queue = q; phase = filling (r ∷ []) (usage_batch_max - 1) })
  work_on (filling batch zero) q s = some (record s { phase = filled batch })
  work_on (filling batch (suc n)) [] s = some (record s { phase = filled batch })
  work_on (filling batch (suc n)) (r ∷ q) s =
      some (record s { queue = q; phase = filling (batch ++ r ∷ []) n })
  work_on (filled batch) q s =
      some (record s { processed = s.processed ++ batch; phase = selecting })
  work_on (flushing zero) q s = some (record s { phase = answering })
  work_on (flushing (suc n)) q s =
      some (record s { phase = taking (suc n) (min (suc n) usage_batch_max) [] })
  work_on (taking n zero batch) q s = some (record s { phase = taken n batch })
  work_on (taking n (suc k) batch) [] s = none
  work_on (taking n (suc k) batch) (r ∷ q) s =
      some (record s { queue = q; phase = taking n k (batch ++ r ∷ []) })
  work_on (taken n batch) q s =
      some (record s { processed = s.processed ++ batch; phase = flushing (n - length batch) })
  work_on answering q s = some (record s { phase = selecting; answered = suc s.answered })

  unfoldable pub work : Sink R → Option (Sink R)
  unfolding work_on
  work s = work_on s.phase s.queue s

-- What the rest of the process may do meanwhile: calls of HandleUsage and Drain.
pub data Meanwhile {R : Type 0} (s : Sink R) : Sink R → Type 0 where
  handles : (r : R) → Meanwhile s (handle_usage r s)
  sends :
      (r : R) (before after : List R)
      → s.sending ≡ before ++ r ∷ after
      → Meanwhile s (send r (before ++ after) s)
  closes : Meanwhile s (close s)
  syncs : (t : Sink R) → hand_over s ≡ some t → Meanwhile s t

-- The states that some order of these steps and the worker's leads to, from the start.
pub data Reaches {R : Type 0} : Sink R → Type 0 where
  start : Reaches new_sink
  then_meanwhile : (s t : Sink R) → Reaches s → Meanwhile s t → Reaches t
  then_works : (s t : Sink R) → Reaches s → work s ≡ some t → Reaches t

-- The ways on from a state, with how many of the steps are the worker's.
pub data Run {R : Type 0} (s : Sink R) : ℕ → Sink R → Type 0 where
  here : Run s 0 s
  and_meanwhile : (k : ℕ) (t u : Sink R) → Run s k t → Meanwhile t u → Run s k u
  and_works : (k : ℕ) (t u : Sink R) → Run s k t → work t ≡ some u → Run s (suc k) u
