-- ===== src/Gateway/Budget/Buffer/Ends.antt =====
-- Reading a body ends, within its size and its charge.
use llm_proxy_backend.Prelude.{
  ℕ, zero, suc, ◌-◌, ◌<◌, ◌≤◌, ◌≡◌, refl, min, Bool, true, false, Option, none, some, List, [],
  ◌++◌, length, length-append, ltb, arith, if◌then◌else◌,
}
use llm_proxy_backend.Gateway.Budget.Buffer.{
  initial_body_buffer, ReadError, going, end_of_file, broken, ReadOut, Buffered, complete,
  over_read, broken_off, refused, out_of_fuel, Outcome, Room, full, denied, room, probe_end,
  after_read, at_size, room_for, buffer_loop, size_of, buffer_body,
}

abbrev pub ran_out : Buffered → Bool
ran_out out_of_fuel = true
ran_out _ = false

-- The loop has returned, and what it holds is within its charge, which is within the size.
abbrev pub IsEnded : ℕ → Outcome → Type 0
IsEnded size o = (ran_out o.result ≡ false) × (length o.buf ≤ o.charged) × (o.charged ≤ size)

module _ {S : Type 0} (read : S → ℕ → ReadOut S) (rank : S → ℕ)
    (progress : (s : S) (n : ℕ) → 0 < n → (read s n).error ≡ going → rank (read s n).rest < rank s)
    (fits : (s : S) (n : ℕ) → length (read s n).bytes ≤ n) where
  probe_end-ends : (fuel : ℕ) (s : S) → rank s < fuel → ran_out (probe_end read fuel s) ≡ false
  unfolding probe_end
  probe_end-ends zero s h = ground (arith, h)
  probe_end-ends (suc fuel) s h =
      probed (length (read s 1).bytes) (read s 1).error fuel (read s 1).rest λ e.
        probe_end-ends fuel (read s 1).rest
          (let less = progress s 1 (omega arith) e in omega (arith, h, less))
    where
      probed :
          (n : ℕ) (e : ReadError) (fuel : ℕ) (rest : S)
          → (e ≡ going → ran_out (probe_end read fuel rest) ≡ false)
          → ran_out (
              if ltb 0 n then over_read else (elim e [
                | end_of_file ↦ complete
                | broken ↦ broken_off
                | going ↦ probe_end read fuel rest
              ]))
            ≡ false
      probed n going fuel rest ih = ground (arith, ih refl)
      probed n end_of_file fuel rest ih = ground arith
      probed n broken fuel rest ih = ground arith

  module _ (grants : ℕ → Bool) (known : Option ℕ) (size : ℕ) where
    -- A buffer within its capacity, its charge and the size, with a capacity unless the size is 0.
    abbrev IsHeld : List ℕ → ℕ → ℕ → Type 0
    IsHeld buf cap charged =
        (length buf ≤ cap) × (cap ≤ charged) × (charged ≤ size) × (min 1 size ≤ cap)

    -- There is room for at least one byte.
    room_for-IsHeld :
        (buf : List ℕ) (cap charged c n : ℕ)
        → IsHeld buf cap charged
        → room_for read grants known size buf cap charged ≡ room c n
        → IsHeld buf c n × (length buf < c)
    unfolding room_for
    room_for-IsHeld buf cap charged c n (a, b, d, f) h = ground (arith, a, b, d, f)

    at_size-ends :
        (k : Option ℕ) (fuel : ℕ) (s : S) (buf : List ℕ) (charged : ℕ)
        → rank s < fuel
        → length buf ≤ charged
        → charged ≤ size
        → IsEnded size (at_size read grants known size k fuel s buf charged)
    unfolding at_size
    at_size-ends none fuel s buf charged h a b = (probe_end-ends fuel s h, a, b)
    at_size-ends (some n) fuel s buf charged h a b = (refl, a, b)

    after_read-ends :
        (e : ReadError) (buf : List ℕ) (charged : ℕ) (next : Outcome)
        → length buf ≤ charged
        → charged ≤ size
        → (e ≡ going → IsEnded size next)
        → IsEnded size (after_read read grants known size e buf charged next)
    unfolding after_read
    after_read-ends going buf charged next a b ih = ih refl
    after_read-ends end_of_file buf charged next a b ih = ground (arith, a, b)
    after_read-ends broken buf charged next a b ih = (refl, a, b)

    buffer_loop-ends :
        (fuel : ℕ) (s : S) (buf : List ℕ) (cap charged : ℕ)
        → suc (rank s) < fuel
        → IsHeld buf cap charged
        → IsEnded size (buffer_loop read grants known size fuel s buf cap charged)
    unfolding buffer_loop
    buffer_loop-ends zero s buf cap charged h held = ground (arith, h)
    buffer_loop-ends (suc fuel) s buf cap charged h (a, b, d, f) =
        split (room_for read grants known size buf cap charged) refl
          (λ s' buf' c n less held. buffer_loop-ends fuel s' buf' c n less held)
      where
        split :
            (r : Room)
            → room_for read grants known size buf cap charged ≡ r
            → ((s' : S) (buf' : List ℕ) (c n : ℕ)
                → suc (rank s') < fuel
                → IsHeld buf' c n
                → IsEnded size (buffer_loop read grants known size fuel s' buf' c n))
            → IsEnded size (elim r [
              | full ↦ at_size read grants known size known fuel s buf charged
              | denied ↦ record { result = refused; buf = buf; charged = charged }
              | room cap charged ↦
                  let out = read s (cap - length buf) in
                  let buf = buf ++ out.bytes in
                  after_read read grants known size out.error buf charged
                    (buffer_loop read grants known size fuel out.rest buf cap charged)
            ])
        split full e ih =
            at_size-ends known fuel s buf charged (omega (arith, h)) (omega (arith, a, b)) d
        split denied e ih = (refl, omega (arith, a, b), d)
        split (room c n) e ih =
            let ((a', b', d', f'), open_end) = room_for-IsHeld buf cap charged c n (a, b, d, f) e in
            let out = read s (c - length buf) in
            let longer = length-append buf out.bytes in
            let fit = fits s (c - length buf) in
            let within : length (buf ++ out.bytes) ≤ c = omega (arith, longer, fit, a') in
            after_read-ends out.error (buf ++ out.bytes) n _ (omega (arith, within, b')) d'
              λ going_on.
                ih out.rest (buf ++ out.bytes) c n
                  (let less = progress s (c - length buf) (omega (arith, open_end)) going_on in
                    omega (arith, h, less))
                  (within, b', d', f')

  -- If every read into a buffer that is not empty either brings the body nearer its end or fails, then
  -- with one read more than the body can answer without an error, and one to look past the limit,
  -- reading a body returns; a read into an empty buffer may do nothing. What it has read is never longer than its charge, and the charge never more
  -- than the body's known length, or the limit where it is not known.
  pub buffer_body-ends :
      (grants : ℕ → Bool) (fuel : ℕ) (s : S) (known : Option ℕ) (limit : ℕ)
      → suc (rank s) < fuel
      → IsEnded (size_of read known limit) (buffer_body read grants fuel s known limit)
  unfolding buffer_body
  buffer_body-ends grants fuel s known limit h =
      started (grants (min initial_body_buffer (size_of read known limit)))
    where
      started :
          (b : Bool)
          → IsEnded (size_of read known limit) (
              if b
              then buffer_loop read grants known
                  (size_of read known limit)
                  fuel
                  s
                  []
                  (min initial_body_buffer (size_of read known limit))
                  (min initial_body_buffer (size_of read known limit))
              else record { result = refused; buf = []; charged = 0 })
      started true =
          buffer_loop-ends grants known (size_of read known limit) fuel s [] _ _ h
            (omega arith, omega arith, ground arith, ground arith)
      started false = (refl, omega arith, omega arith)
