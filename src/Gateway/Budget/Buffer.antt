-- ===== src/Gateway/Budget/Buffer.antt =====
-- `bufferBody` and `probeEnd` (internal/infra/gateway/body_budget.go). The body is an io.Reader, and
-- whether the budget grants a charge is a function of the charge: both are parameters. Fuel counts the
-- reads.
pub mod Ends
use llm_proxy_backend.Prelude.{
  ℕ, zero, suc, ◌+◌, ◌-◌, ◌*◌, ◌^◌, min, Bool, true, false, ◌&&◌, Option, none, some, List, [],
  ◌++◌, length, ltb, ◌==◌, if◌then◌else◌,
}

abbrev pub initial_body_buffer : ℕ
initial_body_buffer = 16 * 2 ^ 10

-- The error of one read: none, io.EOF, or any other.
pub data ReadError : Type 0 where
  going end_of_file broken : ReadError

pub record ReadOut (S : Type 0) : Type 0 where
  pub bytes : List ℕ
  pub error : ReadError
  pub rest : S

-- `refused` is the error of `held.grow`, `broken_off` a wrapped error of a read.
pub data Buffered : Type 0 where
  complete over_read unexpected_end refused broken_off out_of_fuel : Buffered

pub data Room : Type 0 where
  full denied : Room
  room : (cap charged : ℕ) → Room

-- The buffer and the charge at the return.
pub record Outcome : Type 0 where
  pub result : Buffered
  pub buf : List ℕ
  pub charged : ℕ

module _ {S : Type 0} (read : S → ℕ → ReadOut S) where
  -- `nil`, errBodyOverRead or the wrapped error.
  unfoldable pub probe_end : ℕ → S → Buffered
  probe_end zero s = out_of_fuel
  probe_end (suc fuel) s =
      let out = read s 1 in
      if ltb 0 (length out.bytes) then over_read else elim out.error [
        | end_of_file ↦ complete
        | broken ↦ broken_off
        | going ↦ probe_end fuel out.rest
      ]

  module _ (grants : ℕ → Bool) (known : Option ℕ) (size : ℕ) where
    -- Whether a body of a known length ended before it.
    abbrev pub is_short : Option ℕ → List ℕ → Bool
    is_short none buf = false
    is_short (some n) buf = ltb (length buf) n

    -- What the error of a read leads to; `next` is the rest of the loop.
    unfoldable pub after_read : ReadError → List ℕ → ℕ → Outcome → Outcome
    after_read end_of_file buf charged next = record {
      result = if is_short known buf then unexpected_end else complete;
      buf = buf;
      charged = charged;
    }
    after_read broken buf charged next = record {
      result = broken_off;
      buf = buf;
      charged = charged;
    }
    after_read going buf charged next = next

    -- A full buffer of the whole size.
    unfoldable pub at_size : Option ℕ → ℕ → S → List ℕ → ℕ → Outcome
    unfolding probe_end
    at_size (some _) fuel s buf charged = record { result = complete; buf = buf; charged = charged }
    at_size none fuel s buf charged = record {
      result = probe_end fuel s;
      buf = buf;
      charged = charged;
    }

    -- What the loop does before a read: it returns, or it reads into a buffer of the capacity.
    unfoldable pub room_for : List ℕ → ℕ → ℕ → Room
    room_for buf cap charged =
        if length buf == cap
        then if length buf == size
          then full
          else if grants (min (2 * cap) size)
          then room (min (2 * cap) size) (min (2 * cap) size)
          else denied
        else room cap charged

    unfoldable pub buffer_loop : ℕ → S → List ℕ → ℕ → ℕ → Outcome
    unfolding after_read at_size room_for
    buffer_loop zero s buf cap charged = record {
      result = out_of_fuel;
      buf = buf;
      charged = charged;
    }
    buffer_loop (suc fuel) s buf cap charged = elim (room_for buf cap charged) [
      | full ↦ at_size known fuel s buf charged
      | denied ↦ record { result = refused; buf = buf; charged = charged }
      | room cap charged ↦
          let out = read s (cap - length buf) in
          let buf = buf ++ out.bytes in
          after_read out.error buf charged (buffer_loop fuel out.rest buf cap charged)
    ]

  -- The length that is known, or the limit.
  abbrev pub size_of : Option ℕ → ℕ → ℕ
  size_of none limit = limit
  size_of (some n) limit = n

  unfoldable pub buffer_body : (ℕ → Bool) → ℕ → S → Option ℕ → ℕ → Outcome
  unfolding buffer_loop
  buffer_body grants fuel s known limit =
      let size = size_of known limit in
      let initial = min initial_body_buffer size in
      if grants initial
      then buffer_loop grants known size fuel s [] initial initial
      else record { result = refused; buf = []; charged = 0 }
