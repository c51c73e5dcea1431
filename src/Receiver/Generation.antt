-- ===== src/Receiver/Generation.antt =====
-- src/receiver/generation.rs: from a packet's header to its generation.
use safe_cast.Base.{
  ℕ, ◌+◌, ◌-◌, ◌*◌, ◌/◌, ◌%◌, ◌^◌, ◌<◌, ◌≡◌, ap, arith, ltb, lt→ltb, Exec, ret, assert, ◌>>◌,
}
use native.Mathlib.Nat.{div-eq_of_lt-le}
use safe_cast.Keying.Granularity.{Granularity, per_frame, per_packet}

pub data GenerationScheme : Type 0 where
  epoch_only : GenerationScheme
  frame : (epoch_start_ts frame_period : ℕ) → GenerationScheme
  packet : (base : ℕ) → GenerationScheme
  every_n : (base n : ℕ) → GenerationScheme

unfoldable pub for_granularity : Granularity → ℕ → ℕ → ℕ → GenerationScheme
for_granularity Granularity.epoch_only start period base = epoch_only
for_granularity per_frame start period base = frame start period
for_granularity per_packet start period base = packet base
for_granularity (Granularity.every_n n) start period base = every_n base n

-- `wrapping_sub`, then the division, which panics at a zero period.
unfoldable pub frame_generation : ℕ → ℕ → ℕ → Exec ℕ
frame_generation ts epoch_start_ts frame_period = do
  assert (ltb 0 frame_period)
  ret ((ts + 2 ^ 32 - epoch_start_ts) % 2 ^ 32 / frame_period)

wrapping :
    (start e : ℕ)
    → start < 2 ^ 32
    → e < 2 ^ 32
    → ((start + e) % 2 ^ 32 + 2 ^ 32 - start) % 2 ^ 32 ≡ e
wrapping start e hs he = omega arith

-- A timestamp that lies `f` whole frames and `r` ticks after the epoch's first frame is of generation
-- `f`, also across a rollover of the 32-bit timestamp, for the first 2^32 ticks of the epoch.
pub frame_generation_lem :
    (start period f r : ℕ)
    → start < 2 ^ 32
    → r < period
    → f * period + r < 2 ^ 32
    → frame_generation ((start + (f * period + r)) % 2 ^ 32) start period ≡ ret f
unfolding frame_generation
frame_generation_lem start period f r hs hr h =
    rw (lt→ltb 0 period (omega arith), elapsed) (ap ret whole)
  where
    elapsed : ((start + (f * period + r)) % 2 ^ 32 + 2 ^ 32 - start) % 2 ^ 32 ≡ f * period + r
    elapsed = wrapping start (f * period + r) hs h

    whole : (f * period + r) / period ≡ f
    whole = div-eq_of_lt-le period (omega arith) (omega arith)
