-- ===== src/Delivery/Opening.antt =====
-- How the receiver finds the generation and the key of a packet of the stream.
use safe_cast.Base.{
  ℕ, zero, suc, ◌+◌, ◌-◌, ◌%◌, ◌^◌, ◌≤◌, ◌<◌, ◌≡◌, ◌∙◌, refl, ap₂, arith, Bytes, Option, some,
  length, get_or, from_be16, from_be32, lt→ltb, le→ltb, ret,
}
use native.Mathlib.Decide.{dec_le}
use safe_cast.Crypto.{Hkdf, Srtp, Rekeyed}
use safe_cast.Keying.Granularity.{Granularity, epoch_only, per_frame, per_packet, every_n}
use safe_cast.Keying.Granularity.Boundary.{IsUsable}
use safe_cast.Keying.Ratchet.Chain.{key_at}
use safe_cast.Receiver.Generation.{for_granularity}
use safe_cast.Receiver.IndexRecovery.{IndexRecovery, recover}
use safe_cast.Receiver.IndexRecovery.Nearest.{recover_true}
use safe_cast.Receiver.Manager.State.{ReceiverKeyManager, RecvStats, Placement, PendingCatchup}
use safe_cast.Receiver.Manager.Phases.{placed, locate, classify, fetch}
use safe_cast.Receiver.Manager.CatchUp.{next_of, classify_lem}
use safe_cast.Receiver.Manager.Window.{
  IsSynced, fetch_in_window, fetch_ahead, Installed, Configured, install_lem,
}
use safe_cast.Receiver.Manager.{conclude, decrypt, proceed, with_generation, unprotect}
use safe_cast.Simulation.Sender.{StreamModel, packet_timestamp, start_ts, frame_period}
use safe_cast.Simulation.Sender.Stream.{frame_generation-packet_timestamp}
use safe_cast.Delivery.Link.{IsNumbered, IsNear}
use safe_cast.Delivery.Numbers.{InTicks, last_below, kept_index}
use safe_cast.Delivery.{generation_of}

pub recovered :
    (r : IndexRecovery) (next window i : ℕ)
    → r.highest ≡ last_below next
    → next ≤ 2 ^ 48
    → IsNear next window i
    → recover r (i % 2 ^ 16) ≡ i
unfolding recover
recovered r zero window i top small near = rw top (omega (arith, near.not_far))
recovered r (suc j) window i top small near = rw top (
    recover_true j i (omega arith) (omega (arith, near.not_far))
      (omega (arith, near.not_old, near.narrow)))

from_zero : (i : ℕ) → i - 0 ≡ i
from_zero i = omega arith

-- Phase 1 finds the packet's generation.
located :
    (granularity : Granularity) (model : StreamModel) (r : IndexRecovery) (next window i : ℕ)
    → IsUsable granularity
    → InTicks granularity model i
    → r.highest ≡ kept_index granularity (last_below next)
    → next ≤ 2 ^ 48
    → IsNear next window i
    → locate
        (for_granularity granularity start_ts frame_period 0)
        r
        (i % 2 ^ 16)
        (packet_timestamp model i)
      ≡ ret (some (generation_of granularity model i, kept_index granularity (some i)))
unfolding locate for_granularity
located epoch_only model r next window i usable ticks top small near = refl
located per_frame model r next window i usable ticks top small near =
    rw (frame_generation-packet_timestamp model i ticks) refl
located per_packet model r next window i usable ticks top small near =
    rw (recovered r next window i top small near, le→ltb i 0 (omega arith), from_zero i) refl
located (every_n n) model r next window i usable ticks top small near =
    rw
      (
        recovered r next window i top small near,
        le→ltb i 0 (omega arith),
        lt→ltb 0 n usable,
        from_zero i,
      )
      refl

module _ (K : Hkdf) (P : Srtp) (seed : Bytes) where
  -- Phases 2 and 3 get its key.
  fetched :
      (m : ReceiverKeyManager P) (g : ℕ)
      → IsSynced K P seed m
      → g + 1 < 2 ^ 64
      → next_of m.frontier ≤ g + length m.ring
      → suc g ≤ next_of m.frontier + m.seek_cap
      → (place : Placement) × (stats : RecvStats) × (pending : Option PendingCatchup) × (classify
            m.ring m.frontier m.seek_cap g
          ≡ ret (placed place))
        × (fetch K m.stats m.ratchet (length m.ring) g place
            ≡ ret (stats, key_at K seed g, pending))
  fetched m g v small near fits =
      let cases = classify_lem K seed m.ring m.frontier m.seek_cap g v.size small v.covers in
      elim (dec_le (next_of m.frontier) g) [
        | yes after ↦
            let (stats, pending, e, f) =
              fetch_ahead K P seed m g (suc g - next_of m.frontier) v after in
            (_, stats, pending, cases.2 after (omega arith), e)
        | no before ↦
            let (stats, pending, e, f) = fetch_in_window K P seed m g (omega arith) in
            (_, stats, pending, cases.0 (omega arith) near, e)
      ]

  -- Phase 4 then answers as the cipher does, with that key loaded.
  pub record IsHandled (m : ReceiverKeyManager P) (g : ℕ) (est : Option ℕ) (buf : Bytes)
      : Type 0 where
    pub opener : ReceiverKeyManager P
    pub pending : Option PendingCatchup
    pub installs : Installed K P seed m opener g
    pub configured : Configured K P seed m opener
    pub session_rekeyed : Rekeyed P m.session opener.session
    pub answers :
        let out = P.unprotect opener.session buf in
        with_generation K P m buf (some (g, est))
        ≡ conclude K P (record opener { session = out.0 }) g est pending out.1 out.2

  pub handled :
      (m : ReceiverKeyManager P) (g : ℕ) (est : Option ℕ) (buf : Bytes)
      → IsSynced K P seed m
      → g + 1 < 2 ^ 64
      → next_of m.frontier ≤ g + length m.ring
      → suc g ≤ next_of m.frontier + m.seek_cap
      → IsHandled m g est buf
  unfolding with_generation proceed decrypt
  handled m g est buf v small near fits =
      let (place, stats, pending, there, e) = fetched m g v small near fits in
      let (m1, e1, i, c, r) = install_lem K P seed m stats g v in
      record {
        opener = m1;
        pending = pending;
        installs = i;
        configured = c;
        session_rekeyed = r;
        answers = rw (there, e, e1) refl;
      }

  -- The whole call, for a datagram that keeps the header of packet `i`.
  pub unprotect-located :
      (granularity : Granularity) (model : StreamModel) (m : ReceiverKeyManager P)
      (next window i : ℕ) (packet buf : Bytes)
      → IsUsable granularity
      → InTicks granularity model i
      → next ≤ 2 ^ 48
      → IsNear next window i
      → m.scheme ≡ for_granularity granularity start_ts frame_period 0
      → m.recovery.highest ≡ kept_index granularity (last_below next)
      → IsNumbered packet model.ssrc i
      → (from_be32 (get_or packet 4 0) (get_or packet 5 0) (get_or packet 6 0) (get_or packet 7 0)
          ≡ packet_timestamp model i)
      → length buf ≡ length packet + 16
      → ((k : ℕ) → k < 12 → 12 ≤ length packet → get_or buf k 0 ≡ get_or packet k 0)
      → unprotect K P m buf
        ≡ with_generation K P m buf
            (some (generation_of granularity model i, kept_index granularity (some i)))
  unfolding unprotect
  unprotect-located granularity model m next window i packet buf usable ticks small near scheme top
        numbered stamp size header =
      rw
        (
          le→ltb (length buf) 12 (omega (arith, numbered.has_header)),
          seq,
          ts,
          scheme,
          located granularity model m.recovery next window i usable ticks top small near,
        )
        refl
    where
      same_byte : (k : ℕ) → k < 12 → get_or buf k 0 ≡ get_or packet k 0
      same_byte k lt = header k lt numbered.has_header

      seq : from_be16 (get_or buf 2 0) (get_or buf 3 0) ≡ i % 2 ^ 16
      seq =
          ap₂ from_be16 (same_byte 2 (omega arith)) (same_byte 3 (omega arith)) ∙ numbered.sequence

      ts :
          from_be32 (get_or buf 4 0) (get_or buf 5 0) (get_or buf 6 0) (get_or buf 7 0)
          ≡ packet_timestamp model i
      ts =
          (λ j.
            from_be32 (same_byte 4 (omega arith) j) (same_byte 5 (omega arith) j)
              (same_byte 6 (omega arith) j) (same_byte 7 (omega arith) j))
          ∙ stamp
