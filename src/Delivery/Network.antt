-- ===== src/Delivery/Network.antt =====
-- A stream over the network of src/simulation/network.rs: what its displacement statistics ask of the
-- receiver of src/receiver.rs.
use safe_cast.Base.{
  ℕ, suc, ◌+◌, ◌-◌, ◌*◌, ◌/◌, ◌^◌, ◌≤◌, ◌<◌, ◌≡◌, ◌≢◌, ◌∙◌, refl, ap, subst, arith, max, List, [],
  ◌∷◌, Bytes, All, Option, none, some, Bool-cases, false, inl, inr, mem, ◌==◌, ==_iff, length, ret,
}
use native.Mathlib.Nat.{div-add-mod, mod-lt, mul-le-mul_left}
use native.Mathlib.Decide.{dec_le}
use safe_cast.Crypto.{Hkdf, Srtp, IsWindow, window_of}
use safe_cast.Keying.Granularity.{Granularity, epoch_only, per_frame, per_packet, every_n}
use safe_cast.Keying.Granularity.Boundary.{IsUsable}
use safe_cast.Receiver.Manager.CatchUp.{next_of}
use safe_cast.Simulation.Network.Config.{Randomness, NetworkConfig, NetworkStats, Schedule}
use safe_cast.Simulation.Network.{Walk, late_by, newest, skipped, visit, walk, walk_start, disturb}
use safe_cast.Simulation.Network.Order.{behind}
use safe_cast.Simulation.Network.Bounds.{
  gap_bound, measure_displacement_bounds, Apart, disturb-measured,
}
use safe_cast.Simulation.Sender.{StreamModel}
use safe_cast.Delivery.Link.{SrtpLink}
use safe_cast.Delivery.Numbers.{InTicks, generation_mono, generation-le, IsInReach, AreInReach}
use safe_cast.Delivery.Stream.{transmit_lem}
use safe_cast.Delivery.{outcomes, indices, deliveries, transmit, generation_of}

div_step : (n i d : ℕ) → 0 < n → (i + d) / n ≤ i / n + d
div_step n i d pos = elim (dec_le ((i + d) / n) (i / n + d)) [
  | yes le ↦ le
  | no gt ↦ absurd (
      omega (
        arith,
        div-add-mod (i + d) n,
        div-add-mod i n,
        mod-lt i pos,
        mul-le-mul_left n (let e : i / n + d + 1 ≤ (i + d) / n = omega arith in e),
        distributes (i / n),
        at_least,
      ))
]
  where
    distributes : (q : ℕ) → n * (q + d + 1) ≡ n * q + n * d + n
    distributes q = grind arith

    at_least : d ≤ n * d
    at_least = grind arith

-- A generation begins at most once a packet.
generation_step :
    (granularity : Granularity) (model : StreamModel) (i d : ℕ)
    → IsUsable granularity
    → 0 < model.ppf
    → generation_of granularity model (i + d) ≤ generation_of granularity model i + d
generation_step epoch_only model i d usable framed = omega arith
generation_step per_frame model i d usable framed = div_step model.ppf i d framed
generation_step per_packet model i d usable framed = omega arith
generation_step (every_n n) model i d usable framed = div_step n i d usable

newest-next : (seen : Option ℕ) (i : ℕ) → next_of (newest seen i) ≡ max (next_of seen) (suc i)
unfolding newest
newest-next none i = omega arith
newest-next (some m) i = ground arith

module _ (granularity : Granularity) (model : StreamModel) (usable : IsUsable granularity)
    (framed : 0 < model.ppf) where
  spread :
      (i j : ℕ)
      → i ≤ j
      → generation_of granularity model j ≤ generation_of granularity model i + (j - i)
  spread i j le =
      subst (λ t. generation_of granularity model t ≤ generation_of granularity model i + (j - i))
        (let e : i + (j - i) ≡ j = omega arith in e)
        (generation_step granularity model i (j - i) usable framed)

  -- An arrival with no more lateness and no more of a gap than the receiver allows for.
  visit-IsInReach :
      (count k seek_cap window late gap : ℕ) (seen : Option ℕ) (i : ℕ)
      → i < count
      → late < k
      → late < window
      → window ≤ 32768
      → gap < seek_cap
      → gap < 32767
      → late_by seen i ≤ late
      → skipped seen i ≤ gap
      → IsInReach granularity model count k seek_cap window (next_of seen) i
  unfolding late_by skipped
  visit-IsInReach count k seek_cap window late gap none i below hk hw narrow hc hg hl hs = record {
    is_sent = below;
    near = record { not_far = omega arith; not_old = omega arith; narrow = narrow };
    in_slots = omega arith;
    in_cap = omega (arith, generation-le granularity model i);
  }
  visit-IsInReach count k seek_cap window late gap (some m) i below hk hw narrow hc hg hl hs =
      elim (dec_le i m) [
        | yes old ↦
            let near : m - i ≤ late = ground arith in
            record {
              is_sent = below;
              near = record { not_far = omega arith; not_old = omega arith; narrow = narrow };
              in_slots = omega (arith, spread i m old);
              in_cap = omega (arith, generation_mono granularity model usable framed i m old);
            }
        | no new ↦
            let near : i - m - 1 ≤ gap = ground arith in
            record {
              is_sent = below;
              near = record { not_far = omega arith; not_old = omega arith; narrow = narrow };
              in_slots =
                  omega (arith, generation_mono granularity model usable framed m i (omega arith));
              in_cap = omega (arith, spread m i (omega arith));
            }
      ]

  walk-AreInReach :
      (count k seek_cap window late gap : ℕ) (w : Walk) (s : Schedule)
      → All (λ (e : ℕ × ℕ). e.1 < count) s
      → late < k
      → late < window
      → window ≤ 32768
      → gap < seek_cap
      → gap < 32767
      → All (λ x. x ≤ late) (behind w.max_seen s)
      → (walk w s).max_gap ≤ gap
      → AreInReach granularity model count k seek_cap window (next_of w.max_seen) (indices s)
  unfolding indices walk visit
  walk-AreInReach count k seek_cap window late gap w [] below hk hw narrow hc hg hl hs = tt
  walk-AreInReach count k seek_cap window late gap w ((t, i) ∷ rest) below hk hw narrow hc hg hl
        hs =
      (
        visit-IsInReach count k seek_cap window late gap w.max_seen i below.0 hk hw narrow hc hg
            hl.0 (omega (arith, gap_bound w t i rest, hs)),
        subst (λ n. AreInReach granularity model count k seek_cap window n (indices rest))
            (newest-next w.max_seen i)
            (walk-AreInReach count k seek_cap window late gap (visit w i) rest below.1 hk hw narrow
              hc hg hl.1 hs),
      )

-- With no packet twice, every arrival is a first one.
mem_later :
    (i : ℕ) (done : List ℕ) (s : Schedule)
    → All (λ (e : ℕ × ℕ). e.1 ≢ i) s
    → All (λ (e : ℕ × ℕ). mem (e.1) done ≡ false) s
    → All (λ (e : ℕ × ℕ). mem (e.1) (i ∷ done) ≡ false) s
mem_later i done [] h fresh = tt
mem_later i done (e ∷ s) h fresh = (
  elim (Bool-cases (e.1 == i)) [
    | inl same ↦ absurd (h.0 ((==_iff (e.1) i).0 same))
    | inr differ ↦ rw differ fresh.0
  ],
  mem_later i done s h.1 fresh.1,
)

nothing_seen : (s : Schedule) → All (λ (e : ℕ × ℕ). mem (e.1) [] ≡ false) s
nothing_seen [] = tt
nothing_seen (e ∷ s) = (refl, nothing_seen s)

outcomes-deliveries :
    (granularity : Granularity) (model : StreamModel) (done : List ℕ) (s : Schedule)
    → Apart s
    → All (λ (e : ℕ × ℕ). mem (e.1) done ≡ false) s
    → outcomes granularity model done (indices s) ≡ deliveries granularity model s
unfolding outcomes indices deliveries
outcomes-deliveries granularity model done [] apart fresh = refl
outcomes-deliveries granularity model done ((t, i) ∷ s) apart fresh =
    rw
      (
        fresh.0,
        outcomes-deliveries granularity model (i ∷ done) s apart.1
            (mem_later i done s apart.0 fresh.1),
      )
      refl

window_of-le : (w : ℕ) → IsWindow w → window_of w ≤ 32768
window_of-le w ok = ground arith

-- A stream of `count` packets, no more than 2^48 and each frame in the first 2^32 ticks where there is
-- a key for each frame, over the modelled network with any configuration and sending times. Sender and
-- receiver are made from one seed of 32 bytes, for an SSRC of 32 bits and a granularity that divides by
-- no zero, with a packet a frame at least. If the largest lateness that `disturb` reports is below
-- both the receiver's retention `k` and its replay window, which libsrtp accepts (64 to 32767, or 0 for
-- its default of 128), and the largest gap is
-- below its seek cap and 32767, then no call of sender or receiver panics, and the receiver delivers
-- every packet that the network does: in arrival order, each with the number of its generation and
-- with the bytes that the sender encrypted.
pub disturb-deliveries :
    (N : Randomness) (K : Hkdf) (P : Srtp) (L : SrtpLink P) (seed : Bytes)
    (granularity : Granularity) (model : StreamModel) (count k seek_cap window : ℕ) (times : ℕ → ℕ)
    (cfg : NetworkConfig N) (schedule : Schedule) (stats : NetworkStats)
    → length seed ≡ 32
    → IsUsable granularity
    → 0 < model.ppf
    → model.ssrc < 2 ^ 32
    → count ≤ 2 ^ 48
    → InTicks granularity model count
    → disturb N count times cfg ≡ ret (schedule, stats)
    → stats.displacement.max_lateness < k
    → IsWindow window
    → stats.displacement.max_lateness < window_of window
    → stats.displacement.max_gap < seek_cap
    → stats.displacement.max_gap < 32767
    → transmit K P granularity model seed count k seek_cap window (indices schedule)
      ≡ ret (deliveries granularity model schedule)
disturb-deliveries N K P L seed granularity model count k seek_cap window times cfg schedule stats
      size usable framed short small ticks run late_k accepted late_w gap_cap gap_half =
    let (measured, below, apart) = disturb-measured N count times cfg schedule stats run in
    let d = stats.displacement in
    let (late, gap) = measure_displacement_bounds N schedule d measured in
    transmit_lem K P L seed granularity model count k seek_cap window (indices schedule) size usable
      framed short small ticks (omega arith) accepted
      (walk-AreInReach granularity model usable framed count k seek_cap (window_of window)
        d.max_lateness d.max_gap walk_start schedule below late_k late_w
        (window_of-le window accepted) gap_cap gap_half late gap)
    ∙ ap ret (outcomes-deliveries granularity model [] schedule apart (nothing_seen schedule))
