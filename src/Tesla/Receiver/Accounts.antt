-- ===== src/Tesla/Receiver/Accounts.antt =====
-- The books that src/tesla/receiver.rs keeps, and its calls of `process_arrival`.
use safe_cast.Base.{ℕ, ◌+◌, ◌≤◌, ◌≡◌, ◌∙◌, refl, sym, ap, subst, arith, length}
use safe_cast.Crypto.{HmacSha256, Gmac, Hkdf, Srtp}
use safe_cast.Tesla.Chain.{ChainKey}
use safe_cast.Tesla.Chain.Genuine.{IsRooted}
use safe_cast.Tesla.Schedule.{TeslaSchedule, safe, accepts}
use safe_cast.Tesla.Receiver.State.{
  DrawerEntry, TeslaReceiver, TeslaStats, TeslaResult, settled, refused, TeslaDrop, malformed,
  bad_disclosure, srtp,
}
use safe_cast.Tesla.Receiver.{reject, await}
use safe_cast.Tesla.Receiver.Settle.{waiting, Everywhere, waiting-file, file-Everywhere, Verdicts}

module _ (K : Hkdf) (P : Srtp) (H : HmacSha256) (G : Gmac) (anchor : ChainKey) where
  -- Each delivered packet is verified, forged or still waiting in a drawer, which it joined while
  -- the accept test held; and the trusted chain key hashes down to the anchor.
  pub record IsBalanced (r : TeslaReceiver P) : Type 0 where
    pub waits : waiting r.drawers ≡ r.pending
    pub counted : r.stats.delivered ≡ r.stats.verified + r.stats.forged + r.pending
    pub peak : r.pending ≤ r.stats.peak_pending
    pub timely : length r.stats.latencies_ns ≡ r.stats.verified
    pub rooted : IsRooted H anchor r.verifier
    pub in_time : Everywhere (λ i e. accepts r.params e.arrival_ns i ≡ safe) r.drawers

  -- A refused packet changes no verdict and no drawer.
  pub record Untouched (r r' : TeslaReceiver P) : Type 0 where
    pub drawers_kept : r'.drawers ≡ r.drawers
    pub pending_kept : r'.pending ≡ r.pending
    pub delivered_kept : r'.stats.delivered ≡ r.stats.delivered
    pub verified_kept : r'.stats.verified ≡ r.stats.verified
    pub forged_kept : r'.stats.forged ≡ r.stats.forged

  -- What a call that does not panic does: `n` verdicts and one more packet delivered, or a packet
  -- refused.
  abbrev pub Done : TeslaReceiver P → TeslaReceiver P × TeslaResult → Type 0
  Done r (r', settled n) =
      IsBalanced r'
      × (r'.params ≡ r.params)
      × (r'.stats.delivered ≡ r.stats.delivered + 1)
      × (r'.stats.verified + r'.stats.forged ≡ r.stats.verified + r.stats.forged + n)
      × (r'.pending + n ≡ r.pending + 1)
  Done r (r', refused why) = IsBalanced r' × (r'.params ≡ r.params) × Untouched r r'

  -- Only the counters of drops differ.
  booked :
      (r : TeslaReceiver P) (stats : TeslaStats)
      → stats.delivered ≡ r.stats.delivered
      → stats.verified ≡ r.stats.verified
      → stats.forged ≡ r.stats.forged
      → stats.peak_pending ≡ r.stats.peak_pending
      → stats.latencies_ns ≡ r.stats.latencies_ns
      → IsBalanced r
      → IsBalanced (record r { stats = stats }) × Untouched r (record r { stats = stats })
  booked r stats d v f p l b = (
    record {
      waits = b.waits;
      counted = omega (arith, b.counted);
      peak = omega (arith, b.peak);
      timely = ap length l ∙ b.timely ∙ sym v;
      rooted = b.rooted;
      in_time = b.in_time;
    },
    record {
      drawers_kept = refl;
      pending_kept = refl;
      delivered_kept = d;
      verified_kept = v;
      forged_kept = f;
    },
  )

  pub reject_lem :
      (r : TeslaReceiver P) (why : TeslaDrop) → IsBalanced r → Done r (reject K P H G r why)
  unfolding reject
  reject_lem r malformed b = let (c, u) = booked r _ refl refl refl refl refl b in (c, refl, u)
  reject_lem r TeslaDrop.unsafe_late b =
      let (c, u) = booked r _ refl refl refl refl refl b in (c, refl, u)
  reject_lem r bad_disclosure b = let (c, u) = booked r _ refl refl refl refl refl b in (c, refl, u)
  reject_lem r (srtp why) b = let (c, u) = booked r _ refl refl refl refl refl b in (c, refl, u)

  -- A packet that joins its drawer while the accept test holds.
  await_lem :
      (r : TeslaReceiver P) (i : ℕ) (e : DrawerEntry) (n : ℕ)
      → IsBalanced r
      → accepts r.params e.arrival_ns i ≡ safe
      → IsBalanced (await K P H G r i e n).0
  unfolding await
  await_lem r i e n b ok = record {
    waits = omega (arith, waiting-file i e r.drawers, b.waits);
    counted = omega (arith, b.counted);
    peak = omega (arith, b.peak);
    timely = b.timely;
    rooted = b.rooted;
    in_time =
        file-Everywhere (λ j x. accepts r.params x.arrival_ns j ≡ safe) i e r.drawers ok b.in_time;
  }

  settle-IsBalanced :
      (r r' : TeslaReceiver P) (m : ℕ)
      → IsBalanced r
      → Verdicts r r' m
      → IsBalanced r' × (r'.pending + m ≡ r.pending)
  settle-IsBalanced r r' m b v = (
    record {
      waits = omega (arith, b.waits, v.pending_less, v.waiting_less);
      counted = omega (
        arith, b.waits, b.counted, v.pending_less, v.waiting_less, v.same_delivered,
        v.one_verdict_each,
      );
      peak = omega (arith, b.peak, v.pending_less, v.same_peak);
      timely = omega (arith, b.timely, v.one_latency_each);
      rooted = subst (IsRooted H anchor) (sym v.same_verifier) b.rooted;
      in_time =
          subst
            (λ (s : TeslaSchedule). Everywhere (λ i e. accepts s e.arrival_ns i ≡ safe) r'.drawers)
            (sym v.same_params)
            (v.no_new (λ i e. accepts r.params e.arrival_ns i ≡ safe) b.in_time);
    },
    omega (arith, b.waits, v.pending_less, v.waiting_less),
  )

  pub awaited :
      (r r' : TeslaReceiver P) (i : ℕ) (e : DrawerEntry) (n : ℕ)
      → IsBalanced r
      → accepts r.params e.arrival_ns i ≡ safe
      → Verdicts r r' n
      → Done r (await K P H G r' i e n)
  unfolding await
  awaited r r' i e n b ok v =
      let (b', less) = settle-IsBalanced r r' n b v in
      (
        await_lem r' i e n b'
            (subst (λ (s : TeslaSchedule). accepts s e.arrival_ns i ≡ safe) (sym v.same_params) ok),
        v.same_params,
        omega (arith, v.same_delivered),
        v.one_verdict_each,
        omega (arith, less),
      )
