-- ===== src/Simulation/Network/Disturb.antt =====
-- What src/simulation/network.rs's `disturb` returns.
use safe_cast.Base.{
  ℕ, zero, suc, ◌+◌, ◌<◌, ◌≡◌, refl, ap, ◌∙◌, Bool, true, false, Option, none, some, length, ret,
  sort_by_key, IsSorted, sort_by_key-All, sort_by_key-IsSorted, sort_by_key-perm,
  length-sort_by_key,
}
use mathlib.Core.List.{Perm}
use safe_cast.Simulation.Network.Config.{
  Randomness, NetworkConfig, NetworkStats, Schedule, DisplacementStats,
}
use safe_cast.Simulation.Network.{
  has_path, copy_arrival, second_copy, merge, Run, send_packet, send_packets, first_run, disturb,
}
use safe_cast.Simulation.Network.Counting.{OnlyFirst, Counted, send_packets-Counted}
use safe_cast.Simulation.Network.Arrivals.{Sent, send_packets-Sent}
use safe_cast.Simulation.Network.Lateness.{Measured, measure_displacement-Measured}

module _ (N : Randomness) where
  merge-sent :
      (dual : Bool) (i : ℕ) (a b : Option ℕ) (stats : NetworkStats) (schedule : Schedule)
      → (merge N dual i a b (stats, schedule)).0.sent ≡ stats.sent
  unfolding merge
  merge-sent dual i none none stats schedule = refl
  merge-sent dual i (some t) none stats schedule = refl
  merge-sent dual i none (some t) stats schedule = refl
  merge-sent dual i (some ta) (some tb) stats schedule = refl

  send_packets-sent :
      (cfg : NetworkConfig N) (send_ns : ℕ → ℕ) (n total : ℕ)
      → (send_packets N cfg send_ns n (first_run N cfg total)).stats.sent ≡ total
  unfolding send_packets send_packet first_run
  send_packets-sent cfg send_ns zero total = refl
  send_packets-sent cfg send_ns (suc n) total =
      let r = send_packets N cfg send_ns n (first_run N cfg total) in
      let (a, loss_a, rng) = copy_arrival N cfg.path_a (send_ns n) r.loss_a r.rng in
      merge-sent (has_path N cfg.path_b) n a (second_copy N cfg.path_b (send_ns n) r.loss_b rng).0
        r.stats r.schedule
      ∙ send_packets-sent cfg send_ns n total

  last_run : ℕ → (ℕ → ℕ) → NetworkConfig N → Run N
  last_run n send_ns cfg = send_packets N cfg send_ns n (first_run N cfg n)

  arrivals : ℕ → (ℕ → ℕ) → NetworkConfig N → Schedule
  unfolding last_run
  arrivals n send_ns cfg = sort_by_key (λ (e : ℕ × ℕ). e.0) (last_run n send_ns cfg).schedule

  disturb-ret :
      (n : ℕ) (send_ns : ℕ → ℕ) (cfg : NetworkConfig N)
      → (d : DisplacementStats) × (disturb N n send_ns cfg
          ≡ ret (
            arrivals n send_ns cfg,
            record (last_run n send_ns cfg).stats {
              delivered = length (arrivals n send_ns cfg);
              displacement = d;
            },
          ))
        × Measured N n (arrivals n send_ns cfg) d
  unfolding disturb arrivals last_run
  disturb-ret n send_ns cfg =
      let r = send_packets N cfg send_ns n (first_run N cfg n) in
      let schedule = sort_by_key (λ (e : ℕ × ℕ). e.0) r.schedule in
      let below =
        sort_by_key-All (λ (e : ℕ × ℕ). e.0) (λ (e : ℕ × ℕ). e.1 < n) r.schedule
          (send_packets-Sent N cfg send_ns n n).below in
      let (d, ok, measured) = measure_displacement-Measured N n schedule below in
      (d, rw ok refl, measured)

  OnlyFirst_lem :
      (dual : Bool) (stats : NetworkStats) (k : ℕ) (d : DisplacementStats)
      → OnlyFirst dual stats
      → OnlyFirst dual (record stats { delivered = k; displacement = d })
  OnlyFirst_lem true stats k d h = h
  OnlyFirst_lem false stats k d h = h

  -- For every number of packets, sending times and configuration, `disturb` returns. The schedule ascends
  -- in the arrival times, and is a rearrangement of a list of some of the packets `0..n` in sending order,
  -- none twice, in which each arrives at its sending time plus the base delay of one of the configured
  -- paths and a jitter of that path, modulo 2^64. The statistics count `n` packets sent and as many
  -- delivered as the schedule lists; delivered and lost packets add up to `n`, the two paths' wins to the
  -- deliveries, and deliveries, copies lost on either path and dropped duplicates to the copies sent:
  -- `2 * n` with two paths, `n` with one. With one path nothing is counted for the other.
  pub disturb_lem :
      (n : ℕ) (send_ns : ℕ → ℕ) (cfg : NetworkConfig N)
      → (schedule delivered : Schedule) × (stats : NetworkStats) × (disturb N n send_ns cfg
          ≡ ret (schedule, stats))
        × IsSorted (λ (e : ℕ × ℕ). e.0) schedule
        × Perm schedule delivered
        × Sent N cfg send_ns n delivered
        × (stats.sent ≡ n)
        × (stats.delivered ≡ length schedule)
        × Counted (has_path N cfg.path_b) n stats schedule
  unfolding arrivals last_run
  disturb_lem n send_ns cfg =
      let (d, ok, measured) = disturb-ret n send_ns cfg in
      let r = last_run n send_ns cfg in
      let size = length-sort_by_key (λ (e : ℕ × ℕ). e.0) r.schedule in
      let c = send_packets-Counted N cfg send_ns n n in
      (
        arrivals n send_ns cfg,
        r.schedule,
        record r.stats { delivered = length (arrivals n send_ns cfg); displacement = d },
        ok,
        sort_by_key-IsSorted (λ (e : ℕ × ℕ). e.0) r.schedule,
        sort_by_key-perm (λ (e : ℕ × ℕ). e.0) r.schedule,
        send_packets-Sent N cfg send_ns n n,
        send_packets-sent cfg send_ns n n,
        refl,
        record {
          deliveries = size ∙ c.deliveries;
          packets = ap (λ k. k + r.stats.lost_packets) size ∙ c.packets;
          every_copy =
              ap (λ k. k + r.stats.lost_a + r.stats.lost_b + r.stats.duplicates_dropped) size
              ∙ c.every_copy;
          single =
              OnlyFirst_lem (has_path N cfg.path_b) r.stats (length (arrivals n send_ns cfg)) d
                c.single;
        },
      )

  -- For every number of packets, sending times and configuration, `disturb` returns, no index of
  -- `measure_displacement` being out of bounds, and its displacement statistics are in range:
  -- `p50 <= p99 <= p99_9 <= max_lateness <= n - 1`, no more packets are late than were delivered, and
  -- both `reordered` and `max_lateness` are zero exactly when the indices ascend in arrival order.
  pub disturb-Measured :
      (n : ℕ) (send_ns : ℕ → ℕ) (cfg : NetworkConfig N)
      → (schedule : Schedule) × (stats : NetworkStats) × (disturb N n send_ns cfg
          ≡ ret (schedule, stats))
        × Measured N n schedule stats.displacement
  disturb-Measured n send_ns cfg =
      let (d, ok, measured) = disturb-ret n send_ns cfg in
      (
        arrivals n send_ns cfg,
        record (last_run n send_ns cfg).stats {
          delivered = length (arrivals n send_ns cfg);
          displacement = d;
        },
        ok,
        measured,
      )
