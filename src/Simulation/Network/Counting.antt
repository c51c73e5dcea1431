-- ===== src/Simulation/Network/Counting.antt =====
-- The counters of src/simulation/network.rs's `disturb` account for every packet and every copy.
use safe_cast.Base.{
  ℕ, zero, suc, ◌+◌, ◌*◌, ◌≡◌, refl, arith, min, Bool, true, false, Option, none, some, [], ◌∷◌,
  length, length-append, leb, Bool-cases, inl, inr,
}
use safe_cast.Simulation.Network.Config.{
  Randomness, PathConfig, NetworkConfig, NetworkStats, LossState, Schedule,
}
use safe_cast.Simulation.Network.{
  copy_arrival, second_copy, has_path, merge, Run, send_packet, send_packets, first_run,
}

-- The copies of `n` packets.
abbrev pub copies : Bool → ℕ → ℕ
copies true n = 2 * n
copies false n = n

-- With one path nothing is counted for the other.
abbrev pub OnlyFirst : Bool → NetworkStats → Type 0
OnlyFirst true stats = Unit
OnlyFirst false stats = (stats.lost_b ≡ 0) × (stats.wins_b ≡ 0) × (stats.duplicates_dropped ≡ 0)

-- Every packet sent so far is delivered by one path or lost, and every copy is delivered, lost on its
-- path or dropped as a duplicate.
pub record Counted (dual : Bool) (n : ℕ) (stats : NetworkStats) (schedule : Schedule) : Type 0 where
  pub deliveries : length schedule ≡ stats.wins_a + stats.wins_b
  pub packets : length schedule + stats.lost_packets ≡ n
  pub every_copy :
      length schedule + stats.lost_a + stats.lost_b + stats.duplicates_dropped ≡ copies dual n
  pub single : OnlyFirst dual stats

module _ (N : Randomness) where
  merge-Counted :
      (dual : Bool) (i n : ℕ) (a b : Option ℕ) (stats : NetworkStats) (schedule : Schedule)
      → (dual ≡ false → b ≡ none)
      → Counted dual n stats schedule
      → let out = merge N dual i a b (stats, schedule) in Counted dual (suc n) out.0 out.1
  unfolding merge
  merge-Counted true i n none none stats schedule one c = record {
    deliveries = omega (arith, c.deliveries);
    packets = omega (arith, c.packets);
    every_copy = omega (arith, c.every_copy);
    single = tt;
  }
  merge-Counted true i n (some t) none stats schedule one c = record {
    deliveries = omega (arith, c.deliveries, length-append schedule ((t, i) ∷ []));
    packets = omega (arith, c.packets, length-append schedule ((t, i) ∷ []));
    every_copy = omega (arith, c.every_copy, length-append schedule ((t, i) ∷ []));
    single = tt;
  }
  merge-Counted false i n none none stats schedule one c = record {
    deliveries = omega (arith, c.deliveries);
    packets = omega (arith, c.packets);
    every_copy = omega (arith, c.every_copy);
    single = (omega (arith, c.single), omega (arith, c.single), omega (arith, c.single));
  }
  merge-Counted false i n (some t) none stats schedule one c = record {
    deliveries = omega (arith, c.deliveries, length-append schedule ((t, i) ∷ []));
    packets = omega (arith, c.packets, length-append schedule ((t, i) ∷ []));
    every_copy = omega (arith, c.every_copy, length-append schedule ((t, i) ∷ []));
    single = (omega (arith, c.single), omega (arith, c.single), omega (arith, c.single));
  }
  merge-Counted true i n none (some t) stats schedule one c = record {
    deliveries = omega (arith, c.deliveries, length-append schedule ((t, i) ∷ []));
    packets = omega (arith, c.packets, length-append schedule ((t, i) ∷ []));
    every_copy = omega (arith, c.every_copy, length-append schedule ((t, i) ∷ []));
    single = tt;
  }
  merge-Counted true i n (some ta) (some tb) stats schedule one c = elim (Bool-cases (leb ta tb)) [
    | inl e ↦ rw e (record {
      deliveries = omega (arith, c.deliveries, length-append schedule ((min ta tb, i) ∷ []));
      packets = omega (arith, c.packets, length-append schedule ((min ta tb, i) ∷ []));
      every_copy = omega (arith, c.every_copy, length-append schedule ((min ta tb, i) ∷ []));
      single = tt;
    })
    | inr e ↦ rw e (record {
      deliveries = omega (arith, c.deliveries, length-append schedule ((min ta tb, i) ∷ []));
      packets = omega (arith, c.packets, length-append schedule ((min ta tb, i) ∷ []));
      every_copy = omega (arith, c.every_copy, length-append schedule ((min ta tb, i) ∷ []));
      single = tt;
    })
  ]
  merge-Counted false i n a (some t) stats schedule one c = absurd (cc (one refl))

  no_second :
      (path_b : Option (PathConfig N)) (t : ℕ) (loss : Option (LossState N)) (rng : N.Rng)
      → has_path N path_b ≡ false
      → (second_copy N path_b t loss rng).0 ≡ none
  unfolding second_copy
  no_second none t loss rng e = refl
  no_second (some path) t loss rng e = absurd (cc)

  send_packet-Counted :
      (cfg : NetworkConfig N) (send_ns : ℕ → ℕ) (n : ℕ) (r : Run N)
      → Counted (has_path N cfg.path_b) n r.stats r.schedule
      → let r' = send_packet N cfg send_ns n r in
        Counted (has_path N cfg.path_b) (suc n) r'.stats r'.schedule
  unfolding send_packet
  send_packet-Counted cfg send_ns n r c =
      let (a, loss_a, rng) = copy_arrival N cfg.path_a (send_ns n) r.loss_a r.rng in
      merge-Counted (has_path N cfg.path_b) n n a
        (second_copy N cfg.path_b (send_ns n) r.loss_b rng).0 r.stats r.schedule
        (no_second cfg.path_b (send_ns n) r.loss_b rng) c

  pub send_packets-Counted :
      (cfg : NetworkConfig N) (send_ns : ℕ → ℕ) (n total : ℕ)
      → let r = send_packets N cfg send_ns n (first_run N cfg total) in
        Counted (has_path N cfg.path_b) n r.stats r.schedule
  unfolding send_packets first_run
  send_packets-Counted cfg send_ns zero total = start (has_path N cfg.path_b)
    where
      start :
          (dual : Bool)
          → Counted dual zero (first_run N cfg total).stats (first_run N cfg total).schedule
      start true = record { deliveries = refl; packets = refl; every_copy = refl; single = tt }
      start false = record {
        deliveries = refl;
        packets = refl;
        every_copy = refl;
        single = (refl, refl, refl);
      }
  send_packets-Counted cfg send_ns (suc n) total =
      send_packet-Counted cfg send_ns n (send_packets N cfg send_ns n (first_run N cfg total))
        (send_packets-Counted cfg send_ns n total)
