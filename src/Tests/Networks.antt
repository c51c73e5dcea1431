-- ===== src/Tests/Networks.antt =====
-- The simulated network at a concrete configuration.
use safe_cast.Base.{ℕ, ◌+◌, ◌*◌, ◌/◌, ◌%◌, ◌≤◌, ◌≡◌, arith, min, ltb, some, ret, length, IsSorted}
use mathlib.Core.List.{Perm}
use safe_cast.Simulation.Network.Config.{
  Randomness, NetworkConfig, NetworkStats, Schedule, independent, gilbert_elliott,
}
use safe_cast.Simulation.Network.{disturb, has_path}
use safe_cast.Simulation.Network.Counting.{Counted}
use safe_cast.Simulation.Network.Arrivals.{Sent}
use safe_cast.Simulation.Network.Lateness.{Measured}
use safe_cast.Simulation.Network.Disturb.{disturb_lem, disturb-Measured}

-- A congruential generator, with fractions in thousandths.
abbrev pub randomness0 : Randomness
randomness0 = record {
  Rng = ℕ;
  F64 = ℕ;
  seed_from_u64 = λ seed. seed;
  random = λ g. (g % 1000, (g * 421 + 163) % 1009);
  random_range = λ hi g. (min g hi, (g * 421 + 163) % 1009);
  less_than = ltb;
  half = 500;
  at_99 = 990;
  at_99_9 = 999;
  percentile = λ n q. n * q / 1000;
  random_range_bound = λ hi g. min_bound hi g;
  percentile_order = λ n. fractions n;
}
  where
    min_bound : (hi g : ℕ) → min g hi ≤ hi
    min_bound hi g = omega arith

    fractions :
        (n : ℕ)
        → (n * 500 / 1000 ≤ n * 990 / 1000)
          × (n * 990 / 1000 ≤ n * 999 / 1000)
          × (n * 999 / 1000 ≤ n)
    fractions n = (omega arith, omega arith, omega arith)

abbrev pub network0 : NetworkConfig randomness0
network0 = record {
  path_a = record { base_delay_ns = 50; jitter_ns = 400; loss = independent 300 };
  path_b = some (record { base_delay_ns = 80; jitter_ns = 200; loss = gilbert_elliott 200 500 });
  seed = 17;
}

abbrev pub send0 : ℕ → ℕ
send0 i = i * 100

disturb_lem_example :
    (schedule delivered : Schedule) × (stats : NetworkStats) × (disturb randomness0 20 send0
        network0
      ≡ ret (schedule, stats))
    × IsSorted (λ (e : ℕ × ℕ). e.0) schedule
    × Perm schedule delivered
    × Sent randomness0 network0 send0 20 delivered
    × (stats.sent ≡ 20)
    × (stats.delivered ≡ length schedule)
    × Counted (has_path randomness0 network0.path_b) 20 stats schedule
disturb_lem_example = disturb_lem randomness0 20 send0 network0

disturb-Measured_example :
    (schedule : Schedule) × (stats : NetworkStats) × (disturb randomness0 20 send0 network0
      ≡ ret (schedule, stats))
    × Measured randomness0 20 schedule stats.displacement
disturb-Measured_example = disturb-Measured randomness0 20 send0 network0
