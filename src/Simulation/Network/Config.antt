-- ===== src/Simulation/Network/Config.antt =====
-- The configuration and the counters of src/simulation/network.rs, and its source of randomness.
use safe_cast.Base.{ℕ, ◌≤◌, Bool, Option, List}

-- What the run takes from the crates `rand` and `rand_chacha` and from floating-point numbers. The
-- generator gives a number of the unit interval, or one of `0..=hi`. The three fractions are 0.50,
-- 0.99 and 0.999. `percentile n q` is
-- `(n as f64 * q).round() as usize`.
pub record Randomness : Type 1 where
  pub Rng : Type 0
  pub F64 : Type 0
  pub seed_from_u64 : ℕ → Rng
  pub random : Rng → F64 × Rng
  pub random_range : ℕ → Rng → ℕ × Rng
  pub less_than : F64 → F64 → Bool
  pub half : F64
  pub at_99 : F64
  pub at_99_9 : F64
  pub percentile : ℕ → F64 → ℕ
  pub random_range_bound : (hi : ℕ) (g : Rng) → (random_range hi g).0 ≤ hi
  pub percentile_order :
      (n : ℕ)
      → (percentile n half ≤ percentile n at_99)
        × (percentile n at_99 ≤ percentile n at_99_9)
        × (percentile n at_99_9 ≤ n)

pub data LossModel (N : Randomness) : Type 0 where
  none : LossModel N
  independent : (p : N.F64) → LossModel N
  gilbert_elliott : (p_good_to_bad p_bad_to_good : N.F64) → LossModel N

pub record PathConfig (N : Randomness) : Type 0 where
  pub base_delay_ns : ℕ
  pub jitter_ns : ℕ
  pub loss : LossModel N

pub record NetworkConfig (N : Randomness) : Type 0 where
  pub path_a : PathConfig N
  pub path_b : Option (PathConfig N)
  pub seed : ℕ

pub record DisplacementStats : Type 0 where
  pub reordered : ℕ
  pub max_lateness : ℕ
  pub p50 : ℕ
  pub p99 : ℕ
  pub p99_9 : ℕ
  pub gaps : ℕ
  pub max_gap : ℕ

-- `DisplacementStats::default()`.
abbrev pub no_displacement : DisplacementStats
no_displacement = record {
  reordered = 0;
  max_lateness = 0;
  p50 = 0;
  p99 = 0;
  p99_9 = 0;
  gaps = 0;
  max_gap = 0;
}

pub record NetworkStats : Type 0 where
  pub sent : ℕ
  pub delivered : ℕ
  pub lost_a : ℕ
  pub lost_b : ℕ
  pub lost_packets : ℕ
  pub wins_a : ℕ
  pub wins_b : ℕ
  pub duplicates_dropped : ℕ
  pub displacement : DisplacementStats

-- Per-path loss state.
pub record LossState (N : Randomness) : Type 0 where
  pub model : LossModel N
  pub in_bad : Bool

-- One entry per delivered packet: its arrival time and its index.
abbrev pub Schedule : Type 0
Schedule = List (ℕ × ℕ)
