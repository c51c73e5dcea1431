-- ===== src/Simulation/Network.antt =====
-- src/simulation/network.rs: when each sent packet arrives, or that it is lost. Counters are unbounded
-- numbers; arrival times wrap modulo 2^64, as in a release build.
pub mod Config
pub mod Counting
pub mod Arrivals
pub mod Order
pub mod Lateness
pub mod Bounds
pub mod Disturb
use safe_cast.Base.{
  ℕ, zero, suc, ◌+◌, ◌-◌, ◌%◌, ◌^◌, min, max, List, [], ◌∷◌, ◌++◌, Bool, true, false, Option, none,
  some, not, ltb, leb, ◌==◌, if◌then◌else◌, length, get_elem?, sort_by_key, Exec, ret, expect,
  ◌>>=◌,
}
use Config.{
  Randomness, LossModel, independent, gilbert_elliott, PathConfig, NetworkConfig, DisplacementStats,
  no_displacement, NetworkStats, LossState, Schedule,
}

-- The variables of the walk over the schedule.
pub record Walk : Type 0 where
  pub lateness : List ℕ
  pub max_seen : Option ℕ
  pub gaps : ℕ
  pub max_gap : ℕ

-- How far a packet lies behind the newest, and how many it jumped over.
unfoldable pub late_by : Option ℕ → ℕ → ℕ
late_by none idx = 0
late_by (some m) idx = if ltb idx m then m - idx else 0

unfoldable pub skipped : Option ℕ → ℕ → ℕ
skipped none idx = idx
skipped (some m) idx = if ltb m idx then idx - m - 1 else 0

unfoldable pub newest : Option ℕ → ℕ → Option ℕ
newest none idx = some idx
newest (some m) idx = if ltb m idx then some idx else some m

-- One round of the walk.
unfoldable pub visit : Walk → ℕ → Walk
unfolding late_by skipped newest
visit w idx =
    let skip = skipped w.max_seen idx in
    record {
      lateness = w.lateness ++ (late_by w.max_seen idx ∷ []);
      max_seen = newest w.max_seen idx;
      gaps = if ltb 0 skip then w.gaps + 1 else w.gaps;
      max_gap = if ltb 0 skip then max w.max_gap skip else w.max_gap;
    }

unfoldable pub walk : Walk → Schedule → Walk
unfolding visit
walk w [] = w
walk w ((_, idx) ∷ rest) = walk (visit w idx) rest

abbrev pub walk_start : Walk
walk_start = record { lateness = []; max_seen = none; gaps = 0; max_gap = 0 }

-- `iter().filter(|&&d| d > 0).count()`.
unfoldable pub count_late : List ℕ → ℕ
count_late [] = 0
count_late (d ∷ ds) = if ltb 0 d then 1 + count_late ds else count_late ds

module _ (N : Randomness) where
  open N use {
    Rng, F64, seed_from_u64, random, random_range, less_than, half, at_99, at_99_9, percentile,
  }

  -- `LossState::new`.
  unfoldable pub new_loss : LossModel N → LossState N
  new_loss model = record { model = model; in_bad = false }

  -- The state flips if the next random number is below `p`.
  unfoldable pub flip : LossState N → F64 → Rng → LossState N × Rng
  flip s p rng =
      let (x, rng') = random rng in
      (if less_than x p then record s { in_bad = not s.in_bad } else s, rng')

  unfoldable pub next_lost_by : LossModel N → LossState N → Rng → Bool × LossState N × Rng
  unfolding flip
  next_lost_by LossModel.none s rng = (false, s, rng)
  next_lost_by (independent p) s rng = let (x, rng') = random rng in (less_than x p, s, rng')
  next_lost_by (gilbert_elliott p_good_to_bad p_bad_to_good) s rng =
      let (s', rng') = flip s (if s.in_bad then p_bad_to_good else p_good_to_bad) rng in
      (s.in_bad, s', rng')

  unfoldable pub next_lost : LossState N → Rng → Bool × LossState N × Rng
  unfolding next_lost_by
  next_lost s rng = next_lost_by s.model s rng

  unfoldable pub transit : PathConfig N → ℕ → Rng → ℕ × Rng
  transit path send_ns rng =
      let (jitter, rng') = random_range path.jitter_ns rng in
      ((send_ns + path.base_delay_ns + jitter) % 2 ^ 64, rng')

  unfoldable pub copy_arrival : PathConfig N → ℕ → LossState N → Rng → Option ℕ × LossState N × Rng
  unfolding next_lost transit
  copy_arrival path send_ns loss rng =
      let (lost, loss', rng') = next_lost loss rng in
      let (t, rng'') = transit path send_ns rng' in
      if lost then (none, loss', rng') else (some t, loss', rng'')

  -- The copy on path B, if there is one. `loss_b` is there whenever `path_b` is.
  unfoldable pub second_copy :
      Option (PathConfig N) → ℕ → Option (LossState N) → Rng → Option ℕ × Option (LossState N) × Rng
  second_copy (some path) send_ns (some state) rng =
      let (b, state', rng') = copy_arrival path send_ns state rng in (b, some state', rng')
  second_copy (some path) send_ns none rng = (none, none, rng)
  second_copy none send_ns loss rng = (none, loss, rng)

  abbrev pub has_path : Option (PathConfig N) → Bool
  has_path none = false
  has_path (some _) = true

  -- The match on what became of the two copies of packet `i`.
  unfoldable pub merge :
      (dual : Bool) → ℕ → Option ℕ → Option ℕ → NetworkStats × Schedule → NetworkStats × Schedule
  merge dual i none none (stats, schedule) = (
    record stats {
      lost_a = stats.lost_a + 1;
      lost_b = if dual then stats.lost_b + 1 else stats.lost_b;
      lost_packets = stats.lost_packets + 1;
    },
    schedule,
  )
  merge dual i (some t) none (stats, schedule) = (
    record stats {
      lost_b = if dual then stats.lost_b + 1 else stats.lost_b;
      wins_a = stats.wins_a + 1;
    },
    schedule ++ ((t, i) ∷ []),
  )
  merge dual i none (some t) (stats, schedule) = (
    record stats { lost_a = stats.lost_a + 1; wins_b = stats.wins_b + 1 },
    schedule ++ ((t, i) ∷ []),
  )
  merge dual i (some ta) (some tb) (stats, schedule) = (
    record stats {
      wins_a = if leb ta tb then stats.wins_a + 1 else stats.wins_a;
      wins_b = if leb ta tb then stats.wins_b else stats.wins_b + 1;
      duplicates_dropped = stats.duplicates_dropped + 1;
    },
    schedule ++ ((min ta tb, i) ∷ []),
  )

  -- The variables of the loop of `disturb`.
  pub record Run : Type 0 where
    pub rng : Rng
    pub loss_a : LossState N
    pub loss_b : Option (LossState N)
    pub stats : NetworkStats
    pub schedule : Schedule

  unfoldable pub send_packet : NetworkConfig N → (ℕ → ℕ) → ℕ → Run → Run
  send_packet cfg send_ns i r =
      let (a, loss_a, rng) = copy_arrival cfg.path_a (send_ns i) r.loss_a r.rng in
      let (b, loss_b, rng') = second_copy cfg.path_b (send_ns i) r.loss_b rng in
      let (stats, schedule) = merge (has_path cfg.path_b) i a b (r.stats, r.schedule) in
      record { rng = rng'; loss_a = loss_a; loss_b = loss_b; stats = stats; schedule = schedule }

  -- `for i in 0..n`, for the first `n` packets.
  unfoldable pub send_packets : NetworkConfig N → (ℕ → ℕ) → ℕ → Run → Run
  send_packets cfg send_ns zero r = r
  send_packets cfg send_ns (suc n) r = send_packet cfg send_ns n (send_packets cfg send_ns n r)

  unfoldable pub loss_of : Option (PathConfig N) → Option (LossState N)
  unfolding new_loss
  loss_of none = none
  loss_of (some path) = some (new_loss path.loss)

  unfoldable pub first_run : NetworkConfig N → ℕ → Run
  unfolding new_loss loss_of
  first_run cfg n = record {
    rng = seed_from_u64 cfg.seed;
    loss_a = new_loss cfg.path_a.loss;
    loss_b = loss_of cfg.path_b;
    stats = record {
      sent = n;
      delivered = 0;
      lost_a = 0;
      lost_b = 0;
      lost_packets = 0;
      wins_a = 0;
      wins_b = 0;
      duplicates_dropped = 0;
      displacement = no_displacement;
    };
    schedule = [];
  }

  -- `lateness[...]` on the sorted values: an index out of bounds panics.
  unfoldable pub pct : List ℕ → F64 → Exec ℕ
  pct lateness q = expect (get_elem? lateness (percentile (length lateness - 1) q))

  unfoldable pub displacement_of : Walk → List ℕ → Exec DisplacementStats
  unfolding pct
  displacement_of w lateness = do
    max_lateness ← expect (get_elem? lateness (length lateness - 1))
    p50 ← pct lateness half
    p99 ← pct lateness at_99
    p99_9 ← pct lateness at_99_9
    ret (record {
      reordered = count_late w.lateness;
      max_lateness = max_lateness;
      p50 = p50;
      p99 = p99;
      p99_9 = p99_9;
      gaps = w.gaps;
      max_gap = w.max_gap;
    })

  unfoldable pub measure_displacement : Schedule → Exec DisplacementStats
  measure_displacement schedule =
      let w = walk walk_start schedule in
      if length w.lateness == 0
      then ret no_displacement
      else displacement_of w (sort_by_key (λ d. d) w.lateness)

  unfoldable pub disturb : ℕ → (ℕ → ℕ) → NetworkConfig N → Exec (Schedule × NetworkStats)
  unfolding first_run
  disturb n send_ns cfg = do
    let r = send_packets cfg send_ns n (first_run cfg n)
    let schedule = sort_by_key (λ (e : ℕ × ℕ). e.0) r.schedule
    displacement ← measure_displacement schedule
    ret (schedule, record r.stats { delivered = length schedule; displacement = displacement })
