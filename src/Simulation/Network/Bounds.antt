-- ===== src/Simulation/Network/Bounds.antt =====
-- What src/simulation/network.rs's displacement statistics say of each arrival: they bound its
-- lateness and the gap before it.
use safe_cast.Base.{
  ℕ, suc, ◌≤◌, ◌<◌, ◌≡◌, ◌≢◌, leb, insert_by, insert_by-All, sort_by_key-All, ◌∙◌, sym, ap, subst,
  arith, List, [], ◌∷◌, All, Bool-cases, false, inl, inr, none, length, ◌==◌, ret, >>=-eq-ret,
  sort_by_key, sort_by_key-IsSorted, if◌then◌else◌, All-sort_by_key, length-sort_by_key,
}
use safe_cast.Simulation.Network.Config.{
  Randomness, DisplacementStats, NetworkConfig, NetworkStats, Schedule, no_displacement,
}
use safe_cast.Simulation.Network.{
  send_packets, first_run, disturb, Walk, skipped, visit, walk, walk_start, displacement_of,
  measure_displacement,
}
use safe_cast.Simulation.Network.Arrivals.{Climbs, All-mono, send_packets-Sent}
use safe_cast.Simulation.Network.Order.{behind, walk-lateness, length-behind, All-last}
use safe_cast.Simulation.Network.Lateness.{displacement_of-ret}

-- The walk's largest gap only grows, and is at least each gap.
visit_gap :
    (w : Walk) (idx : ℕ)
    → (w.max_gap ≤ (visit w idx).max_gap) × (skipped w.max_seen idx ≤ (visit w idx).max_gap)
unfolding visit
visit_gap w idx = ground arith

pub walk_gap : (w : Walk) (s : Schedule) → w.max_gap ≤ (walk w s).max_gap
unfolding walk
walk_gap w [] = omega arith
walk_gap w ((_, idx) ∷ rest) = omega (arith, (visit_gap w idx).0, walk_gap (visit w idx) rest)

pub gap_bound :
    (w : Walk) (t idx : ℕ) (rest : Schedule)
    → skipped w.max_seen idx ≤ (walk w ((t, idx) ∷ rest)).max_gap
unfolding walk
gap_bound w t idx rest = omega (arith, (visit_gap w idx).1, walk_gap (visit w idx) rest)

ret_inj : (a b : DisplacementStats) → ret a ≡ ret b → a ≡ b
ret_inj a b e = cc

module _ (N : Randomness) where
  -- The statistics of a schedule bound the lateness and the gap of each of its arrivals.
  pub measure_displacement_bounds :
      (schedule : Schedule) (d : DisplacementStats)
      → measure_displacement N schedule ≡ ret d
      → All (λ x. x ≤ d.max_lateness) (behind none schedule)
        × ((walk walk_start schedule).max_gap ≤ d.max_gap)
  unfolding measure_displacement walk
  measure_displacement_bounds [] d e = (tt, omega arith)
  measure_displacement_bounds (first ∷ rest) d e =
      let (d', run, _, hm, _, _, _, gap) =
        displacement_of-ret N w sorted
          (omega (arith, length-sort_by_key (λ (x : ℕ). x) w.lateness, size)) in
      let same : d' ≡ d = ret_inj d' d (
        sym run
        ∙ sym (λ j. if some_late j then ret no_displacement else displacement_of N w sorted)
        ∙ e) in
      (
        subst (λ (x : DisplacementStats). All (λ y. y ≤ x.max_lateness) (behind none schedule)) same
            (subst (All (λ y. y ≤ d'.max_lateness)) late (
              All-sort_by_key (λ x. x) (λ y. y ≤ d'.max_lateness) w.lateness
                (All-last sorted d'.max_lateness (sort_by_key-IsSorted (λ x. x) w.lateness) hm))),
        omega (arith, gap, ap (λ (x : DisplacementStats). x.max_gap) same),
      )
    where
      schedule : Schedule
      schedule = first ∷ rest

      w : Walk
      w = walk walk_start schedule

      sorted : List ℕ
      sorted = sort_by_key (λ (x : ℕ). x) w.lateness

      late : w.lateness ≡ behind none schedule
      late = walk-lateness walk_start schedule

      size : length w.lateness ≡ suc (length rest)
      size = ap (λ (l : List ℕ). length l) late ∙ length-behind none schedule

      some_late : (length w.lateness == 0) ≡ false
      some_late = rw size (ground arith)

-- No packet is listed twice.
abbrev pub Apart : Schedule → Type 0
Apart [] = Unit
Apart (e ∷ rest) = All (λ (later : ℕ × ℕ). later.1 ≢ e.1) rest × Apart rest

Climbs-Apart : (s : Schedule) → Climbs s → Apart s
Climbs-Apart [] h = tt
Climbs-Apart (e ∷ rest) h =
    (All-mono rest (λ later lt same. absurd (omega arith)) h.0, Climbs-Apart rest h.1)

insert_by-Apart :
    (e : ℕ × ℕ) (s : Schedule)
    → All (λ (later : ℕ × ℕ). later.1 ≢ e.1) s
    → Apart s
    → Apart (insert_by (λ (x : ℕ × ℕ). x.0) e s)
unfolding insert_by
insert_by-Apart e [] h a = (tt, tt)
insert_by-Apart e (f ∷ s) h a = elim (Bool-cases (leb (e.0) (f.0))) [
  | inl le ↦ rw le ((h.0, h.1), (a.0, a.1))
  | inr gt ↦ rw gt (
    insert_by-All (λ (x : ℕ × ℕ). x.0) (λ (later : ℕ × ℕ). later.1 ≢ f.1) e s (λ q. h.0 (sym q))
        a.0,
    insert_by-Apart e s h.1 a.1,
  )
]

pub sort_by_key-Apart : (s : Schedule) → Apart s → Apart (sort_by_key (λ (x : ℕ × ℕ). x.0) s)
unfolding sort_by_key
sort_by_key-Apart [] a = tt
sort_by_key-Apart (e ∷ s) a =
    insert_by-Apart e (sort_by_key (λ (x : ℕ × ℕ). x.0) s)
      (sort_by_key-All (λ (x : ℕ × ℕ). x.0) (λ (later : ℕ × ℕ). later.1 ≢ e.1) s a.0)
      (sort_by_key-Apart s a.1)

module _ (N : Randomness) where
  pair_inj : (p q : Schedule × NetworkStats) → ret p ≡ ret q → (p.0 ≡ q.0) × (p.1 ≡ q.1)
  pair_inj p q e = (ap (λ z. z.0) same, ap (λ z. z.1) same)
    where
      same : p ≡ q
      same = cc

  -- A schedule of `disturb`, with the statistics that it is measured by.
  pub disturb-measured :
      (n : ℕ) (send_ns : ℕ → ℕ) (cfg : NetworkConfig N) (schedule : Schedule) (stats : NetworkStats)
      → disturb N n send_ns cfg ≡ ret (schedule, stats)
      → (measure_displacement N schedule ≡ ret stats.displacement)
        × All (λ (e : ℕ × ℕ). e.1 < n) schedule
        × Apart schedule
  unfolding disturb
  disturb-measured n send_ns cfg schedule stats e =
      let r = send_packets N cfg send_ns n (first_run N cfg n) in
      let sorted = sort_by_key (λ (x : ℕ × ℕ). x.0) r.schedule in
      let (d, measured, made) =
        >>=-eq-ret (measure_displacement N sorted)
          (λ d. ret (sorted, record r.stats { delivered = length sorted; displacement = d })) e in
      let (same, same_stats) = pair_inj _ (schedule, stats) made in
      let sent = send_packets-Sent N cfg send_ns n n in
      (
        (λ j. measure_displacement N (sym same j))
            ∙ measured
            ∙ ap (λ (x : NetworkStats). ret (x.displacement)) same_stats,
        subst (All (λ (e : ℕ × ℕ). e.1 < n)) same
            (sort_by_key-All (λ (x : ℕ × ℕ). x.0) (λ (e : ℕ × ℕ). e.1 < n) r.schedule sent.below),
        subst Apart same (sort_by_key-Apart r.schedule (Climbs-Apart r.schedule sent.climbs)),
      )
