-- ===== src/Simulation/Network/Lateness.antt =====
-- What src/simulation/network.rs's `measure_displacement` reports of an arrival order.
use safe_cast.Base.{
  ℕ, suc, ◌-◌, ◌≤◌, ◌<◌, ◌≡◌, ◌↔◌, refl, sym, ap, ◌∙◌, arith, none, some, List, [], ◌∷◌, All, subst,
  length, get_elem?, get_elem?_below, false, ◌==◌, ret, sort_by_key, IsSorted, sort_by_key-All,
  All-sort_by_key, sort_by_key-IsSorted, length-sort_by_key,
}
use safe_cast.Simulation.Network.Config.{Randomness, DisplacementStats, Schedule, no_displacement}
use safe_cast.Simulation.Network.{
  Walk, walk, walk_start, count_late, pct, displacement_of, measure_displacement,
}
use safe_cast.Simulation.Network.Order.{
  behind, walk-lateness, length-behind, count_late-zero, count_late_bound, in_order, behind-bound,
  sorted_get, get-All, All-last,
}

module _ (N : Randomness) where
  -- What the statistics of an arrival order of packets below `n` say.
  pub record Measured (n : ℕ) (schedule : Schedule) (d : DisplacementStats) : Type 0 where
    pub percentiles : (d.p50 ≤ d.p99) × (d.p99 ≤ d.p99_9) × (d.p99_9 ≤ d.max_lateness)
    pub worst : d.max_lateness ≤ n - 1
    pub late : d.reordered ≤ length schedule
    pub none_late : (d.reordered ≡ 0) ↔ IsSorted (λ (e : ℕ × ℕ). e.1) schedule
    pub none_behind : (d.max_lateness ≡ 0) ↔ IsSorted (λ (e : ℕ × ℕ). e.1) schedule

  -- With something delivered, all four indices are in bounds.
  pub displacement_of-ret :
      (w : Walk) (l : List ℕ)
      → 0 < length l
      → (d : DisplacementStats) × (displacement_of N w l ≡ ret d)
        × (d.reordered ≡ count_late w.lateness)
        × (get_elem? l (length l - 1) ≡ some d.max_lateness)
        × (get_elem? l (N.percentile (length l - 1) N.half) ≡ some d.p50)
        × (get_elem? l (N.percentile (length l - 1) N.at_99) ≡ some d.p99)
        × (get_elem? l (N.percentile (length l - 1) N.at_99_9) ≡ some d.p99_9)
        × (d.max_gap ≡ w.max_gap)
  unfolding displacement_of pct
  displacement_of-ret w l h =
      let order = N.percentile_order (length l - 1) in
      let (m, hm) = get_elem?_below l (length l - 1) (omega arith) in
      let (a, ha) =
        get_elem?_below l (N.percentile (length l - 1) N.half)
          (omega (arith, order.0, order.1, order.2)) in
      let (b, hb) =
        get_elem?_below l (N.percentile (length l - 1) N.at_99) (omega (arith, order.1, order.2)) in
      let (c, hc) =
        get_elem?_below l (N.percentile (length l - 1) N.at_99_9) (omega (arith, order.2)) in
      (
        record {
          reordered = count_late w.lateness;
          max_lateness = m;
          p50 = a;
          p99 = b;
          p99_9 = c;
          gaps = w.gaps;
          max_gap = w.max_gap;
        },
        rw hm (rw ha (rw hb (rw hc refl))),
        refl,
        hm,
        ha,
        hb,
        hc,
        refl,
      )

  sorted : Walk → List ℕ
  sorted w = sort_by_key (λ d. d) w.lateness

  length-sorted :
      (w : Walk) (schedule : Schedule)
      → w.lateness ≡ behind none schedule
      → length (sorted w) ≡ length schedule
  unfolding sorted
  length-sorted w schedule e =
      length-sort_by_key (λ d. d) w.lateness ∙ ap length e ∙ length-behind none schedule

  none-late :
      (w : Walk) (schedule : Schedule)
      → w.lateness ≡ behind none schedule
      → (count_late w.lateness ≡ 0) ↔ IsSorted (λ (e : ℕ × ℕ). e.1) schedule
  none-late w schedule e =
      let zero = count_late-zero w.lateness in
      let order = in_order none schedule in
      (
        λ h. (order.0 (subst (All (λ d. d ≤ 0)) e (zero.0 h))).1,
        λ h. zero.1 (subst (All (λ d. d ≤ 0)) (sym e) (order.1 (tt, h))),
      )

  -- The largest lateness is zero just when each is.
  none-behind :
      (w : Walk) (m : ℕ)
      → get_elem? (sorted w) (length (sorted w) - 1) ≡ some m
      → (m ≡ 0) ↔ (count_late w.lateness ≡ 0)
  unfolding sorted
  none-behind w m e =
      let zero = count_late-zero w.lateness in
      let l = sort_by_key (λ d. d) w.lateness in
      (
        λ h. zero.1 (
            All-sort_by_key (λ d. d) (λ d. d ≤ 0) w.lateness
              (subst (λ b. All (λ d. d ≤ b) l) h
                (All-last l m (sort_by_key-IsSorted (λ d. d) w.lateness) e))),
        λ h.
            let le =
              get-All (λ d. d ≤ 0) l (length l - 1) m
                (sort_by_key-All (λ d. d) (λ d. d ≤ 0) w.lateness (zero.0 h)) e in
            omega arith,
      )

  displacement_of-Measured :
      (n : ℕ) (w : Walk) (schedule : Schedule)
      → w.lateness ≡ behind none schedule
      → All (λ (e : ℕ × ℕ). e.1 < n) schedule
      → 0 < length schedule
      → (d : DisplacementStats) × (displacement_of N w (sort_by_key (λ d. d) w.lateness) ≡ ret d)
        × Measured n schedule d
  unfolding sorted
  displacement_of-Measured n w schedule e below some_packet =
      let l = sorted w in
      let size = length-sorted w schedule e in
      let order = N.percentile_order (length l - 1) in
      let (d, ok, count, hm, h50, h99, h999, _) = displacement_of-ret w l (omega (arith, size)) in
      let up = sort_by_key-IsSorted (λ d. d) w.lateness in
      let half = N.percentile (length l - 1) N.half in
      let p99 = N.percentile (length l - 1) N.at_99 in
      let p99_9 = N.percentile (length l - 1) N.at_99_9 in
      let none_late =
        subst (λ k. (k ≡ 0) ↔ IsSorted (λ (e : ℕ × ℕ). e.1) schedule) (sym count)
          (none-late w schedule e) in
      let none_behind = none-behind w d.max_lateness hm in
      (
        d,
        ok,
        record {
          percentiles = (
            sorted_get l half p99 d.p50 d.p99 up order.0 h50 h99,
            sorted_get l p99 p99_9 d.p99 d.p99_9 up order.1 h99 h999,
            sorted_get l p99_9 (length l - 1) d.p99_9 d.max_lateness up order.2 h999 hm,
          );
          worst =
              get-All (λ b. b ≤ n - 1) l (length l - 1) d.max_lateness
                (sort_by_key-All (λ d. d) (λ b. b ≤ n - 1) w.lateness
                  (subst (All (λ b. b ≤ n - 1)) (sym e) (behind-bound n none schedule tt below)))
                hm;
          late =
              omega (
                arith,
                count,
                count_late_bound w.lateness,
                ap length e,
                length-behind none schedule,
              );
          none_late = none_late;
          none_behind = (
            λ h. (none-late w schedule e).0 (none_behind.0 h),
            λ h. none_behind.1 ((none-late w schedule e).1 h),
          );
        },
      )

  pub measure_displacement-Measured :
      (n : ℕ) (schedule : Schedule)
      → All (λ (e : ℕ × ℕ). e.1 < n) schedule
      → (d : DisplacementStats) × (measure_displacement N schedule ≡ ret d) × Measured n schedule d
  unfolding measure_displacement walk
  measure_displacement-Measured n [] below = (
    no_displacement,
    refl,
    record {
      percentiles = (omega arith, omega arith, omega arith);
      worst = omega arith;
      late = omega arith;
      none_late = (λ h. tt, λ h. refl);
      none_behind = (λ h. tt, λ h. refl);
    },
  )
  measure_displacement-Measured n (first ∷ rest) below =
      let schedule = first ∷ rest in
      let w = walk walk_start schedule in
      let e = walk-lateness walk_start schedule in
      let size = ap length e ∙ length-behind none schedule in
      rw (nonzero (length w.lateness) (length rest) size)
        (displacement_of-Measured n w schedule e below (omega arith))
    where
      nonzero : (k r : ℕ) → k ≡ suc r → (k == 0) ≡ false
      nonzero k r h = ground arith
