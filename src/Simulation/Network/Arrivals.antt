-- ===== src/Simulation/Network/Arrivals.antt =====
-- When the packets of src/simulation/network.rs's `disturb` arrive, before they are sorted.
use safe_cast.Base.{
  ℕ, zero, suc, ◌+◌, ◌%◌, ◌^◌, ◌≤◌, ◌<◌, ◌≡◌, ◌⊎◌, inl, inr, refl, subst, arith, min, Bool, Option,
  none, some, [], ◌∷◌, ◌++◌, All, All-append, Bool-cases,
}
use native.Mathlib.Decide.{dec_le}
use safe_cast.Simulation.Network.Config.{
  Randomness, PathConfig, NetworkConfig, NetworkStats, LossState, Schedule,
}
use safe_cast.Simulation.Network.{
  next_lost, transit, copy_arrival, second_copy, has_path, merge, send_packet, send_packets,
  first_run,
}

-- Each index is below every later one.
abbrev pub Climbs : Schedule → Type 0
Climbs [] = Unit
Climbs (e ∷ rest) = All (λ (later : ℕ × ℕ). e.1 < later.1) rest × Climbs rest

Climbs-snoc :
    (n t : ℕ) (schedule : Schedule)
    → All (λ (e : ℕ × ℕ). e.1 < n) schedule
    → Climbs schedule
    → Climbs (schedule ++ ((t, n) ∷ []))
Climbs-snoc n t [] h c = (tt, tt)
Climbs-snoc n t (e ∷ rest) h c = (
  All-append (λ (later : ℕ × ℕ). e.1 < later.1) rest ((t, n) ∷ []) c.0 (h.0, tt),
  Climbs-snoc n t rest h.1 c.1,
)

pub All-mono : {P Q : ℕ × ℕ → Type 0} (l : Schedule) → ((e : ℕ × ℕ) → P e → Q e) → All P l → All Q l
All-mono [] f h = tt
All-mono (e ∷ l) f h = (f e h.0, All-mono l f h.1)

module _ (N : Randomness) where
  -- A copy sent at `s` takes the path's base delay and a jitter within its bound.
  pub record Crosses (path : PathConfig N) (s t : ℕ) : Type 0 where
    pub jitter : ℕ
    pub within : jitter ≤ path.jitter_ns
    pub arrives : t ≡ (s + path.base_delay_ns + jitter) % 2 ^ 64

  -- By the first path, or by the second if there is one.
  abbrev pub ByPath : NetworkConfig N → ℕ → ℕ → Type 0
  ByPath cfg s t =
      Crosses cfg.path_a s t ⊎ ((path : PathConfig N) × (cfg.path_b ≡ some path) × Crosses path s t)

  copy_arrival-Crosses :
      (path : PathConfig N) (s t : ℕ) (loss : LossState N) (rng : N.Rng)
      → (copy_arrival N path s loss rng).0 ≡ some t
      → Crosses path s t
  unfolding copy_arrival transit
  copy_arrival-Crosses path s t loss rng =
      let rng' = (next_lost N loss rng).2 in
      let took = N.random_range path.jitter_ns rng' in
      elim (Bool-cases (next_lost N loss rng).0) [
        | inl lost ↦ rw lost (λ e. absurd (cc))
        | inr through ↦ rw through (λ e. record {
          jitter = took.0;
          within = N.random_range_bound path.jitter_ns rng';
          arrives = cc;
        })
      ]

  second_copy-Crosses :
      (path_b : Option (PathConfig N)) (s t : ℕ) (loss : Option (LossState N)) (rng : N.Rng)
      → (second_copy N path_b s loss rng).0 ≡ some t
      → (path : PathConfig N) × (path_b ≡ some path) × Crosses path s t
  unfolding second_copy
  second_copy-Crosses none s t loss rng e = absurd (cc)
  second_copy-Crosses (some path) s t none rng e = absurd (cc)
  second_copy-Crosses (some path) s t (some state) rng e =
      (path, refl, copy_arrival-Crosses path s t state rng e)

  -- The packets delivered of the first `n`, in sending order.
  pub record Sent (cfg : NetworkConfig N) (send_ns : ℕ → ℕ) (n : ℕ) (schedule : Schedule)
      : Type 0 where
    pub below : All (λ (e : ℕ × ℕ). e.1 < n) schedule
    pub climbs : Climbs schedule
    pub by_path : All (λ (e : ℕ × ℕ). ByPath cfg (send_ns e.1) e.0) schedule

  kept-Sent :
      (cfg : NetworkConfig N) (send_ns : ℕ → ℕ) (n : ℕ) (schedule : Schedule)
      → Sent cfg send_ns n schedule
      → Sent cfg send_ns (suc n) schedule
  kept-Sent cfg send_ns n schedule s = record {
    below = All-mono schedule (λ e h. omega (arith, h)) s.below;
    climbs = s.climbs;
    by_path = s.by_path;
  }

  added-Sent :
      (cfg : NetworkConfig N) (send_ns : ℕ → ℕ) (n t : ℕ) (schedule : Schedule)
      → Sent cfg send_ns n schedule
      → ByPath cfg (send_ns n) t
      → Sent cfg send_ns (suc n) (schedule ++ ((t, n) ∷ []))
  added-Sent cfg send_ns n t schedule s h = record {
    below =
        All-append (λ (e : ℕ × ℕ). e.1 < suc n) schedule ((t, n) ∷ [])
          (All-mono schedule (λ e h. omega (arith, h)) s.below) (omega arith, tt);
    climbs = Climbs-snoc n t schedule s.below s.climbs;
    by_path =
        All-append (λ (e : ℕ × ℕ). ByPath cfg (send_ns e.1) e.0) schedule ((t, n) ∷ []) s.by_path
          (h, tt);
  }

  merge-Sent :
      (cfg : NetworkConfig N) (send_ns : ℕ → ℕ) (dual : Bool) (n : ℕ) (a b : Option ℕ)
      (stats : NetworkStats) (schedule : Schedule)
      → Sent cfg send_ns n schedule
      → ((t : ℕ) → a ≡ some t → ByPath cfg (send_ns n) t)
      → ((t : ℕ) → b ≡ some t → ByPath cfg (send_ns n) t)
      → Sent cfg send_ns (suc n) (merge N dual n a b (stats, schedule)).1
  unfolding merge
  merge-Sent cfg send_ns dual n none none stats schedule s ha hb =
      kept-Sent cfg send_ns n schedule s
  merge-Sent cfg send_ns dual n (some t) none stats schedule s ha hb =
      added-Sent cfg send_ns n t schedule s (ha t refl)
  merge-Sent cfg send_ns dual n none (some t) stats schedule s ha hb =
      added-Sent cfg send_ns n t schedule s (hb t refl)
  merge-Sent cfg send_ns dual n (some ta) (some tb) stats schedule s ha hb =
      added-Sent cfg send_ns n (min ta tb) schedule s (elim (dec_le ta tb) [
        | yes le ↦
            subst (ByPath cfg (send_ns n)) (let e : ta ≡ min ta tb = omega arith in e) (ha ta refl)
        | no gt ↦
            subst (ByPath cfg (send_ns n)) (let e : tb ≡ min ta tb = omega arith in e) (hb tb refl)
      ])

  pub send_packets-Sent :
      (cfg : NetworkConfig N) (send_ns : ℕ → ℕ) (n total : ℕ)
      → Sent cfg send_ns n (send_packets N cfg send_ns n (first_run N cfg total)).schedule
  unfolding send_packets send_packet first_run
  send_packets-Sent cfg send_ns zero total = record { below = tt; climbs = tt; by_path = tt }
  send_packets-Sent cfg send_ns (suc n) total =
      let r = send_packets N cfg send_ns n (first_run N cfg total) in
      let (a, loss_a, rng) = copy_arrival N cfg.path_a (send_ns n) r.loss_a r.rng in
      merge-Sent cfg send_ns (has_path N cfg.path_b) n a
        (second_copy N cfg.path_b (send_ns n) r.loss_b rng).0 r.stats r.schedule
        (send_packets-Sent cfg send_ns n total)
        (λ t e. inl (copy_arrival-Crosses cfg.path_a (send_ns n) t r.loss_a r.rng e))
        (λ t e. inr (second_copy-Crosses cfg.path_b (send_ns n) t r.loss_b rng e))
