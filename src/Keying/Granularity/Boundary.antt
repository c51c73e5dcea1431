-- ===== src/Keying/Granularity/Boundary.antt =====
-- Where the boundary rule of src/keying/granularity.rs begins a generation.
use safe_cast.Base.{
  ℕ, zero, suc, ◌+◌, ◌-◌, ◌/◌, ◌%◌, ◌≤◌, ◌<◌, ◌≡◌, ◌∙◌, refl, ap, arith, Bool, Bool-cases, inl, inr,
  true, false, Option, ltb, lt→ltb, ◌==◌, ==_iff, if◌then◌else◌, ret,
}
use native.Mathlib.Nat.{div-add-mod, div-eq_of_lt-le, mod-lt, suc-mod, mod-eq_of_lt, mod_self}
use native.Mathlib.Decide.{dec_le}
use safe_cast.Keying.Granularity.{
  Granularity, epoch_only, per_frame, per_packet, every_n, crossed_boundary, changed,
}

-- The generation of packet number `i` of the epoch, by its granularity. With one key per frame it
-- depends on the timestamps, and is no more than the packet number.
abbrev pub IsGenerationOf : Granularity → ℕ → ℕ → Type 0
IsGenerationOf epoch_only i g = g ≡ 0
IsGenerationOf per_frame i g = g ≤ i
IsGenerationOf per_packet i g = g ≡ i
IsGenerationOf (every_n n) i g = g ≡ i / n

-- Every n packets, for a positive n.
abbrev pub IsUsable : Granularity → Type 0
IsUsable epoch_only = Unit
IsUsable per_frame = Unit
IsUsable per_packet = Unit
IsUsable (every_n n) = 0 < n

next-mod : (i n : ℕ) → (i + 1) % n ≡ (i % n + 1) % n
next-mod i n =
    ap (λ t. t % n) (let e : i + 1 ≡ suc i = omega arith in e)
    ∙ suc-mod i n
    ∙ ap (λ t. t % n) (let e : suc (i % n) ≡ i % n + 1 = omega arith in e)

-- The quotient and the remainder of the next number.
pub next-rest : (i n : ℕ) → i % n + 1 < n → ((i + 1) / n ≡ i / n) × ((i + 1) % n ≡ i % n + 1)
next-rest i n h = (
  div-eq_of_lt-le n (grind (arith, div-add-mod i n)) (grind (arith, div-add-mod i n)),
  next-mod i n ∙ mod-eq_of_lt h,
)

pub next-whole : (i n : ℕ) → i % n + 1 ≡ n → ((i + 1) / n ≡ i / n + 1) × ((i + 1) % n ≡ 0)
next-whole i n h = (
  div-eq_of_lt-le n (grind (arith, div-add-mod i n)) (grind (arith, div-add-mod i n)),
  next-mod i n ∙ ap (λ t. t % n) h ∙ mod_self n,
)

at_most : (b : Bool) (g i : ℕ) → g + 1 ≤ i → (if b then g + 1 else g) ≤ i
at_most true g i h = h
at_most false g i h = omega arith

every_lem : (i n g : ℕ) → 0 < n → g ≡ i / n → (if suc i % n == 0 then g + 1 else g) ≡ suc i / n
every_lem i n g pos at = elim (dec_le n (i % n + 1)) [
  | yes whole ↦
      let (q, r) = next-whole i n (omega (arith, mod-lt i pos)) in
      rw (one, (==_iff ((i + 1) % n) 0).1 r) (omega (arith, at, q))
  | no rest ↦
      let (q, r) = next-rest i n (omega arith) in
      rw (one, nonzero ((i + 1) % n) (omega (arith, r))) (omega (arith, at, q))
]
  where
    one : suc i ≡ i + 1
    one = omega arith

    nonzero : (m : ℕ) → 0 < m → (m == 0) ≡ false
    nonzero m h = elim (Bool-cases (m == 0)) [
      | inl e ↦ absurd (omega (arith, (==_iff m 0).0 e))
      | inr e ↦ e
    ]

-- What the boundary test decides is whether the next packet begins a generation.
pub boundary_lem :
    (granularity : Granularity) (started : Bool) (last_ts : Option ℕ) (count g ts : ℕ)
    → IsUsable granularity
    → started ≡ ltb 0 count
    → IsGenerationOf granularity (count - 1) g
    → (b : Bool) × (crossed_boundary granularity started last_ts count ts ≡ ret b)
      × IsGenerationOf granularity count (if b then g + 1 else g)
unfolding crossed_boundary
boundary_lem epoch_only started last_ts count g ts usable began at = (false, refl, at)
boundary_lem per_frame false last_ts count g ts usable began at = (false, refl, omega (arith, at))
boundary_lem per_frame true last_ts zero g ts usable began at = cc
boundary_lem per_frame true last_ts (suc i) g ts usable began at =
    (_, refl, at_most (changed last_ts ts) g (suc i) (omega (arith, at)))
boundary_lem per_packet false last_ts zero g ts usable began at = (false, refl, omega (arith, at))
boundary_lem per_packet true last_ts zero g ts usable began at = cc
boundary_lem per_packet false last_ts (suc i) g ts usable began at =
    cc (lt→ltb 0 (suc i) (omega arith))
boundary_lem per_packet true last_ts (suc i) g ts usable began at = (true, refl, omega (arith, at))
boundary_lem (every_n n) false last_ts zero g ts usable began at = (false, refl, at)
boundary_lem (every_n n) true last_ts zero g ts usable began at = cc
boundary_lem (every_n n) false last_ts (suc i) g ts usable began at =
    cc (lt→ltb 0 (suc i) (omega arith))
boundary_lem (every_n n) true last_ts (suc i) g ts usable began at = rw (lt→ltb 0 n usable) (
  suc i % n == 0,
  refl,
  every_lem i n g usable (at ∙ ap (λ t. t / n) (let e : suc i - 1 ≡ i = omega arith in e)),
)
