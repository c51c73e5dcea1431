-- ===== src/Receiver/Manager/RingKeys.antt =====
-- The keys that the ring of src/receiver.rs holds while a catch-up is folded into it.
use safe_cast.Base.{
  ℕ, zero, suc, ◌+◌, ◌-◌, ◌*◌, ◌/◌, ◌%◌, ◌≤◌, ◌<◌, ◌≡◌, ◌≢◌, ◌⊎◌, inl, inr, ◌∙◌, refl, sym, ap,
  arith, max, List, [], ◌∷◌, ◌++◌, some, length, length-set, get_elem?, set, get_elem?-set_self,
  get_elem?-set_ne,
}
use native.Mathlib.Decide.{ℕ_discrete, dec_le}
use native.Mathlib.Nat.{
  mod-lt, div-add-mod, add-mul-mod_self_left, le-div_iff_mul-le, mul-le-mul_left,
}
use safe_cast.Keying.Ratchet.{KeySalt}
use safe_cast.Receiver.Manager.Phases.{fold_ring, back}
use safe_cast.Receiver.Manager.State.{Ring}

-- Two generations less than `k` apart have different slots.
mod-ne : (a b k : ℕ) → a < b → b < a + k → a % k ≢ b % k
mod-ne a b k lo hi e = grind (arith, div-add-mod a k, div-add-mod b k)

-- The first generation that a catch-up from `n` to `n'` keeps.
abbrev pub first_kept : ℕ → ℕ → ℕ → ℕ
first_kept k n n' = max n (n' - k)

module _ (key : ℕ → KeySalt) where
  -- The keys of the `c` generations from `a` on.
  abbrev pub run : ℕ → ℕ → List (ℕ × KeySalt)
  run a zero = []
  run a (suc c) = (a, key a) ∷ run (a + 1) c

  pub run-snoc : (a c : ℕ) → run a c ++ ((a + c, key (a + c)) ∷ []) ≡ run a (suc c)
  run-snoc a zero = ap (λ t. (t, key t) ∷ []) (let e : a + 0 ≡ a = omega arith in e)
  run-snoc a (suc c) =
      ap (λ l. (a, key a) ∷ l)
        (ap (λ t. run (a + 1) c ++ ((t, key t) ∷ []))
            (let e : a + suc c ≡ a + 1 + c = omega arith in e)
          ∙ run-snoc (a + 1) c)

  pub length-run : (a c : ℕ) → length (run a c) ≡ c
  length-run a zero = refl
  length-run a (suc c) = ap suc (length-run (a + 1) c)

  pub back-run : (a c : ℕ) → back (run a (suc c)) ≡ some (a + c, key (a + c))
  back-run a zero = ap (λ t. some (t, key t)) (let e : a ≡ a + 0 = omega arith in e)
  back-run a (suc c) =
      back-run (a + 1) c
      ∙ ap (λ t. some (t, key t)) (let e : a + 1 + c ≡ a + suc c = omega arith in e)

  -- A slot that none of the generations has is left alone.
  fold_ring_out :
      (k : ℕ) (ring : Ring) (a c i : ℕ)
      → ((t : ℕ) → a ≤ t → t < a + c → t % k ≢ i)
      → get_elem? (fold_ring k ring (run a c)) i ≡ get_elem? ring i
  unfolding fold_ring
  fold_ring_out k ring a zero i h = refl
  fold_ring_out k ring a (suc c) i h =
      fold_ring_out k (set ring (a % k) (some (a, key a))) (a + 1) c i
        (λ t lo hi. h t (omega arith) (omega arith))
      ∙ get_elem?-set_ne ring (a % k) i (some (a, key a)) (h a (omega arith) (omega arith))

  -- Each of at most `k` consecutive generations finds its key in its slot.
  fold_ring_in :
      (k : ℕ) (ring : Ring) (a c t : ℕ)
      → length ring ≡ k
      → 0 < k
      → c ≤ k
      → a ≤ t
      → t < a + c
      → get_elem? (fold_ring k ring (run a c)) (t % k) ≡ some (some (t, key t))
  unfolding fold_ring
  fold_ring_in k ring a zero t e pos fits lo hi = absurd (omega arith)
  fold_ring_in k ring a (suc c) t e pos fits lo hi = elim (ℕ_discrete a t) [
    | yes same ↦
        ap (λ j. get_elem? (fold_ring k ring (run a (suc c))) (j % k)) (sym same)
        ∙ fold_ring_out k (set ring (a % k) (some (a, key a))) (a + 1) c (a % k)
            (λ t' lo' hi' bad. mod-ne a t' k (omega arith) (omega arith) (sym bad))
        ∙ get_elem?-set_self ring (a % k) (some (a, key a)) (omega (arith, mod-lt a pos))
        ∙ ap (λ j. some (some (j, key j))) same
    | no differ ↦
        fold_ring_in k (set ring (a % k) (some (a, key a))) (a + 1) c t
          (length-set ring (a % k) (some (a, key a)) ∙ e) pos (omega arith) (omega arith)
          (omega arith)
  ]

  pub length-fold_ring :
      (k : ℕ) (ring : Ring) (a c : ℕ) → length (fold_ring k ring (run a c)) ≡ length ring
  unfolding fold_ring
  length-fold_ring k ring a zero = refl
  length-fold_ring k ring a (suc c) =
      length-fold_ring k (set ring (a % k) (some (a, key a))) (a + 1) c ∙ length-set ring (a % k) _

  -- Where an entry of the ring comes from after a fold.
  fold_ring_cases :
      (k : ℕ) (ring : Ring) (a c i t : ℕ) (ks : KeySalt)
      → length ring ≡ k
      → 0 < k
      → get_elem? (fold_ring k ring (run a c)) i ≡ some (some (t, ks))
      → ((a ≤ t) × (t < a + c) × (t % k ≡ i) × (ks ≡ key t))
        ⊎ ((get_elem? ring i ≡ some (some (t, ks))) × ((s : ℕ) → a ≤ s → s < a + c → s % k ≢ i))
  unfolding fold_ring
  fold_ring_cases k ring a zero i t ks e pos h = inr (h, λ s lo hi. absurd (omega arith))
  fold_ring_cases k ring a (suc c) i t ks e pos h =
      go (fold_ring_cases k ring1 (a + 1) c i t ks (length-set ring (a % k) _ ∙ e) pos h)
        (ℕ_discrete (a % k) i)
    where
      ring1 : Ring
      ring1 = set ring (a % k) (some (a, key a))

      here : a % k ≡ i → get_elem? ring1 i ≡ some (some (a, key a))
      here same =
          ap (get_elem? ring1) (sym same)
          ∙ get_elem?-set_self ring (a % k) (some (a, key a)) (omega (arith, mod-lt a pos))

      go :
          ((a + 1 ≤ t) × (t < a + 1 + c) × (t % k ≡ i) × (ks ≡ key t))
            ⊎ ((get_elem? ring1 i ≡ some (some (t, ks)))
                × ((s : ℕ) → a + 1 ≤ s → s < a + 1 + c → s % k ≢ i))
          → Dec (a % k ≡ i)
          → ((a ≤ t) × (t < a + suc c) × (t % k ≡ i) × (ks ≡ key t))
            ⊎ ((get_elem? ring i ≡ some (some (t, ks)))
                × ((s : ℕ) → a ≤ s → s < a + suc c → s % k ≢ i))
      go (inl (lo, hi, m, q)) d = inl (omega arith, omega arith, m, q)
      go (inr (old, none_hit)) (yes same) =
          let t_is : t ≡ a = cc (old, here same) in
          let ks_is : ks ≡ key a = cc (old, here same) in
          inl (omega arith, omega arith, ap (λ n. n % k) t_is ∙ same, ks_is ∙ ap key (sym t_is))
      go (inr (old, none_hit)) (no differ) = inr (
        sym (get_elem?-set_ne ring (a % k) i (some (a, key a)) differ) ∙ old,
        λ s lo hi. elim (ℕ_discrete a s) [
          | yes q ↦ λ bad. differ (ap (λ n. n % k) q ∙ bad)
          | no q ↦ none_hit s (omega arith) (omega arith)
        ],
      )

  -- With the generations below `n` derived: the ring holds the last ones, as many as it has slots,
  -- each in its slot with its key,
  abbrev pub Covers : Ring → ℕ → Type 0
  Covers ring n =
      (t : ℕ)
      → t < n
      → n ≤ t + length ring
      → get_elem? ring (t % length ring) ≡ some (some (t, key t))

  -- and it holds no other.
  abbrev pub Only : Ring → ℕ → Type 0
  Only ring n =
      (i t : ℕ) (ks : KeySalt)
      → get_elem? ring i ≡ some (some (t, ks))
      → (t < n) × (n ≤ t + length ring) × (t % length ring ≡ i) × (ks ≡ key t)

  pub fold_ring-Covers :
      (ring : Ring) (n n' : ℕ)
      → 0 < length ring
      → n ≤ n'
      → Covers ring n
      → let a = first_kept (length ring) n n' in
        Covers (fold_ring (length ring) ring (run a (n' - a))) n'
  fold_ring-Covers ring n n' pos le cov t lt near = rw same (elim (dec_le n t) [
    | yes new ↦
        fold_ring_in k ring a (n' - a) t refl pos (omega arith) (omega (arith, same)) (omega arith)
    | no old ↦
        fold_ring_out k ring a (n' - a) (t % k)
          (λ s lo hi bad. mod-ne t s k (omega arith) (omega (arith, same)) (sym bad))
        ∙ cov t (omega arith) (omega (arith, same))
  ])
    where
      k : ℕ
      k = length ring

      a : ℕ
      a = first_kept k n n'

      same : length (fold_ring k ring (run a (n' - a))) ≡ k
      same = length-fold_ring k ring a (n' - a)

  -- The generation of the same slot among the last `k` below `n'`.
  last_in_slot :
      (k t n' : ℕ)
      → 0 < k
      → t + k < n'
      → (s : ℕ) × (t + k ≤ s) × (s < n') × (n' ≤ s + k) × (s % k ≡ t % k)
  last_in_slot k t n' pos far = (
    t + k * ((n' - 1 - t) / k),
    omega (arith, mul-le-mul_left k once),
    omega (arith, split, small),
    omega (arith, split, small),
    add-mul-mod_self_left t k ((n' - 1 - t) / k),
  )
    where
      split : k * ((n' - 1 - t) / k) + (n' - 1 - t) % k ≡ n' - 1 - t
      split = div-add-mod (n' - 1 - t) k

      small : (n' - 1 - t) % k < k
      small = mod-lt (n' - 1 - t) pos

      once : 1 ≤ (n' - 1 - t) / k
      once = (le-div_iff_mul-le pos).1 (omega arith)

  pub fold_ring-Only :
      (ring : Ring) (n n' : ℕ)
      → 0 < length ring
      → n ≤ n'
      → Only ring n
      → let a = first_kept (length ring) n n' in
        Only (fold_ring (length ring) ring (run a (n' - a))) n'
  fold_ring-Only ring n n' pos le only i t ks h =
      rw same (go (fold_ring_cases k ring a (n' - a) i t ks refl pos h))
    where
      k : ℕ
      k = length ring

      a : ℕ
      a = first_kept k n n'

      same : length (fold_ring k ring (run a (n' - a))) ≡ k
      same = length-fold_ring k ring a (n' - a)

      missed :
          (t % k ≡ i)
          → ((s : ℕ) → a ≤ s → s < a + (n' - a) → s % k ≢ i)
          → n ≤ t + k
          → t + k < n'
          → ⊥
      missed m none_hit near far =
          let (s, lo, hi, last, slot) = last_in_slot k t n' pos far in
          none_hit s (omega arith) (omega arith) (slot ∙ m)

      go :
          ((a ≤ t) × (t < a + (n' - a)) × (t % k ≡ i) × (ks ≡ key t))
            ⊎ ((get_elem? ring i ≡ some (some (t, ks)))
                × ((s : ℕ) → a ≤ s → s < a + (n' - a) → s % k ≢ i))
          → (t < n') × (n' ≤ t + k) × (t % k ≡ i) × (ks ≡ key t)
      go (inl (lo, hi, m, q)) = (omega arith, omega arith, m, q)
      go (inr (old, none_hit)) =
          let (lt, near, m, q) = only i t ks old in
          elim (dec_le n' (t + k)) [
            | yes stays ↦ (omega arith, stays, m, q)
            | no far ↦ absurd (missed m none_hit near (omega arith))
          ]
