-- ===== src/Receiver/Manager/CatchUp.antt =====
-- The catch-up loop of src/receiver.rs, and the placement of a generation against the window.
use safe_cast.Base.{
  ℕ, zero, suc, ◌+◌, ◌-◌, ◌%◌, ◌^◌, ◌≤◌, ◌<◌, ◌≡◌, ◌≢◌, ◌∙◌, refl, sym, ap, ap₂, subst, arith, List,
  [], ◌∷◌, ◌++◌, Option, none, some, Bytes, length, false, get_elem?, ◌==◌, ==_iff, le→leb, lt→leb,
  le→ltb, lt→ltb, ret,
}
use native.Mathlib.Decide.{ℕ_discrete}
use safe_cast.Crypto.{Hkdf}
use safe_cast.Keying.Ratchet.{KeySalt, StreamRatchet, next_key_salt}
use safe_cast.Keying.Ratchet.Chain.{key_at, IsOnChain, next_key_salt_lem}
use safe_cast.Receiver.Manager.State.{Ring, in_window, ahead, behind_window, seek_cap_exceeded}
use safe_cast.Receiver.Manager.Phases.{placed, dropped, classify, push_bounded, catch_up, in_slot}
use safe_cast.Receiver.Manager.RingKeys.{run, run-snoc, length-run, first_kept, Covers}

push_bounded_full :
    (key : ℕ → KeySalt) (k a : ℕ)
    → 0 < k
    → push_bounded k (run key a k) (a + k, key (a + k)) ≡ run key (a + 1) k
push_bounded_full key zero a pos = absurd (omega arith)
push_bounded_full key (suc k) a pos =
    rw ((==_iff (length (run key a (suc k))) (suc k)).1 (length-run key a (suc k))) (
      ap (λ t. run key (a + 1) k ++ ((t, key t) ∷ []))
        (let e : a + suc k ≡ a + 1 + k = omega arith in e)
      ∙ run-snoc key (a + 1) k)

push_bounded_free :
    (key : ℕ → KeySalt) (k a c : ℕ)
    → c < k
    → push_bounded k (run key a c) (a + c, key (a + c)) ≡ run key a (suc c)
push_bounded_free key k a c lt =
    rw (ne_test (length (run key a c)) k (omega (arith, length-run key a c))) (run-snoc key a c)
  where
    ne_test : (x y : ℕ) → x ≢ y → (x == y) ≡ false
    ne_test x y h = ground arith

module _ (K : Hkdf) (seed : Bytes) where
  -- Where a catch-up ends: the ratchet stands just past `g`, and the keys kept are those of the
  -- generations from `first` to `g`.
  pub record Caught (g first : ℕ) (out : StreamRatchet × List (ℕ × KeySalt)) : Type 0 where
    pub chain : IsOnChain K seed out.0
    pub past : out.0.generation ≡ suc g
    pub kept : out.1 ≡ run (key_at K seed) first (suc g - first)

  -- One round of the loop.
  catch_up_step :
      (fuel g k : ℕ) (r : StreamRatchet) (derived : List (ℕ × KeySalt))
      → IsOnChain K seed r
      → r.generation ≤ g
      → catch_up K (suc fuel) g k r derived
        ≡ catch_up K fuel g k
            (next_key_salt K r).1
            (push_bounded k derived (r.generation, key_at K seed r.generation))
  unfolding catch_up
  catch_up_step fuel g k r derived chain le = rw (le→leb r.generation g le) (
      ap (λ x. catch_up K fuel g k (next_key_salt K r).1 (push_bounded k derived x))
        (next_key_salt_lem K seed r chain).0)

  push_run :
      (k a c n : ℕ)
      → 0 < k
      → c ≤ k
      → a + c ≡ n
      → (a' : ℕ) × (c' : ℕ) × (push_bounded k (run (key_at K seed) a c) (n, key_at K seed n)
          ≡ run (key_at K seed) a' c')
        × (c' ≤ k)
        × (a' + c' ≡ n + 1)
        × (first_kept k a (n + 1) ≡ a')
  push_run k a c n pos fits here = elim (ℕ_discrete c k) [
    | yes full ↦ (
      a + 1,
      k,
      ap₂ (λ c t. push_bounded k (run (key_at K seed) a c) (t, key_at K seed t)) full
            (let e : n ≡ a + k = omega arith in e)
          ∙ push_bounded_full (key_at K seed) k a pos,
      omega arith,
      omega arith,
      omega arith,
    )
    | no free ↦ (
      a,
      suc c,
      ap (λ t. push_bounded k (run (key_at K seed) a c) (t, key_at K seed t)) (sym here)
          ∙ push_bounded_free (key_at K seed) k a c (omega arith),
      omega arith,
      omega arith,
      omega arith,
    )
  ]

  catch_up-run :
      (fuel g k : ℕ) (r : StreamRatchet) (a c : ℕ)
      → 0 < k
      → c ≤ k
      → IsOnChain K seed r
      → a + c ≡ r.generation
      → fuel + r.generation ≡ suc g
      → Caught g (first_kept k a (suc g)) (catch_up K fuel g k r (run (key_at K seed) a c))
  unfolding catch_up
  catch_up-run zero g k r a c pos fits chain here left = record {
    chain = chain;
    past = omega arith;
    kept = ap₂ (run (key_at K seed)) (omega arith) (omega arith);
  }
  catch_up-run (suc fuel) g k r a c pos fits chain here left =
      let (a', c', pushed, fits', here', first) = push_run k a c r.generation pos fits here in
      let step = next_key_salt_lem K seed r chain in
      subst (Caught g (first_kept k a (suc g)))
        (sym (
          catch_up_step fuel g k r (run (key_at K seed) a c) chain (omega arith)
          ∙ ap (catch_up K fuel g k (next_key_salt K r).1) pushed))
        (subst
          (λ f. Caught g f (catch_up K fuel g k (next_key_salt K r).1 (run (key_at K seed) a' c')))
          (let e : first_kept k a' (suc g) ≡ first_kept k a (suc g) = omega arith in e)
          (catch_up-run fuel g k (next_key_salt K r).1 a' c' pos fits' step.1
            (omega (arith, step.2)) (omega (arith, step.2))))

  -- From a ratchet on the seed's chain that is not past `g`, with a ring of `k` slots, one at least, the
  -- catch-up loop stops by its own test, its fuel being enough: the ratchet is just past `g`, and the keys
  -- kept are those of the last generations derived, at most `k`.
  pub catch_up_lem :
      (g k : ℕ) (r : StreamRatchet)
      → 0 < k
      → IsOnChain K seed r
      → r.generation ≤ g
      → Caught g (first_kept k r.generation (suc g)) (catch_up K (suc g - r.generation) g k r [])
  catch_up_lem g k r pos chain le =
      catch_up-run (suc g - r.generation) g k r r.generation 0 pos (omega arith) chain (omega arith)
        (omega arith)

-- How many generations have been derived when this is the highest.
abbrev pub next_of : Option ℕ → ℕ
next_of none = 0
next_of (some f) = suc f

in_slot_lem :
    (slot : Option (Option (ℕ × KeySalt))) (g : ℕ) (ks : KeySalt)
    → slot ≡ some (some (g, ks))
    → in_slot slot g ≡ ret (placed (in_window ks))
unfolding in_slot
in_slot_lem slot g ks e = rw (e, in_slot, (==_iff g g).1 refl)

module _ (K : Hkdf) (seed : Bytes) where
  -- Phase 2, where `n` generations below the wrap of `u64` have been derived and the ring of `k` slots, one
  -- at least, holds the last ones. A generation in the window is found with its key, one behind it is
  -- dropped, one ahead is placed with the number of ratchet steps that it takes, and refused if that
  -- exceeds the cap.
  pub classify_lem :
      (ring : Ring) (frontier : Option ℕ) (seek_cap g : ℕ)
      → 0 < length ring
      → g + 1 < 2 ^ 64
      → Covers (key_at K seed) ring (next_of frontier)
      → let n = next_of frontier in
        (g < n
          → n ≤ g + length ring
          → classify ring frontier seek_cap g ≡ ret (placed (in_window (key_at K seed g))))
        × (g + length ring < n → classify ring frontier seek_cap g ≡ ret (dropped behind_window))
        × (n ≤ g
            → suc g - n ≤ seek_cap
            → classify ring frontier seek_cap g ≡ ret (placed (ahead (suc g - n))))
        × (n ≤ g
            → seek_cap < suc g - n
            → classify ring frontier seek_cap g ≡ ret (dropped seek_cap_exceeded))
  unfolding classify
  classify_lem ring none seek_cap g pos small cov = (
    λ lt near. absurd (omega arith),
    λ lt. absurd (omega arith),
    λ le fits.
        rw (wrap, le→ltb seek_cap (suc g) (omega arith))
          (ap (λ j. ret (placed (ahead j))) (let e : suc g ≡ suc g - 0 = omega arith in e)),
    λ le over. rw (wrap, lt→ltb seek_cap (suc g) (omega arith)),
  )
    where
      wrap : (g + 1) % 2 ^ 64 ≡ suc g
      wrap = omega arith
  classify_lem ring (some f) seek_cap g pos small cov = (
    λ lt near.
        rw (le→leb g f (omega arith), lt→leb (length ring) (f - g) (omega arith))
          (in_slot_lem (get_elem? ring (g % length ring)) g (key_at K seed g) (cov g lt near)),
    λ lt. rw (le→leb g f (omega arith), le→leb (length ring) (f - g) (omega arith)),
    λ le fits.
        rw (lt→leb g f (omega arith), le→ltb seek_cap (g - f) (omega arith))
          (ap (λ j. ret (placed (ahead j))) (let e : g - f ≡ suc g - suc f = omega arith in e)),
    λ le over. rw (lt→leb g f (omega arith), lt→ltb seek_cap (g - f) (omega arith)),
  )
