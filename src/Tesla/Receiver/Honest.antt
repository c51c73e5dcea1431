-- ===== src/Tesla/Receiver/Honest.antt =====
-- A receiver of src/tesla/receiver.rs in whose drawers only packets of the sender wait.
use safe_cast.Base.{
  ℕ, ◌≡◌, ◌∙◌, refl, sym, subst, arith, List, [], ◌∷◌, Bool-cases, inl, inr, Option, none, some,
  All, All-append, ◌==◌, ==_iff, ret,
}
use safe_cast.Crypto.{HmacSha256, Gmac, Hkdf, Srtp}
use safe_cast.Tesla.Chain.{ChainKey, key}
use safe_cast.Tesla.Mac.{prepare, prepare_returns}
use safe_cast.Tesla.Sender.{TeslaSender}
use safe_cast.Tesla.Receiver.State.{DrawerEntry, Drawers, remove, file, TeslaReceiver}
use safe_cast.Tesla.Receiver.{settle_drawer, settle_found, settle}
use safe_cast.Tesla.Receiver.Genuine.{FromSender, genuine-All, settle_drawer-genuine}

module _ (H : HmacSha256) (G : Gmac) (s : TeslaSender) where
  abbrev pub AllFrom : Drawers → Type 0
  AllFrom [] = Unit
  AllFrom ((j, entries) ∷ rest) = All (FromSender H G s j) entries × AllFrom rest

  pub file-AllFrom :
      (i : ℕ) (e : DrawerEntry) (ds : Drawers)
      → FromSender H G s i e
      → AllFrom ds
      → AllFrom (file i e ds)
  unfolding file
  file-AllFrom i e [] f h = ((f, tt), tt)
  file-AllFrom i e ((j, entries) ∷ rest) f h = elim (Bool-cases (i == j)) [
    | inl here ↦ rw here (
      All-append (FromSender H G s j) entries (e ∷ []) h.0
          (subst (λ n. FromSender H G s n e) ((==_iff i j).0 here) f, tt),
      h.1,
    )
    | inr there ↦ rw there (h.0, file-AllFrom i e rest f h.1)
  ]

  -- What is taken out is of the sender's, and so is what stays.
  pub Taken : ℕ → Option (List DrawerEntry) × Drawers → Type 0
  Taken i (none, rest) = AllFrom rest
  Taken i (some entries, rest) = All (FromSender H G s i) entries × AllFrom rest

  kept :
      (i j : ℕ) (entries : List DrawerEntry) (out : Option (List DrawerEntry) × Drawers)
      → All (FromSender H G s j) entries
      → Taken i out
      → Taken i (out.0, (j, entries) ∷ out.1)
  unfolding Taken
  kept i j entries (none, rest) h t = (h, t)
  kept i j entries (some found, rest) h t = (t.0, (h, t.1))

  pub remove-Taken : (i : ℕ) (ds : Drawers) → AllFrom ds → Taken i (remove i ds)
  unfolding remove Taken
  remove-Taken i [] h = tt
  remove-Taken i ((j, entries) ∷ rest) h = elim (Bool-cases (i == j)) [
    | inl here ↦
        rw here (subst (λ n. All (FromSender H G s n) entries) (sym ((==_iff i j).0 here)) h.0, h.1)
    | inr there ↦ rw there (kept i j entries (remove i rest) h.0 (remove-Taken i rest h.1))
  ]

  module _ (K : Hkdf) (P : Srtp) where
    -- What settling the sender's keys leaves.
    pub record Settled (r r' : TeslaReceiver P) : Type 0 where
      pub all_from : AllFrom r'.drawers
      pub none_forged : r'.stats.forged ≡ r.stats.forged
      pub params_kept : r'.params ≡ r.params
      pub verifier_kept : r'.verifier ≡ r.verifier
      pub alg_kept : r'.alg ≡ r.alg
      pub inner_kept : r'.inner ≡ r.inner
      pub recovery_kept : r'.recovery ≡ r.recovery

    settle_found-Settled :
        (r : TeslaReceiver P) (i : ℕ) (k : ChainKey) (now n : ℕ)
        (out : Option (List DrawerEntry) × Drawers)
        → r.alg ≡ s.alg
        → key s.chain i ≡ ret k
        → AllFrom r.drawers
        → Taken i out
        → (r' : TeslaReceiver P) × (m : ℕ) × (settle_found K P H G r k now out n ≡ ret (r', m))
          × Settled r r'
    unfolding settle_found Taken
    settle_found-Settled r i k now n (none, rest) same own h t = (
      r,
      n,
      refl,
      record {
        all_from = h;
        none_forged = refl;
        params_kept = refl;
        verifier_kept = refl;
        alg_kept = refl;
        inner_kept = refl;
        recovery_kept = refl;
      },
    )
    settle_found-Settled r i k now n (some entries, rest) same own h t =
        let (p, keyed) = prepare_returns H G r.alg k in
        let (_, f, _) = settle_drawer-genuine K P H G p now entries r.stats r.pending n in
        let all =
          genuine-All H G s i k p entries own (subst (λ a. prepare H G a k ≡ ret p) same keyed)
            t.0 in
        (
          record r {
            drawers = rest;
            stats = (settle_drawer K P H G p now entries (r.stats, r.pending, n)).0;
            pending = (settle_drawer K P H G p now entries (r.stats, r.pending, n)).1;
          },
          (settle_drawer K P H G p now entries (r.stats, r.pending, n)).2,
          rw keyed refl,
          record {
            all_from = t.1;
            none_forged = omega (arith, f, all);
            params_kept = refl;
            verifier_kept = refl;
            alg_kept = refl;
            inner_kept = refl;
            recovery_kept = refl;
          },
        )

    -- Settling keys of the sender's chain forges nothing.
    pub settle-Settled :
        (r : TeslaReceiver P) (keys : List (ℕ × ChainKey)) (now n : ℕ)
        → r.alg ≡ s.alg
        → All (λ (e : ℕ × ChainKey). key s.chain e.0 ≡ ret e.1) keys
        → AllFrom r.drawers
        → (r' : TeslaReceiver P) × (m : ℕ) × (settle K P H G r keys now n ≡ ret (r', m))
          × Settled r r'
    unfolding settle
    settle-Settled r [] now n same own h = (
      r,
      n,
      refl,
      record {
        all_from = h;
        none_forged = refl;
        params_kept = refl;
        verifier_kept = refl;
        alg_kept = refl;
        inner_kept = refl;
        recovery_kept = refl;
      },
    )
    settle-Settled r ((i, k) ∷ keys) now n same own h =
        let (r₁, n₁, first, a) =
          settle_found-Settled r i k now n (remove i r.drawers) same own.0 h
            (remove-Taken i r.drawers h) in
        let (r₂, n₂, rest, b) =
          settle-Settled r₁ keys now n₁ (a.alg_kept ∙ same) own.1 a.all_from in
        (
          r₂,
          n₂,
          rw (first, rest) refl,
          record {
            all_from = b.all_from;
            none_forged = b.none_forged ∙ a.none_forged;
            params_kept = b.params_kept ∙ a.params_kept;
            verifier_kept = b.verifier_kept ∙ a.verifier_kept;
            alg_kept = b.alg_kept ∙ a.alg_kept;
            inner_kept = b.inner_kept ∙ a.inner_kept;
            recovery_kept = b.recovery_kept ∙ a.recovery_kept;
          },
        )
