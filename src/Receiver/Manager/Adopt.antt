-- ===== src/Receiver/Manager/Adopt.antt =====
-- What adopting a catch-up and keeping the books do to a receiver in step with the sender
-- (src/receiver.rs, phase 4).
use safe_cast.Base.{
  ℕ, suc, ◌-◌, ◌<◌, ◌≡◌, ◌∙◌, refl, sym, ap, subst, arith, max, List, Option, some, Bytes, length,
}
use safe_cast.Crypto.{Hkdf, Srtp}
use safe_cast.Keying.Ratchet.{KeySalt, StreamRatchet, split_key_salt}
use safe_cast.Keying.Ratchet.Chain.{key_at, secret_at}
use safe_cast.Receiver.IndexRecovery.{IndexRecovery}
use safe_cast.Receiver.Manager.State.{PendingCatchup, ReceiverKeyManager, RecvStats}
use safe_cast.Receiver.Manager.RingKeys.{
  run, first_kept, Covers, Only, fold_ring-Covers, fold_ring-Only, length-fold_ring,
}
use safe_cast.Receiver.Manager.CatchUp.{next_of}
use safe_cast.Receiver.Manager.Window.{IsSynced, Fetched, cached, caught, Installed}
use safe_cast.Receiver.Manager.{adopt}

module _ (K : Hkdf) (P : Srtp) (seed : Bytes) where
  -- Nothing that a later packet's key depends on has moved.
  pub record Kept (m m' : ReceiverKeyManager P) : Type 0 where
    pub ratchet_kept : m'.ratchet ≡ m.ratchet
    pub ring_kept : m'.ring ≡ m.ring
    pub frontier_kept : m'.frontier ≡ m.frontier
    pub recovery_kept : m'.recovery ≡ m.recovery

  -- The bookkeeping fields do not matter to the invariant.
  pub booked :
      (m : ReceiverKeyManager P) (recovery : IndexRecovery) (stats : RecvStats)
      → IsSynced K P seed m
      → IsSynced K P seed (record m { recovery = recovery; stats = stats })
  booked m recovery stats v = record {
    size = v.size;
    on_chain = v.on_chain;
    at_frontier = v.at_frontier;
    covers = v.covers;
    only = v.only;
    loaded_key = v.loaded_key;
    own_stream = v.own_stream;
  }

  pub Installed-IsSynced :
      (m m' : ReceiverKeyManager P) (g : ℕ)
      → IsSynced K P seed m
      → Installed K P seed m m' g
      → IsSynced K P seed m'
  Installed-IsSynced m m' g v i = record {
    size = subst (λ r. 0 < length r) (sym i.ring_kept) v.size;
    on_chain =
        subst (λ r. r.chain_secret ≡ secret_at K seed r.generation) (sym i.ratchet_kept) v.on_chain;
    at_frontier =
        ap (λ (r : StreamRatchet). r.generation) i.ratchet_kept
        ∙ v.at_frontier
        ∙ sym (ap next_of i.frontier_kept);
    covers = both (Covers (key_at K seed)) v.covers;
    only = both (Only (key_at K seed)) v.only;
    loaded_key = λ h e. i.loads ∙ ap (λ t. split_key_salt (key_at K seed t)) (cc (i.noted, e));
    own_stream = i.stream_kept;
  }
    where
      both :
          (Q : List (Option (ℕ × KeySalt)) → ℕ → Type 0)
          → Q m.ring (next_of m.frontier)
          → Q m'.ring (next_of m'.frontier)
      both Q q =
          subst (λ r. Q r (next_of m'.frontier)) (sym i.ring_kept)
            (subst (λ f. Q m.ring (next_of f)) (sym i.frontier_kept) q)

  -- Adopting what was fetched for `g` keeps a receiver in step, and moves its frontier to `g` if it
  -- was behind.
  pub adopt_lem :
      (m : ReceiverKeyManager P) (g : ℕ) {pending : Option PendingCatchup}
      → IsSynced K P seed m
      → m.installed ≡ some g
      → Fetched K P seed (length m.ring) (next_of m.frontier) g pending
      → IsSynced K P seed (adopt K P m g pending)
        × (next_of (adopt K P m g pending).frontier ≡ max (next_of m.frontier) (suc g))
        × ((adopt K P m g pending).session ≡ m.session)
  unfolding adopt
  adopt_lem m g v here (cached lt) = (v, omega arith, refl)
  adopt_lem m g v here (caught p le c) = (
    record {
      size = rw (kept, length-fold_ring (key_at K seed) k m.ring first (suc g - first)) v.size;
      on_chain = c.chain;
      at_frontier = c.past;
      covers = rw kept (
          fold_ring-Covers (key_at K seed) m.ring (next_of m.frontier) (suc g) v.size (omega arith)
            v.covers);
      only = rw kept (
          fold_ring-Only (key_at K seed) m.ring (next_of m.frontier) (suc g) v.size (omega arith)
            v.only);
      loaded_key = v.loaded_key;
      own_stream = v.own_stream;
    },
    omega arith,
    refl,
  )
    where
      k : ℕ
      k = length m.ring

      first : ℕ
      first = first_kept k (next_of m.frontier) (suc g)

      kept : p.derived ≡ run (key_at K seed) first (suc g - first)
      kept = c.kept
