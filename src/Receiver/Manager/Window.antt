-- ===== src/Receiver/Manager/Window.antt =====
-- The invariant of src/receiver.rs's `ReceiverKeyManager`, and what a call of `unprotect` does.
use safe_cast.Base.{
  ℕ, suc, ◌+◌, ◌-◌, ◌≤◌, ◌<◌, ◌≡◌, inl, inr, ◌∙◌, refl, sym, ap, subst, arith, max, List, [],
  Option, none, some, Bytes, true, Bool-cases, length, ==_iff, ret,
}
use safe_cast.Crypto.{Hkdf, Srtp, Rekeyed, same, rekeyed}
use safe_cast.Keying.Ratchet.{KeySalt, StreamRatchet, split_key_salt}
use safe_cast.Keying.Ratchet.Chain.{key_at, length-key_at, IsOnChain, split_key_salt_lengths}
use safe_cast.Receiver.Manager.State.{
  in_window, ahead, PendingCatchup, ReceiverKeyManager, RecvStats,
}
use safe_cast.Receiver.Manager.Phases.{fetch, back, is_installed, catch_up}
use safe_cast.Receiver.Manager.RingKeys.{run, first_kept, Covers, Only, back-run}
use safe_cast.Receiver.Manager.CatchUp.{next_of, Caught, catch_up_lem}
use safe_cast.Receiver.Manager.{install}

module _ (K : Hkdf) (P : Srtp) (seed : Bytes) where
  -- A receiver in step with the sender's ratchet: the ratchet is on the seed's chain just past the
  -- frontier, the ring holds the keys of the last generations, each in its slot, and no other key,
  -- and the cipher holds the key of the generation that is noted as installed.
  pub record IsSynced (m : ReceiverKeyManager P) : Type 0 where
    pub size : 0 < length m.ring
    pub on_chain : IsOnChain K seed m.ratchet
    pub at_frontier : m.ratchet.generation ≡ next_of m.frontier
    pub covers : Covers (key_at K seed) m.ring (next_of m.frontier)
    pub only : Only (key_at K seed) m.ring (next_of m.frontier)
    pub loaded_key :
        (g : ℕ) → m.installed ≡ some g → P.loaded m.session ≡ split_key_salt (key_at K seed g)
    pub own_stream : P.stream m.session ≡ m.ssrc

  -- What a fetched key comes with, for `k` slots and `n` generations derived: nothing from the
  -- window, and on a catch-up the clone just past `g` with the last keys.
  pub data Fetched (k n g : ℕ) : Option PendingCatchup → Type 0 where
    cached : g < n → Fetched k n g none
    caught :
        (p : PendingCatchup)
        → n ≤ g
        → Caught K seed g (first_kept k n (suc g)) (p.ratchet, p.derived)
        → Fetched k n g (some p)

  pub fetch_in_window :
      (m : ReceiverKeyManager P) (g : ℕ)
      → g < next_of m.frontier
      → (stats : RecvStats) × (pending : Option PendingCatchup) × (fetch K m.stats m.ratchet
            (length m.ring)
            g
            (in_window (key_at K seed g))
          ≡ ret (stats, key_at K seed g, pending))
        × Fetched (length m.ring) (next_of m.frontier) g pending
  unfolding fetch
  fetch_in_window m g lt = (_, none, refl, cached lt)

  pub fetch_ahead :
      (m : ReceiverKeyManager P) (g jump : ℕ)
      → IsSynced m
      → next_of m.frontier ≤ g
      → (stats : RecvStats) × (pending : Option PendingCatchup) × (fetch K m.stats m.ratchet
            (length m.ring)
            g
            (ahead jump)
          ≡ ret (stats, key_at K seed g, pending))
        × Fetched (length m.ring) (next_of m.frontier) g pending
  unfolding fetch
  fetch_ahead m g jump v le = (
    record m.stats {
      catchup_steps = m.stats.catchup_steps + jump;
      max_catchup = max m.stats.max_catchup jump;
    },
    some (record { ratchet = out.0; derived = out.1; jump = jump }),
    rw last,
    caught (record { ratchet = out.0; derived = out.1; jump = jump }) le c,
  )
    where
      first : ℕ
      first = first_kept (length m.ring) (next_of m.frontier) (suc g)

      out : StreamRatchet × List (ℕ × KeySalt)
      out = catch_up K (suc g - m.ratchet.generation) g (length m.ring) m.ratchet []

      c : Caught K seed g first out
      c =
          subst (λ n. Caught K seed g (first_kept (length m.ring) n (suc g)) out) v.at_frontier
            (catch_up_lem K seed g (length m.ring) m.ratchet v.size v.on_chain
              (omega (arith, v.at_frontier)))

      last : back out.1 ≡ some (g, key_at K seed g)
      last =
          ap back (
            c.kept
            ∙ ap (run (key_at K seed) first)
                (let e : suc g - first ≡ suc (g - first) = omega (arith, v.size) in e))
          ∙ back-run (key_at K seed) first (g - first)
          ∙ ap (λ t. some (t, key_at K seed t))
              (let e : first + (g - first) ≡ g = omega (arith, v.size) in e)

  -- The cipher holds the key of `g` after `install`; nothing else of the keying state changes.
  pub record Installed (m m' : ReceiverKeyManager P) (g : ℕ) : Type 0 where
    pub loads : P.loaded m'.session ≡ split_key_salt (key_at K seed g)
    pub noted : m'.installed ≡ some g
    pub stream_kept : P.stream m'.session ≡ m'.ssrc
    pub ratchet_kept : m'.ratchet ≡ m.ratchet
    pub ring_kept : m'.ring ≡ m.ring
    pub frontier_kept : m'.frontier ≡ m.frontier
    pub recovery_kept : m'.recovery ≡ m.recovery

  -- What no packet changes.
  pub record Configured (m m' : ReceiverKeyManager P) : Type 0 where
    pub scheme_kept : m'.scheme ≡ m.scheme
    pub cap_kept : m'.seek_cap ≡ m.seek_cap
    pub ssrc_kept : m'.ssrc ≡ m.ssrc

  is_installed→eq : (o : Option ℕ) (g : ℕ) → is_installed o g ≡ true → o ≡ some g
  is_installed→eq none g h = cc
  is_installed→eq (some x) g h = ap some ((==_iff x g).0 h)

  pub install_lem :
      (m : ReceiverKeyManager P) (stats : RecvStats) (g : ℕ)
      → IsSynced m
      → (m' : ReceiverKeyManager P) × (install K P (record m { stats = stats }) g (key_at K seed g)
          ≡ ret m')
        × Installed m m' g
        × Configured m m'
        × Rekeyed P m.session m'.session
  unfolding install
  install_lem m stats g v = elim (Bool-cases (is_installed m.installed g)) [
    | inl there ↦ (
      record m { stats = stats },
      rw there,
      record {
        loads = v.loaded_key g (is_installed→eq m.installed g there);
        noted = is_installed→eq m.installed g there;
        stream_kept = v.own_stream;
        ratchet_kept = refl;
        ring_kept = refl;
        frontier_kept = refl;
        recovery_kept = refl;
      },
      record { scheme_kept = refl; cap_kept = refl; ssrc_kept = refl },
      same,
    )
    | inr missing ↦
        let ks = split_key_salt (key_at K seed g) in
        let lens = split_key_salt_lengths (key_at K seed g) (length-key_at K seed g) in
        let (t, e, l, st) = P.inplace_rekey_loads m.session ks.0 ks.1 lens.0 lens.1 in
        (
          record m {
            session = t;
            installed = some g;
            stats = record stats { installs = stats.installs + 1 };
          },
          rw (missing, ← v.own_stream, e),
          record {
            loads = l;
            noted = refl;
            stream_kept = st ∙ v.own_stream;
            ratchet_kept = refl;
            ring_kept = refl;
            frontier_kept = refl;
            recovery_kept = refl;
          },
          record { scheme_kept = refl; cap_kept = refl; ssrc_kept = refl },
          rekeyed m.ssrc _ _
              (ap (λ z. P.inplace_rekey m.session z ks.0 ks.1) (sym v.own_stream) ∙ e),
        )
  ]
