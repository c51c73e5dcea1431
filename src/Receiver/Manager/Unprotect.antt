-- ===== src/Receiver/Manager/Unprotect.antt =====
-- What a call of `unprotect` of src/receiver.rs does to a receiver in step with the sender.
use safe_cast.Base.{
  ℕ, suc, ◌+◌, ◌-◌, ◌^◌, ◌≤◌, ◌<◌, ◌≡◌, ◌⊎◌, inr, ◌∙◌, refl, sym, ap, subst, arith, max, Option,
  none, some, Bytes, length, Exec, ret, panic,
}
use native.Mathlib.Decide.{dec_le}
use safe_cast.Crypto.{
  Rekeyed, Hkdf, Srtp, SrtpResult, ok, err, replay_fail, replay_old, auth_fail, other,
}
use safe_cast.Keying.Ratchet.{split_key_salt}
use safe_cast.Keying.Ratchet.Chain.{key_at}
use safe_cast.Receiver.Generation.{GenerationScheme, epoch_only, frame, packet, every_n}
use safe_cast.Receiver.Manager.State.{
  Placement, PendingCatchup, ReceiverKeyManager, RecvStats, RecvDrop, behind_window,
  seek_cap_exceeded,
}
use safe_cast.Receiver.Manager.Phases.{fetch}
use safe_cast.Receiver.Manager.CatchUp.{next_of, classify_lem}
use safe_cast.Receiver.Manager.Window.{
  IsSynced, Fetched, fetch_in_window, fetch_ahead, Installed, install_lem,
}
use safe_cast.Receiver.Manager.{
  RecvResult, delivered, refused, adopt, settle_index, conclude, decrypt, drop_packet, proceed,
  with_generation,
}
use safe_cast.Receiver.Manager.Adopt.{Kept, booked, Installed-IsSynced, adopt_lem}

-- A scheme that divides by zero.
abbrev pub DividesByZero : GenerationScheme → Type 0
DividesByZero epoch_only = ⊥
DividesByZero (frame start period) = period ≡ 0
DividesByZero (packet base) = ⊥
DividesByZero (every_n base n) = n ≡ 0

module _ (K : Hkdf) (P : Srtp) (seed : Bytes) where
  -- A delivered packet was decrypted under the key of its generation, which the window reached, and
  -- the frontier is now the highest generation seen.
  pub record Decrypted (m m' : ReceiverKeyManager P) (buf buf' : Bytes) (g : ℕ) : Type 0 where
    pub session : P.Session
    pub keyed : P.loaded session ≡ split_key_salt (key_at K seed g)
    pub decrypts : P.unprotect session buf ≡ (m'.session, buf', ok)
    pub moved : next_of m'.frontier ≡ max (next_of m.frontier) (suc g)
    pub near : next_of m.frontier ≤ g + length m.ring

  -- The answer of the receiver's session to this buffer, with the key of a generation in reach of the
  -- window loaded in place, is a code that the program does not expect.
  pub record Unexpected (m : ReceiverKeyManager P) (buf : Bytes) : Type 0 where
    pub g : ℕ
    pub near : next_of m.frontier ≤ g + length m.ring
    pub session : P.Session
    pub own : Rekeyed P m.session session
    pub keyed : P.loaded session ≡ split_key_salt (key_at K seed g)
    pub code : ℕ
    pub answers : (P.unprotect session buf).2 ≡ err (other code)

  -- What can make a call panic: that answer, or a scheme that divides by zero.
  abbrev pub Trouble : ReceiverKeyManager P → Bytes → Type 0
  Trouble m buf = DividesByZero m.scheme ⊎ Unexpected m buf

  abbrev pub Post :
      ReceiverKeyManager P → Bytes → Exec (ReceiverKeyManager P × Bytes × RecvResult) → Type 0
  Post m buf (ret (m', buf', delivered g)) = IsSynced K P seed m' × Decrypted m m' buf buf' g
  Post m buf (ret (m', buf', refused why)) = IsSynced K P seed m' × Kept K P seed m m'
  Post m buf panic = Trouble m buf

  -- After the cipher's answer the session still holds the key.
  answered :
      (m m1 : ReceiverKeyManager P) (g : ℕ) (buf buf' : Bytes) (s : P.Session) (r : SrtpResult)
      → P.unprotect m1.session buf ≡ (s, buf', r)
      → Installed K P seed m m1 g
      → Installed K P seed m (record m1 { session = s }) g
  answered m m1 g buf buf' s r e i = record {
    loads =
        ap (λ (o : P.Session × Bytes × SrtpResult). P.loaded o.0) (sym e)
        ∙ P.loaded-unprotect m1.session buf
        ∙ i.loads;
    noted = i.noted;
    stream_kept =
        ap (λ (o : P.Session × Bytes × SrtpResult). P.stream o.0) (sym e)
        ∙ P.stream-unprotect m1.session buf
        ∙ i.stream_kept;
    ratchet_kept = i.ratchet_kept;
    ring_kept = i.ring_kept;
    frontier_kept = i.frontier_kept;
    recovery_kept = i.recovery_kept;
  }

  refuse :
      (m m1 : ReceiverKeyManager P) (g : ℕ) (stats : RecvStats)
      → IsSynced K P seed m
      → Installed K P seed m m1 g
      → IsSynced K P seed (record m1 { stats = stats })
        × Kept K P seed m (record m1 { stats = stats })
  refuse m m1 g stats v i = (
    booked K P seed m1 m1.recovery stats (Installed-IsSynced K P seed m m1 g v i),
    record {
      ratchet_kept = i.ratchet_kept;
      ring_kept = i.ring_kept;
      frontier_kept = i.frontier_kept;
      recovery_kept = i.recovery_kept;
    },
  )

  settle_index-IsSynced :
      (m : ReceiverKeyManager P) (est : Option ℕ) (stats : RecvStats)
      → IsSynced K P seed m
      → IsSynced K P seed (record (settle_index K P m est) { stats = stats })
        × ((settle_index K P m est).session ≡ m.session)
        × ((settle_index K P m est).frontier ≡ m.frontier)
  unfolding settle_index
  settle_index-IsSynced m none stats v = (booked K P seed m m.recovery stats v, refl, refl)
  settle_index-IsSynced m (some index) stats v = (booked K P seed m _ stats v, refl, refl)

  Fetched-subst :
      (m m2 : ReceiverKeyManager P) (g : ℕ) (pending : Option PendingCatchup)
      → Installed K P seed m m2 g
      → Fetched K P seed (length m.ring) (next_of m.frontier) g pending
      → Fetched K P seed (length m2.ring) (next_of m2.frontier) g pending
  Fetched-subst m m2 g pending i f =
      subst (λ r. Fetched K P seed (length r) (next_of m2.frontier) g pending) (sym i.ring_kept)
        (subst (λ h. Fetched K P seed (length m.ring) (next_of h) g pending) (sym i.frontier_kept)
          f)

  conclude_lem :
      (m m1 : ReceiverKeyManager P) (g : ℕ) (est : Option ℕ) (pending : Option PendingCatchup)
      (buf : Bytes) (out : P.Session × Bytes × SrtpResult)
      → P.unprotect m1.session buf ≡ out
      → Rekeyed P m.session m1.session
      → IsSynced K P seed m
      → Installed K P seed m m1 g
      → Fetched K P seed (length m.ring) (next_of m.frontier) g pending
      → next_of m.frontier ≤ g + length m.ring
      → Post m buf (conclude K P (record m1 { session = out.0 }) g est pending out.1 out.2)
  unfolding conclude
  conclude_lem m m1 g est pending buf (s, b, ok) e own v i f near = (
    settled.0,
    record {
      session = m1.session;
      keyed = i.loads;
      decrypts = e ∙ ap (λ t. (t, b, ok)) (sym (settled.1 ∙ adopted.2));
      moved = ap next_of settled.2 ∙ adopted.1 ∙ ap (λ h. max (next_of h) (suc g)) i.frontier_kept;
      near = near;
    },
  )
    where
      m2 : ReceiverKeyManager P
      m2 = record m1 { session = s }

      i2 : Installed K P seed m m2 g
      i2 = answered m m1 g buf b s ok e i

      adopted :
          IsSynced K P seed (adopt K P m2 g pending)
          × (next_of (adopt K P m2 g pending).frontier ≡ max (next_of m2.frontier) (suc g))
          × ((adopt K P m2 g pending).session ≡ m2.session)
      adopted =
          adopt_lem K P seed m2 g (Installed-IsSynced K P seed m m2 g v i2) i2.noted
            (Fetched-subst m m2 g pending i2 f)

      m3 : ReceiverKeyManager P
      m3 = settle_index K P (adopt K P m2 g pending) est

      settled :
          IsSynced K P seed
            (record m3 { stats = record m3.stats { decrypted = m3.stats.decrypted + 1 } })
          × (m3.session ≡ (adopt K P m2 g pending).session)
          × (m3.frontier ≡ (adopt K P m2 g pending).frontier)
      settled = settle_index-IsSynced (adopt K P m2 g pending) est _ adopted.0
  conclude_lem m m1 g est pending buf (s, b, err replay_fail) e own v i f near =
      refuse m (record m1 { session = s }) g _ v (answered m m1 g buf b s (err replay_fail) e i)
  conclude_lem m m1 g est pending buf (s, b, err replay_old) e own v i f near =
      refuse m (record m1 { session = s }) g _ v (answered m m1 g buf b s (err replay_old) e i)
  conclude_lem m m1 g est pending buf (s, b, err auth_fail) e own v i f near =
      refuse m (record m1 { session = s }) g _ v (answered m m1 g buf b s (err auth_fail) e i)
  conclude_lem m m1 g est pending buf (s, b, err (other code)) e own v i f near = inr (record {
    g = g;
    near = near;
    session = m1.session;
    own = own;
    keyed = i.loads;
    code = code;
    answers = ap (λ (o : P.Session × Bytes × SrtpResult). o.2) e;
  })

  decrypt_lem :
      (m : ReceiverKeyManager P) (buf : Bytes) (g : ℕ) (est : Option ℕ) (p : Placement)
      (stats : RecvStats) (pending : Option PendingCatchup)
      → fetch K m.stats m.ratchet (length m.ring) g p ≡ ret (stats, key_at K seed g, pending)
      → IsSynced K P seed m
      → Fetched K P seed (length m.ring) (next_of m.frontier) g pending
      → next_of m.frontier ≤ g + length m.ring
      → Post m buf (decrypt K P m buf g est p)
  unfolding decrypt
  decrypt_lem m buf g est p stats pending e v f near =
      let (m1, e1, i, _, own) = install_lem K P seed m stats g v in
      rw (e, e1)
        (conclude_lem m m1 g est pending buf (P.unprotect m1.session buf) refl own v i f near)

  pub drop_lem :
      (m : ReceiverKeyManager P) (buf : Bytes) (why : RecvDrop)
      → IsSynced K P seed m
      → Post m buf (ret (drop_packet K P m buf why))
  unfolding drop_packet
  drop_lem m buf why v = (
    booked K P seed m m.recovery _ v,
    record { ratchet_kept = refl; ring_kept = refl; frontier_kept = refl; recovery_kept = refl },
  )

  pub with_generation_lem :
      (m : ReceiverKeyManager P) (buf : Bytes) (located : Option (ℕ × Option ℕ))
      → IsSynced K P seed m
      → ((g : ℕ) (est : Option ℕ) → located ≡ some (g, est) → g + 1 < 2 ^ 64)
      → Post m buf (with_generation K P m buf located)
  unfolding with_generation proceed
  with_generation_lem m buf none v small = drop_lem m buf behind_window v
  with_generation_lem m buf (some (g, est)) v small =
      let cases =
        classify_lem K seed m.ring m.frontier m.seek_cap g v.size (small g est refl) v.covers in
      elim (dec_le (next_of m.frontier) g) [
        | yes after ↦ elim (dec_le (suc g - next_of m.frontier) m.seek_cap) [
          | yes fits ↦
              let (stats, pending, e, f) =
                fetch_ahead K P seed m g (suc g - next_of m.frontier) v after in
              rw (cases.2 after fits) (decrypt_lem m buf g est _ stats pending e v f (omega arith))
          | no over ↦ rw (cases.3 after (omega arith)) (drop_lem m buf seek_cap_exceeded v)
        ]
        | no before ↦ elim (dec_le (next_of m.frontier) (g + length m.ring)) [
          | yes near ↦
              let (stats, pending, e, f) = fetch_in_window K P seed m g (omega arith) in
              rw (cases.0 (omega arith) near) (decrypt_lem m buf g est _ stats pending e v f near)
          | no far ↦ rw (cases.1 (omega arith)) (drop_lem m buf behind_window v)
        ]
      ]
