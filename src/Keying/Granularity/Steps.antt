-- ===== src/Keying/Granularity/Steps.antt =====
-- The generation that src/keying/granularity.rs has installed after so many packets.
use safe_cast.Base.{
  ℕ, ◌+◌, ◌-◌, ◌≤◌, ◌≡◌, inr, ◌∙◌, refl, sym, ap, subst, arith, Bytes, replicate, from_be32, get_or,
  Bool, true, false, none, some, length, ltb, lt→ltb, if◌then◌else◌, ret,
}
use safe_cast.Crypto.{Hkdf, Srtp, SrtpResult, Rekeyed, same, rekeyed}
use safe_cast.Keying.Ratchet.{StreamRatchet, next_key_salt, split_key_salt}
use safe_cast.Keying.Ratchet.Chain.{
  key_at, length-key_at, IsOnChain, next_key_salt_lem, split_key_salt_lengths,
}
use safe_cast.Keying.Granularity.{
  Granularity, epoch_only, per_frame, per_packet, every_n, RekeyingStream, crossed_boundary,
  install_next_generation, new_stream, advance_for, timestamp, protect,
}
use safe_cast.Keying.Granularity.Boundary.{IsGenerationOf, IsUsable, boundary_lem}

module _ (K : Hkdf) (P : Srtp) (seed : Bytes) where
  -- A stream in step with its ratchet after `packet_count` packets: the cipher holds the key of the
  -- installed generation, the ratchet is just past it, and it is the generation of the last packet.
  pub record InStep (s : RekeyingStream P) : Type 0 where
    pub on_chain : IsOnChain K seed s.ratchet
    pub past : s.ratchet.generation ≡ s.installed_gen + 1
    pub keyed : P.loaded s.session ≡ split_key_salt (key_at K seed s.installed_gen)
    pub own_stream : P.stream s.session ≡ s.ssrc
    pub began : s.started ≡ ltb 0 s.packet_count
    pub placed : IsGenerationOf s.granularity (s.packet_count - 1) s.installed_gen

  -- Installing never panics on the chain, and installs the ratchet's generation.
  install_lem :
      (s : RekeyingStream P)
      → IsOnChain K seed s.ratchet
      → P.stream s.session ≡ s.ssrc
      → (session : P.Session) × (r : StreamRatchet) × (install_next_generation K P s
          ≡ ret (record s { session = session; ratchet = r; installed_gen = s.ratchet.generation }))
        × IsOnChain K seed r
        × (r.generation ≡ s.ratchet.generation + 1)
        × (P.loaded session ≡ split_key_salt (key_at K seed s.ratchet.generation))
        × (P.stream session ≡ s.ssrc)
        × Rekeyed P s.session session
  unfolding install_next_generation
  install_lem s on own =
      let (out, on', past) = next_key_salt_lem K seed s.ratchet on in
      let ks = key_at K seed s.ratchet.generation in
      let (k16, k12) = split_key_salt_lengths ks (length-key_at K seed s.ratchet.generation) in
      let (t, loads, holds, stays) =
        P.inplace_rekey_loads s.session (split_key_salt ks).0 (split_key_salt ks).1 k16 k12 in
      let loads' =
        ap (λ z. P.inplace_rekey s.session z (split_key_salt ks).0 (split_key_salt ks).1) (sym own)
        ∙ loads in
      (
        t,
        (next_key_salt K s.ratchet).1,
        rw (out, loads') refl,
        on',
        past,
        holds,
        stays ∙ own,
        rekeyed s.ssrc _ _ loads',
      )

  -- What the step to a packet of this timestamp did to a stream.
  pub record Advanced (s : RekeyingStream P) (ts : ℕ) (s' : RekeyingStream P) : Type 0 where
    pub crossed : Bool
    pub tested : crossed_boundary s.granularity s.started s.last_ts s.packet_count ts ≡ ret crossed
    pub installs : s'.installed_gen ≡ (if crossed then s.installed_gen + 1 else s.installed_gen)
    pub stamped : s'.last_ts ≡ some ts
    pub ssrc_kept : s'.ssrc ≡ s.ssrc
    pub session_rekeyed : Rekeyed P s.session s'.session

  -- Both directions advance a stream in step to the next packet's generation, and keep it in step.
  pub advance_for_lem :
      (s : RekeyingStream P) (ts : ℕ)
      → IsUsable s.granularity
      → InStep s
      → (s' : RekeyingStream P) × (advance_for K P s ts ≡ ret s')
        × InStep s'
        × (s'.packet_count ≡ s.packet_count + 1)
        × (s'.granularity ≡ s.granularity)
        × Advanced s ts s'
  unfolding advance_for
  advance_for_lem s ts usable v =
      let (b, test, at) =
        boundary_lem s.granularity s.started s.last_ts s.packet_count s.installed_gen ts usable
          v.began v.placed in
      go b test at
    where
      noted : RekeyingStream P → RekeyingStream P
      noted t = record t { last_ts = some ts; started = true; packet_count = t.packet_count + 1 }

      go :
          (b : Bool)
          → crossed_boundary s.granularity s.started s.last_ts s.packet_count ts ≡ ret b
          → IsGenerationOf s.granularity s.packet_count
              (if b then s.installed_gen + 1 else s.installed_gen)
          → (s' : RekeyingStream P) × (advance_for K P s ts ≡ ret s')
            × InStep s'
            × (s'.packet_count ≡ s.packet_count + 1)
            × (s'.granularity ≡ s.granularity)
            × Advanced s ts s'
      go false test at = (
        noted s,
        rw test refl,
        record {
          on_chain = v.on_chain;
          past = v.past;
          keyed = v.keyed;
          own_stream = v.own_stream;
          began = sym (lt→ltb 0 (s.packet_count + 1) (omega arith));
          placed =
              subst (λ c. IsGenerationOf s.granularity c s.installed_gen)
                (let e : s.packet_count ≡ s.packet_count + 1 - 1 = omega arith in e) at;
        },
        refl,
        refl,
        record {
          crossed = false;
          tested = test;
          installs = refl;
          stamped = refl;
          ssrc_kept = refl;
          session_rekeyed = same;
        },
      )
      go true test at =
          let (session, r, run, on, past, holds, stays, loads) =
            install_lem s v.on_chain v.own_stream in
          (
            noted
                (record s { session = session; ratchet = r; installed_gen = s.ratchet.generation }),
            rw (test, run) refl,
            record {
              on_chain = on;
              past = past;
              keyed = holds;
              own_stream = stays;
              began = sym (lt→ltb 0 (s.packet_count + 1) (omega arith));
              placed =
                  subst (λ c. IsGenerationOf s.granularity c s.ratchet.generation)
                    (let e : s.packet_count ≡ s.packet_count + 1 - 1 = omega arith in e)
                    (subst (IsGenerationOf s.granularity s.packet_count) (sym v.past) at);
            },
            refl,
            refl,
            record {
              crossed = true;
              tested = test;
              installs = v.past;
              stamped = refl;
              ssrc_kept = refl;
              session_rekeyed = loads;
            },
          )

  -- A stream made from the seed's ratchet is in step, before its first packet.
  pub new_stream-InStep :
      (granularity : Granularity) (ssrc : ℕ)
      → (s : RekeyingStream P) × (new_stream K P granularity ssrc
            (record { chain_secret = seed; generation = 0 })
          ≡ ret s)
        × InStep s
        × (s.packet_count ≡ 0)
        × (s.granularity ≡ granularity)
        × (s.installed_gen ≡ 0)
        × (s.ssrc ≡ ssrc)
        × (s.last_ts ≡ none)
        × ((bare added : P.Session) × (P.new_session ≡ some bare)
            × (P.add_stream bare ssrc 128 (replicate 28 0) ≡ some added)
            × Rekeyed P added s.session)
  unfolding new_stream
  new_stream-InStep granularity ssrc =
      let (empty, creates) = P.creates in
      let (added, adds) =
        P.accepts_window empty ssrc 128 (replicate 28 0) creates (inr (omega arith, omega arith))
          refl in
      let bare : RekeyingStream P = record {
        session = added;
        ratchet = record { chain_secret = seed; generation = 0 };
        granularity = granularity;
        ssrc = ssrc;
        installed_gen = 0;
        last_ts = none;
        started = false;
        packet_count = 0;
      } in
      let (session, r, run, on, past, holds, stays, loads) =
        install_lem bare refl (P.stream-add_stream empty added ssrc 128 (replicate 28 0) adds) in
      (
        record bare { session = session; ratchet = r; installed_gen = 0 },
        rw (creates, adds) run,
        record {
          on_chain = on;
          past = past;
          keyed = holds;
          own_stream = stays;
          began = refl;
          placed = first granularity;
        },
        refl,
        refl,
        refl,
        refl,
        refl,
        (empty, added, creates, adds, loads),
      )
    where
      first : (gr : Granularity) → IsGenerationOf gr 0 0
      first epoch_only = refl
      first per_frame = omega arith
      first per_packet = refl
      first (every_n n) = omega arith

  -- A stream in step with its ratchet, of a granularity with a positive `n`, that protects its packet
  -- number `i` of 8 bytes at least: it does not panic, it encrypts with the ratchet's key of the
  -- generation installed, and it is in step for the next packet. The generation is 0 with one key for
  -- the epoch, `i` with one per packet, `i / n` with one every `n` packets, and at most `i` with one per
  -- frame.
  pub protect_lem :
      (s : RekeyingStream P) (buf : Bytes)
      → IsUsable s.granularity
      → InStep s
      → 8 ≤ length buf
      → (s' : RekeyingStream P) × (buf' : Bytes) × (out : SrtpResult) × (protect K P s buf
          ≡ ret (s', buf', out))
        × InStep s'
        × (s'.packet_count ≡ s.packet_count + 1)
        × IsGenerationOf s.granularity s.packet_count s'.installed_gen
        × ((t : P.Session) × (P.loaded t ≡ split_key_salt (key_at K seed s'.installed_gen))
            × (P.protect t buf ≡ (s'.session, buf', out)))
  unfolding protect timestamp
  protect_lem s buf usable v long =
      let (s', run, v', count, same_rule, _) = advance_for_lem s ts usable v in
      let out = P.protect s'.session buf in
      (
        record s' { session = out.0 },
        out.1,
        out.2,
        rw (lt→ltb 7 (length buf) (omega arith), run) refl,
        record {
          on_chain = v'.on_chain;
          past = v'.past;
          keyed = P.loaded-protect s'.session buf ∙ v'.keyed;
          own_stream = P.stream-protect s'.session buf ∙ v'.own_stream;
          began = v'.began;
          placed = v'.placed;
        },
        count,
        subst (λ c. IsGenerationOf s.granularity c s'.installed_gen)
            (let e : s'.packet_count - 1 ≡ s.packet_count = omega (arith, count) in e)
            (subst (λ gr. IsGenerationOf gr (s'.packet_count - 1) s'.installed_gen) same_rule
              v'.placed),
        (s'.session, v'.keyed, refl),
      )
    where
      ts : ℕ
      ts = from_be32 (get_or buf 4 0) (get_or buf 5 0) (get_or buf 6 0) (get_or buf 7 0)
