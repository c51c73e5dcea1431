-- ===== src/Delivery/Sending.antt =====
-- What the simulated sender makes of the stream: every packet sealed under the key of its generation,
-- at its own number.
use safe_cast.Base.{
  ℕ, zero, suc, ◌+◌, ◌-◌, ◌^◌, ◌≤◌, ◌<◌, ◌≡◌, ◌∙◌, refl, sym, ap, subst, arith, List, [], ◌∷◌,
  Bytes, some, length, get_elem?, ltb, lt→ltb, replicate, ret,
}
use safe_cast.Crypto.{Hkdf, Srtp, SrtpResult, ok, Rekeyed, same, rekeyed}
use safe_cast.Keying.Ratchet.{split_key_salt}
use safe_cast.Keying.Ratchet.Chain.{key_at}
use safe_cast.Keying.Granularity.{
  Granularity, RekeyingStream, crossed_boundary, advance_for, timestamp, protect,
}
use safe_cast.Keying.Granularity.Boundary.{IsUsable}
use safe_cast.Keying.Granularity.Steps.{InStep, advance_for_lem, new_stream-InStep}
use safe_cast.Simulation.Sender.{
  StreamModel, SimulatedSender, packet_timestamp, plain_packet, new_simulated, next_protected,
}
use safe_cast.Delivery.Link.{IsNumbered, SrtpLink}
use safe_cast.Delivery.Numbers.{
  InTicks, InTicks-le, generation-zero, stamp_before, crossing_lem, plain_packet-IsNumbered,
  plain_packet-stamp,
}
use safe_cast.Delivery.{generation_of, send_all}

pub Rekeyed-next :
    (P : Srtp) (L : SrtpLink P) (s t : P.Session)
    → Rekeyed P s t
    → (L.next t ≡ L.next s) × (L.window t ≡ L.window s) × ((i : ℕ) → L.seen t i ≡ L.seen s i)
Rekeyed-next P L s t same = (refl, refl, λ i. refl)
Rekeyed-next P L s t (rekeyed ssrc key salt e) = L.rekey_keeps s t ssrc key salt e

module _ (K : Hkdf) (P : Srtp) (L : SrtpLink P) (seed : Bytes) (model : StreamModel)
    (granularity : Granularity) where
  -- A datagram that carries packet number `i`, sealed under the key of its generation.
  abbrev pub Carries : ℕ → Bytes → Type 0
  Carries i buf =
      L.Seals (split_key_salt (key_at K seed (generation_of granularity model i))) i
        (plain_packet model i) buf

  -- The datagrams are the packets from `i` on.
  abbrev pub CarriesFrom : ℕ → List Bytes → Type 0
  CarriesFrom i [] = Unit
  CarriesFrom i (buf ∷ rest) = Carries i buf × CarriesFrom (suc i) rest

  -- A sender of the stream that has sent the packets below `i`.
  pub record HasSent (s : RekeyingStream P) (i : ℕ) : Type 0 where
    pub in_step : InStep K P seed s
    pub rule : s.granularity ≡ granularity
    pub source : s.ssrc ≡ model.ssrc
    pub counted : s.packet_count ≡ i
    pub stamped : s.last_ts ≡ stamp_before model i
    pub indexed : L.next s.session ≡ i
    pub keyed : s.installed_gen ≡ generation_of granularity model (i - 1)

  module _ (usable : IsUsable granularity) (framed : 0 < model.ppf)
      (short : model.ssrc < 2 ^ 32) where
    -- The key of the packet's generation is in the cipher when it is sealed.
    advanced :
        (s : RekeyingStream P) (i : ℕ)
        → InTicks granularity model i
        → HasSent s i
        → (s' : RekeyingStream P) × (advance_for K P s (packet_timestamp model i) ≡ ret s')
          × InStep K P seed s'
          × (s'.packet_count ≡ suc i)
          × (s'.granularity ≡ granularity)
          × (s'.installed_gen ≡ generation_of granularity model i)
          × (s'.ssrc ≡ model.ssrc)
          × (s'.last_ts ≡ some (packet_timestamp model i))
          × (L.next s'.session ≡ i)
    advanced s i ticks v =
        let (s', run, v', count, same_rule, a) =
          advance_for_lem K P seed s (packet_timestamp model i) (subst IsUsable (sym v.rule) usable)
            v.in_step in
        let test =
          sym (λ j.
            crossed_boundary (v.rule j) s.started (v.stamped j) (v.counted j)
              (packet_timestamp model i))
          ∙ a.tested in
        (
          s',
          run,
          v',
          omega (arith, count, v.counted),
          same_rule ∙ v.rule,
          a.installs
              ∙ crossing_lem granularity model i s.installed_gen s.started a.crossed usable framed
                  ticks (v.in_step.began ∙ ap (ltb 0) v.counted) v.keyed test,
          a.ssrc_kept ∙ v.source,
          a.stamped,
          (Rekeyed-next P L s.session s'.session a.session_rekeyed).0 ∙ v.indexed,
        )

    sealed_one :
        (s : RekeyingStream P) (i : ℕ)
        → InTicks granularity model i
        → i < 2 ^ 48
        → HasSent s i
        → (s' : RekeyingStream P) × (buf : Bytes) × (protect K P s (plain_packet model i)
            ≡ ret (s', buf, ok))
          × Carries i buf
          × HasSent s' (suc i)
    unfolding protect timestamp
    sealed_one s i ticks small v =
        let (s1, run, v1, count, rule, key, source, last, index) = advanced s i ticks v in
        let (t, buf, e, n, sealed) =
          L.seals s1.session p i index small
            (subst (λ z. IsNumbered p z i) (sym (v1.own_stream ∙ source)) numbered) in
        let loaded_kept : P.loaded t ≡ P.loaded s1.session =
          ap (λ (o : P.Session × Bytes × SrtpResult). P.loaded o.0) (sym e)
          ∙ P.loaded-protect s1.session p in
        let stream_kept : P.stream t ≡ P.stream s1.session =
          ap (λ (o : P.Session × Bytes × SrtpResult). P.stream o.0) (sym e)
          ∙ P.stream-protect s1.session p in
        (
          record s1 { session = t },
          buf,
          rw
              (
                lt→ltb 7 (length p) (omega (arith, numbered.has_header)),
                plain_packet-stamp model i,
                run,
                e,
              )
              refl,
          subst (λ ks. L.Seals ks i p buf)
              (v1.keyed ∙ ap (λ g. split_key_salt (key_at K seed g)) key) sealed,
          record {
            in_step = record {
              on_chain = v1.on_chain;
              past = v1.past;
              keyed = loaded_kept ∙ v1.keyed;
              own_stream = stream_kept ∙ v1.own_stream;
              began = v1.began;
              placed = v1.placed;
            };
            rule = rule;
            source = source;
            counted = count;
            stamped = last;
            indexed = n;
            keyed =
                key
                ∙ ap (generation_of granularity model) (let q : i ≡ suc i - 1 = omega arith in q);
          },
        )
      where
        p : Bytes
        p = plain_packet model i

        numbered : IsNumbered p model.ssrc i
        numbered = plain_packet-IsNumbered model i short

    -- The sender's next call gives out packet `i`, sealed.
    sent_one :
        (s : SimulatedSender P) (i : ℕ)
        → InTicks granularity model i
        → i < 2 ^ 48
        → s.model ≡ model
        → s.next_i ≡ i
        → HasSent s.crypto i
        → (s' : SimulatedSender P) × (buf : Bytes) × (next_protected K P s ≡ ret (s', i, buf))
          × Carries i buf
          × (s'.model ≡ model)
          × (s'.next_i ≡ suc i)
          × HasSent s'.crypto (suc i)
    unfolding next_protected
    sent_one s i ticks small same_model here v =
        let (crypto, buf, run, carries, v') = sealed_one s.crypto i ticks small v in
        let run' = (λ j. protect K P s.crypto (plain_packet (same_model j) (here j))) ∙ run in
        (
          record s { crypto = crypto; next_i = s.next_i + 1 },
          buf,
          rw run' (λ j. ret (record s { crypto = crypto; next_i = s.next_i + 1 }, here j, buf)),
          carries,
          same_model,
          omega (arith, here),
          v',
        )

    -- So do all its calls.
    pub send_all-CarriesFrom :
        (n : ℕ) (s : SimulatedSender P) (i : ℕ)
        → InTicks granularity model (i + n)
        → i + n ≤ 2 ^ 48
        → s.model ≡ model
        → s.next_i ≡ i
        → HasSent s.crypto i
        → (sent : List Bytes) × (send_all K P n s ≡ ret sent)
          × (length sent ≡ n)
          × CarriesFrom i sent
    unfolding send_all
    send_all-CarriesFrom zero s i ticks small same_model here v = ([], refl, refl, tt)
    send_all-CarriesFrom (suc n) s i ticks small same_model here v =
        let (s', buf, run, carries, same_model', here', v') =
          sent_one s i (InTicks-le granularity model i (i + suc n) framed (omega arith) ticks)
            (omega arith) same_model here v in
        let (rest, runs, size, carry) =
          send_all-CarriesFrom n s' (suc i)
            (InTicks-le granularity model (suc i + n) (i + suc n) framed (omega arith) ticks)
            (omega arith) same_model' here' v' in
        (buf ∷ rest, rw (run, runs) refl, ap suc size, (carries, carry))

    -- The sender that is made from the seed has sent nothing yet, and goes on to send all its packets.
    pub new_simulated-CarriesFrom :
        (n : ℕ)
        → InTicks granularity model n
        → n ≤ 2 ^ 48
        → (s : SimulatedSender P) × (sent : List Bytes) × (new_simulated K P model granularity
              (record { chain_secret = seed; generation = 0 })
            ≡ ret s)
          × (send_all K P n s ≡ ret sent)
          × (length sent ≡ n)
          × CarriesFrom 0 sent
    unfolding new_simulated
    new_simulated-CarriesFrom n ticks small =
        let (crypto, run, v, count, rule, gen, source, last, begun) =
          new_stream-InStep K P seed granularity model.ssrc in
        let (empty, added, creates, adds, loads) = begun in
        let (next0, _, _) = L.starts empty added model.ssrc 128 (replicate 28 0) creates adds in
        let start : SimulatedSender P = record { model = model; crypto = crypto; next_i = 0 } in
        let (sent, runs, size, carry) =
          send_all-CarriesFrom n start 0
            (InTicks-le granularity model (0 + n) n framed (omega arith) ticks) (omega arith) refl
            refl
            (record {
              in_step = v;
              rule = rule;
              source = source;
              counted = count;
              stamped = last;
              indexed = (Rekeyed-next P L added crypto.session loads).0 ∙ next0;
              keyed = gen ∙ sym (generation-zero granularity model);
            }) in
        (start, sent, rw run refl, runs, size, carry)

  -- The datagram with a packet's number carries it.
  pub carried :
      (sent : List Bytes) (i j : ℕ)
      → CarriesFrom i sent
      → j < length sent
      → (buf : Bytes) × (get_elem? sent j ≡ some buf) × Carries (i + j) buf
  carried [] i j h lt = absurd (omega arith)
  carried (buf ∷ sent) i zero h lt =
      (buf, refl, subst (λ n. Carries n buf) (let e : i ≡ i + 0 = omega arith in e) h.0)
  carried (buf ∷ sent) i (suc j) h lt =
      let (buf', e, c) = carried sent (suc i) j h.1 (omega arith) in
      (buf', e, subst (λ n. Carries n buf') (let e' : suc i + j ≡ i + suc j = omega arith in e') c)
