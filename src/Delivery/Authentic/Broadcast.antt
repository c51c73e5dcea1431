-- ===== src/Delivery/Authentic/Broadcast.antt =====
-- An authenticated stream from end to end: src/tesla/sender.rs, src/tesla/commitment.rs and
-- src/tesla/receiver.rs over the stream's own sender and receiver.
use safe_cast.Base.{
  ℕ, suc, ◌+◌, ◌-◌, ◌*◌, ◌^◌, ◌≤◌, ◌<◌, ◌≡◌, ◌∙◌, refl, sym, ap, subst, arith, max, List, [], ◌∷◌,
  Bytes, some, length, ret,
}
use safe_cast.Crypto.{IsWindow, window_of, Hkdf, Srtp, HmacSha256, Gmac, SignatureScheme}
use safe_cast.Keying.Granularity.{Granularity}
use safe_cast.Keying.Granularity.Boundary.{IsUsable}
use safe_cast.Receiver.Manager.State.{ReceiverKeyManager}
use safe_cast.Simulation.Network.Config.{Schedule}
use safe_cast.Simulation.Sender.{StreamModel}
use safe_cast.Tesla.Chain.{zero_key, ChainKey, anchor, key, from_final_key, new_verifier}
use safe_cast.Tesla.Chain.Keys.{f_iter, key-from_final_key}
use safe_cast.Tesla.Commitment.{sign, to_bytes}
use safe_cast.Tesla.Mac.{TeslaMacAlg}
use safe_cast.Tesla.Schedule.{TeslaSchedule, disclosed_index}
use safe_cast.Tesla.Schedule.Safety.{IsValid, interval_of_returns, travel_budget}
use safe_cast.Tesla.Sender.{TeslaSender, sender_anchor}
use safe_cast.Tesla.Sender.Packets.{new_sender-IsReady}
use safe_cast.Tesla.Receiver.State.{TeslaReceiver}
use safe_cast.Delivery.{indices}
use safe_cast.Delivery.Link.{SrtpLink}
use safe_cast.Delivery.Numbers.{InTicks, AreInReach}
use safe_cast.Delivery.Sending.{new_simulated-CarriesFrom}
use safe_cast.Delivery.Stream.{from_seed_lem, new_manager-IsTracking}
use safe_cast.Delivery.Tracking.{IsTracking}
use safe_cast.Delivery.Authentic.{commit, tesla_outcomes, hear_all, broadcast}
use safe_cast.Delivery.Authentic.OnAir.{IsOnAir, IsTrusting, newest}
use safe_cast.Delivery.Authentic.Hearing.{hear}
use safe_cast.Delivery.Authentic.Signing.{
  interval_at, IsTimely, IsSigned, AreSigned, datagram_at, authenticate_all-AreSigned,
}
use safe_cast.Delivery.Authentic.Accepting.{accepted, accept_returns}

-- Each arrival is at most `delay` after its packet was authenticated.
abbrev pub AreInTime : (send_at : ℕ → ℕ) → ℕ → Schedule → Type 0
AreInTime send_at delay [] = Unit
AreInTime send_at delay ((t, i) ∷ l) = (t ≤ send_at i + delay) × AreInTime send_at delay l

-- The key that packet `i` discloses.
abbrev pub key_index : TeslaSchedule → (send_at : ℕ → ℕ) → ℕ → ℕ
key_index params send_at i = disclosed_index params (interval_at params (send_at i))

-- Each arrival discloses a key at most `g_max` after the newest that is known by then, `trusted` at first.
abbrev pub AreInChain : TeslaSchedule → ℕ → (send_at : ℕ → ℕ) → List ℕ → ℕ → Schedule → Type 0
AreInChain params g_max send_at done trusted [] = Unit
AreInChain params g_max send_at done trusted ((t, i) ∷ l) =
    (key_index params send_at i ≤ trusted + g_max)
    × AreInChain params g_max send_at (i ∷ done)
        (newest done i trusted (key_index params send_at i)) l

module _ (K : Hkdf) (P : Srtp) (H : HmacSha256) (G : Gmac) (L : SrtpLink P) (seed : Bytes)
    (model : StreamModel) (granularity : Granularity) (k seek_cap window : ℕ)
    (usable : IsUsable granularity) (framed : 0 < model.ppf) (short : model.ssrc < 2 ^ 32) where
  module _ (s : TeslaSender) (k_final : ChainKey) (g_max : ℕ)
      (chain : s.chain ≡ from_final_key H k_final s.params.n_chain) (send_at : ℕ → ℕ)
      (count delay : ℕ) (valid : IsValid s.params)
      (timely : (j : ℕ) → j < count → IsTimely s.params send_at j)
      (budget : delay + s.params.d_t_ns ≤ (s.params.d - 1) * s.params.t_int_ns) where
    signed-IsOnAir :
        (i t : ℕ) (datagram : Bytes)
        → i < count
        → t ≤ send_at i + delay
        → IsSigned K P H G L seed model granularity s send_at i datagram
        → IsOnAir K P H G L seed model granularity k seek_cap window usable framed short s k_final
            g_max chain i
            (interval_at s.params (send_at i))
            t
            datagram
    signed-IsOnAir i t datagram lt late c =
        let at = timely i lt in
        record {
          buf = c.buf;
          sealed = c.sealed;
          carried = c.carried;
          within = at.lasts;
          in_time =
              travel_budget (send_at i) t (interval_at s.params (send_at i)) delay valid at.is_u64
                (interval_of_returns (send_at i) valid at.is_u64 at.started at.lasts) late budget;
        }

    hear_all_lem :
        (sent : List Bytes) (r : TeslaReceiver P) (done : List ℕ) (next : ℕ) (arrivals : Schedule)
        → InTicks granularity model count
        → count ≤ 2 ^ 48
        → next ≤ count
        → length sent ≡ count
        → AreSigned K P H G L seed model granularity s send_at 0 sent
        → IsTrusting K P H G L seed model granularity k seek_cap window usable framed short s
            k_final g_max chain r done next
        → AreInReach granularity model count k seek_cap window next (indices arrivals)
        → AreInTime send_at delay arrivals
        → AreInChain s.params g_max send_at done r.verifier.trusted_index arrivals
        → hear_all H G K P r sent arrivals ≡ ret (tesla_outcomes model done arrivals, 0)
    unfolding hear_all tesla_outcomes indices
    hear_all_lem sent r done next [] ticks small le size all v reach time chained =
        ap (λ n. ret ([], n)) v.unforged
    hear_all_lem sent r done next ((t, i) ∷ l) ticks small le size all v reach time chained =
        let (datagram, there, c) =
          datagram_at K P H G L seed model granularity s send_at sent 0 i all
            (omega (arith, size, reach.0.is_sent)) in
        let a =
          hear K P H G L seed model granularity k seek_cap window usable framed short s k_final
            g_max chain count r done next i (interval_at s.params (send_at i)) t datagram ticks
            small le v reach.0
            (signed-IsOnAir i t datagram reach.0.is_sent time.0 (
              subst (λ n. IsSigned K P H G L seed model granularity s send_at n datagram)
                (let e : 0 + i ≡ i = omega arith in e) c))
            chained.0 in
        let rest =
          hear_all_lem sent a.after (i ∷ done) (max next (suc i)) l ticks small
            (omega (arith, reach.0.is_sent)) size all a.trusting reach.1 time.1
            (subst (λ n. AreInChain s.params g_max send_at (i ∷ done) n l) (sym a.keyed)
              chained.1) in
        rw (there, a.call, rest) (λ j. ret (a.answered j ∷ tesla_outcomes model (i ∷ done) l, 0))

  -- The anchor of a new sender.
  first_key :
      (k_final : ChainKey) (s : TeslaSender) (n : ℕ)
      → s.chain ≡ from_final_key H k_final s.params.n_chain
      → s.params.n_chain ≡ n
      → key s.chain 0 ≡ ret (f_iter H n k_final)
  first_key k_final s n chain same =
      ap (λ c. key c 0) chain
      ∙ ap (λ l. key (from_final_key H k_final l) 0) same
      ∙ (key-from_final_key H k_final n 0).0 (omega arith)
      ∙ ap (λ l. ret (f_iter H l k_final)) (let e : n - 0 ≡ n = omega arith in e)

  -- The receiver that it makes trusts the anchor.
  accepted-IsTrusting :
      (params : TeslaSchedule) (alg : TeslaMacAlg) (first k_final : ChainKey) (s : TeslaSender)
      (m : ReceiverKeyManager P) (chain : s.chain ≡ from_final_key H k_final s.params.n_chain)
      → s.params ≡ params
      → s.alg ≡ alg
      → key s.chain 0 ≡ ret first
      → IsTracking K P L seed model granularity k seek_cap window m [] 0
      → IsTrusting K P H G L seed model granularity k seek_cap window usable framed short s k_final
          params.g_max chain
          (accepted P params alg first m)
          []
          0
  unfolding new_verifier
  accepted-IsTrusting params alg first k_final s m chain same same_alg own tracks = record {
    tracks = tracks;
    scheduled = sym same;
    same_alg = sym same_alg;
    trusts = record {
      index = 0;
      trusted = first;
      within = omega arith;
      own = own;
      is = ap (λ (p : TeslaSchedule). new_verifier first p.n_chain params.g_max) (sym same);
    };
    top = refl;
    all_from = tt;
    unforged = refl;
  }

module _ (K : Hkdf) (P : Srtp) (H : HmacSha256) (G : Gmac) (L : SrtpLink P) (seed : Bytes)
    (model : StreamModel) (granularity : Granularity) (k seek_cap window : ℕ)
    (usable : IsUsable granularity) (framed : 0 < model.ppf) (short : model.ssrc < 2 ^ 32) where
  -- Sender and receiver made from one seed of 32 bytes, for a stream of `count` packets, no more than
  -- 2^48 and each frame in the first 2^32 ticks where there is a key for each frame, with a packet a
  -- frame at least, an SSRC of 32 bits, a granularity that divides by no zero and a retention `k` of 1
  -- at least. The replay window is one that libsrtp accepts: 64 to 32767, or 0 for its default of 128. The
  -- TESLA schedule is valid, the final key has 20 bytes, the scheme signs the commitment, and every packet is authenticated at a
  -- time within the schedule. The datagrams arrive in any order, some missing and some repeated, as long
  -- as each arrival is within 32766 packets ahead of the newest before it, within the replay window
  -- behind it, within `k` generations behind its generation and within the seek cap ahead
  -- of it, and at most `delay` after its packet was authenticated, where `delay` and the clock error are
  -- together no more than `d - 1` intervals, and discloses a key at most `g_max` after the newest that a
  -- packet delivered before it disclosed, or after the anchor, which is key 0. Then no call of either side panics: the first arrival of
  -- each packet is delivered with the bytes that the sender encrypted, each later one is refused, and in
  -- the end no packet is counted as forged.
  pub broadcast_lem :
      (S : SignatureScheme) (params : TeslaSchedule) (alg : TeslaMacAlg)
      (fill_bytes : Bytes → Bytes) (send_at : ℕ → ℕ) (signer identity group_id signature : Bytes)
      (epoch count delay : ℕ) (arrivals : Schedule)
      → length seed ≡ 32
      → count ≤ 2 ^ 48
      → InTicks granularity model count
      → 1 ≤ k
      → IsWindow window
      → IsValid params
      → length (fill_bytes zero_key) ≡ 20
      → S.sign signer (
          to_bytes (
            commit params alg
              (f_iter H params.n_chain (fill_bytes zero_key))
              identity
              group_id
              model.ssrc
              epoch))
        ≡ some signature
      → ((j : ℕ) → j < count → IsTimely params send_at j)
      → delay + params.d_t_ns ≤ (params.d - 1) * params.t_int_ns
      → AreInReach granularity model count k seek_cap (window_of window) 0 (indices arrivals)
      → AreInTime send_at delay arrivals
      → AreInChain params params.g_max send_at [] 0 arrivals
      → broadcast H G K P S granularity model params alg fill_bytes send_at signer identity group_id
          epoch seed count k seek_cap window arrivals
        ≡ ret (tesla_outcomes model [] arrivals, 0)
  unfolding broadcast sender_anchor anchor sign key new_verifier
  broadcast_lem S params alg fill_bytes send_at signer identity group_id signature epoch count delay
        arrivals size small ticks pos allowed v long signed timely budget reach time chained =
      let (stream, sent, made, runs, all, carry) =
        new_simulated-CarriesFrom K P L seed model granularity usable framed short count ticks
          small in
      let (m, made', tracks) =
        new_manager-IsTracking K P L seed model granularity k seek_cap window pos allowed in
      let k_final = fill_bytes zero_key in
      let first = f_iter H params.n_chain k_final in
      let (s, made'', ready, same, same_alg) =
        new_sender-IsReady H G params alg fill_bytes v.media in
      let own =
        first_key K P H G L seed model granularity k seek_cap (window_of window) usable framed short
          k_final s params.n_chain ready.chain_below (ap (λ (p : TeslaSchedule). p.n_chain) same) in
      let valid = subst IsValid (sym same) v in
      let timely' : (j : ℕ) → j < count → IsTimely s.params send_at j =
        λ j lt. subst (λ p. IsTimely p send_at j) (sym same) (timely j lt) in
      let (datagrams, calls, size', signed') =
        authenticate_all-AreSigned K P H G L seed model granularity s send_at k_final s 0 count sent
          long valid timely' (omega (arith, all)) carry
          (record { ready = ready; same_params = refl; same_chain = refl; same_alg = refl }) in
      let start =
        accepted-IsTrusting K P H G L seed model granularity k seek_cap (window_of window) usable
          framed short params alg first k_final s m ready.chain_below same same_alg own tracks in
      rw
        (
          from_seed_lem K P L seed size,
          made,
          runs,
          made'',
          own,
          signed,
          calls,
          made',
          accept_returns S P params alg first identity group_id signer signature model.ssrc epoch m
              v signed,
        )
        (hear_all_lem K P H G L seed model granularity k seek_cap (window_of window) usable framed
          short s k_final params.g_max ready.chain_below send_at count delay valid timely'
          (subst (λ (p : TeslaSchedule). delay + p.d_t_ns ≤ (p.d - 1) * p.t_int_ns) (sym same)
            budget)
          datagrams (accepted P params alg first m) [] 0 arrivals ticks small (omega arith)
          (size' ∙ all) signed' start reach time
          (subst (λ p. AreInChain p params.g_max send_at [] 0 arrivals) (sym same) chained))
