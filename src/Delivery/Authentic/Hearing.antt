-- ===== src/Delivery/Authentic/Hearing.antt =====
-- One arrival of an authenticated stream: `process_arrival` of src/tesla/receiver.rs on a datagram of
-- src/tesla/sender.rs.
use safe_cast.Base.{
  ℕ, suc, ◌+◌, ◌^◌, ◌≤◌, ◌<◌, ◌≡◌, ◌∙◌, refl, sym, ap, subst, arith, max, mem, List, ◌∷◌, Bytes,
  Bool-cases, true, false, inl, inr,
}
use safe_cast.Crypto.{Hkdf, Srtp, HmacSha256, Gmac}
use safe_cast.Keying.Granularity.{Granularity}
use safe_cast.Keying.Granularity.Boundary.{IsUsable}
use safe_cast.Receiver.IndexRecovery.{IndexRecovery, update, raise}
use safe_cast.Receiver.Manager.State.{srtp_replay}
use safe_cast.Simulation.Sender.{StreamModel, plain_packet}
use safe_cast.Tesla.Chain.{ChainKey, from_final_key}
use safe_cast.Tesla.Schedule.{disclosed_index}
use safe_cast.Tesla.Sender.{TeslaSender}
use safe_cast.Tesla.Receiver.State.{DrawerEntry, TeslaReceiver, TeslaResult, settled, srtp}
use safe_cast.Tesla.Receiver.{after_srtp, reject}
use safe_cast.Delivery.Link.{SrtpLink, IsNear}
use safe_cast.Delivery.Numbers.{InTicks, last_below, last_below-max, IsInReach}
use safe_cast.Delivery.Tracking.{IsTracking}
use safe_cast.Delivery.Receiving.{Answers, receive_one}
use safe_cast.Delivery.{generation_of}
use safe_cast.Delivery.Authentic.OnAir.{
  answer-delivered, answer-refused, IsOnAir, IsTrusting, Heard, opens_packet,
}
use safe_cast.Tesla.Receiver.Joining.{decrypted-Joined}

module _ (K : Hkdf) (P : Srtp) (H : HmacSha256) (G : Gmac) (L : SrtpLink P) (seed : Bytes)
    (model : StreamModel) (granularity : Granularity) (k seek_cap window : ℕ)
    (usable : IsUsable granularity) (framed : 0 < model.ppf) (short : model.ssrc < 2 ^ 32)
    (s : TeslaSender) (k_final : ChainKey) (g_max : ℕ)
    (chain : s.chain ≡ from_final_key H k_final s.params.n_chain) where
  abbrev OnAir : ℕ → ℕ → ℕ → Bytes → Type 0
  OnAir =
      IsOnAir K P H G L seed model granularity k seek_cap window usable framed short s k_final g_max
        chain

  abbrev Trusting : TeslaReceiver P → List ℕ → ℕ → Type 0
  Trusting =
      IsTrusting K P H G L seed model granularity k seek_cap window usable framed short s k_final
        g_max chain

  abbrev Hears : TeslaReceiver P → List ℕ → ℕ → ℕ → ℕ → ℕ → Bytes → Type 0
  Hears =
      Heard K P H G L seed model granularity k seek_cap window usable framed short s k_final g_max
        chain

  abbrev Inner : TeslaReceiver P → List ℕ → ℕ → ℕ → Bytes → Type 0
  Inner r = Answers K P L seed model granularity k seek_cap window usable framed short r.inner

  -- A packet that the receiver has not seen before.
  hear_fresh :
      (r : TeslaReceiver P) (done : List ℕ) (next i interval arrival : ℕ) (datagram : Bytes)
      (air : OnAir i interval arrival datagram)
      → next ≤ 2 ^ 48
      → Trusting r done next
      → IsNear next window i
      → Inner r done next i air.buf
      → mem i done ≡ false
      → disclosed_index s.params interval ≤ r.verifier.trusted_index + g_max
      → Hears r done next i interval arrival datagram
  unfolding update
  hear_fresh r done next i interval arrival datagram air small v near a fresh reach =
      let due : disclosed_index r.params interval ≡ disclosed_index s.params interval =
        ap (λ p. disclosed_index p interval) v.scheduled in
      let (mac, kept, call) =
        opens_packet K P H G L seed model granularity k seek_cap window usable framed short s
          k_final g_max chain r done next i interval arrival datagram air small v near in
      let (e, same) =
        answer-delivered a.result a.left (generation_of granularity model i) (plain_packet model i)
          (a.answered ∙ rw fresh refl) in
      let entry : DrawerEntry = record {
        ext_index = i;
        arrival_ns = arrival;
        mac = mac;
        covered = air.buf;
      } in
      let (r', n, done', joined) =
        decrypted-Joined K P H G s k_final g_max chain (record r { inner = a.after }) interval
          (generation_of granularity model i) air.carried.disclosed entry v.scheduled v.same_alg
          air.within air.carried.old_key v.trusts v.all_from
          (record {
            packet = datagram;
            disclosed = air.carried.disclosed;
            carried = air.carried;
            kept = kept;
          })
          (omega (arith, due, reach)) in
      record {
        after = r';
        left = a.left;
        result = settled n;
        call = call ∙ rw (a.call, e, done') refl;
        answered = rw (fresh, same) refl;
        keyed = joined.moved ∙ ap (max r.verifier.trusted_index) due ∙ rw fresh refl;
        trusting = record {
          tracks =
              subst
                (λ m.
                  IsTracking K P L seed model granularity k seek_cap window m (i ∷ done)
                    (max next (suc i)))
                (sym joined.inner_kept) a.tracks;
          scheduled = joined.params_kept ∙ v.scheduled;
          same_alg = joined.alg_kept ∙ v.same_alg;
          trusts = joined.trusts;
          top =
              ap (λ (x : IndexRecovery). x.highest) joined.updated
              ∙ ap (λ h. raise h i) v.top
              ∙ sym (last_below-max next i);
          all_from = joined.all_from;
          unforged = joined.none_forged ∙ v.unforged;
        };
      }

  -- A packet that it has seen.
  hear_again :
      (r : TeslaReceiver P) (done : List ℕ) (next i interval arrival : ℕ) (datagram : Bytes)
      (air : OnAir i interval arrival datagram)
      → next ≤ 2 ^ 48
      → Trusting r done next
      → IsNear next window i
      → Inner r done next i air.buf
      → mem i done ≡ true
      → Hears r done next i interval arrival datagram
  unfolding after_srtp reject
  hear_again r done next i interval arrival datagram air small v near a again =
      let (mac, kept, call) =
        opens_packet K P H G L seed model granularity k seek_cap window usable framed short s
          k_final g_max chain r done next i interval arrival datagram air small v near in
      let e = answer-refused a.result a.left srtp_replay (a.answered ∙ rw again refl) in
      let stays : next ≡ max next (suc i) = omega (arith, v.tracks.below i again) in
      record {
        after = (reject K P H G (record r { inner = a.after }) (srtp srtp_replay)).0;
        left = a.left;
        result = TeslaResult.refused (srtp srtp_replay);
        call = call ∙ rw (a.call, e) refl;
        answered = rw again refl;
        keyed = rw again refl;
        trusting = record {
          tracks = a.tracks;
          scheduled = v.scheduled;
          same_alg = v.same_alg;
          trusts = v.trusts;
          top = v.top ∙ ap last_below stays;
          all_from = v.all_from;
          unforged = v.unforged;
        };
      }

  pub hear :
      (count : ℕ) (r : TeslaReceiver P) (done : List ℕ) (next i interval arrival : ℕ)
      (datagram : Bytes)
      → InTicks granularity model count
      → count ≤ 2 ^ 48
      → next ≤ count
      → Trusting r done next
      → IsInReach granularity model count k seek_cap window next i
      → OnAir i interval arrival datagram
      → disclosed_index s.params interval ≤ r.verifier.trusted_index + g_max
      → Hears r done next i interval arrival datagram
  hear count r done next i interval arrival datagram ticks small le v h air reach =
      let a =
        receive_one K P L seed model granularity k seek_cap window usable framed short count r.inner
          done next i air.buf ticks small le v.tracks h air.sealed in
      elim (Bool-cases (mem i done)) [
        | inl again ↦
            hear_again r done next i interval arrival datagram air (omega (arith, small, le)) v
              h.near a again
        | inr fresh ↦
            hear_fresh r done next i interval arrival datagram air (omega (arith, small, le)) v
              h.near a fresh reach
      ]
