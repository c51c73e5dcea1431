-- ===== src/Delivery/Receiving.antt =====
-- What the receiver makes of one arrival of the stream.
use safe_cast.Base.{
  ℕ, suc, ◌+◌, ◌^◌, ◌≤◌, ◌<◌, ◌≡◌, inl, inr, ◌∙◌, refl, sym, ap, subst, arith, max, mem, List, [],
  ◌∷◌, Bytes, Bool-cases, true, false, ◌||◌, ◌==◌, Option, some, length, ret,
}
use safe_cast.Crypto.{Hkdf, Srtp, ok, err, replay_fail}
use safe_cast.Keying.Granularity.{Granularity}
use safe_cast.Keying.Granularity.Boundary.{IsUsable}
use safe_cast.Receiver.Manager.State.{ReceiverKeyManager, Ring, srtp_replay}
use safe_cast.Receiver.IndexRecovery.{IndexRecovery}
use safe_cast.Receiver.Manager.CatchUp.{next_of}
use safe_cast.Receiver.Manager.Unprotect.{Post}
use safe_cast.Receiver.Manager.{
  RecvResult, delivered, refused, adopt, settle_index, waste, conclude, unprotect,
}
use safe_cast.Simulation.Sender.{StreamModel, plain_packet}
use safe_cast.Delivery.Link.{SrtpLink}
use safe_cast.Delivery.Numbers.{InTicks, generations-max, kept_index, IsInReach, AreInReach}
use safe_cast.Delivery.Sending.{Carries, CarriesFrom, carried}
use safe_cast.Delivery.Tracking.{
  mem_again, mem_bound, phase4_keeps, settled_top, IsTracking, IsReady, ready,
}
use safe_cast.Delivery.{answer, outcome, outcomes, receive_all, generation_of}

module _ (K : Hkdf) (P : Srtp) (L : SrtpLink P) (seed : Bytes) (model : StreamModel)
    (granularity : Granularity) (k seek_cap window : ℕ) (usable : IsUsable granularity)
    (framed : 0 < model.ppf) (short : model.ssrc < 2 ^ 32) where
  -- A call that answers as the first arrival of packet `i` should, or a repeated one, and leaves a
  -- receiver that has seen one more arrival.
  pub record Answers (m : ReceiverKeyManager P) (done : List ℕ) (next i : ℕ) (buf : Bytes)
      : Type 0 where
    pub after : ReceiverKeyManager P
    pub left : Bytes
    pub result : RecvResult
    pub call : unprotect K P m buf ≡ ret (after, left, result)
    pub answered : answer result left ≡ outcome granularity model done i
    pub tracks :
        IsTracking K P L seed model granularity k seek_cap window after
          (i ∷ done)
          (max next (suc i))

  deliver :
      (m : ReceiverKeyManager P) (done : List ℕ) (next i : ℕ) (buf : Bytes)
      → IsTracking K P L seed model granularity k seek_cap window m done next
      → IsReady K P L seed model granularity k seek_cap window usable framed short m done next i buf
      → mem i done ≡ false
      → Answers m done next i buf
  unfolding conclude
  deliver m done next i buf v r fresh =
      let (s, e, n, w, seen) =
        L.opens r.opening.opener.session i (plain_packet model i) buf r.sealed r.numbered r.near
          r.index_fits r.next_fits (r.at_seen i ∙ fresh) in
      go s e n w seen
    where
      g : ℕ
      g = generation_of granularity model i

      est : Option ℕ
      est = kept_index granularity (some i)

      p : Bytes
      p = plain_packet model i

      m1 : ReceiverKeyManager P
      m1 = r.opening.opener

      settled : P.Session → ReceiverKeyManager P
      settled s = settle_index K P (adopt K P (record m1 { session = s }) g r.opening.pending) est

      final : P.Session → ReceiverKeyManager P
      final s =
          let m3 = settled s in
          record m3 { stats = record m3.stats { decrypted = m3.stats.decrypted + 1 } }

      go :
          (s : P.Session)
          → P.unprotect m1.session buf ≡ (s, p, ok)
          → L.next s ≡ max (L.next m1.session) (suc i)
          → L.window s ≡ L.window m1.session
          → ((j : ℕ) → L.seen s j ≡ (j == i || L.seen m1.session j))
          → Answers m done next i buf
      go s e n w seen =
          let call : unprotect K P m buf ≡ ret (final s, p, delivered g) = r.call ∙ (λ j.
            conclude K P (record m1 { session = (e j).0 }) g est r.opening.pending (e j).1
              (e j).2) in
          let post : Post K P seed m buf (ret (final s, p, delivered g)) =
            subst (Post K P seed m buf) call r.post in
          let keeps =
            phase4_keeps K P L seed model granularity (record m1 { session = s }) g
              r.opening.pending est in
          record {
            after = final s;
            left = p;
            result = delivered g;
            call = call;
            answered = rw fresh refl;
            tracks = record {
              synced = post.0;
              scheme = keeps.0.scheme_kept ∙ r.opening.configured.scheme_kept ∙ v.scheme;
              slots = keeps.2 ∙ ap (λ (l : Ring). length l) r.opening.installs.ring_kept ∙ v.slots;
              capped = keeps.0.cap_kept ∙ r.opening.configured.cap_kept ∙ v.capped;
              source = keeps.0.ssrc_kept ∙ r.opening.configured.ssrc_kept ∙ v.source;
              windowed = ap L.window keeps.1 ∙ w ∙ r.at_window;
              indexed = ap L.next keeps.1 ∙ n ∙ ap (λ t. max t (suc i)) r.at_next;
              opened =
                  λ j. ap (λ z. L.seen z j) keeps.1 ∙ seen j ∙ ap (λ b. j == i || b) (r.at_seen j);
              below = mem_bound next i done v.below;
              front =
                  post.1.moved
                  ∙ ap (λ t. max t (suc g)) v.front
                  ∙ sym (generations-max granularity model next i usable framed);
              top =
                  ap (λ (x : IndexRecovery). x.highest) keeps.3
                  ∙ settled_top K P L seed model granularity granularity (record m1 { session = s })
                      next i
                      (ap (λ (x : IndexRecovery). x.highest) r.opening.installs.recovery_kept
                        ∙ v.top);
            };
          }

  refuse :
      (m : ReceiverKeyManager P) (done : List ℕ) (next i : ℕ) (buf : Bytes)
      → IsTracking K P L seed model granularity k seek_cap window m done next
      → IsReady K P L seed model granularity k seek_cap window usable framed short m done next i buf
      → mem i done ≡ true
      → Answers m done next i buf
  unfolding conclude
  refuse m done next i buf v r again =
      let (s, b, e, n, w, seen) =
        L.replays r.opening.opener.session i (plain_packet model i) buf r.sealed r.numbered r.near
          r.index_fits r.next_fits (r.at_seen i ∙ again) in
      go s b e n w seen
    where
      g : ℕ
      g = generation_of granularity model i

      m1 : ReceiverKeyManager P
      m1 = r.opening.opener

      final : P.Session → ReceiverKeyManager P
      final s =
          let stats = waste K P m1.stats r.opening.pending in
          record m1 { session = s; stats = record stats { drops_replay = stats.drops_replay + 1 } }

      stays : max next (suc i) ≡ next
      stays = omega (arith, v.below i again)

      go :
          (s : P.Session) (b : Bytes)
          → P.unprotect m1.session buf ≡ (s, b, err replay_fail)
          → L.next s ≡ L.next m1.session
          → L.window s ≡ L.window m1.session
          → ((j : ℕ) → L.seen s j ≡ L.seen m1.session j)
          → Answers m done next i buf
      go s b e n w seen =
          let call : unprotect K P m buf ≡ ret (final s, b, refused srtp_replay) = r.call ∙ (λ j.
            conclude K P (record m1 { session = (e j).0 }) g (kept_index granularity (some i))
              r.opening.pending (e j).1 (e j).2) in
          let post : Post K P seed m buf (ret (final s, b, refused srtp_replay)) =
            subst (Post K P seed m buf) call r.post in
          record {
            after = final s;
            left = b;
            result = refused srtp_replay;
            call = call;
            answered = rw again refl;
            tracks =
                subst
                  (IsTracking K P L seed model granularity k seek_cap window (final s) (i ∷ done))
                  (sym stays)
                  (record {
                    synced = post.0;
                    scheme = r.opening.configured.scheme_kept ∙ v.scheme;
                    slots = ap (λ (l : Ring). length l) r.opening.installs.ring_kept ∙ v.slots;
                    capped = r.opening.configured.cap_kept ∙ v.capped;
                    source = r.opening.configured.ssrc_kept ∙ v.source;
                    windowed = w ∙ r.at_window;
                    indexed = n ∙ r.at_next;
                    opened = λ j. seen j ∙ r.at_seen j ∙ sym (mem_again i j done again);
                    below = λ j h. v.below j (sym (mem_again i j done again) ∙ h);
                    front = ap next_of r.opening.installs.frontier_kept ∙ v.front;
                    top =
                        ap (λ (x : IndexRecovery). x.highest) r.opening.installs.recovery_kept
                        ∙ v.top;
                  });
          }

  -- One arrival, and all arrivals in turn.
  pub receive_one :
      (count : ℕ) (m : ReceiverKeyManager P) (done : List ℕ) (next i : ℕ) (buf : Bytes)
      → InTicks granularity model count
      → count ≤ 2 ^ 48
      → next ≤ count
      → IsTracking K P L seed model granularity k seek_cap window m done next
      → IsInReach granularity model count k seek_cap window next i
      → Carries K P L seed model granularity i buf
      → Answers m done next i buf
  receive_one count m done next i buf ticks small le v h carries =
      let r =
        ready K P L seed model granularity k seek_cap window usable framed short count m done next i
          buf ticks small le v h carries in
      elim (Bool-cases (mem i done)) [
        | inl again ↦ refuse m done next i buf v r again
        | inr fresh ↦ deliver m done next i buf v r fresh
      ]

  pub receive_all-outcomes :
      (count : ℕ) (sent : List Bytes) (m : ReceiverKeyManager P) (done : List ℕ) (next : ℕ)
      (arrivals : List ℕ)
      → InTicks granularity model count
      → count ≤ 2 ^ 48
      → next ≤ count
      → length sent ≡ count
      → CarriesFrom K P L seed model granularity 0 sent
      → IsTracking K P L seed model granularity k seek_cap window m done next
      → AreInReach granularity model count k seek_cap window next arrivals
      → receive_all K P m sent arrivals ≡ ret (outcomes granularity model done arrivals)
  unfolding receive_all outcomes
  receive_all-outcomes count sent m done next [] ticks small le size carry v h = refl
  receive_all-outcomes count sent m done next (i ∷ l) ticks small le size carry v h =
      let (buf, there, carries) =
        carried K P L seed model granularity sent 0 i carry (omega (arith, size, h.0.is_sent)) in
      let a = receive_one count m done next i buf ticks small le v h.0 (
        subst (λ n. Carries K P L seed model granularity n buf)
          (let e : 0 + i ≡ i = omega arith in e) carries) in
      let rest =
        receive_all-outcomes count sent a.after (i ∷ done) (max next (suc i)) l ticks small
          (omega (arith, h.0.is_sent)) size carry a.tracks h.1 in
      rw (there, a.call, rest) (λ j. ret (a.answered j ∷ outcomes granularity model (i ∷ done) l))
