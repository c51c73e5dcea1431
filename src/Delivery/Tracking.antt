-- ===== src/Delivery/Tracking.antt =====
-- A receiver of the stream, and where it stands when a packet reaches its cipher.
use safe_cast.Base.{
  ℕ, suc, ◌+◌, ◌^◌, ◌≤◌, ◌<◌, ◌≡◌, inl, inr, ◌∙◌, refl, sym, ap, subst, arith, max, mem, List, [],
  ◌∷◌, Bytes, Bool-cases, true, false, ◌==◌, ==_iff, Option, none, some, length, get_or, set, ◌%◌,
  length-set,
}
use safe_cast.Crypto.{Hkdf, Srtp}
use safe_cast.Keying.Ratchet.{KeySalt}
use safe_cast.Keying.Granularity.{Granularity, epoch_only, per_frame, per_packet, every_n}
use safe_cast.Keying.Granularity.Boundary.{IsUsable}
use safe_cast.Receiver.Generation.{for_granularity}
use safe_cast.Receiver.IndexRecovery.{update, raise}
use safe_cast.Receiver.Manager.State.{ReceiverKeyManager, PendingCatchup, Ring}
use safe_cast.Receiver.Manager.Phases.{fold_ring}
use safe_cast.Receiver.Manager.CatchUp.{next_of}
use safe_cast.Receiver.Manager.Window.{IsSynced, Configured}
use safe_cast.Receiver.Manager.Unprotect.{Post, with_generation_lem}
use safe_cast.Receiver.Manager.Calls.{some_first}
use safe_cast.Receiver.Manager.{adopt, settle_index, conclude, with_generation, unprotect}
use safe_cast.Simulation.Sender.{StreamModel, plain_packet, start_ts, frame_period}
use safe_cast.Delivery.Link.{IsNumbered, IsNear, SrtpLink}
use safe_cast.Delivery.Numbers.{
  InTicks, InTicks-le, generation-le, generations, last_below, last_below-max, kept_index,
  IsInReach, plain_packet-IsNumbered, plain_packet-stamp,
}
use safe_cast.Delivery.Sending.{Carries, Rekeyed-next}
use safe_cast.Delivery.Opening.{IsHandled, handled, unprotect-located}
use safe_cast.Delivery.{generation_of}

length-fold_ring :
    (k : ℕ) (ring : Ring) (l : List (ℕ × KeySalt)) → length (fold_ring k ring l) ≡ length ring
unfolding fold_ring
length-fold_ring k ring [] = refl
length-fold_ring k ring ((g, ks) ∷ l) =
    length-fold_ring k (set ring (g % k) (some (g, ks))) l ∙ length-set ring (g % k) (some (g, ks))

pub mem_again : (i j : ℕ) (l : List ℕ) → mem i l ≡ true → mem j (i ∷ l) ≡ mem j l
mem_again i j l h = elim (Bool-cases (j == i)) [
  | inl e ↦ rw e (sym (ap (λ n. mem n l) ((==_iff j i).0 e) ∙ h))
  | inr e ↦ rw e refl
]

pub mem_bound :
    (next i : ℕ) (done : List ℕ)
    → ((j : ℕ) → mem j done ≡ true → j < next)
    → (j : ℕ) → mem j (i ∷ done) ≡ true
    → j < max next (suc i)
mem_bound next i done h j e = elim (Bool-cases (j == i)) [
  | inl same ↦ omega (arith, (==_iff j i).0 same)
  | inr differ ↦ omega (arith, h j (cc (rest differ)))
]
  where
    rest : (j == i) ≡ false → mem j (i ∷ done) ≡ mem j done
    rest d = rw d refl

module _ (K : Hkdf) (P : Srtp) (L : SrtpLink P) (seed : Bytes) (model : StreamModel)
    (granularity : Granularity) where
  -- What phase 4 of a delivered packet leaves as it is, and the recovery that it updates.
  pub phase4_keeps :
      (m : ReceiverKeyManager P) (g : ℕ) (pending : Option PendingCatchup) (est : Option ℕ)
      → let m' = settle_index K P (adopt K P m g pending) est in
        Configured K P seed m m'
        × (m'.session ≡ m.session)
        × (length m'.ring ≡ length m.ring)
        × (m'.recovery ≡ (settle_index K P m est).recovery)
  unfolding settle_index adopt
  phase4_keeps m g none none =
      (record { scheme_kept = refl; cap_kept = refl; ssrc_kept = refl }, refl, refl, refl)
  phase4_keeps m g none (some index) =
      (record { scheme_kept = refl; cap_kept = refl; ssrc_kept = refl }, refl, refl, refl)
  phase4_keeps m g (some p) none = (
    record { scheme_kept = refl; cap_kept = refl; ssrc_kept = refl },
    refl,
    length-fold_ring (length m.ring) m.ring p.derived,
    refl,
  )
  phase4_keeps m g (some p) (some index) = (
    record { scheme_kept = refl; cap_kept = refl; ssrc_kept = refl },
    refl,
    length-fold_ring (length m.ring) m.ring p.derived,
    refl,
  )

  pub settled_top :
      (gr : Granularity) (m : ReceiverKeyManager P) (next i : ℕ)
      → m.recovery.highest ≡ kept_index gr (last_below next)
      → (settle_index K P m (kept_index gr (some i))).recovery.highest
        ≡ kept_index gr (last_below (max next (suc i)))
  unfolding settle_index update
  settled_top epoch_only m next i h = h
  settled_top per_frame m next i h = h
  settled_top per_packet m next i h = ap (λ o. raise o i) h ∙ sym (last_below-max next i)
  settled_top (every_n n) m next i h = ap (λ o. raise o i) h ∙ sym (last_below-max next i)

  module _ (k seek_cap window : ℕ) where
    -- A receiver of the stream that has seen the arrivals `done`, all below `next`.
    pub record IsTracking (m : ReceiverKeyManager P) (done : List ℕ) (next : ℕ) : Type 0 where
      pub synced : IsSynced K P seed m
      pub scheme : m.scheme ≡ for_granularity granularity start_ts frame_period 0
      pub slots : length m.ring ≡ k
      pub capped : m.seek_cap ≡ seek_cap
      pub source : m.ssrc ≡ model.ssrc
      pub windowed : L.window m.session ≡ window
      pub indexed : L.next m.session ≡ next
      pub opened : (j : ℕ) → L.seen m.session j ≡ mem j done
      pub below : (j : ℕ) → mem j done ≡ true → j < next
      pub front : next_of m.frontier ≡ generations granularity model next
      pub top : m.recovery.highest ≡ kept_index granularity (last_below next)

    module _ (usable : IsUsable granularity) (framed : 0 < model.ppf)
        (short : model.ssrc < 2 ^ 32) where
      -- The cipher stands ready for packet `i`, and its answer is the receiver's.
      pub record IsReady (m : ReceiverKeyManager P) (done : List ℕ) (next i : ℕ) (buf : Bytes)
          : Type 0 where
        pub opening :
            IsHandled K P seed m
              (generation_of granularity model i)
              (kept_index granularity (some i))
              buf
        pub call :
            let out = P.unprotect opening.opener.session buf in
            unprotect K P m buf
            ≡ conclude K P
                (record opening.opener { session = out.0 })
                (generation_of granularity model i)
                (kept_index granularity (some i))
                opening.pending
                out.1
                out.2
        pub post : Post K P seed m buf (unprotect K P m buf)
        pub sealed : L.Seals (P.loaded opening.opener.session) i (plain_packet model i) buf
        pub numbered : IsNumbered (plain_packet model i) (P.stream opening.opener.session) i
        pub near : IsNear (L.next opening.opener.session) (L.window opening.opener.session) i
        pub index_fits : i < 2 ^ 48
        pub next_fits : L.next opening.opener.session ≤ 2 ^ 48
        pub at_next : L.next opening.opener.session ≡ next
        pub at_window : L.window opening.opener.session ≡ window
        pub at_seen : (j : ℕ) → L.seen opening.opener.session j ≡ mem j done

      pub ready :
          (count : ℕ) (m : ReceiverKeyManager P) (done : List ℕ) (next i : ℕ) (buf : Bytes)
          → InTicks granularity model count
          → count ≤ 2 ^ 48
          → next ≤ count
          → IsTracking m done next
          → IsInReach granularity model count k seek_cap window next i
          → Carries K P L seed model granularity i buf
          → IsReady m done next i buf
      ready count m done next i buf ticks small le v h carries = record {
        opening = opening;
        call = here ∙ opening.answers;
        post = subst (Post K P seed m buf) (sym here) (
            with_generation_lem K P seed m buf _ v.synced (λ g' est' e.
              subst (λ n. n + 1 < 2 ^ 64)
                (some_first (g, kept_index granularity (some i)) (g', est') e) g_small));
        sealed = subst (λ ks. L.Seals ks i p buf) (sym opening.installs.loads) carries;
        numbered =
            subst (λ z. IsNumbered p z i)
              (sym (opening.installs.stream_kept ∙ opening.configured.ssrc_kept ∙ v.source))
              numbered;
        near = record {
          not_far = omega (arith, h.near.not_far, at_next);
          not_old = omega (arith, h.near.not_old, at_next, at_window);
          narrow = omega (arith, h.near.narrow, at_window);
        };
        index_fits = omega (arith, h.is_sent);
        next_fits = omega (arith, at_next);
        at_next = at_next;
        at_window = at_window;
        at_seen = λ j. kept.2 j ∙ v.opened j;
      }
        where
          p : Bytes
          p = plain_packet model i

          g : ℕ
          g = generation_of granularity model i

          numbered : IsNumbered p model.ssrc i
          numbered = plain_packet-IsNumbered model i short

          g_small : g + 1 < 2 ^ 64
          g_small = omega (arith, h.is_sent, generation-le granularity model i)

          opening : IsHandled K P seed m g (kept_index granularity (some i)) buf
          opening =
              handled K P seed m g _ buf v.synced g_small
                (omega (arith, v.front, v.slots, h.in_slots))
                (omega (arith, v.front, v.capped, h.in_cap))

          kept :
              (L.next opening.opener.session ≡ L.next m.session)
              × (L.window opening.opener.session ≡ L.window m.session)
              × ((j : ℕ) → L.seen opening.opener.session j ≡ L.seen m.session j)
          kept = Rekeyed-next P L m.session opening.opener.session opening.session_rekeyed

          at_next : L.next opening.opener.session ≡ next
          at_next = kept.0 ∙ v.indexed

          at_window : L.window opening.opener.session ≡ window
          at_window = kept.1 ∙ v.windowed

          same :
              (length buf ≡ length p + 16)
              × ((j : ℕ) → j < 12 → 12 ≤ length p → get_or buf j 0 ≡ get_or p j 0)
          same = L.Seals_header _ i p buf carries

          here :
              unprotect K P m buf
              ≡ with_generation K P m buf (some (g, kept_index granularity (some i)))
          here =
              unprotect-located K P seed granularity model m next window i p buf usable
                (InTicks-le granularity model i count framed (omega (arith, h.is_sent)) ticks)
                (omega arith) h.near v.scheme v.top numbered (plain_packet-stamp model i) same.0
                same.1
