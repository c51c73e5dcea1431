-- ===== src/Tesla/Receiver/Filing.antt =====
-- What a call of `process_arrival` of src/tesla/receiver.rs files, besides its books.
use safe_cast.Base.{
  ℕ, ◌+◌, ◌≡◌, refl, ap, arith, List, [], Option, some, from_be16, get_or, Bytes, Exec, ret, panic,
}
use safe_cast.Crypto.{HmacSha256, Gmac, Hkdf, Srtp}
use safe_cast.Receiver.IndexRecovery.{IndexRecovery, recover, update}
use safe_cast.Receiver.Manager.{RecvResult, unprotect}
use safe_cast.Receiver.Manager.State.{ReceiverKeyManager}
use safe_cast.Tesla.Chain.{
  ChainKey, ChainVerifier, Disclosure, new, not_new, invalid, too_far_ahead, beyond_chain, check,
}
use safe_cast.Tesla.Chain.Genuine.{IsRooted, check-IsRooted}
use safe_cast.Tesla.Schedule.{safe, accepts, disclosed_index}
use safe_cast.Tesla.Receiver.State.{
  file, DrawerEntry, TeslaReceiver, TeslaResult, settled, refused, bad_disclosure, srtp,
}
use safe_cast.Tesla.Receiver.{reject, await, disclose, after_srtp}
use safe_cast.Tesla.Receiver.Settle.{without, settle-without, no-Verdicts, settle_lem}
use safe_cast.Tesla.Receiver.Accounts.{IsBalanced, Done, awaited, reject_lem}

module _ (K : Hkdf) (P : Srtp) (H : HmacSha256) (G : Gmac) (anchor : ChainKey) where
  -- The keys that a disclosure recovers.
  abbrev pub recovered : Disclosure → List (ℕ × ChainKey)
  recovered (new keys) = keys
  recovered not_new = []
  recovered invalid = []
  recovered too_far_ahead = []
  recovered beyond_chain = []

  -- A packet that joins its drawer, after the drawers of the recovered keys were emptied.
  abbrev Filed :
      TeslaReceiver P → ℕ → DrawerEntry → Disclosure → TeslaReceiver P × TeslaResult → Type 0
  Filed r i e d (r', settled n) =
      (r'.drawers ≡ file i e (without (recovered d) r.drawers)) × (r'.inner ≡ r.inner)
  Filed r i e d (r', refused why) = Unit

  -- The same after the SRTP receiver, which left `inner`, delivered the packet.
  abbrev pub FiledAfter :
      TeslaReceiver P
      → ReceiverKeyManager P
      → ℕ
      → ChainKey
      → DrawerEntry
      → RecvResult
      → TeslaReceiver P × TeslaResult
      → Type 0
  FiledAfter r inner i k e result (r', settled n) =
      ((g : ℕ) × (result ≡ RecvResult.delivered g))
      × (r'.inner ≡ inner)
      × (r'.drawers
          ≡ file i e
              (without (recovered (check H r.verifier k (disclosed_index r.params i)).1) r.drawers))
  FiledAfter r inner i k e result (r', refused why) = Unit

  -- The packet in a datagram, given the parts of its extension: what SRTP made of it, and the drawer that
  -- it joined, with its MAC and its bytes before decryption, its position as the sequence number tells it,
  -- and its arrival time.
  pub record Joined (r r' : TeslaReceiver P) (parts : Option (ℕ × ChainKey × Bytes) × Bytes)
      (arrival : ℕ) (buf' : Bytes) : Type 0 where
    pub interval : ℕ
    pub disclosed : ChainKey
    pub mac : Bytes
    pub carries : parts.0 ≡ some (interval, disclosed, mac)
    pub generation : ℕ
    pub decrypts :
        unprotect K P r.inner parts.1 ≡ ret (r'.inner, buf', RecvResult.delivered generation)
    pub filed :
        r'.drawers
        ≡ file interval
            (record {
              ext_index = recover r.recovery (from_be16 (get_or parts.1 2 0) (get_or parts.1 3 0));
              arrival_ns = arrival;
              mac = mac;
              covered = parts.1;
            })
            (without
              (recovered (check H r.verifier disclosed (disclosed_index r.params interval)).1)
              r.drawers)

  -- A call on a datagram of these parts; it panics only if the SRTP receiver does.
  abbrev pub Opened :
      TeslaReceiver P
      → Option (ℕ × ChainKey × Bytes) × Bytes
      → ℕ
      → Exec (TeslaReceiver P × Bytes × TeslaResult)
      → Type 0
  Opened r parts arrival (ret (r', buf', settled n)) =
      Done K P H G anchor r (r', settled n) × Joined r r' parts arrival buf'
  Opened r parts arrival (ret (r', buf', refused why)) = Done K P H G anchor r (r', refused why)
  Opened r parts arrival panic = unprotect K P r.inner parts.1 ≡ panic

  disclose_lem :
      (r : TeslaReceiver P) (i : ℕ) (e : DrawerEntry) (d : Disclosure)
      → IsBalanced K P H G anchor r
      → accepts r.params e.arrival_ns i ≡ safe
      → (x : TeslaReceiver P × TeslaResult) × (disclose K P H G r i e d ≡ ret x)
        × Done K P H G anchor r x
        × Filed r i e d x
  unfolding disclose await without
  disclose_lem r i e (new keys) b ok =
      let (r', n, run, v) = settle_lem K P H G r keys e.arrival_ns 0 in
      (
        await K P H G r' i e n,
        rw run (ap (λ m. ret (await K P H G r' i e m)) (let z : 0 + n ≡ n = omega arith in z)),
        awaited K P H G anchor r r' i e n b ok v,
        (ap (file i e) (settle-without K P H G r r' keys e.arrival_ns 0 (0 + n) run), v.same_inner),
      )
  disclose_lem r i e not_new b ok =
      (_, refl, awaited K P H G anchor r r i e 0 b ok (no-Verdicts r), (refl, refl))
  disclose_lem r i e invalid b ok = (_, refl, reject_lem K P H G anchor r bad_disclosure b, tt)
  disclose_lem r i e too_far_ahead b ok =
      (_, refl, reject_lem K P H G anchor r bad_disclosure b, tt)
  disclose_lem r i e beyond_chain b ok = (_, refl, reject_lem K P H G anchor r bad_disclosure b, tt)

  -- The SRTP receiver, the recovery and the verifier may move in between.
  moved :
      (r : TeslaReceiver P) (inner : ReceiverKeyManager P) (recovery : IndexRecovery)
      (v : ChainVerifier)
      → IsRooted H anchor v
      → IsBalanced K P H G anchor r
      → IsBalanced K P H G anchor (record r { inner = inner; recovery = recovery; verifier = v })
  moved r inner recovery v rooted b = record {
    waits = b.waits;
    counted = b.counted;
    peak = b.peak;
    timely = b.timely;
    rooted = rooted;
    in_time = b.in_time;
  }

  moved-Done :
      (r : TeslaReceiver P) (inner : ReceiverKeyManager P) (recovery : IndexRecovery)
      (v : ChainVerifier) (x : TeslaReceiver P × TeslaResult)
      → Done K P H G anchor (record r { inner = inner; recovery = recovery; verifier = v }) x
      → Done K P H G anchor r x
  moved-Done r inner recovery v (r', settled n) h = h
  moved-Done r inner recovery v (r', refused why) (b, p, u) = (
    b,
    p,
    record {
      drawers_kept = u.drawers_kept;
      pending_kept = u.pending_kept;
      delivered_kept = u.delivered_kept;
      verified_kept = u.verified_kept;
      forged_kept = u.forged_kept;
    },
  )

  pub after_srtp_lem :
      (r : TeslaReceiver P) (inner : ReceiverKeyManager P) (i : ℕ) (k : ChainKey) (e : DrawerEntry)
      (result : RecvResult)
      → IsBalanced K P H G anchor r
      → accepts r.params e.arrival_ns i ≡ safe
      → (x : TeslaReceiver P × TeslaResult) × (after_srtp K P H G
            (record r { inner = inner })
            i
            k
            e
            result
          ≡ ret x)
        × Done K P H G anchor r x
        × FiledAfter r inner i k e result x
  unfolding after_srtp reject
  after_srtp_lem r inner i k e (RecvResult.refused why) b ok = (
    reject K P H G (record r { inner = inner }) (srtp why),
    refl,
    moved-Done r inner r.recovery r.verifier
        (reject K P H G (record r { inner = inner }) (srtp why))
        (reject_lem K P H G anchor (record r { inner = inner }) (srtp why)
          (moved r inner r.recovery r.verifier b.rooted b)),
    tt,
  )
  after_srtp_lem r inner i k e (RecvResult.delivered g) b ok =
      let (v, d) = check H r.verifier k (disclosed_index r.params i) in
      let recovery = update r.recovery e.ext_index in
      let (x, run, done, filed) =
        disclose_lem (record r { inner = inner; recovery = recovery; verifier = v }) i e d
          (moved r inner recovery v
            (check-IsRooted H anchor r.verifier k (disclosed_index r.params i) b.rooted) b)
          ok in
      (x, run, moved-Done r inner recovery v x done, filed_after x filed)
    where
      filed_after :
          (x : TeslaReceiver P × TeslaResult)
          → Filed
              (record r { inner = inner })
              i
              e
              (check H r.verifier k (disclosed_index r.params i)).1
              x
          → FiledAfter r inner i k e (RecvResult.delivered g) x
      filed_after (r', settled n) f = ((g, refl), f.1, f.0)
      filed_after (r', refused why) f = tt
