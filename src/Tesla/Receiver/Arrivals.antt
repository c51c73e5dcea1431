-- ===== src/Tesla/Receiver/Arrivals.antt =====
-- Whole calls of src/tesla/receiver.rs's `process_arrival`, and any sequence of them.
use safe_cast.Base.{
  ℕ, ◌≡◌, ◌∙◌, refl, sym, subst, Option, none, some, Bytes, Bool-cases, true, inl, inr, length, ltb,
  ret, Exec-cases, from_be16, get_or, arith,
}
use safe_cast.Crypto.{HmacSha256, Gmac, Hkdf, Srtp, SignatureScheme}
use safe_cast.Receiver.IndexRecovery.{recover}
use safe_cast.Receiver.Manager.{RecvResult, unprotect}
use safe_cast.Receiver.Manager.State.{ReceiverKeyManager}
use safe_cast.Tesla.Chain.{ChainKey}
use safe_cast.Tesla.Chain.Genuine.{new_verifier-IsRooted}
use safe_cast.Tesla.Commitment.{TeslaCommitment, schedule, verify}
use safe_cast.Tesla.Extension.{split_extension}
use safe_cast.Tesla.Schedule.{IntervalCheck, safe, accepts}
use safe_cast.Tesla.Receiver.State.{DrawerEntry, TeslaReceiver, TeslaResult, TeslaDrop, malformed}
use safe_cast.Tesla.Receiver.{open_packet, screen, on_split, process_arrival, accept}
use safe_cast.Tesla.Receiver.Accounts.{IsBalanced, Done, reject_lem}
use safe_cast.Tesla.Receiver.Filing.{Opened, FiledAfter, after_srtp_lem}

ret_some_inj : {A : Type 0} {a b : A} → ret (some a) ≡ ret (some b) → a ≡ b
ret_some_inj e = cc

module _ (K : Hkdf) (P : Srtp) (H : HmacSha256) (G : Gmac) (anchor : ChainKey) where
  open_packet_lem :
      (r : TeslaReceiver P) (buf : Bytes) (arrival i : ℕ) (k : ChainKey) (mac : Bytes)
      → IsBalanced K P H G anchor r
      → accepts r.params arrival i ≡ safe
      → Opened K P H G anchor r
          (some (i, k, mac), buf)
          arrival
          (open_packet K P H G r buf arrival i k mac)
  unfolding open_packet
  open_packet_lem r buf arrival i k mac b ok = elim (Exec-cases (unprotect K P r.inner buf)) [
    | inl broke ↦ rw broke broke
    | inr ((inner, buf', result), run) ↦
        let entry : DrawerEntry = record {
          ext_index = recover r.recovery (from_be16 (get_or buf 2 0) (get_or buf 3 0));
          arrival_ns = arrival;
          mac = mac;
          covered = buf;
        } in
        let (x, after, done, filed) = after_srtp_lem K P H G anchor r inner i k entry result b ok in
        rw (run, after) (joined x buf' inner result run done filed)
  ]
    where
      joined :
          (x : TeslaReceiver P × TeslaResult) (buf' : Bytes) (inner : ReceiverKeyManager P)
          (result : RecvResult)
          → unprotect K P r.inner buf ≡ ret (inner, buf', result)
          → Done K P H G anchor r x
          → FiledAfter K P H G anchor r inner i k
              (record {
                ext_index = recover r.recovery (from_be16 (get_or buf 2 0) (get_or buf 3 0));
                arrival_ns = arrival;
                mac = mac;
                covered = buf;
              })
              result
              x
          → Opened K P H G anchor r (some (i, k, mac), buf) arrival (ret (x.0, buf', x.1))
      joined (r', TeslaResult.settled n) buf' inner result run done (delivers, kept, drawers) = (
        done,
        record {
          interval = i;
          disclosed = k;
          mac = mac;
          carries = refl;
          generation = delivers.0;
          decrypts = run ∙ (λ j. ret (sym kept j, buf', delivers.1 j));
          filed = drawers;
        },
      )
      joined (r', TeslaResult.refused why) buf' inner result run done filed = done

  screen_lem :
      (r : TeslaReceiver P) (buf : Bytes) (arrival i : ℕ) (k : ChainKey) (mac : Bytes)
      (test : IntervalCheck)
      → IsBalanced K P H G anchor r
      → accepts r.params arrival i ≡ test
      → Opened K P H G anchor r
          (some (i, k, mac), buf)
          arrival
          (screen K P H G r buf arrival i k mac test)
  unfolding screen
  screen_lem r buf arrival i k mac safe b e = open_packet_lem r buf arrival i k mac b e
  screen_lem r buf arrival i k mac IntervalCheck.unsafe_late b e =
      reject_lem K P H G anchor r TeslaDrop.unsafe_late b

  on_split_lem :
      (r : TeslaReceiver P) (arrival : ℕ) (parts : Option (ℕ × ChainKey × Bytes) × Bytes)
      → IsBalanced K P H G anchor r
      → Opened K P H G anchor r parts arrival (on_split K P H G r arrival parts)
  unfolding on_split
  on_split_lem r arrival (none, buf) b = reject_lem K P H G anchor r malformed b
  on_split_lem r arrival (some (i, k, mac), buf) b = elim (Bool-cases (ltb (length buf) 12)) [
    | inl short ↦ rw short (reject_lem K P H G anchor r malformed b)
    | inr long ↦ rw long (screen_lem r buf arrival i k mac (accepts r.params arrival i) b refl)
  ]

  -- A call on any datagram keeps the books of a balanced receiver. When it returns `n`, then the datagram
  -- had an extension, the SRTP receiver delivered its packet, exactly `n` waiting packets got their
  -- verdict, and after the drawers of the keys recovered from the disclosed one were emptied, this packet joined the drawer
  -- of its interval, with its MAC, its bytes before decryption, its position as the sequence number
  -- tells it and its arrival time. When it refuses, no verdict was given and no drawer changed. It
  -- panics only if the SRTP receiver does.
  pub process_arrival_lem :
      (r : TeslaReceiver P) (buf : Bytes) (arrival : ℕ)
      → IsBalanced K P H G anchor r
      → Opened K P H G anchor r
          (split_extension buf)
          arrival
          (process_arrival K P H G r buf arrival)
  unfolding process_arrival
  process_arrival_lem r buf arrival b = on_split_lem r arrival (split_extension buf) b

  -- The receivers that datagrams lead to.
  pub data Arrived (r : TeslaReceiver P) : TeslaReceiver P → Type 0 where
    start : Arrived r r
    arrive :
        {s t : TeslaReceiver P} (buf buf' : Bytes) (arrival : ℕ) (out : TeslaResult)
        → Arrived r s
        → process_arrival K P H G s buf arrival ≡ ret (t, buf', out)
        → Arrived r t

  Opened-IsBalanced :
      (r r' : TeslaReceiver P) (parts : Option (ℕ × ChainKey × Bytes) × Bytes) (arrival : ℕ)
      (buf' : Bytes) (out : TeslaResult)
      → Opened K P H G anchor r parts arrival (ret (r', buf', out))
      → IsBalanced K P H G anchor r'
  Opened-IsBalanced r r' parts arrival buf' (TeslaResult.settled n) h = h.0.0
  Opened-IsBalanced r r' parts arrival buf' (TeslaResult.refused why) h = h.0

  Arrived-IsBalanced :
      {r r' : TeslaReceiver P}
      → IsBalanced K P H G anchor r
      → Arrived r r'
      → IsBalanced K P H G anchor r'
  Arrived-IsBalanced b start = b
  Arrived-IsBalanced b (arrive {s} {t} buf buf' arrival out path e) =
      Opened-IsBalanced s t (split_extension buf) arrival buf' out (
        subst (Opened K P H G anchor s (split_extension buf) arrival) e
          (process_arrival_lem s buf arrival (Arrived-IsBalanced b path)))

module _ (K : Hkdf) (P : Srtp) (H : HmacSha256) (G : Gmac) (S : SignatureScheme) where
  -- A receiver exists only for a commitment whose signature verifies, and starts balanced.
  accept_lem :
      (c : TeslaCommitment) (signature public_key : Bytes) (d_t_ns g_max : ℕ)
      (inner : ReceiverKeyManager P) (r : TeslaReceiver P)
      → accept P S c signature public_key d_t_ns g_max inner ≡ ret (some r)
      → (verify S c signature public_key ≡ true) × IsBalanced K P H G c.anchor r
  unfolding accept
  accept_lem c signature public_key d_t_ns g_max inner r =
      elim (Bool-cases (verify S c signature public_key)) [
        | inl good ↦ rw good (elim (Exec-cases (schedule c d_t_ns g_max)) [
          | inl broke ↦ rw broke (λ e. cc)
          | inr (params, made) ↦ rw made (λ e. (
            refl,
            subst (IsBalanced K P H G c.anchor) (ret_some_inj e) (record {
              waits = refl;
              counted = refl;
              peak = omega arith;
              timely = refl;
              rooted = new_verifier-IsRooted H c.anchor params.n_chain params.g_max;
              in_time = tt;
            }),
          ))
        ])
        | inr bad ↦ rw bad (λ e. cc)
      ]

  -- A receiver that `accept` returns has a commitment whose signature verifies. After any sequence of
  -- datagrams its books balance: each delivered packet is verified, forged or waiting, the waiting ones
  -- passed the accept test for their interval when they came, the peak is no less than their number,
  -- there is one latency for each verified packet, and the trusted chain key hashes down to the
  -- commitment's anchor in as many steps as its index.
  pub accept-Arrived :
      (c : TeslaCommitment) (signature public_key : Bytes) (d_t_ns g_max : ℕ)
      (inner : ReceiverKeyManager P) (r r' : TeslaReceiver P)
      → accept P S c signature public_key d_t_ns g_max inner ≡ ret (some r)
      → Arrived K P H G c.anchor r r'
      → (verify S c signature public_key ≡ true) × IsBalanced K P H G c.anchor r'
  accept-Arrived c signature public_key d_t_ns g_max inner r r' e path =
      let (good, balanced) = accept_lem c signature public_key d_t_ns g_max inner r e in
      (good, Arrived-IsBalanced K P H G c.anchor balanced path)
