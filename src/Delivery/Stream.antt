-- ===== src/Delivery/Stream.antt =====
-- A stream from end to end, over src/simulation/sender.rs, src/keying and src/receiver.rs.
use safe_cast.Base.{
  ℕ, ◌^◌, ◌≤◌, ◌<◌, ◌≡◌, refl, arith, List, [], Bytes, ==_iff, length, none, replicate,
  length-replicate, ret,
}
use safe_cast.Crypto.{Hkdf, Srtp, IsWindow, window_of}
use safe_cast.Keying.Ratchet.{from_seed}
use safe_cast.Keying.Granularity.{Granularity, epoch_only, per_frame, per_packet, every_n}
use safe_cast.Keying.Granularity.Boundary.{IsUsable}
use safe_cast.Receiver.Generation.{for_granularity}
use safe_cast.Receiver.Manager.State.{ReceiverKeyManager, new_manager}
use safe_cast.Receiver.Manager.Making.{manager_of, manager_of-IsSynced, new_manager_returns}
use safe_cast.Simulation.Sender.{StreamModel, start_ts, frame_period}
use safe_cast.Delivery.Link.{SrtpLink}
use safe_cast.Delivery.Numbers.{InTicks, AreInReach, kept_index}
use safe_cast.Delivery.Sending.{new_simulated-CarriesFrom}
use safe_cast.Delivery.Tracking.{IsTracking}
use safe_cast.Delivery.Receiving.{receive_all-outcomes}
use safe_cast.Delivery.{outcomes, transmit}

module _ (K : Hkdf) (P : Srtp) (L : SrtpLink P) (seed : Bytes) where
  pub from_seed_lem :
      length seed ≡ 32 → from_seed seed ≡ ret (record { chain_secret = seed; generation = 0 })
  unfolding from_seed
  from_seed_lem h = rw ((==_iff (length seed) 32).1 h) refl

  no_index : (gr : Granularity) → none ≡ kept_index gr none
  no_index epoch_only = refl
  no_index per_frame = refl
  no_index per_packet = refl
  no_index (every_n n) = refl

  -- A receiver that is made from the seed has seen nothing yet.
  pub new_manager-IsTracking :
      (model : StreamModel) (granularity : Granularity) (k seek_cap window : ℕ)
      → 1 ≤ k
      → IsWindow window
      → (m : ReceiverKeyManager P) × (new_manager P
            (for_granularity granularity start_ts frame_period 0)
            model.ssrc
            (record { chain_secret = seed; generation = 0 })
            k
            seek_cap
            window
          ≡ ret m)
        × IsTracking K P L seed model granularity k seek_cap (window_of window) m [] 0
  new_manager-IsTracking model granularity k seek_cap window pos ok =
      let scheme = for_granularity granularity start_ts frame_period 0 in
      let (bare, session, creates, added, made) =
        new_manager_returns K P seed scheme model.ssrc k seek_cap window pos ok in
      let (n, w, seen) = L.starts bare session model.ssrc window (replicate 28 0) creates added in
      let m = manager_of K P seed scheme model.ssrc k seek_cap session in
      (
        m,
        made,
        record {
          synced =
              manager_of-IsSynced K P seed scheme model.ssrc k seek_cap session pos
                (P.stream-add_stream bare session model.ssrc window (replicate 28 0) added);
          scheme = refl;
          slots = length-replicate k none;
          capped = refl;
          source = refl;
          windowed = w;
          indexed = n;
          opened = seen;
          below = λ j h. absurd (cc);
          front = refl;
          top = no_index granularity;
        },
      )

  -- Sender and receiver made from one seed of 32 bytes, for a stream of `count` packets, no more than
  -- 2^48 and each frame in the first 2^32 ticks where there is a key for each frame, with a packet a
  -- frame at least, an SSRC of 32 bits, a granularity that divides by no zero and a retention `k` of 1
  -- at least. The replay window is one that libsrtp accepts: 64 to 32767, or 0 for its default of 128. The
  -- datagrams arrive in any order, some missing and some repeated, as long as each arrival is within
  -- 32766 packets ahead of the newest before it, within the replay window behind it, within `k`
  -- generations behind its generation and within the seek cap ahead of it. Then no call of either side panics: the first arrival of each packet is delivered with the number of
  -- its generation and with the bytes that the sender encrypted, and each later one is refused as a replay.
  pub transmit_lem :
      (granularity : Granularity) (model : StreamModel) (count k seek_cap window : ℕ)
      (arrivals : List ℕ)
      → length seed ≡ 32
      → IsUsable granularity
      → 0 < model.ppf
      → model.ssrc < 2 ^ 32
      → count ≤ 2 ^ 48
      → InTicks granularity model count
      → 1 ≤ k
      → IsWindow window
      → AreInReach granularity model count k seek_cap (window_of window) 0 arrivals
      → transmit K P granularity model seed count k seek_cap window arrivals
        ≡ ret (outcomes granularity model [] arrivals)
  unfolding transmit
  transmit_lem granularity model count k seek_cap window arrivals size usable framed short small
        ticks pos accepted reach =
      let (s, sent, made, runs, all, carry) =
        new_simulated-CarriesFrom K P L seed model granularity usable framed short count ticks
          small in
      let (m, made', tracks) =
        new_manager-IsTracking model granularity k seek_cap window pos accepted in
      rw (from_seed_lem size, made, runs, made')
        (receive_all-outcomes K P L seed model granularity k seek_cap (window_of window) usable
          framed short count sent m [] 0 arrivals ticks small (omega arith) all carry tracks reach)
