-- ===== src/Delivery/Authentic.antt =====
-- An authenticated stream: src/tesla/sender.rs over the stream's sender, src/tesla/commitment.rs, and
-- src/tesla/receiver.rs over the stream's receiver. The functions here put the modelled operations
-- together the way the crate's receiver and sender are used.
pub mod OnAir
pub mod Hearing
pub mod Accepting
pub mod Signing
pub mod Broadcast
use safe_cast.Base.{
  ℕ, zero, suc, mem, if◌then◌else◌, List, [], ◌∷◌, Bytes, Option, none, some, get_elem?, Exec, ret,
  expect, ◌>>=◌,
}
use safe_cast.Crypto.{Hkdf, Srtp, HmacSha256, Gmac, SignatureScheme}
use safe_cast.Keying.Ratchet.{from_seed}
use safe_cast.Keying.Granularity.{Granularity}
use safe_cast.Receiver.Generation.{for_granularity}
use safe_cast.Receiver.Manager.State.{new_manager}
use safe_cast.Simulation.Network.Config.{Schedule}
use safe_cast.Simulation.Sender.{StreamModel, start_ts, frame_period, plain_packet, new_simulated}
use safe_cast.Tesla.Chain.{ChainKey}
use safe_cast.Tesla.Commitment.{TeslaCommitment, sign}
use safe_cast.Tesla.Mac.{TeslaMacAlg}
use safe_cast.Tesla.Schedule.{TeslaSchedule}
use safe_cast.Tesla.Sender.{TeslaSender, sender_anchor, new_sender, authenticate}
use safe_cast.Tesla.Receiver.State.{TeslaReceiver, TeslaResult, settled, refused}
use safe_cast.Tesla.Receiver.{accept, process_arrival}
use safe_cast.Delivery.{send_all}

-- What the caller of `process_arrival` has: the buffer, unless the packet was refused.
abbrev pub tesla_answer : TeslaResult → Bytes → Option Bytes
tesla_answer (settled n) buf = some buf
tesla_answer (refused why) buf = none

-- What should come of an arrival: the first of each packet is delivered in the clear.
abbrev pub tesla_outcome : StreamModel → List ℕ → ℕ → Option Bytes
tesla_outcome model done i = if mem i done then none else some (plain_packet model i)

unfoldable pub tesla_outcomes : StreamModel → List ℕ → Schedule → List (Option Bytes)
tesla_outcomes model done [] = []
tesla_outcomes model done ((t, i) ∷ l) =
    tesla_outcome model done i ∷ tesla_outcomes model (i ∷ done) l

-- The commitment that the sender signs for its stream.
abbrev pub commit :
    TeslaSchedule → TeslaMacAlg → (anchor identity group_id : Bytes) → ℕ → ℕ → TeslaCommitment
commit params alg anchor identity group_id ssrc epoch = record {
  anchor = anchor;
  t0_ns = params.t0_ns;
  t_int_ns = params.t_int_ns;
  d = params.d;
  n_chain = params.n_chain;
  mac_alg = alg;
  sender_identity = identity;
  ssrc = ssrc;
  group_id = group_id;
  epoch = epoch;
}

module _ (H : HmacSha256) (G : Gmac) where
  -- The datagrams from packet `i` on, each authenticated at the clock reading `send_at` of its packet.
  unfoldable pub authenticate_all :
      TeslaSender → (send_at : ℕ → ℕ) → ℕ → List Bytes → Exec (List Bytes)
  authenticate_all s send_at i [] = ret []
  authenticate_all s send_at i (buf ∷ bufs) = do
    (s', datagram) ← authenticate H G s buf i (send_at i)
    rest ← authenticate_all s' send_at (suc i) bufs
    ret (datagram ∷ rest)

  module _ (K : Hkdf) (P : Srtp) where
    -- The answers of the receiver, and its count of forged packets at the end. The arrivals name the
    -- datagrams by their numbers, each with its arrival time.
    unfoldable pub hear_all :
        TeslaReceiver P → List Bytes → Schedule → Exec (List (Option Bytes) × ℕ)
    hear_all r sent [] = ret ([], r.stats.forged)
    hear_all r sent ((t, i) ∷ l) = do
      datagram ← expect (get_elem? sent i)
      (r', buf, result) ← process_arrival K P H G r datagram t
      (rest, forged) ← hear_all r' sent l
      ret (tesla_answer result buf ∷ rest, forged)

    -- Sender and receiver are made of one seed; `count` packets are sent.
    pub broadcast :
        SignatureScheme
        → Granularity
        → StreamModel
        → TeslaSchedule
        → TeslaMacAlg
        → (fill_bytes : Bytes → Bytes) → (send_at : ℕ → ℕ) → (signer identity group_id : Bytes)
        → (epoch : ℕ) → (seed : Bytes) (count k seek_cap replay_window : ℕ) → Schedule
        → Exec (List (Option Bytes) × ℕ)
    unfolding authenticate_all hear_all
    broadcast S granularity model params alg fill_bytes send_at signer identity group_id epoch seed
          count k seek_cap replay_window arrivals =
        do
          sending ← from_seed seed
          sender ← new_simulated K P model granularity sending
          sent ← send_all K P count sender
          tesla ← new_sender H G params alg fill_bytes
          anchor ← sender_anchor tesla
          let c = commit params alg anchor identity group_id model.ssrc epoch
          signature ← sign S c signer
          datagrams ← authenticate_all tesla send_at 0 sent
          receiving ← from_seed seed
          inner ←
              new_manager P (for_granularity granularity start_ts frame_period 0) model.ssrc
                receiving k seek_cap replay_window
          accepted ← accept P S c signature (S.public_key signer) params.d_t_ns params.g_max inner
          receiver ← expect accepted
          hear_all receiver datagrams arrivals
