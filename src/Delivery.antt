-- ===== src/Delivery.antt =====
-- One stream from end to end: the sender of src/simulation/sender.rs over src/keying/granularity.rs,
-- an arrival order as src/simulation/network.rs makes one, and the receiver of src/receiver.rs. The
-- functions here put the modelled operations together the way the measurements of the crate do.
pub mod Link
pub mod Numbers
pub mod Sending
pub mod Opening
pub mod Tracking
pub mod Receiving
pub mod Stream
pub mod Authentic
pub mod Network
use safe_cast.Base.{
  ℕ, zero, suc, ◌+◌, ◌/◌, max, mem, if◌then◌else◌, List, [], ◌∷◌, Bytes, get_elem?, Exec, ret,
  expect, ◌>>=◌,
}
use safe_cast.Crypto.{Hkdf, Srtp}
use safe_cast.Keying.Ratchet.{from_seed}
use safe_cast.Keying.Granularity.{Granularity, epoch_only, per_frame, per_packet, every_n}
use safe_cast.Receiver.Generation.{for_granularity}
use safe_cast.Receiver.Manager.State.{RecvDrop, srtp_replay, ReceiverKeyManager, new_manager}
use safe_cast.Receiver.Manager.{RecvResult, delivered, refused, unprotect}
use safe_cast.Simulation.Network.Config.{Schedule}
use safe_cast.Simulation.Sender.{
  StreamModel, SimulatedSender, start_ts, frame_period, plain_packet, new_simulated, next_protected,
}

-- What the caller of `unprotect` has: the answer, and the buffer if a packet was delivered.
abbrev pub Answer : Type 0
Answer = RecvResult × Bytes

abbrev pub answer : RecvResult → Bytes → Answer
answer (delivered g) buf = (delivered g, buf)
answer (refused why) buf = (refused why, [])

-- The generation that packet number `i` of the stream belongs to.
abbrev pub generation_of : Granularity → StreamModel → ℕ → ℕ
generation_of epoch_only model i = 0
generation_of per_frame model i = i / model.ppf
generation_of per_packet model i = i
generation_of (every_n n) model i = i / n

-- What should come of the arrivals: the first of each packet is delivered in the clear with its
-- generation, a later one is refused as a replay.
abbrev pub outcome : Granularity → StreamModel → List ℕ → ℕ → Answer
outcome granularity model done i =
    if mem i done
    then (refused srtp_replay, [])
    else (delivered (generation_of granularity model i), plain_packet model i)

unfoldable pub outcomes : Granularity → StreamModel → List ℕ → List ℕ → List Answer
outcomes granularity model done [] = []
outcomes granularity model done (i ∷ l) =
    outcome granularity model done i ∷ outcomes granularity model (i ∷ done) l

-- The numbers of the packets of a schedule in arrival order, and what should come of them.
unfoldable pub indices : Schedule → List ℕ
indices [] = []
indices ((t, i) ∷ rest) = i ∷ indices rest

unfoldable pub deliveries : Granularity → StreamModel → Schedule → List Answer
deliveries granularity model [] = []
deliveries granularity model ((t, i) ∷ rest) =
    (delivered (generation_of granularity model i), plain_packet model i)
    ∷ deliveries granularity model rest

module _ (K : Hkdf) (P : Srtp) where
  -- The next `n` datagrams of a sender.
  unfoldable pub send_all : ℕ → SimulatedSender P → Exec (List Bytes)
  send_all zero s = ret []
  send_all (suc n) s = do
    (s', i, buf) ← next_protected K P s
    rest ← send_all n s'
    ret (buf ∷ rest)

  -- The arrivals name the datagrams by their numbers, in any order, missing or repeated.
  unfoldable pub receive_all : ReceiverKeyManager P → List Bytes → List ℕ → Exec (List Answer)
  receive_all m sent [] = ret []
  receive_all m sent (i ∷ l) = do
    datagram ← expect (get_elem? sent i)
    (m', buf, result) ← unprotect K P m datagram
    rest ← receive_all m' sent l
    ret (answer result buf ∷ rest)

  -- Sender and receiver are made of one seed; `count` packets are sent.
  pub transmit :
      Granularity
      → StreamModel
      → (seed : Bytes) (count k seek_cap replay_window : ℕ) → List ℕ
      → Exec (List Answer)
  unfolding send_all receive_all
  transmit granularity model seed count k seek_cap replay_window arrivals = do
    sending ← from_seed seed
    sender ← new_simulated K P model granularity sending
    sent ← send_all count sender
    receiving ← from_seed seed
    receiver ←
        new_manager P (for_granularity granularity start_ts frame_period 0) model.ssrc receiving k
          seek_cap replay_window
    receive_all receiver sent arrivals
