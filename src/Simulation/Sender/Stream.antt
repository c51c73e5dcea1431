-- ===== src/Simulation/Sender/Stream.antt =====
-- The packets of src/simulation/sender.rs as the parser and the receiver's scheme see them.
use safe_cast.Base.{
  ℕ, ◌+◌, ◌*◌, ◌/◌, ◌%◌, ◌^◌, ◌<◌, ◌≡◌, ◌∙◌, refl, sym, ap, arith, some, max, length, le64,
  replicate, length-append, length-replicate, ◌-◌, ret, le64_inj,
}
use safe_cast.Transport.Rtp.{RtpPacket, from_bytes, to_bytes, from_bytes-to_bytes}
use safe_cast.Transport.Rtp
use safe_cast.Receiver.Generation.{frame_generation, frame_generation_lem}
use safe_cast.Simulation.Sender.{
  StreamModel, packet_timestamp, payload, plain_packet, frame_period, start_ts,
}

-- The packet that the model means.
abbrev pub rtp_packet : StreamModel → ℕ → RtpPacket
rtp_packet m i = record {
  payload_type = 96;
  sequence_number = i % 2 ^ 16;
  timestamp = packet_timestamp m i;
  ssrc = m.ssrc;
  payload = payload m i;
}

-- The stamp tells packets apart: equal payloads come from one packet number.
pub payload_inj :
    (m : StreamModel) (i j : ℕ) → i < 2 ^ 64 → j < 2 ^ 64 → payload m i ≡ payload m j → i ≡ j
unfolding payload
payload_inj m i j hi hj e = le64_inj i j _ _ hi hj e

-- The receiver's frame scheme, set up with the stream's first timestamp and its frame period, finds
-- the frame of every packet of the stream's first 2^32 ticks.
pub frame_generation-packet_timestamp :
    (m : StreamModel) (i : ℕ)
    → i / m.ppf * frame_period < 2 ^ 32
    → frame_generation (packet_timestamp m i) start_ts frame_period ≡ ret (i / m.ppf)
unfolding packet_timestamp
frame_generation-packet_timestamp m i h =
    ap (λ t. frame_generation t 0 1500) same
    ∙ frame_generation_lem 0 1500 (i / m.ppf) 0 (omega arith) (omega arith) (omega (arith, h))
  where
    same : packet_timestamp m i ≡ (0 + (i / m.ppf * 1500 + 0)) % 2 ^ 32
    same = omega (arith, h)

rtp_packet-IsValid : (m : StreamModel) (i : ℕ) → m.ssrc < 2 ^ 32 → Rtp.IsValid (rtp_packet m i)
unfolding packet_timestamp
rtp_packet-IsValid m i h = record {
  type_bits = omega arith;
  seq_u16 = omega arith;
  ts_u32 = omega arith;
  ssrc_u32 = h;
}

from_bytes-plain_packet :
    (m : StreamModel) (i : ℕ)
    → m.ssrc < 2 ^ 32
    → from_bytes (plain_packet m i) ≡ some (rtp_packet m i)
unfolding plain_packet to_bytes
from_bytes-plain_packet m i h =
    (from_bytes-to_bytes (rtp_packet m i) (plain_packet m i) (rtp_packet-IsValid m i h)).0

length-payload : (m : StreamModel) (i : ℕ) → length (payload m i) ≡ max m.payload_size 8
unfolding payload le64
length-payload m i = omega (
  arith,
  length-append (le64 i) (replicate (m.payload_size - 8) 0),
  length-replicate {A = ℕ} (m.payload_size - 8) 0,
)

-- What the receiving side reads off a packet of the model, whose SSRC has 32 bits, for a packet of the first
-- 2^64 whose frame is in the first 2^32 ticks. It parses to an RTP packet of payload type 96, with the
-- stream's SSRC, its number modulo 2^16 as sequence number and a payload of the model's size, of 8 bytes at
-- least, and encoding that gives the packet again. From the timestamp the receiver's frame scheme finds the frame, `ppf` packets
-- to each; and no other packet number of 64 bits gives the same packet.
pub plain_packet_lem :
    (m : StreamModel) (i : ℕ)
    → m.ssrc < 2 ^ 32
    → i < 2 ^ 64
    → i / m.ppf * frame_period < 2 ^ 32
    → (p : RtpPacket) × (from_bytes (plain_packet m i) ≡ some p)
      × (to_bytes p ≡ plain_packet m i)
      × (p.payload_type ≡ 96)
      × (p.sequence_number ≡ i % 2 ^ 16)
      × (p.ssrc ≡ m.ssrc)
      × (length p.payload ≡ max m.payload_size 8)
      × (frame_generation p.timestamp start_ts frame_period ≡ ret (i / m.ppf))
      × ((j : ℕ) → j < 2 ^ 64 → plain_packet m j ≡ plain_packet m i → j ≡ i)
unfolding plain_packet to_bytes
plain_packet_lem m i h hi ticks = (
  rtp_packet m i,
  from_bytes-plain_packet m i h,
  refl,
  refl,
  refl,
  refl,
  length-payload m i,
  frame_generation-packet_timestamp m i ticks,
  λ j hj e. payload_inj m j i hj hi (
      same_payload
        (sym (from_bytes-plain_packet m j h) ∙ ap from_bytes e ∙ from_bytes-plain_packet m i h)),
)
  where
    same_payload : {p q : RtpPacket} → some p ≡ some q → p.payload ≡ q.payload
    same_payload {p} {q} e = let same : p ≡ q = cc in ap (λ (x : RtpPacket). x.payload) same
