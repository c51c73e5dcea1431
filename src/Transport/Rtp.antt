-- ===== src/Transport/Rtp.antt =====
-- src/transport/rtp.rs: RTP packets with the fixed 12-byte header.
use safe_cast.Base.{
  ℕ, ◌%◌, ◌^◌, ◌<◌, ◌≡◌, arith, ◌++◌, ◌∷◌, Bytes, Option, none, some, ltb, if◌then◌else◌, length,
  get_or, drop, be16, be32, from_be16, from_be32, from_be16-be16, from_be32-be32, lt→ltb, le→ltb,
}

abbrev pub rtp_header_len : ℕ
rtp_header_len = 12

pub record RtpPacket : Type 0 where
  pub payload_type : ℕ
  pub sequence_number : ℕ
  pub timestamp : ℕ
  pub ssrc : ℕ
  pub payload : Bytes

-- `& 0x7F` on a byte is the remainder by 128.
unfoldable pub to_bytes : RtpPacket → Bytes
to_bytes p =
    0x80
    ∷ p.payload_type % 128
    ∷ (be16 p.sequence_number ++ (be32 p.timestamp ++ (be32 p.ssrc ++ p.payload)))

unfoldable pub from_bytes : Bytes → Option RtpPacket
from_bytes l =
    if ltb (length l) rtp_header_len
    then none
    else some (record {
      payload_type = get_or l 1 0 % 128;
      sequence_number = from_be16 (get_or l 2 0) (get_or l 3 0);
      timestamp = from_be32 (get_or l 4 0) (get_or l 5 0) (get_or l 6 0) (get_or l 7 0);
      ssrc = from_be32 (get_or l 8 0) (get_or l 9 0) (get_or l 10 0) (get_or l 11 0);
      payload = drop rtp_header_len l;
    })

-- The ranges of the fields' types, the payload type being one of seven bits.
pub record IsValid (p : RtpPacket) : Type 0 where
  pub type_bits : p.payload_type < 128
  pub seq_u16 : p.sequence_number < 2 ^ 16
  pub ts_u32 : p.timestamp < 2 ^ 32
  pub ssrc_u32 : p.ssrc < 2 ^ 32

-- A packet is read back from its bytes in every field, and a datagram shorter than the header is
-- refused.
pub from_bytes-to_bytes :
    (p : RtpPacket) (l : Bytes)
    → IsValid p
    → (from_bytes (to_bytes p) ≡ some p) × (length l < 12 → from_bytes l ≡ none)
unfolding to_bytes from_bytes be16 be32
from_bytes-to_bytes p l v = (
  rw (le→ltb (length (to_bytes p)) 12 (omega arith)) (λ i. some (record {
    payload_type = type_back i;
    sequence_number = from_be16-be16 p.sequence_number v.seq_u16 i;
    timestamp = from_be32-be32 p.timestamp v.ts_u32 i;
    ssrc = from_be32-be32 p.ssrc v.ssrc_u32 i;
    payload = p.payload;
  })),
  λ h. rw (lt→ltb (length l) 12 h),
)
  where
    type_back : p.payload_type % 128 % 128 ≡ p.payload_type
    type_back = omega arith
