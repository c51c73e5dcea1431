-- ===== src/Tests/Formats.antt =====
-- The byte formats and the position recovery at concrete inputs.
use safe_cast.Base.{
  ℕ, zero, suc, ◌+◌, ◌%◌, ◌^◌, ◌≤◌, ◌<◌, ◌≡◌, refl, arith, ◌++◌, [], ◌∷◌, none, some, Bytes,
  AreBytes, max, ◌/◌, ret, length, replicate, true, bytes_eq→eq, append_inj,
}
use safe_cast.Transport.Rtp
use safe_cast.Transport.Rtp.{RtpPacket, from_bytes, from_bytes-to_bytes}
use safe_cast.Tesla.Extension.{append_extension, split_extension}
use safe_cast.Tesla.Extension.RoundTrip.{split-append, append-split}
use safe_cast.Tesla.Commitment.{TeslaCommitment, to_bytes, sign, verify}
use safe_cast.Tesla.Commitment.Binding.{IsValid, to_bytes_inj, sign-verify}
use safe_cast.Tesla.Mac.{hmac_sha256}
use safe_cast.Receiver.IndexRecovery.{recover}
use safe_cast.Receiver.IndexRecovery.Nearest.{distance, recover_nearest, recover_true}
use safe_cast.Simulation.Sender.{StreamModel, plain_packet, start_ts, frame_period}
use safe_cast.Simulation.Sender.Stream.{plain_packet_lem}
use safe_cast.Receiver.Generation.{frame_generation}
use safe_cast.Tests.Instances.{key0, scheme0, packet0}

abbrev rtp0 : RtpPacket
rtp0 = record {
  payload_type = 96;
  sequence_number = 1000;
  timestamp = 3000;
  ssrc = 77;
  payload = 1 ∷ 2 ∷ 3 ∷ [];
}

from_bytes-to_bytes_example :
    (from_bytes (Rtp.to_bytes rtp0) ≡ some rtp0)
    × (length (packet0 ++ packet0) < 12 → from_bytes (packet0 ++ packet0) ≡ none)
from_bytes-to_bytes_example = from_bytes-to_bytes rtp0 (packet0 ++ packet0) (record {
  type_bits = omega arith;
  seq_u16 = omega arith;
  ts_u32 = omega arith;
  ssrc_u32 = omega arith;
})

abbrev tag0 : Bytes
tag0 = replicate 10 3

split-append_example :
    split_extension (append_extension packet0 5 key0 tag0) ≡ (some (5, key0, tag0), packet0)
split-append_example = split-append packet0 5 key0 tag0 (omega arith) (omega arith) refl refl

abbrev datagram0 : Bytes
datagram0 = replicate 40 200

bytes0 : (n : ℕ) → AreBytes (replicate n 200)
bytes0 n = go n
  where
    go : (n : ℕ) → AreBytes (replicate n 200)
    go zero = tt
    go (suc n) = (omega arith, go n)

append-split_example :
    (length datagram0 ≤ 34 → split_extension datagram0 ≡ (none, datagram0))
    × (34 < length datagram0
        → (i : ℕ) × (k : Bytes) × (m : Bytes) × (rest : Bytes) × (split_extension datagram0
            ≡ (some (i, k, m), rest))
          × (append_extension rest i k m ≡ datagram0)
          × (length rest + 34 ≡ length datagram0))
append-split_example = append-split datagram0 (bytes0 40)

abbrev commitment0 : TeslaCommitment
commitment0 = record {
  anchor = key0;
  t0_ns = 1000;
  t_int_ns = 10;
  d = 2;
  n_chain = 50;
  mac_alg = hmac_sha256;
  sender_identity = 1 ∷ 2 ∷ [];
  ssrc = 7;
  group_id = 4 ∷ [];
  epoch = 3;
}

commitment0-IsValid : IsValid commitment0
commitment0-IsValid = record {
  key_len = refl;
  t0_u64 = omega arith;
  t_int_u64 = omega arith;
  d_u32 = omega arith;
  n_chain_u32 = omega arith;
  identity_len = omega arith;
  ssrc_u32 = omega arith;
  group_len = omega arith;
  epoch_u64 = omega arith;
}

to_bytes_inj_example : commitment0 ≡ commitment0
to_bytes_inj_example =
    to_bytes_inj commitment0 commitment0 commitment0-IsValid commitment0-IsValid refl

abbrev signer0 : Bytes
signer0 = 8 ∷ 8 ∷ []

abbrev signature0 : Bytes
signature0 = signer0 ++ to_bytes commitment0

sign-verify_example :
    (verify scheme0 commitment0 signature0 signer0 ≡ true)
    × ((c : TeslaCommitment)
        → IsValid c
        → verify scheme0 c signature0 signer0 ≡ true
        → c ≡ commitment0)
unfolding sign
sign-verify_example =
    sign-verify scheme0 commitment0 signer0 signature0 commitment0-IsValid refl (λ message e.
      (append_inj signer0 signer0 message (to_bytes commitment0) refl
        (bytes_eq→eq (signer0 ++ message) signature0 e)).1)

recover_nearest_example :
    (recover (record { highest = some 70000 }) 65000 % 2 ^ 16 ≡ 65000)
    × (distance (recover (record { highest = some 70000 }) 65000) 70000 ≤ distance 130536 70000)
recover_nearest_example =
    recover_nearest 70000 65000 130536 (omega arith) (omega arith) (omega arith)

recover_true_example : recover (record { highest = some 65530 }) (65540 % 2 ^ 16) ≡ 65540
recover_true_example = recover_true 65530 65540 (omega arith) (omega arith) (omega arith)

abbrev model0 : StreamModel
model0 = record { payload_size = 16; ppf = 10; ssrc = 7 }

plain_packet_lem_example :
    (p : RtpPacket) × (from_bytes (plain_packet model0 25) ≡ some p)
    × (Rtp.to_bytes p ≡ plain_packet model0 25)
    × (p.payload_type ≡ 96)
    × (p.sequence_number ≡ 25)
    × (p.ssrc ≡ model0.ssrc)
    × (length p.payload ≡ max model0.payload_size 8)
    × (frame_generation p.timestamp start_ts frame_period ≡ ret (25 / model0.ppf))
    × ((j : ℕ) → j < 2 ^ 64 → plain_packet model0 j ≡ plain_packet model0 25 → j ≡ 25)
plain_packet_lem_example = plain_packet_lem model0 25 (omega arith) (omega arith) (omega arith)
