-- ===== src/Tesla/Commitment.antt =====
-- src/tesla/commitment.rs: the signed message that bootstraps a stream.
pub mod Binding
use safe_cast.Base.{ℕ, ◌%◌, ◌^◌, ◌++◌, [], ◌∷◌, Bytes, Bool, length, be32, be64, Exec, expect}
use safe_cast.Crypto.{SignatureScheme}
use safe_cast.Tesla.Chain.{ChainKey}
use safe_cast.Tesla.Mac.{TeslaMacAlg, hmac_sha256, gmac_aes128}
use safe_cast.Tesla.Schedule.{TeslaSchedule, new_schedule}

-- "MLS-SRTP TESLA commitment", the domain separator.
abbrev pub domain : Bytes
domain =
    b'M' ∷ b'L' ∷ b'S' ∷ b'-' ∷ b'S' ∷ b'R' ∷ b'T' ∷ b'P' ∷ b' ' ∷ b'T' ∷ b'E' ∷ b'S' ∷ b'L' ∷ b'A'
    ∷ b' ' ∷ b'c' ∷ b'o' ∷ b'm' ∷ b'm' ∷ b'i' ∷ b't' ∷ b'm' ∷ b'e' ∷ b'n' ∷ b't' ∷ []

pub record TeslaCommitment : Type 0 where
  pub anchor : ChainKey
  pub t0_ns : ℕ
  pub t_int_ns : ℕ
  pub d : ℕ
  pub n_chain : ℕ
  pub mac_alg : TeslaMacAlg
  pub sender_identity : Bytes
  pub ssrc : ℕ
  pub group_id : Bytes
  pub epoch : ℕ

-- The MAC algorithm as one byte.
abbrev pub alg_byte : TeslaMacAlg → ℕ
alg_byte hmac_sha256 = 0
alg_byte gmac_aes128 = 1

-- A length as a `u32`: the cast drops the high bits.
abbrev pub len_u32 : Bytes → ℕ
len_u32 l = length l % 2 ^ 32

-- The fields as they are pushed one after the other, bracketed to the right.
unfoldable pub to_bytes : TeslaCommitment → Bytes
to_bytes c =
    domain
    ++ (c.anchor
        ++ (be64 c.t0_ns
            ++ (be64 c.t_int_ns
                ++ (be32 c.d
                    ++ (be32 c.n_chain
                        ++ ((alg_byte c.mac_alg ∷ [])
                            ++ (be32 (len_u32 c.sender_identity)
                                ++ (c.sender_identity
                                    ++ (be32 c.ssrc
                                        ++ (be32 (len_u32 c.group_id)
                                            ++ (c.group_id ++ be64 c.epoch)))))))))))

unfoldable pub schedule : TeslaCommitment → ℕ → ℕ → Exec TeslaSchedule
schedule c d_t_ns g_max = new_schedule c.t0_ns c.t_int_ns c.d c.n_chain d_t_ns g_max

module _ (S : SignatureScheme) where
  unfoldable pub sign : TeslaCommitment → Bytes → Exec Bytes
  sign c signer = expect (S.sign signer (to_bytes c))

  unfoldable pub verify : TeslaCommitment → Bytes → Bytes → Bool
  verify c signature sender_public_key = S.verify_signature (to_bytes c) sender_public_key signature
