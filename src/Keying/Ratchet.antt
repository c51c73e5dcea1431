-- ===== src/Keying/Ratchet.antt =====
-- src/keying/ratchet.rs: the key ratchet of one stream in one epoch.
pub mod Chain
use safe_cast.Base.{
  ℕ, ◌+◌, ◌==◌, [], ◌∷◌, Bytes, length, take, drop, Exec, ret, assert, ◌>>=◌, ◌>>◌,
}
use safe_cast.Crypto.{Hkdf}

-- "next generation" and "srtp key material".
abbrev pub chain_label : Bytes
chain_label =
    b'n' ∷ b'e' ∷ b'x' ∷ b't' ∷ b' ' ∷ b'g' ∷ b'e' ∷ b'n' ∷ b'e' ∷ b'r' ∷ b'a' ∷ b't' ∷ b'i' ∷ b'o'
    ∷ b'n' ∷ []

abbrev pub key_material_label : Bytes
key_material_label =
    b's' ∷ b'r' ∷ b't' ∷ b'p' ∷ b' ' ∷ b'k' ∷ b'e' ∷ b'y' ∷ b' ' ∷ b'm' ∷ b'a' ∷ b't' ∷ b'e' ∷ b'r'
    ∷ b'i' ∷ b'a' ∷ b'l' ∷ []

abbrev pub chain_secret_len : ℕ
chain_secret_len = 32

abbrev pub aes_128_gcm_key_len : ℕ
aes_128_gcm_key_len = 16

abbrev pub aes_128_gcm_salt_len : ℕ
aes_128_gcm_salt_len = 12

abbrev pub srtp_key_material_len : ℕ
srtp_key_material_len = aes_128_gcm_key_len + aes_128_gcm_salt_len

-- `key(16) || salt(12)`.
abbrev pub KeySalt : Type 0
KeySalt = Bytes

pub record StreamRatchet : Type 0 where
  pub chain_secret : Bytes
  pub generation : ℕ

unfoldable pub from_seed : Bytes → Exec StreamRatchet
from_seed seed = do
  assert (length seed == chain_secret_len)
  ret (record { chain_secret = seed; generation = 0 })

unfoldable pub split_key_salt : KeySalt → Bytes × Bytes
split_key_salt key_salt = (take aes_128_gcm_key_len key_salt, drop aes_128_gcm_key_len key_salt)

module _ (K : Hkdf) where
  open K use {expand}

  unfoldable pub derive_key_salt : StreamRatchet → KeySalt
  derive_key_salt r = expand r.chain_secret key_material_label srtp_key_material_len

  unfoldable pub advance : StreamRatchet → StreamRatchet
  advance r = record {
    chain_secret = expand r.chain_secret chain_label chain_secret_len;
    generation = r.generation + 1;
  }

  unfoldable pub next_key_salt : StreamRatchet → (ℕ × KeySalt) × StreamRatchet
  unfolding derive_key_salt advance
  next_key_salt r = ((r.generation, derive_key_salt r), advance r)
