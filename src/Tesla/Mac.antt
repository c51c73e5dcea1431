-- ===== src/Tesla/Mac.antt =====
-- src/tesla/mac.rs: the tag that a packet carries under its interval's key.
use safe_cast.Base.{
  ℕ, ◌/◌, ◌%◌, ◌^◌, ◌++◌, [], ◌∷◌, ◌≡◌, refl, arith, Bytes, take, length, length-take, replicate,
  be32, be64, Exec, ret, ◌>>=◌,
}
use safe_cast.Crypto.{HmacSha256, Gmac}
use safe_cast.Tesla.Chain.{ChainKey, mac_key}

abbrev pub tesla_mac_len : ℕ
tesla_mac_len = 10

pub data TeslaMacAlg : Type 0 where
  hmac_sha256 gmac_aes128 : TeslaMacAlg

unfoldable pub mac_key_len : TeslaMacAlg → ℕ
mac_key_len hmac_sha256 = 32
mac_key_len gmac_aes128 = 16

-- The keyed object of either algorithm, by the key that it was set up with.
pub data PreparedMac : Type 0 where
  hmac_state : Bytes → PreparedMac
  gmac_state : Bytes → PreparedMac

module _ (H : HmacSha256) (G : Gmac) where
  open H use {hmac, hmac_length}
  open G use {gmac, gmac_length}

  setup : TeslaMacAlg → Bytes → PreparedMac
  setup hmac_sha256 key = hmac_state key
  setup gmac_aes128 key = gmac_state key

  unfoldable pub prepare : TeslaMacAlg → ChainKey → Exec PreparedMac
  unfolding mac_key_len setup
  prepare alg chain_key = do key ← mac_key H chain_key (mac_key_len alg); ret (setup alg key)

  -- The keyed state is the same after a call, so only the tag is returned.
  unfoldable pub tag : PreparedMac → ℕ → Bytes → Bytes
  tag (hmac_state key) ext_index packet =
      take tesla_mac_len (hmac key (be32 (ext_index / 2 ^ 16 % 2 ^ 32) ++ packet))
  tag (gmac_state key) ext_index packet =
      take tesla_mac_len (gmac key (replicate 4 0 ++ be64 ext_index) packet)

  -- The assert of `mac_key` holds for both algorithms: key setup never panics.
  pub prepare_returns :
      (alg : TeslaMacAlg) (k : ChainKey) → (p : PreparedMac) × (prepare alg k ≡ ret p)
  unfolding prepare mac_key
  prepare_returns hmac_sha256 k = (hmac_state (take 32 (hmac k (0x01 ∷ []))), refl)
  prepare_returns gmac_aes128 k = (gmac_state (take 16 (hmac k (0x01 ∷ []))), refl)

  pub length-tag : (p : PreparedMac) (i : ℕ) (packet : Bytes) → length (tag p i packet) ≡ 10
  unfolding tag
  length-tag (hmac_state key) i packet = omega (
    arith,
    length-take 10 (hmac key (be32 (i / 2 ^ 16 % 2 ^ 32) ++ packet)),
    hmac_length key (be32 (i / 2 ^ 16 % 2 ^ 32) ++ packet),
  )
  length-tag (gmac_state key) i packet = omega (
    arith,
    length-take 10 (gmac key (replicate 4 0 ++ be64 i) packet),
    gmac_length key (replicate 4 0 ++ be64 i) packet,
  )
