-- ===== src/Tesla/Chain.antt =====
-- src/tesla/chain.rs: the one-way key chain, at the sender (`TeslaChain`) and at the receiver
-- (`ChainVerifier`). A chain key is a byte string; the sender's random final key is an argument.
pub mod Keys
pub mod Trust
pub mod Genuine
use safe_cast.Base.{
  ℕ, zero, suc, ◌≡◌, arith, length, length-take, ◌+◌, ◌-◌, ◌≤◌, ◌<◌, List, [], ◌∷◌, ◌++◌, Bytes,
  bytes_eq, ltb, leb, if◌then◌else◌, take, replicate, set, get_or, get_elem?, Exec, ret, expect,
  assert, ◌>>=◌, ◌>>◌,
}
use mathlib.Core.List.{reverse}
use safe_cast.Crypto.{HmacSha256}

abbrev pub tesla_key_len : ℕ
tesla_key_len = 20

abbrev pub ChainKey : Type 0
ChainKey = Bytes

-- `[0u8; TESLA_KEY_LEN]`.
abbrev pub zero_key : ChainKey
zero_key = replicate tesla_key_len 0

pub data Disclosure : Type 0 where
  new : List (ℕ × ChainKey) → Disclosure
  not_new invalid too_far_ahead beyond_chain : Disclosure

pub record ChainVerifier : Type 0 where
  pub n_chain : ℕ
  pub g_max : ℕ
  pub trusted_index : ℕ
  pub trusted_key : ChainKey

unfoldable pub new_verifier : ChainKey → ℕ → ℕ → ChainVerifier
new_verifier anchor n_chain g_max = record {
  n_chain = n_chain;
  g_max = g_max;
  trusted_index = 0;
  trusted_key = anchor;
}

pub record TeslaChain : Type 0 where
  pub keys : List ChainKey

-- `TeslaChain::key` and `TeslaChain::anchor`: an index out of bounds panics.
unfoldable pub key : TeslaChain → ℕ → Exec ChainKey
key chain i = expect (get_elem? chain.keys i)

unfoldable pub anchor : TeslaChain → Exec ChainKey
anchor chain = expect (get_elem? chain.keys 0)

module _ (H : HmacSha256) where
  open H use {hmac, hmac_length}

  unfoldable pub f_step : ChainKey → ChainKey
  f_step key = take tesla_key_len (hmac key (0x00 ∷ []))

  pub length-f_step : (key : ChainKey) → length (f_step key) ≡ 20
  unfolding f_step
  length-f_step key =
      omega (arith, length-take 20 (hmac key (0x00 ∷ [])), hmac_length key (0x00 ∷ []))

  unfoldable pub mac_key : ChainKey → ℕ → Exec Bytes
  mac_key key n_f = do assert (leb n_f 32); ret (take n_f (hmac key (0x01 ∷ [])))

  -- `for i in (0..n).rev() { keys[i] = f_step(&keys[i + 1]) }`, the argument being the rounds left.
  pub fill_down : ℕ → List ChainKey → List ChainKey
  fill_down zero keys = keys
  fill_down (suc i) keys = fill_down i (set keys i (f_step (get_or keys (suc i) zero_key)))

  unfoldable pub from_final_key : ChainKey → ℕ → TeslaChain
  unfolding fill_down
  from_final_key k_final n_chain = record {
    keys = fill_down n_chain (set (replicate (n_chain + 1) zero_key) n_chain k_final);
  }

  -- The random generator overwrites a buffer of zeros.
  unfoldable pub generate : (fill_bytes : Bytes → Bytes) → ℕ → TeslaChain
  unfolding from_final_key
  generate fill_bytes n_chain = from_final_key (fill_bytes zero_key) n_chain

  -- The loop of `check`: `rounds` rounds from `s`, over the running key and the keys collected.
  pub descend :
      (rounds index trusted s : ℕ) → ChainKey → List (ℕ × ChainKey) → ChainKey × List (ℕ × ChainKey)
  descend zero index trusted s k recovered = (k, recovered)
  descend (suc rounds) index trusted s k recovered =
      let k' = f_step k in
      let idx = index - s in
      descend rounds index trusted (s + 1) k'
        (if ltb trusted idx then recovered ++ ((idx, k') ∷ []) else recovered)

  unfoldable pub check : ChainVerifier → ChainKey → ℕ → ChainVerifier × Disclosure
  check v candidate index =
      if leb index v.trusted_index
      then (v, not_new)
      else if ltb v.n_chain index
      then (v, beyond_chain)
      else if ltb v.g_max (index - v.trusted_index)
      then (v, too_far_ahead)
      else (let (k, recovered) =
            descend (index - v.trusted_index) index v.trusted_index 1 candidate
              ((index, candidate) ∷ []) in
          if bytes_eq k v.trusted_key
          then (
            record v { trusted_index = index; trusted_key = candidate },
            new (reverse recovered),
          )
          else (v, invalid))
