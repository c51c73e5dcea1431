-- ===== src/Tesla/Commitment/Binding.antt =====
-- What a signature over src/tesla/commitment.rs's bytes binds.
use safe_cast.Base.{
  ℕ, ◌<◌, ◌^◌, ◌≡◌, ◌∙◌, refl, sym, arith, ◌++◌, [], ◌∷◌, Bytes, true, ret, length, append_inj,
  be32, be64, be32_inj, be64_inj, length-be32, length-be64,
}
use safe_cast.Crypto.{SignatureScheme}
use safe_cast.Tesla.Mac.{TeslaMacAlg, hmac_sha256, gmac_aes128}
use safe_cast.Tesla.Commitment.{TeslaCommitment, domain, alg_byte, len_u32, to_bytes, sign, verify}

-- The ranges of the fields' types, and lengths that a `u32` can hold.
pub record IsValid (c : TeslaCommitment) : Type 0 where
  pub key_len : length c.anchor ≡ 20
  pub t0_u64 : c.t0_ns < 2 ^ 64
  pub t_int_u64 : c.t_int_ns < 2 ^ 64
  pub d_u32 : c.d < 2 ^ 32
  pub n_chain_u32 : c.n_chain < 2 ^ 32
  pub identity_len : length c.sender_identity < 2 ^ 32
  pub ssrc_u32 : c.ssrc < 2 ^ 32
  pub group_len : length c.group_id < 2 ^ 32
  pub epoch_u64 : c.epoch < 2 ^ 64

alg_byte_inj : (a b : TeslaMacAlg) → alg_byte a ∷ [] ≡ alg_byte b ∷ [] → a ≡ b
alg_byte_inj hmac_sha256 hmac_sha256 e = refl
alg_byte_inj hmac_sha256 gmac_aes128 e = cc
alg_byte_inj gmac_aes128 hmac_sha256 e = cc
alg_byte_inj gmac_aes128 gmac_aes128 e = refl

-- A word at the front is read off.
cut32 :
    (m n : ℕ) (xs ys : Bytes)
    → m < 2 ^ 32
    → n < 2 ^ 32
    → be32 m ++ xs ≡ be32 n ++ ys
    → (m ≡ n) × (xs ≡ ys)
cut32 m n xs ys hm hn e =
    let p = append_inj (be32 m) (be32 n) xs ys (length-be32 m ∙ sym (length-be32 n)) e in
    (be32_inj m n hm hn p.0, p.1)

cut64 :
    (m n : ℕ) (xs ys : Bytes)
    → m < 2 ^ 64
    → n < 2 ^ 64
    → be64 m ++ xs ≡ be64 n ++ ys
    → (m ≡ n) × (xs ≡ ys)
cut64 m n xs ys hm hn e =
    let p = append_inj (be64 m) (be64 n) xs ys (length-be64 m ∙ sym (length-be64 n)) e in
    (be64_inj m n hm hn p.0, p.1)

-- So is a string behind its length.
cut_prefixed :
    (s t xs ys : Bytes)
    → length s < 2 ^ 32
    → length t < 2 ^ 32
    → be32 (len_u32 s) ++ (s ++ xs) ≡ be32 (len_u32 t) ++ (t ++ ys)
    → (s ≡ t) × (xs ≡ ys)
cut_prefixed s t xs ys hs ht e =
    let p = cut32 (len_u32 s) (len_u32 t) (s ++ xs) (t ++ ys) (omega arith) (omega arith) e in
    append_inj s t xs ys (omega (arith, p.0)) p.1

-- The signed bytes determine the commitment: two commitments with the same bytes agree in every
-- field, for field values in the ranges of their types and strings shorter than 2^32 bytes.
pub to_bytes_inj :
    (c c' : TeslaCommitment) → IsValid c → IsValid c' → to_bytes c ≡ to_bytes c' → c ≡ c'
unfolding to_bytes
to_bytes_inj c c' v v' e =
    let p0 = append_inj domain domain _ _ refl e in
    let p1 = append_inj c.anchor c'.anchor _ _ (v.key_len ∙ sym v'.key_len) p0.1 in
    let p2 = cut64 c.t0_ns c'.t0_ns _ _ v.t0_u64 v'.t0_u64 p1.1 in
    let p3 = cut64 c.t_int_ns c'.t_int_ns _ _ v.t_int_u64 v'.t_int_u64 p2.1 in
    let p4 = cut32 c.d c'.d _ _ v.d_u32 v'.d_u32 p3.1 in
    let p5 = cut32 c.n_chain c'.n_chain _ _ v.n_chain_u32 v'.n_chain_u32 p4.1 in
    let p6 = append_inj (alg_byte c.mac_alg ∷ []) (alg_byte c'.mac_alg ∷ []) _ _ refl p5.1 in
    let p7 =
      cut_prefixed c.sender_identity c'.sender_identity _ _ v.identity_len v'.identity_len p6.1 in
    let p8 = cut32 c.ssrc c'.ssrc _ _ v.ssrc_u32 v'.ssrc_u32 p7.1 in
    let p9 = cut_prefixed c.group_id c'.group_id _ _ v.group_len v'.group_len p8.1 in
    λ i. record {
      anchor = p1.0 i;
      t0_ns = p2.0 i;
      t_int_ns = p3.0 i;
      d = p4.0 i;
      n_chain = p5.0 i;
      mac_alg = alg_byte_inj c.mac_alg c'.mac_alg p6.0 i;
      sender_identity = p7.0 i;
      ssrc = p8.0 i;
      group_id = p9.0 i;
      epoch = be64_inj c.epoch c'.epoch v.epoch_u64 v'.epoch_u64 p9.1 i;
    }

module _ (S : SignatureScheme) where
  open S use {public_key, sign_verifies}

  -- The receiver accepts what the sender signed, and nothing else that it could be taken for: the
  -- signature on `c` verifies for `c`, and if a signature verifies only the bytes that were signed
  -- with it, whatever other commitment it verifies for is `c` in every field.
  pub sign-verify :
      (c : TeslaCommitment) (signer signature : Bytes)
      → IsValid c
      → sign S c signer ≡ ret signature
      → ((message : Bytes)
          → S.verify_signature message (public_key signer) signature ≡ true
          → message ≡ to_bytes c)
      → (verify S c signature (public_key signer) ≡ true)
        × ((c' : TeslaCommitment)
            → IsValid c'
            → verify S c' signature (public_key signer) ≡ true
            → c' ≡ c)
  unfolding sign verify
  sign-verify c signer signature v signed unforged = (
    sign_verifies signer (to_bytes c) signature (ground arith),
    λ c' v' ok. to_bytes_inj c' c v' v (unforged (to_bytes c') ok),
  )
