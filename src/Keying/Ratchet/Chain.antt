-- ===== src/Keying/Ratchet/Chain.antt =====
-- The secrets and keys of src/keying/ratchet.rs by their generation.
use safe_cast.Base.{
  ℕ, zero, suc, ◌+◌, ◌≡◌, ◌∙◌, refl, ap, arith, Bytes, length, length-take, length-drop,
}
use safe_cast.Crypto.{Hkdf}
use safe_cast.Keying.Ratchet.{
  StreamRatchet, KeySalt, chain_label, key_material_label, next_key_salt, split_key_salt,
}

pub split_key_salt_lengths :
    (ks : KeySalt)
    → length ks ≡ 28
    → (length (split_key_salt ks).0 ≡ 16) × (length (split_key_salt ks).1 ≡ 12)
unfolding split_key_salt
split_key_salt_lengths ks h = (omega (arith, length-take 16 ks), omega (arith, length-drop 16 ks))

module _ (K : Hkdf) (seed : Bytes) where
  open K use {expand, expand_length}

  -- `S_g` and the key and salt of generation `g`.
  abbrev pub secret_at : ℕ → Bytes
  secret_at zero = seed
  secret_at (suc g) = expand (secret_at g) chain_label 32

  pub key_at : ℕ → KeySalt
  key_at g = expand (secret_at g) key_material_label 28

  pub length-key_at : (g : ℕ) → length (key_at g) ≡ 28
  unfolding key_at
  length-key_at g = expand_length (secret_at g) key_material_label 28 (omega arith)

  -- A ratchet of this seed, at the generation that it says.
  abbrev pub IsOnChain : StreamRatchet → Type 0
  IsOnChain r = r.chain_secret ≡ secret_at r.generation

  -- A step of a ratchet on the chain gives out its generation with that generation's key, and leaves
  -- it on the chain one generation on.
  pub next_key_salt_lem :
      (r : StreamRatchet)
      → IsOnChain r
      → let (out, r') = next_key_salt K r in
        (out ≡ (r.generation, key_at r.generation))
        × IsOnChain r'
        × (r'.generation ≡ r.generation + 1)
  unfolding next_key_salt key_at
  next_key_salt_lem r h = (
    ap (λ s. (r.generation, expand s key_material_label 28)) h,
    ap (λ s. expand s chain_label 32) h
        ∙ ap secret_at (let e : suc r.generation ≡ r.generation + 1 = omega arith in e),
    refl,
  )
