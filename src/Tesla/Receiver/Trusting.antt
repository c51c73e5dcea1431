-- ===== src/Tesla/Receiver/Trusting.antt =====
-- A verifier of src/tesla/chain.rs that trusts a key of the sender's chain.
use safe_cast.Base.{
  ℕ, zero, suc, ◌+◌, ◌-◌, ◌≤◌, ◌≡◌, ◌⊎◌, inl, inr, ◌∙◌, refl, sym, ap, subst, arith, List, All, max,
  le→leb, ret,
}
use native.Mathlib.Decide.{dec_le}
use safe_cast.Crypto.{HmacSha256}
use safe_cast.Tesla.Chain.{
  ChainKey, ChainVerifier, Disclosure, new, not_new, key, from_final_key, check,
}
use safe_cast.Tesla.Chain.Keys.{key-from_final_key}
use safe_cast.Tesla.Chain.Genuine.{chain_keys, check_genuine}
use safe_cast.Tesla.Sender.{TeslaSender}

-- The sender's keys below an index.
chain_keys-own :
    (H : HmacSha256) (k : ChainKey) (n t m : ℕ)
    → t + m ≤ n
    → All (λ (e : ℕ × ChainKey). key (from_final_key H k n) e.0 ≡ ret e.1) (chain_keys H k n t m)
chain_keys-own H k n t zero h = tt
chain_keys-own H k n t (suc m) h = (
  (key-from_final_key H k n (t + 1)).0 (omega arith),
  chain_keys-own H k n (t + 1) m (omega arith),
)

check_old :
    (H : HmacSha256) (v : ChainVerifier) (candidate : ChainKey) (c : ℕ)
    → c ≤ v.trusted_index
    → check H v candidate c ≡ (v, not_new)
unfolding check
check_old H v candidate c le = rw (le→leb c v.trusted_index le) refl

module _ (H : HmacSha256) (s : TeslaSender) (k_final : ChainKey) (g_max : ℕ)
    (chain : s.chain ≡ from_final_key H k_final s.params.n_chain) where
  -- A verifier that trusts a key of the sender's chain.
  pub record Trusts (v : ChainVerifier) : Type 0 where
    pub index : ℕ
    pub trusted : ChainKey
    pub within : index ≤ s.params.n_chain
    pub own : key s.chain index ≡ ret trusted
    pub is : v ≡ record {
      n_chain = s.params.n_chain;
      g_max = g_max;
      trusted_index = index;
      trusted_key = trusted;
    }

  -- What a disclosure of the sender comes to.
  pub record Checked (before c : ℕ) (out : ChainVerifier × Disclosure) : Type 0 where
    pub trusts : Trusts out.0
    pub moved : out.0.trusted_index ≡ max before c
    pub answers :
        (out.1 ≡ not_new)
        ⊎ ((keys : List (ℕ × ChainKey)) × (out.1 ≡ new keys)
            × All (λ (e : ℕ × ChainKey). key s.chain e.0 ≡ ret e.1) keys)

  pub check-Checked :
      (v : ChainVerifier) (c : ℕ) (candidate : ChainKey)
      → Trusts v
      → c ≤ s.params.n_chain
      → key s.chain c ≡ ret candidate
      → c ≤ v.trusted_index + g_max
      → Checked v.trusted_index c (check H v candidate c)
  check-Checked v c candidate t within own near =
      let at : v.trusted_index ≡ t.index = ap (λ (x : ChainVerifier). x.trusted_index) t.is in
      elim (dec_le c t.index) [
        | yes old ↦
            subst (Checked v.trusted_index c)
              (sym (
                check_old H v candidate c
                  (omega (arith, ap (λ (x : ChainVerifier). x.trusted_index) t.is, old))))
              (record { trusts = t; moved = omega (arith, at, old); answers = inl refl })
        | no fresh ↦
            subst (Checked v.trusted_index c)
              (sym (
                  check_genuine H k_final t.trusted candidate s.params.n_chain g_max t.index c
                    (omega arith) within (omega arith) (ap (λ x. key x t.index) (sym chain) ∙ t.own)
                    (ap (λ x. key x c) (sym chain) ∙ own))
                ∙ ap (λ x. check H x candidate c) (sym t.is))
              (record {
                trusts = record {
                  index = c;
                  trusted = candidate;
                  within = within;
                  own = own;
                  is = refl;
                };
                moved = omega (arith, at, fresh);
                answers = inr (
                  chain_keys H k_final s.params.n_chain t.index (c - t.index),
                  refl,
                  subst
                      (λ x.
                        All (λ (e : ℕ × ChainKey). key x e.0 ≡ ret e.1)
                          (chain_keys H k_final s.params.n_chain t.index (c - t.index)))
                      (sym chain)
                      (chain_keys-own H k_final s.params.n_chain t.index (c - t.index)
                        (omega arith)),
                );
              })
      ]
