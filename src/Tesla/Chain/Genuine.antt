-- ===== src/Tesla/Chain/Genuine.antt =====
-- The two ends of the chain together (src/tesla/chain.rs): a receiver accepts the sender's keys, and
-- trusts nothing that does not hash down to the anchor.
use safe_cast.Base.{
  ℕ, zero, suc, ◌+◌, ◌-◌, ◌≤◌, ◌<◌, ◌≡◌, ◌∙◌, refl, sym, ap, ap₂, arith, List, [], ◌∷◌, inl, inr,
  ret,
}
use safe_cast.Crypto.{HmacSha256}
use safe_cast.Tesla.Chain.{ChainKey, ChainVerifier, new, new_verifier, check, key, from_final_key}
use safe_cast.Tesla.Chain.Keys.{f_iter, f_iter-add, key-from_final_key}
use safe_cast.Tesla.Chain.Trust.{span, advanced, Outcome, InReach, check-Outcome, check_accepts}

module _ (H : HmacSha256) where
  -- What the receiver's trust rests on: the trusted key hashes down to the anchor in exactly as
  -- many steps as its index says, and no index beyond the chain is trusted.
  pub record IsRooted (anchor : ChainKey) (v : ChainVerifier) : Type 0 where
    pub rooted : f_iter H v.trusted_index v.trusted_key ≡ anchor
    pub within : v.trusted_index ≤ v.n_chain

  -- The state after a sequence of disclosures.
  pub checks : ChainVerifier → List (ChainKey × ℕ) → ChainVerifier
  checks v [] = v
  checks v ((candidate, index) ∷ rest) = checks (check H v candidate index).0 rest

  pub new_verifier-IsRooted :
      (anchor : ChainKey) (n g : ℕ) → IsRooted anchor (new_verifier anchor n g)
  unfolding new_verifier
  new_verifier-IsRooted anchor n g = record { rooted = refl; within = omega arith }

  advanced-IsRooted :
      (anchor : ChainKey) (v : ChainVerifier) (candidate : ChainKey) (index : ℕ)
      → IsRooted anchor v
      → InReach v index
      → f_iter H (index - v.trusted_index) candidate ≡ v.trusted_key
      → IsRooted anchor (advanced v candidate index)
  advanced-IsRooted anchor v candidate index r h e = record {
    rooted =
        ap (λ n. f_iter H n candidate)
          (let s : index ≡ index - v.trusted_index + v.trusted_index = omega arith in s)
        ∙ f_iter-add H (index - v.trusted_index) v.trusted_index candidate
        ∙ ap (f_iter H v.trusted_index) e
        ∙ r.rooted;
    within = h.1;
  }

  pub check-IsRooted :
      (anchor : ChainKey) (v : ChainVerifier) (candidate : ChainKey) (index : ℕ)
      → IsRooted anchor v
      → IsRooted anchor (check H v candidate index).0
  check-IsRooted anchor v candidate index r = go (check-Outcome H v candidate index)
    where
      go :
          Outcome H v candidate index (check H v candidate index)
          → IsRooted anchor (check H v candidate index).0
      go (inl (_, e)) = rw e r
      go (inr (inl (_, _, e))) = rw e r
      go (inr (inr (inl (_, _, _, e)))) = rw e r
      go (inr (inr (inr (inl (_, _, e))))) = rw e r
      go (inr (inr (inr (inr (h, same, e))))) =
          rw e (advanced-IsRooted anchor v candidate index r h same)

  -- A receiver that starts from the anchor trusts, after any sequence of candidates whatever, only
  -- a key that hashes down to the anchor in as many steps as the index that it claims.
  pub checks-IsRooted :
      (anchor : ChainKey) (n_chain g_max : ℕ) (cs : List (ChainKey × ℕ))
      → IsRooted anchor (checks (new_verifier anchor n_chain g_max) cs)
  unfolding checks
  checks-IsRooted anchor n_chain g_max cs = run cs _ (new_verifier-IsRooted anchor n_chain g_max)
    where
      run :
          (cs : List (ChainKey × ℕ)) (v : ChainVerifier)
          → IsRooted anchor v
          → IsRooted anchor (checks v cs)
      run [] v r = r
      run ((candidate, index) ∷ rest) v r =
          run rest (check H v candidate index).0 (check-IsRooted anchor v candidate index r)

  -- The keys `t + 1` to `t + m` of the chain below the final key `k`, `n` being the final index.
  abbrev pub chain_keys : ChainKey → ℕ → ℕ → ℕ → List (ℕ × ChainKey)
  chain_keys k n t zero = []
  chain_keys k n t (suc m) = (t + 1, f_iter H (n - (t + 1)) k) ∷ chain_keys k n (t + 1) m

  span-chain :
      (k : ChainKey) (n t m : ℕ)
      → t + m ≤ n
      → span H t m (f_iter H (n - (t + m)) k) ≡ chain_keys k n t m
  span-chain k n t zero h = refl
  span-chain k n t (suc m) h =
      ap₂ (λ (x : ChainKey) l. (t + 1, x) ∷ l)
        (sym (f_iter-add H (n - (t + suc m)) m k)
          ∙ ap (λ i. f_iter H i k) (let e : n - (t + suc m) + m ≡ n - (t + 1) = omega arith in e))
        (ap (λ i. span H (t + 1) m (f_iter H i k))
            (let e : n - (t + suc m) ≡ n - (t + 1 + m) = omega arith in e)
          ∙ span-chain k n (t + 1) m (omega arith))

  -- A receiver that trusts key `t` of the sender's chain accepts every later key `i` of it that the cap
  -- lets it reach, recovers exactly the sender's keys `t + 1` to `i`, whatever disclosures were lost in
  -- between, and trusts key `i` from then on.
  pub check_genuine :
      (k_final trusted candidate : ChainKey) (n g t i : ℕ)
      → t < i
      → i ≤ n
      → i - t ≤ g
      → key (from_final_key H k_final n) t ≡ ret trusted
      → key (from_final_key H k_final n) i ≡ ret candidate
      → check H
          (record { n_chain = n; g_max = g; trusted_index = t; trusted_key = trusted })
          candidate
          i
        ≡ (
          record { n_chain = n; g_max = g; trusted_index = i; trusted_key = candidate },
          new (chain_keys k_final n t (i - t)),
        )
  check_genuine k trusted candidate n g t i lo hi near et ei =
      check_accepts H (record { n_chain = n; g_max = g; trusted_index = t; trusted_key = trusted })
        candidate i (lo, hi, near) links
      ∙ ap
          (λ l.
            (record { n_chain = n; g_max = g; trusted_index = i; trusted_key = candidate }, new l))
          (ap (span H t (i - t)) at_i
            ∙ ap (λ j. span H t (i - t) (f_iter H (n - j) k))
                (let e : i ≡ t + (i - t) = omega arith in e)
            ∙ span-chain k n t (i - t) (omega arith))
    where
      at_i : candidate ≡ f_iter H (n - i) k
      at_i = cc (ei, (key-from_final_key H k n i).0 hi)

      at_t : trusted ≡ f_iter H (n - t) k
      at_t = cc (et, (key-from_final_key H k n t).0 (omega arith))

      links : f_iter H (i - t) candidate ≡ trusted
      links =
          ap (f_iter H (i - t)) at_i
          ∙ sym (f_iter-add H (n - i) (i - t) k)
          ∙ ap (λ j. f_iter H j k) (let e : n - i + (i - t) ≡ n - t = omega arith in e)
          ∙ sym at_t
