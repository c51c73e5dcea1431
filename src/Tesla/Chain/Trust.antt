-- ===== src/Tesla/Chain/Trust.antt =====
-- The receiver's side of the chain (src/tesla/chain.rs, `ChainVerifier::check`): which candidates it
-- accepts, what it recovers from them, and what its trust rests on.
use safe_cast.Base.{
  ℕ, zero, suc, ◌+◌, ◌-◌, ◌≤◌, ◌<◌, ◌≡◌, ◌≢◌, ◌∙◌, refl, sym, ap, arith, List, [], ◌∷◌, ◌++◌,
  append_assoc, append-nil, false, bytes_eq, bytes_eq→eq, bytes_eq_refl, le→ltb, lt→ltb, lt→leb,
  le→leb, if◌then◌else◌, ◌⊎◌, inl, inr, Bool-cases,
}
use mathlib.Core.List.{reverse, reverse-cons}
use native.Mathlib.Decide.{dec_le}
use safe_cast.Crypto.{HmacSha256}
use safe_cast.Tesla.Chain.{
  ChainKey, ChainVerifier, Disclosure, new, not_new, invalid, too_far_ahead, beyond_chain, f_step,
  descend, check,
}
use safe_cast.Tesla.Chain.Keys.{f_iter}

-- When the index is newer than the trusted one, within the chain and within the cap.
abbrev pub InReach : ChainVerifier → ℕ → Type 0
InReach v index =
    (v.trusted_index < index) × (index ≤ v.n_chain) × (index - v.trusted_index ≤ v.g_max)

abbrev pub advanced : ChainVerifier → ChainKey → ℕ → ChainVerifier
advanced v candidate index = record v { trusted_index = index; trusted_key = candidate }

module _ (H : HmacSha256) where
  -- The `n` keys above index `t`, in ascending order, where `k` is the last of them.
  abbrev pub span : ℕ → ℕ → ChainKey → List (ℕ × ChainKey)
  span t zero k = []
  span t (suc n) k = (t + 1, f_iter H n k) ∷ span (t + 1) n k

  -- The same from `k` downwards, as the loop meets them.
  abbrev lower : ℕ → ℕ → ChainKey → List (ℕ × ChainKey)
  lower t zero k = []
  lower t (suc n) k = (t + suc n, k) ∷ lower t n (f_step H k)

  span-snoc :
      (n t : ℕ) (k : ChainKey) → span t (suc n) k ≡ span t n (f_step H k) ++ ((t + suc n, k) ∷ [])
  span-snoc zero t k = ap (λ i. (i, k) ∷ []) (omega arith)
  span-snoc (suc n) t k =
      ap (λ l. (t + 1, f_iter H n (f_step H k)) ∷ l)
        (span-snoc n (t + 1) k
          ∙ ap (λ i. span (t + 1) n (f_step H k) ++ ((i, k) ∷ []))
              (let e : t + 1 + suc n ≡ t + suc (suc n) = omega arith in e))

  reverse-lower : (n t : ℕ) (k : ChainKey) → reverse (lower t n k) ≡ span t n k
  reverse-lower zero t k = refl
  reverse-lower (suc n) t k =
      reverse-cons (t + suc n, k) (lower t n (f_step H k))
      ∙ ap (λ l. l ++ ((t + suc n, k) ∷ [])) (reverse-lower n t (f_step H k))
      ∙ sym (span-snoc n t k)

  -- The loop ends on the candidate hashed down once for each round, and has collected every key
  -- between the candidate and the trusted one.
  descend_lem :
      (m index t s : ℕ) (k : ChainKey) (recovered : List (ℕ × ChainKey))
      → index ≡ t + m + s
      → descend H (suc m) index t s k recovered
        ≡ (f_iter H (suc m) k, recovered ++ lower t m (f_step H k))
  unfolding descend
  descend_lem zero index t s k recovered e =
      rw (le→ltb t (index - s) (omega arith))
        (ap (λ l. (f_step H k, l)) (sym (append-nil recovered)))
  descend_lem (suc m) index t s k recovered e = rw (lt→ltb t (index - s) (omega arith)) (
      descend_lem m index t (s + 1) (f_step H k) (recovered ++ ((index - s, f_step H k) ∷ []))
        (omega arith)
      ∙ ap (λ l. (f_iter H (suc (suc m)) k, l))
          (append_assoc recovered ((index - s, f_step H k) ∷ []) (lower t m (f_step H (f_step H k)))
            ∙ ap (λ i. recovered ++ ((i, f_step H k) ∷ lower t m (f_step H (f_step H k))))
                (let i : index - s ≡ t + suc m = omega arith in i)))

  -- What `check` finds when it is let to hash.
  descend-gap :
      (index t : ℕ) (k : ChainKey)
      → t < index
      → descend H (index - t) index t 1 k ((index, k) ∷ [])
        ≡ (f_iter H (index - t) k, (index, k) ∷ lower t (index - t - 1) (f_step H k))
  descend-gap index t k h =
      let e : index - t ≡ suc (index - t - 1) = omega arith in
      ap (λ g. descend H g index t 1 k ((index, k) ∷ [])) e
      ∙ descend_lem (index - t - 1) index t 1 k ((index, k) ∷ []) (omega arith)
      ∙ ap (λ g. (f_iter H g k, (index, k) ∷ lower t (index - t - 1) (f_step H k))) (sym e)

  reverse-gap :
      (index t : ℕ) (k : ChainKey)
      → t < index
      → reverse ((index, k) ∷ lower t (index - t - 1) (f_step H k)) ≡ span t (index - t) k
  reverse-gap index t k h =
      let e : index - t ≡ suc (index - t - 1) = omega arith in
      let i : index ≡ t + suc (index - t - 1) = omega arith in
      ap (λ n. reverse ((n, k) ∷ lower t (index - t - 1) (f_step H k))) i
      ∙ reverse-lower (suc (index - t - 1)) t k
      ∙ ap (λ n. span t n k) (sym e)

  check-InReach :
      (v : ChainVerifier) (candidate : ChainKey) (index : ℕ)
      → InReach v index
      → check H v candidate index ≡ (
          if bytes_eq (f_iter H (index - v.trusted_index) candidate) v.trusted_key
          then (
            advanced v candidate index,
            new (span v.trusted_index (index - v.trusted_index) candidate),
          )
          else (v, invalid))
  unfolding check
  check-InReach v candidate index h = rw (
    lt→leb index v.trusted_index h.0,
    le→ltb v.n_chain index h.1,
    le→ltb v.g_max (index - v.trusted_index) h.2,
    descend-gap index v.trusted_index candidate h.0,
    reverse-gap index v.trusted_index candidate h.0,
  )

  -- The result of `check` on each of its branches, with the hashing described by `f_iter`.
  abbrev pub Outcome : ChainVerifier → ChainKey → ℕ → ChainVerifier × Disclosure → Type 0
  Outcome v candidate index r =
      ((index ≤ v.trusted_index) × (r ≡ (v, not_new)))
      ⊎ ((v.trusted_index < index) × (v.n_chain < index) × (r ≡ (v, beyond_chain)))
      ⊎ ((v.trusted_index < index)
          × (index ≤ v.n_chain)
          × (v.g_max < index - v.trusted_index)
          × (r ≡ (v, too_far_ahead)))
      ⊎ (InReach v index
          × (f_iter H (index - v.trusted_index) candidate ≢ v.trusted_key)
          × (r ≡ (v, invalid)))
      ⊎ (InReach v index
          × (f_iter H (index - v.trusted_index) candidate ≡ v.trusted_key)
          × (r ≡ (
            advanced v candidate index,
            new (span v.trusted_index (index - v.trusted_index) candidate),
          )))

  reach_cases :
      (v : ChainVerifier) (candidate : ChainKey) (index : ℕ)
      → InReach v index
      → Outcome v candidate index (check H v candidate index)
  reach_cases v candidate index h =
      elim (Bool-cases (bytes_eq (f_iter H (index - v.trusted_index) candidate) v.trusted_key)) [
        | inl same ↦
            inr (
              inr
                (inr (inr (h, bytes_eq→eq _ _ same, check-InReach v candidate index h ∙ rw same))))
        | inr other ↦ inr (
            inr
              (inr (inl (h, (λ e. differ e other), check-InReach v candidate index h ∙ rw other))))
      ]
    where
      differ :
          f_iter H (index - v.trusted_index) candidate ≡ v.trusted_key
          → bytes_eq (f_iter H (index - v.trusted_index) candidate) v.trusted_key ≡ false
          → ⊥
      differ e = rw e (λ other. cc (bytes_eq_refl v.trusted_key))

  -- Every call of `check` ends in one of five ways. An index not above the trusted one is not new, one
  -- beyond the chain and one more than the cap ahead are refused as such, and in reach the candidate is
  -- invalid unless it hashes down to the trusted key in the steps between: then it is trusted, and the
  -- keys returned are those hashed on the way, in ascending order. Otherwise nothing changes.
  pub check-Outcome :
      (v : ChainVerifier) (candidate : ChainKey) (index : ℕ)
      → Outcome v candidate index (check H v candidate index)
  unfolding check
  check-Outcome v candidate index = elim (dec_le index v.trusted_index) [
    | yes old ↦ inl (old, rw (le→leb index v.trusted_index old))
    | no newer ↦ elim (dec_le index v.n_chain) [
      | no beyond ↦ inr (
          inl (
            omega arith,
            omega arith,
            rw (lt→leb index v.trusted_index (omega arith), lt→ltb v.n_chain index (omega arith)),
          ))
      | yes within ↦ elim (dec_le (index - v.trusted_index) v.g_max) [
        | no far ↦ inr (
            inr (
              inl (
                omega arith,
                within,
                omega arith,
                rw (
                  lt→leb index v.trusted_index (omega arith),
                  le→ltb v.n_chain index within,
                  lt→ltb v.g_max (index - v.trusted_index) (omega arith),
                ),
              )))
        | yes near ↦ reach_cases v candidate index (omega arith, within, near)
      ]
    ]
  ]

  -- An in-reach candidate that hashes down to the trusted key is accepted.
  pub check_accepts :
      (v : ChainVerifier) (candidate : ChainKey) (index : ℕ)
      → InReach v index
      → f_iter H (index - v.trusted_index) candidate ≡ v.trusted_key
      → check H v candidate index ≡ (
        advanced v candidate index,
        new (span v.trusted_index (index - v.trusted_index) candidate),
      )
  check_accepts v candidate index h e =
      check-InReach v candidate index h ∙ rw (e, bytes_eq_refl v.trusted_key)
