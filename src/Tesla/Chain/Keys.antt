-- ===== src/Tesla/Chain/Keys.antt =====
-- The sender's chain (src/tesla/chain.rs, `from_final_key`): what each of its keys is.
use safe_cast.Base.{
  ℕ, zero, suc, ◌+◌, ◌-◌, ◌≤◌, ◌<◌, ◌≡◌, ◌∙◌, refl, ap, arith, List, some, ret, panic, get_elem?,
  get_or, set, length, length-set, length-replicate, replicate, get_elem?-set_self, get_elem?_above,
  expect, get_elem?-set_ne, get_or-eq_of_get_elem?,
}
use native.Mathlib.Decide.{ℕ_discrete}
use safe_cast.Crypto.{HmacSha256}
use safe_cast.Tesla.Chain.{ChainKey, zero_key, f_step, fill_down, from_final_key, key}

module _ (H : HmacSha256) where
  -- `n` steps down the chain.
  abbrev pub f_iter : ℕ → ChainKey → ChainKey
  f_iter zero k = k
  f_iter (suc n) k = f_iter n (f_step H k)

  pub f_iter-suc : (n : ℕ) (k : ChainKey) → f_iter (suc n) k ≡ f_step H (f_iter n k)
  f_iter-suc zero k = refl
  f_iter-suc (suc n) k = f_iter-suc n (f_step H k)

  pub f_iter-add : (m n : ℕ) (k : ChainKey) → f_iter (m + n) k ≡ f_iter n (f_iter m k)
  f_iter-add zero n k = ap (λ t. f_iter t k) (let e : 0 + n ≡ n = omega arith in e)
  f_iter-add (suc m) n k =
      ap (λ t. f_iter t k) (let e : suc m + n ≡ suc (m + n) = omega arith in e)
      ∙ f_iter-add m n (f_step H k)

  length-fill_down : (m : ℕ) (keys : List ChainKey) → length (fill_down H m keys) ≡ length keys
  unfolding fill_down
  length-fill_down zero keys = refl
  length-fill_down (suc m) keys =
      length-fill_down m (set keys m (f_step H (get_or keys (suc m) zero_key)))
      ∙ length-set keys m _

  -- The rounds leave the keys above their start alone.
  fill_down_above :
      (m j : ℕ) (keys : List ChainKey) → m ≤ j → get_elem? (fill_down H m keys) j ≡ get_elem? keys j
  unfolding fill_down
  fill_down_above zero j keys h = refl
  fill_down_above (suc m) j keys h =
      fill_down_above m j (set keys m (f_step H (get_or keys (suc m) zero_key))) (omega arith)
      ∙ get_elem?-set_ne keys m j _ (omega arith)

  fill_down_below :
      (m i : ℕ) (keys : List ChainKey) (k : ChainKey)
      → i ≤ m
      → m < length keys
      → get_elem? keys m ≡ some k
      → get_elem? (fill_down H m keys) i ≡ some (f_iter (m - i) k)
  unfolding fill_down
  fill_down_below zero i keys k h b e =
      ap (get_elem? keys) (let z : i ≡ 0 = omega arith in z)
      ∙ e
      ∙ ap (λ t. some (f_iter t k)) (let z : 0 ≡ 0 - i = omega arith in z)
  fill_down_below (suc m) i keys k h b e = elim (ℕ_discrete i (suc m)) [
    | yes p ↦
        ap (get_elem? (fill_down H (suc m) keys)) p
        ∙ fill_down_above (suc m) (suc m) keys (omega arith)
        ∙ e
        ∙ ap (λ t. some (f_iter t k)) (let z : 0 ≡ suc m - i = omega arith in z)
    | no p ↦
        fill_down_below m i (set keys m (f_step H (get_or keys (suc m) zero_key))) (f_step H k)
          (omega arith) (omega (arith, length-set keys m (f_step H (get_or keys (suc m) zero_key))))
          (get_elem?-set_self keys m _ (omega arith)
            ∙ ap (λ t. some (f_step H t)) (get_or-eq_of_get_elem? keys (suc m) zero_key k e))
        ∙ ap (λ t. some (f_iter t k)) (let z : suc (m - i) ≡ suc m - i = omega arith in z)
  ]

  -- The chain built from the final key `k` has `n + 1` keys, and key `i` of them is the final key
  -- hashed down `n - i` times; `key` returns it exactly for `i ≤ n`, and panics beyond.
  pub key-from_final_key :
      (k : ChainKey) (n i : ℕ)
      → (i ≤ n → key (from_final_key H k n) i ≡ ret (f_iter (n - i) k))
        × (n < i → key (from_final_key H k n) i ≡ panic)
  unfolding key from_final_key
  key-from_final_key k n i = (
    λ h. ap expect (
        fill_down_below n i start k h (omega (arith, size))
          (get_elem?-set_self zeros n k (omega (arith, length-replicate (n + 1) zero_key)))),
    λ h.
        ap expect
          (get_elem?_above (fill_down H n start) i (omega (arith, size, length-fill_down n start))),
  )
    where
      zeros : List ChainKey
      zeros = replicate (n + 1) zero_key

      start : List ChainKey
      start = set zeros n k

      size : length start ≡ n + 1
      size = length-set zeros n k ∙ length-replicate (n + 1) zero_key
