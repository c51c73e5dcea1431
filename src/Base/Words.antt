-- ===== src/Base/Words.antt =====
-- Byte strings, their comparison, and the big-endian words of the wire formats.
use Prim.Native.Nat.{ℕ, zero, suc, ◌+◌, ◌*◌, ◌/◌, ◌%◌, ◌^◌, ◌<◌}
use mathlib.Core.Path.{◌≡◌, refl, sym, ap, ap₂, ◌∙◌}
use mathlib.Core.Bool.{Bool, true, false, ◌&&◌}
use mathlib.Core.List.{List, [], ◌∷◌, ◌++◌}
use native.Mathlib.Omega.{arith}
use safe_cast.Base.Tests.{◌==◌}
use safe_cast.Base.Lists.{All, length, get_or}

-- `Vec<u8>`, `&[u8]` and `[u8; N]`: the elements are below 256.
abbrev pub Bytes : Type 0
Bytes = List ℕ

abbrev pub AreBytes : Bytes → Type 0
AreBytes = All (λ b. b < 256)

-- `==` on slices and arrays.
unfoldable pub bytes_eq : Bytes → Bytes → Bool
bytes_eq [] [] = true
bytes_eq [] (y ∷ ys) = false
bytes_eq (x ∷ xs) [] = false
bytes_eq (x ∷ xs) (y ∷ ys) = x == y && bytes_eq xs ys

pub bytes_eq→eq : (xs ys : Bytes) → bytes_eq xs ys ≡ true → xs ≡ ys
unfolding bytes_eq
bytes_eq→eq [] [] h = refl
bytes_eq→eq [] (y ∷ ys) h = cc
bytes_eq→eq (x ∷ xs) [] h = cc
bytes_eq→eq (x ∷ xs) (y ∷ ys) h = ground (arith, bytes_eq→eq xs ys)

pub bytes_eq_refl : (xs : Bytes) → bytes_eq xs xs ≡ true
unfolding bytes_eq
bytes_eq_refl [] = refl
bytes_eq_refl (x ∷ xs) = ground (arith, bytes_eq_refl xs)

-- `to_be_bytes` of `u16`, `u32` and `u64`.
unfoldable pub be16 : ℕ → Bytes
be16 n = n / 2 ^ 8 % 256 ∷ n % 256 ∷ []

unfoldable pub be32 : ℕ → Bytes
be32 n = n / 2 ^ 24 % 256 ∷ n / 2 ^ 16 % 256 ∷ n / 2 ^ 8 % 256 ∷ n % 256 ∷ []

unfoldable pub be64 : ℕ → Bytes
be64 n =
    n / 2 ^ 56 % 256
    ∷ n / 2 ^ 48 % 256
    ∷ n / 2 ^ 40 % 256
    ∷ n / 2 ^ 32 % 256
    ∷ n / 2 ^ 24 % 256
    ∷ n / 2 ^ 16 % 256
    ∷ n / 2 ^ 8 % 256
    ∷ n % 256
    ∷ []

-- `u64::to_le_bytes`.
unfoldable pub le64 : ℕ → Bytes
le64 n =
    n % 256
    ∷ n / 2 ^ 8 % 256
    ∷ n / 2 ^ 16 % 256
    ∷ n / 2 ^ 24 % 256
    ∷ n / 2 ^ 32 % 256
    ∷ n / 2 ^ 40 % 256
    ∷ n / 2 ^ 48 % 256
    ∷ n / 2 ^ 56 % 256
    ∷ []

-- `u16::from_be_bytes` and `u32::from_be_bytes`.
unfoldable pub from_be16 : ℕ → ℕ → ℕ
from_be16 a b = a * 2 ^ 8 + b

unfoldable pub from_be32 : ℕ → ℕ → ℕ → ℕ → ℕ
from_be32 a b c d = a * 2 ^ 24 + b * 2 ^ 16 + c * 2 ^ 8 + d

pub from_be16-be16 : (n : ℕ) → n < 2 ^ 16 → from_be16 (n / 2 ^ 8 % 256) (n % 256) ≡ n
unfolding from_be16
from_be16-be16 n h = omega arith

pub from_be32-be32 :
    (n : ℕ)
    → n < 2 ^ 32
    → from_be32 (n / 2 ^ 24 % 256) (n / 2 ^ 16 % 256) (n / 2 ^ 8 % 256) (n % 256) ≡ n
unfolding from_be32
from_be32-be32 n h = omega arith

pub be32-from_be32 :
    (a b c d : ℕ)
    → a < 256
    → b < 256
    → c < 256
    → d < 256
    → be32 (from_be32 a b c d) ≡ a ∷ b ∷ c ∷ d ∷ []
unfolding be32 from_be32
be32-from_be32 a b c d ha hb hc hd =
    ap₂ ◌∷◌ (omega arith)
      (ap₂ ◌∷◌ (omega arith) (ap₂ ◌∷◌ (omega arith) (ap₂ ◌∷◌ (omega arith) refl)))

pub from_be32_bound :
    (a b c d : ℕ) → a < 256 → b < 256 → c < 256 → d < 256 → from_be32 a b c d < 2 ^ 32
unfolding from_be32
from_be32_bound a b c d ha hb hc hd = omega arith

pub length-be32 : (n : ℕ) → length (be32 n) ≡ 4
unfolding be32
length-be32 n = refl

pub length-be64 : (n : ℕ) → length (be64 n) ≡ 8
unfolding be64
length-be64 n = refl

-- A word is read back from its bytes, so no two words share them.
pub be32_inj : (m n : ℕ) → m < 2 ^ 32 → n < 2 ^ 32 → be32 m ≡ be32 n → m ≡ n
unfolding be32
be32_inj m n hm hn e = sym (from_be32-be32 m hm) ∙ same ∙ from_be32-be32 n hn
  where
    same :
        from_be32 (m / 2 ^ 24 % 256) (m / 2 ^ 16 % 256) (m / 2 ^ 8 % 256) (m % 256)
        ≡ from_be32 (n / 2 ^ 24 % 256) (n / 2 ^ 16 % 256) (n / 2 ^ 8 % 256) (n % 256)
    same =
        ap (λ (l : Bytes). from_be32 (get_or l 0 0) (get_or l 1 0) (get_or l 2 0) (get_or l 3 0)) e

from_be64 : Bytes → ℕ
from_be64 l =
    get_or l 0 0 * 2 ^ 56
    + get_or l 1 0 * 2 ^ 48
    + get_or l 2 0 * 2 ^ 40
    + get_or l 3 0 * 2 ^ 32
    + get_or l 4 0 * 2 ^ 24
    + get_or l 5 0 * 2 ^ 16
    + get_or l 6 0 * 2 ^ 8
    + get_or l 7 0

from_be64-be64 : (n : ℕ) → n < 2 ^ 64 → from_be64 (be64 n) ≡ n
unfolding from_be64 be64
from_be64-be64 n h = omega arith

pub be64_inj : (m n : ℕ) → m < 2 ^ 64 → n < 2 ^ 64 → be64 m ≡ be64 n → m ≡ n
be64_inj m n hm hn e = sym (from_be64-be64 m hm) ∙ ap from_be64 e ∙ from_be64-be64 n hn

pub get_or-byte : (l : Bytes) (i : ℕ) → AreBytes l → get_or l i 0 < 256
get_or-byte [] i h = omega arith
get_or-byte (x ∷ l) zero h = h.0
get_or-byte (x ∷ l) (suc i) h = get_or-byte l i h.1

pub from_be16_bound : (a b : ℕ) → a < 256 → b < 256 → from_be16 a b < 2 ^ 16
unfolding from_be16
from_be16_bound a b ha hb = omega arith

from_le64 : Bytes → ℕ
from_le64 l =
    get_or l 7 0 * 2 ^ 56
    + get_or l 6 0 * 2 ^ 48
    + get_or l 5 0 * 2 ^ 40
    + get_or l 4 0 * 2 ^ 32
    + get_or l 3 0 * 2 ^ 24
    + get_or l 2 0 * 2 ^ 16
    + get_or l 1 0 * 2 ^ 8
    + get_or l 0 0

from_le64-le64 : (n : ℕ) (rest : Bytes) → n < 2 ^ 64 → from_le64 (le64 n ++ rest) ≡ n
unfolding from_le64 le64
from_le64-le64 n rest h = omega arith

pub le64_inj :
    (m n : ℕ) (r r' : Bytes) → m < 2 ^ 64 → n < 2 ^ 64 → le64 m ++ r ≡ le64 n ++ r' → m ≡ n
le64_inj m n r r' hm hn e = sym (from_le64-le64 m r hm) ∙ ap from_le64 e ∙ from_le64-le64 n r' hn
