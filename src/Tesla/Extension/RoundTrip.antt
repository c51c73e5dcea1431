-- ===== src/Tesla/Extension/RoundTrip.antt =====
-- Writing and stripping the extension of src/tesla/mod.rs undo each other.
use safe_cast.Base.{
  ℕ, ◌+◌, ◌-◌, ◌<◌, ◌≤◌, ◌^◌, ◌≡◌, ◌∙◌, refl, arith, [], ◌∷◌, ◌++◌, append_assoc, Bytes, AreBytes,
  none, some, length, take, drop, le→leb, lt→leb, length-append, length-be32, length-take,
  length-drop, take-append_exact, drop-append_exact, take-append-drop, drop-add, All-drop, All-take,
  be32, from_be32-be32, be32-from_be32,
}
use safe_cast.Tesla.Chain.{ChainKey}
use safe_cast.Tesla.Extension.{append_extension, split_extension, read_be32, tesla_ext_len}

read_be32-be32 : (n : ℕ) → n < 2 ^ 32 → read_be32 (be32 n) ≡ n
unfolding be32
read_be32-be32 n h = from_be32-be32 n h

be32-read_be32 : (l : Bytes) → AreBytes l → length l ≡ 4 → be32 (read_be32 l) ≡ l
be32-read_be32 [] h e = absurd (omega arith)
be32-read_be32 (a ∷ []) h e = absurd (omega arith)
be32-read_be32 (a ∷ b ∷ []) h e = absurd (omega arith)
be32-read_be32 (a ∷ b ∷ c ∷ []) h e = absurd (omega arith)
be32-read_be32 (a ∷ b ∷ c ∷ d ∷ []) h e = be32-from_be32 a b c d h.0 h.1.0 h.1.1.0 h.1.1.1.0
be32-read_be32 (a ∷ b ∷ c ∷ d ∷ x ∷ l) h e = absurd (omega arith)

-- The extension, bracketed to the right.
regroup :
    (buf : Bytes) (i : ℕ) (k m : Bytes) → append_extension buf i k m ≡ buf ++ (be32 i ++ (k ++ m))
unfolding append_extension
regroup buf i k m = append_assoc (buf ++ be32 i) k m ∙ append_assoc buf (be32 i) (k ++ m)

length-append_extension :
    (buf : Bytes) (i : ℕ) (k m : Bytes)
    → length k ≡ 20
    → length m ≡ 10
    → length (append_extension buf i k m) ≡ length buf + 34
unfolding append_extension
length-append_extension buf i k m hk hm = omega (
  arith,
  length-append ((buf ++ be32 i) ++ k) m,
  length-append (buf ++ be32 i) k,
  length-append buf (be32 i),
  length-be32 i,
)

split_long :
    (buf : Bytes) (base : ℕ)
    → length buf ≡ base + 34
    → 0 < base
    → split_extension buf ≡ (
      some (
        read_be32 (take 4 (drop base buf)),
        take 20 (drop 4 (drop base buf)),
        drop 20 (drop 4 (drop base buf)),
      ),
      take base buf,
    )
unfolding split_extension
split_long buf base e pos = rw (
  lt→leb (length buf) tesla_ext_len (omega arith),
  let b : length buf - 34 ≡ base = omega arith in b,
  drop-add (base + 4) 20 buf,
  drop-add base 4 buf,
)

-- What the sender appends is what the receiver strips: the interval, the disclosed key and the MAC
-- come back as written, and the packet as it was. The packet is not empty, the interval is a `u32`,
-- and the two arrays have their lengths.
pub split-append :
    (buf : Bytes) (i : ℕ) (k : ChainKey) (m : Bytes)
    → 0 < length buf
    → i < 2 ^ 32
    → length k ≡ 20
    → length m ≡ 10
    → split_extension (append_extension buf i k m) ≡ (some (i, k, m), buf)
split-append buf i k m pos hi hk hm =
    split_long (append_extension buf i k m) (length buf) (length-append_extension buf i k m hk hm)
      pos
    ∙ rw (
      regroup buf i k m,
      drop-append_exact buf (be32 i ++ (k ++ m)) (length buf) refl,
      take-append_exact (be32 i) (k ++ m) 4 (length-be32 i),
      drop-append_exact (be32 i) (k ++ m) 4 (length-be32 i),
      take-append_exact k m 20 hk,
      drop-append_exact k m 20 hk,
      take-append_exact buf (be32 i ++ (k ++ m)) (length buf) refl,
      read_be32-be32 i hi,
    )

-- Conversely, every buffer of more than 34 bytes is stripped, and appending what was read to what is
-- left gives the buffer again; a shorter one is left alone.
pub append-split :
    (buf : Bytes)
    → AreBytes buf
    → (length buf ≤ 34 → split_extension buf ≡ (none, buf))
      × (34 < length buf
          → (i : ℕ) × (k : ChainKey) × (m : Bytes) × (rest : Bytes) × (split_extension buf
              ≡ (some (i, k, m), rest))
            × (append_extension rest i k m ≡ buf)
            × (length rest + 34 ≡ length buf))
unfolding split_extension
append-split buf bytes = (λ h. rw (le→leb (length buf) tesla_ext_len h), long)
  where
    base : ℕ
    base = length buf - 34

    tail : Bytes
    tail = drop base buf

    head_bytes : AreBytes (take 4 tail)
    head_bytes = All-take _ 4 tail (All-drop _ base buf bytes)

    whole :
        34 < length buf
        → append_extension
            (take base buf)
            (read_be32 (take 4 tail))
            (take 20 (drop 4 tail))
            (drop 20 (drop 4 tail))
          ≡ buf
    whole h =
        regroup (take base buf) (read_be32 (take 4 tail)) (take 20 (drop 4 tail))
          (drop 20 (drop 4 tail))
        ∙ rw (
          be32-read_be32 (take 4 tail) head_bytes
              (omega (arith, length-take 4 tail, length-drop base buf)),
          take-append-drop 20 (drop 4 tail),
          take-append-drop 4 tail,
          take-append-drop base buf,
        )

    long :
        34 < length buf
        → (i : ℕ) × (k : ChainKey) × (m : Bytes) × (rest : Bytes) × (split_extension buf
            ≡ (some (i, k, m), rest))
          × (append_extension rest i k m ≡ buf)
          × (length rest + 34 ≡ length buf)
    long h = (
      read_be32 (take 4 tail),
      take 20 (drop 4 tail),
      drop 20 (drop 4 tail),
      take base buf,
      split_long buf base (omega arith) (omega arith),
      whole h,
      omega (arith, length-take base buf),
    )
