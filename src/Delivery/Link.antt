-- ===== src/Delivery/Link.antt =====
-- What the delivery theorem takes from libsrtp besides the interface of `Srtp`: the index that a
-- session gives each packet, its replay window, and that a packet sealed under one key at one index
-- opens there under that key, once.
use safe_cast.Base.{
  ℕ, suc, ◌+◌, ◌%◌, ◌^◌, ◌≤◌, ◌<◌, ◌≡◌, max, Bytes, Bool, true, false, ◌||◌, ◌==◌, some, length,
  get_or, from_be16, from_be32,
}
use safe_cast.Crypto.{Srtp, window_of, ok, err, replay_fail}

-- A packet with a fixed header, of this SSRC and with this index's sequence number.
pub record IsNumbered (packet : Bytes) (ssrc index : ℕ) : Type 0 where
  pub has_header : 12 ≤ length packet
  pub sequence : from_be16 (get_or packet 2 0) (get_or packet 3 0) ≡ index % 2 ^ 16
  pub source :
      from_be32 (get_or packet 8 0) (get_or packet 9 0) (get_or packet 10 0) (get_or packet 11 0)
      ≡ ssrc

-- An index that a receiving session can tell from the sequence number, and that its replay window
-- has not left behind: `next` is one past the highest index that it has opened.
pub record IsNear (next window index : ℕ) : Type 0 where
  pub not_far : index < next + 32767
  pub not_old : next ≤ index + window
  pub narrow : window ≤ 32768

pub record SrtpLink (P : Srtp) : Type 1 where
  -- One past the highest index protected or opened, the indices opened, and the window's size.
  pub next : P.Session → ℕ
  pub seen : P.Session → ℕ → Bool
  pub window : P.Session → ℕ
  -- The datagram of a packet sealed under a key and salt at an index.
  pub Seals : Bytes × Bytes → ℕ → Bytes → Bytes → Type 0
  pub starts :
      (bare s : P.Session) (ssrc w : ℕ) (key : Bytes)
      → P.new_session ≡ some bare
      → P.add_stream bare ssrc w key ≡ some s
      → (next s ≡ 0) × (window s ≡ window_of w) × ((i : ℕ) → seen s i ≡ false)
  -- Loading a key in place leaves the index and the replay window: what the patch is for.
  pub rekey_keeps :
      (s t : P.Session) (ssrc : ℕ) (key salt : Bytes)
      → P.inplace_rekey s ssrc key salt ≡ some t
      → (next t ≡ next s) × (window t ≡ window s) × ((i : ℕ) → seen t i ≡ seen s i)
  pub seals :
      (s : P.Session) (packet : Bytes) (index : ℕ)
      → next s ≡ index
      → index < 2 ^ 48
      → IsNumbered packet (P.stream s) index
      → (s' : P.Session) × (buf : Bytes) × (P.protect s packet ≡ (s', buf, ok))
        × (next s' ≡ suc index)
        × Seals (P.loaded s) index packet buf
  pub Seals_header :
      (key : Bytes × Bytes) (index : ℕ) (packet buf : Bytes)
      → Seals key index packet buf
      → (length buf ≡ length packet + 16)
        × ((k : ℕ) → k < 12 → 12 ≤ length packet → get_or buf k 0 ≡ get_or packet k 0)
  pub opens :
      (r : P.Session) (index : ℕ) (packet buf : Bytes)
      → Seals (P.loaded r) index packet buf
      → IsNumbered packet (P.stream r) index
      → IsNear (next r) (window r) index
      → index < 2 ^ 48
      → next r ≤ 2 ^ 48
      → seen r index ≡ false
      → (r' : P.Session) × (P.unprotect r buf ≡ (r', packet, ok))
        × (next r' ≡ max (next r) (suc index))
        × (window r' ≡ window r)
        × ((i : ℕ) → seen r' i ≡ (i == index || seen r i))
  pub replays :
      (r : P.Session) (index : ℕ) (packet buf : Bytes)
      → Seals (P.loaded r) index packet buf
      → IsNumbered packet (P.stream r) index
      → IsNear (next r) (window r) index
      → index < 2 ^ 48
      → next r ≤ 2 ^ 48
      → seen r index ≡ true
      → (r' : P.Session) × (buf' : Bytes) × (P.unprotect r buf ≡ (r', buf', err replay_fail))
        × (next r' ≡ next r)
        × (window r' ≡ window r)
        × ((i : ℕ) → seen r' i ≡ seen r i)
