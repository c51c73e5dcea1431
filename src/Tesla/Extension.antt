-- ===== src/Tesla/Extension.antt =====
-- src/tesla/mod.rs: the authentication extension after a protected packet.
pub mod RoundTrip
use safe_cast.Base.{
  ℕ, ◌+◌, ◌-◌, ◌++◌, Bytes, Option, none, some, leb, if◌then◌else◌, length, take, drop, get_or,
  be32, from_be32,
}
use safe_cast.Tesla.Chain.{ChainKey, tesla_key_len}
use safe_cast.Tesla.Mac.{tesla_mac_len}

abbrev pub tesla_ext_len : ℕ
tesla_ext_len = 4 + tesla_key_len + tesla_mac_len

unfoldable pub append_extension : Bytes → ℕ → ChainKey → Bytes → Bytes
append_extension buf interval disclosed mac = ((buf ++ be32 interval) ++ disclosed) ++ mac

-- `u32::from_be_bytes` of a slice of four bytes.
abbrev pub read_be32 : Bytes → ℕ
read_be32 l = from_be32 (get_or l 0 0) (get_or l 1 0) (get_or l 2 0) (get_or l 3 0)

-- What is returned, and the buffer as the call leaves it.
unfoldable pub split_extension : Bytes → Option (ℕ × ChainKey × Bytes) × Bytes
split_extension buf =
    if leb (length buf) tesla_ext_len
    then (none, buf)
    else (let base = length buf - tesla_ext_len in
        (
          some (
            read_be32 (take 4 (drop base buf)),
            take tesla_key_len (drop (base + 4) buf),
            drop (base + 4 + tesla_key_len) buf,
          ),
          take base buf,
        ))
