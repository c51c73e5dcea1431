-- ===== src/Keying/Granularity.antt =====
-- src/keying/granularity.rs: a stream that rekeys at the boundaries of its granularity. The packet
-- counter is an unbounded number.
pub mod Boundary
pub mod Steps
use safe_cast.Base.{
  ℕ, ◌+◌, ◌%◌, Bytes, Bool, true, false, not, Option, none, some, ltb, ◌==◌, if◌then◌else◌, length,
  get_or, replicate, from_be32, Exec, ret, expect, assert, ◌>>=◌, ◌>>◌,
}
use safe_cast.Crypto.{Hkdf, Srtp, SrtpResult}
use safe_cast.Keying.Ratchet.{StreamRatchet, next_key_salt, split_key_salt}

pub data Granularity : Type 0 where
  epoch_only per_frame per_packet : Granularity
  every_n : ℕ → Granularity

abbrev pub window_size : ℕ
window_size = 128

-- Without the crypto provider, which has no state.
pub record RekeyingStream (P : Srtp) : Type 0 where
  pub session : P.Session
  pub ratchet : StreamRatchet
  pub granularity : Granularity
  pub ssrc : ℕ
  pub installed_gen : ℕ
  pub last_ts : Option ℕ
  pub started : Bool
  pub packet_count : ℕ

-- `last_ts != Some(ts)`.
abbrev pub changed : Option ℕ → ℕ → Bool
changed none ts = true
changed (some last) ts = not (last == ts)

-- Whether a packet starts a new generation. `&&` stops at a false `started`; a remainder by zero
-- panics.
unfoldable pub crossed_boundary : Granularity → Bool → Option ℕ → ℕ → ℕ → Exec Bool
crossed_boundary epoch_only started last_ts count ts = ret false
crossed_boundary per_packet started last_ts count ts = ret started
crossed_boundary per_frame started last_ts count ts =
    ret (if started then changed last_ts ts else false)
crossed_boundary (every_n n) started last_ts count ts =
    if started then (do assert (ltb 0 n); ret (count % n == 0)) else ret false

-- `timestamp`, without its `debug_assert!`: an index out of bounds panics.
unfoldable pub timestamp : Bytes → Exec ℕ
timestamp packet = do
  assert (ltb 7 (length packet))
  ret (from_be32 (get_or packet 4 0) (get_or packet 5 0) (get_or packet 6 0) (get_or packet 7 0))

module _ (K : Hkdf) (P : Srtp) where
  unfoldable pub install_next_generation : RekeyingStream P → Exec (RekeyingStream P)
  install_next_generation s = do
    let ((g, key_salt), ratchet) = next_key_salt K s.ratchet
    let (key, salt) = split_key_salt key_salt
    session ← expect (P.inplace_rekey s.session s.ssrc key salt)
    ret (record s { ratchet = ratchet; session = session; installed_gen = g })

  -- `RekeyingStream::new`: the throwaway key, then generation 0 over it.
  unfoldable pub new_stream : Granularity → ℕ → StreamRatchet → Exec (RekeyingStream P)
  new_stream granularity ssrc ratchet = do
    bare ← expect P.new_session
    session ← expect (P.add_stream bare ssrc window_size (replicate 28 0))
    install_next_generation (record {
      session = session;
      ratchet = ratchet;
      granularity = granularity;
      ssrc = ssrc;
      installed_gen = 0;
      last_ts = none;
      started = false;
      packet_count = 0;
    })

  unfoldable pub advance_for : RekeyingStream P → ℕ → Exec (RekeyingStream P)
  advance_for s ts = do
    crossed ← crossed_boundary s.granularity s.started s.last_ts s.packet_count ts
    s' ← if crossed then install_next_generation s else ret s
    ret (record s' { last_ts = some ts; started = true; packet_count = s'.packet_count + 1 })

  unfoldable pub protect : RekeyingStream P → Bytes → Exec (RekeyingStream P × Bytes × SrtpResult)
  protect s buf = do
    ts ← timestamp buf
    s' ← advance_for s ts
    let (session, buf', result) = P.protect s'.session buf
    ret (record s' { session = session }, buf', result)

  unfoldable pub unprotect : RekeyingStream P → Bytes → Exec (RekeyingStream P × Bytes × SrtpResult)
  unprotect s buf = do
    ts ← timestamp buf
    s' ← advance_for s ts
    let (session, buf', result) = P.unprotect s'.session buf
    ret (record s' { session = session }, buf', result)
