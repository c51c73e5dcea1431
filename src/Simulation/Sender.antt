-- ===== src/Simulation/Sender.antt =====
-- src/simulation/sender.rs: the modeled stream and the sender that encrypts it.
pub mod Stream
use safe_cast.Base.{
  ℕ, ◌+◌, ◌-◌, ◌*◌, ◌/◌, ◌%◌, ◌^◌, ◌++◌, [], ◌∷◌, max, Bytes, leb, replicate, be16, be32, le64,
  Exec, ret, panic, assert, ◌>>=◌, ◌>>◌,
}
use safe_cast.Crypto.{Hkdf, Srtp, SrtpResult, ok, err}
use safe_cast.Keying.Ratchet.{StreamRatchet}
use safe_cast.Keying.Granularity.{Granularity, RekeyingStream, new_stream, protect}

abbrev pub frame_bytes : ℕ
frame_bytes = 1920 * 1080 * 5 / 2

abbrev pub frame_period : ℕ
frame_period = 1500

abbrev pub fps : ℕ
fps = 60

abbrev pub start_ts : ℕ
start_ts = 0

pub record StreamModel : Type 0 where
  pub payload_size : ℕ
  pub ppf : ℕ
  pub ssrc : ℕ

unfoldable pub new_model : ℕ → ℕ → Exec StreamModel
new_model payload_size ssrc = do
  assert (leb 8 payload_size)
  ret (record {
    payload_size = payload_size;
    ppf = max (frame_bytes / payload_size) 1;
    ssrc = ssrc;
  })

unfoldable pub packet_timestamp : StreamModel → ℕ → ℕ
packet_timestamp m i = (start_ts + i / m.ppf % 2 ^ 32 * frame_period % 2 ^ 32) % 2 ^ 32

-- For the packets whose products stay below 2^64.
unfoldable pub send_ns : StreamModel → ℕ → ℕ
send_ns m i =
    let f = i / m.ppf in let p = i % m.ppf in f * 1000000000 / fps + p * 1000000000 / (fps * m.ppf)

-- `vec![0; payload_size]` with its first 8 bytes overwritten.
unfoldable pub payload : StreamModel → ℕ → Bytes
payload m i = le64 i ++ replicate (m.payload_size - 8) 0

unfoldable pub plain_packet : StreamModel → ℕ → Bytes
plain_packet m i =
    0x80 ∷ 96 ∷ (be16 (i % 2 ^ 16) ++ (be32 (packet_timestamp m i) ++ (be32 m.ssrc ++ payload m i)))

pub record SimulatedSender (P : Srtp) : Type 0 where
  pub model : StreamModel
  pub crypto : RekeyingStream P
  pub next_i : ℕ

-- `expect` on the result of `protect`.
abbrev expect_ok {ℓ} : {A : Type ℓ} → SrtpResult → A → Exec A
expect_ok ok a = ret a
expect_ok (err e) a = panic

module _ (K : Hkdf) (P : Srtp) where
  unfoldable pub new_simulated :
      StreamModel → Granularity → StreamRatchet → Exec (SimulatedSender P)
  new_simulated model granularity ratchet = do
    crypto ← new_stream K P granularity model.ssrc ratchet
    ret (record { model = model; crypto = crypto; next_i = 0 })

  unfoldable pub next_protected : SimulatedSender P → Exec (SimulatedSender P × ℕ × Bytes)
  next_protected s = do
    (crypto, buf, result) ← protect K P s.crypto (plain_packet s.model s.next_i)
    expect_ok result (record s { crypto = crypto; next_i = s.next_i + 1 }, s.next_i, buf)
