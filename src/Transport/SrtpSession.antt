-- ===== src/Transport/SrtpSession.antt =====
-- src/transport/srtp_session.rs: the sessions of the demo's client, one policy for every stream.
use safe_cast.Base.{
  ℕ, ◌+◌, ◌≤◌, ◌<◌, ◌≡◌, ◌==◌, Bool, true, false, ◌||◌, Option, some, Bytes, length, get_or, Exec,
  ret, expect,
}
use safe_cast.Crypto.{SrtpResult, ok, err, replay_fail}
use safe_cast.Transport.Rtp.{RtpPacket, to_bytes}

-- `StreamPolicy`, the fields that are set.
pub record StreamPolicy (CryptoPolicy : Type 0) : Type 0 where
  pub rtp : CryptoPolicy
  pub rtcp : CryptoPolicy
  pub key : Bytes
  pub window_size : ℕ

-- The `srtp` crate's sessions with a template. Under the AES-128-GCM policy it accepts 28 bytes of key
-- material. `protect` and `unprotect` work on the buffer.
pub record SrtpTemplates : Type 1 where
  pub Session : Type 0
  pub CryptoPolicy : Type 0
  pub aes_gcm_128_16_auth : CryptoPolicy
  pub with_outbound_template : StreamPolicy CryptoPolicy → Option Session
  pub with_inbound_template : StreamPolicy CryptoPolicy → Option Session
  pub protect : Session → Bytes → Session × Bytes × SrtpResult
  pub unprotect : Session → Bytes → Session × Bytes × SrtpResult
  pub inbound_accepts :
      (policy : StreamPolicy CryptoPolicy)
      → policy.rtp ≡ aes_gcm_128_16_auth
      → policy.rtcp ≡ aes_gcm_128_16_auth
      → length policy.key ≡ 28
      → (s : Session) × (with_inbound_template policy ≡ some s)

module _ (S : SrtpTemplates) where
  open S use {Session, aes_gcm_128_16_auth, with_outbound_template, with_inbound_template}

  unfoldable pub create_sender_session : Bytes → Exec Session
  create_sender_session key_material = expect (
      with_outbound_template (record {
        rtp = aes_gcm_128_16_auth;
        rtcp = aes_gcm_128_16_auth;
        key = key_material;
        window_size = 128;
      }))

  unfoldable pub create_receiver_session : Bytes → Exec Session
  create_receiver_session key_material = expect (
      with_inbound_template (record {
        rtp = aes_gcm_128_16_auth;
        rtcp = aes_gcm_128_16_auth;
        key = key_material;
        window_size = 128;
      }))

-- What the client relies on where a sender and a receiver have the same key material, as SRTP
-- (RFC 3711) with a window of 128 gives it: what `protect` seals keeps its fixed header and is 16 bytes
-- longer; `unprotect` opens it once, and refuses it from then on with REPLAY_FAIL. This is for sequence
-- numbers up to 128, which the window covers whatever order they come in.
pub record SrtpPair (S : SrtpTemplates) : Type 1 where
  pub Sends : Bytes → S.Session → Type 0
  pub Receives : Bytes → S.Session → Type 0
  pub seen : S.Session → ℕ → Bool
  pub Seals : Bytes → RtpPacket → Bytes → Type 0
  pub sends_first :
      (key : Bytes) (s : S.Session) → create_sender_session S key ≡ ret s → Sends key s
  pub receives_first :
      (key : Bytes) (s : S.Session)
      → create_receiver_session S key ≡ ret s
      → Receives key s × ((seq : ℕ) → seen s seq ≡ false)
  pub protect_seals :
      (key buf : Bytes) (s s' : S.Session) (p : RtpPacket)
      → Sends key s
      → S.protect s (to_bytes p) ≡ (s', buf, ok)
      → Sends key s' × Seals key p buf
  pub Seals_length :
      (key buf : Bytes) (p : RtpPacket) → Seals key p buf → length buf ≡ length (to_bytes p) + 16
  pub Seals_header :
      (key buf : Bytes) (p : RtpPacket) (k : ℕ)
      → Seals key p buf
      → k < 12
      → get_or buf k 0 ≡ get_or (to_bytes p) k 0
  pub opens :
      (key buf : Bytes) (r : S.Session) (p : RtpPacket)
      → Receives key r
      → Seals key p buf
      → p.sequence_number ≤ 128
      → ((k : ℕ) → 128 < k → seen r k ≡ false)
      → seen r p.sequence_number ≡ false
      → (r' : S.Session) × (S.unprotect r buf ≡ (r', to_bytes p, ok))
        × Receives key r'
        × ((k : ℕ) → seen r' k ≡ (k == p.sequence_number || seen r k))
  pub replays :
      (key buf : Bytes) (r : S.Session) (p : RtpPacket)
      → Receives key r
      → Seals key p buf
      → p.sequence_number ≤ 128
      → ((k : ℕ) → 128 < k → seen r k ≡ false)
      → seen r p.sequence_number ≡ true
      → (r' : S.Session) × (out : Bytes) × (S.unprotect r buf ≡ (r', out, err replay_fail))
        × Receives key r'
        × ((k : ℕ) → seen r' k ≡ seen r k)
