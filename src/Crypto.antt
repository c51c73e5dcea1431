-- ===== src/Crypto.antt =====
-- What the program takes from cryptographic libraries, as interfaces with the facts that the code
-- relies on: the `hmac`/`sha2` crates here, the others in the modules below.
use safe_cast.Base.{
  ℕ, ◌≤◌, ◌<◌, ◌≡◌, ◌⊎◌, Bytes, length, Bool, true, Option, none, some, ◌==◌, if◌then◌else◌,
}

-- HMAC-SHA256 (`Hmac<Sha256>`): any key length, 32 bytes of output.
pub record HmacSha256 : Type 0 where
  pub hmac : Bytes → Bytes → Bytes
  pub hmac_length : (key message : Bytes) → length (hmac key message) ≡ 32

-- AES-128-GCM of OpenSSL over an empty plaintext: key, nonce and associated data give a 16-byte tag.
pub record Gmac : Type 0 where
  pub gmac : Bytes → Bytes → Bytes → Bytes
  pub gmac_length : (key nonce aad : Bytes) → length (gmac key nonce aad) ≡ 16

-- The MLS signature scheme (`SignatureKeyPair`, `OpenMlsCrypto::verify_signature`): signing may
-- fail, and what it signs verifies under the signer's public key.
pub record SignatureScheme : Type 0 where
  pub sign : Bytes → Bytes → Option Bytes
  pub public_key : Bytes → Bytes
  pub verify_signature : Bytes → Bytes → Bytes → Bool
  pub sign_verifies :
      (signer message signature : Bytes)
      → sign signer message ≡ some signature
      → verify_signature message (public_key signer) signature ≡ true

-- HKDF-Expand with SHA-256 (`OpenMlsCrypto::hkdf_expand`): secret, info and length. It fails only for
-- more than 255 blocks of 32 bytes, which the program never asks for.
pub record Hkdf : Type 0 where
  pub expand : Bytes → Bytes → ℕ → Bytes
  pub expand_length : (secret info : Bytes) (n : ℕ) → n ≤ 8160 → length (expand secret info n) ≡ n

-- The error codes of libsrtp that the program tells apart.
pub data SrtpError : Type 0 where
  replay_fail replay_old auth_fail : SrtpError
  other : ℕ → SrtpError

pub data SrtpResult : Type 0 where
  ok : SrtpResult
  err : SrtpError → SrtpResult

-- The sizes of the replay window that libsrtp accepts, and the window that it makes: 0 stands for its
-- default.
abbrev pub IsWindow : ℕ → Type 0
IsWindow w = (w ≡ 0) ⊎ ((64 ≤ w) × (w < 32768))

abbrev pub window_of : ℕ → ℕ
window_of w = if w == 0 then 128 else w

-- The patched `srtp` crate: `new_session` is `Session::new`, which fails only where memory does, and
-- is taken to succeed; `add_stream` adds the one stream, with the replay window's size, and refuses
-- the sizes that libsrtp does not accept. A key and salt are loaded in place; `loaded` is the pair that the cipher holds.
-- `protect` and `unprotect` work on the buffer, and keep the pair.
pub record Srtp : Type 1 where
  pub Session : Type 0
  pub new_session : Option Session
  pub add_stream : Session → (ssrc window : ℕ) (key : Bytes) → Option Session
  pub inplace_rekey : Session → ℕ → Bytes → Bytes → Option Session
  pub protect : Session → Bytes → Session × Bytes × SrtpResult
  pub unprotect : Session → Bytes → Session × Bytes × SrtpResult
  pub loaded : Session → Bytes × Bytes
  pub stream : Session → ℕ
  pub creates : (s : Session) × (new_session ≡ some s)
  pub accepts_window :
      (s : Session) (ssrc window : ℕ) (key : Bytes)
      → new_session ≡ some s
      → IsWindow window
      → length key ≡ 28
      → (t : Session) × (add_stream s ssrc window key ≡ some t)
  pub refuses_window :
      (s : Session) (ssrc window : ℕ) (key : Bytes)
      → ¬ IsWindow window
      → add_stream s ssrc window key ≡ none
  pub stream-add_stream :
      (s t : Session) (ssrc window : ℕ) (key : Bytes)
      → add_stream s ssrc window key ≡ some t
      → stream t ≡ ssrc
  pub inplace_rekey_loads :
      (s : Session) (key salt : Bytes)
      → length key ≡ 16
      → length salt ≡ 12
      → (t : Session) × (inplace_rekey s (stream s) key salt ≡ some t)
        × (loaded t ≡ (key, salt))
        × (stream t ≡ stream s)
  pub loaded-protect : (s : Session) (buf : Bytes) → loaded (protect s buf).0 ≡ loaded s
  pub loaded-unprotect : (s : Session) (buf : Bytes) → loaded (unprotect s buf).0 ≡ loaded s
  pub stream-protect : (s : Session) (buf : Bytes) → stream (protect s buf).0 ≡ stream s
  pub stream-unprotect : (s : Session) (buf : Bytes) → stream (unprotect s buf).0 ≡ stream s

-- The same session, or the session after a key and salt were loaded in place.
pub data Rekeyed (P : Srtp) (s : P.Session) : P.Session → Type 0 where
  same : Rekeyed P s s
  rekeyed :
      {t : P.Session} (ssrc : ℕ) (key salt : Bytes)
      → P.inplace_rekey s ssrc key salt ≡ some t
      → Rekeyed P s t
