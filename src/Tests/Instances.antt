-- ===== src/Tests/Instances.antt =====
-- Concrete stand-ins for the cryptographic libraries.
use safe_cast.Base.{
  none, ap, ltb, leb, ◌||◌, ◌&&◌, ◌==◌, if◌then◌else◌, arith, Option, ℕ, ◌+◌, ◌*◌, ◌%◌, ◌≡◌, refl,
  subst, [], ◌∷◌, ◌++◌, some, Bytes, true, bytes_eq, bytes_eq_refl, length-replicate, replicate,
  true,
}
use safe_cast.Crypto.{IsWindow, HmacSha256, Gmac, SignatureScheme, Hkdf, Srtp, ok}

abbrev checksum : Bytes → ℕ
checksum [] = 7
checksum (b ∷ l) = (b + 3 * checksum l) % 256

abbrev pub hmac0 : HmacSha256
hmac0 = record {
  hmac = λ key message. replicate 32 (checksum (key ++ message));
  hmac_length = λ key message. length-replicate 32 (checksum (key ++ message));
}

abbrev pub gmac0 : Gmac
gmac0 = record {
  gmac = λ key nonce aad. replicate 16 (checksum (key ++ (nonce ++ aad)));
  gmac_length = λ key nonce aad. length-replicate 16 (checksum (key ++ (nonce ++ aad)));
}

pub some_inj : {x y : Bytes} → some x ≡ some y → x ≡ y
some_inj e = cc

-- The signature is the signer's bytes before the message.
abbrev pub scheme0 : SignatureScheme
scheme0 = record {
  sign = λ signer message. some (signer ++ message);
  public_key = λ signer. signer;
  verify_signature = λ message public signature. bytes_eq (public ++ message) signature;
  sign_verifies = λ signer message signature e.
      subst (λ s. bytes_eq (signer ++ message) s ≡ true) (some_inj e)
        (bytes_eq_refl (signer ++ message));
}

abbrev pub hkdf0 : Hkdf
hkdf0 = record {
  expand = λ secret info n. replicate n (checksum (secret ++ info));
  expand_length = λ secret info n le. length-replicate n (checksum (secret ++ info));
}

-- An answer for the windows that libsrtp accepts.
abbrev pub guarded : {A : Type 0} → ℕ → A → Option A
guarded window a = if window == 0 || (leb 64 window && ltb window 32768) then some a else none

pub guarded_accepts : {A : Type 0} (w : ℕ) (a : A) → IsWindow w → guarded w a ≡ some a
guarded_accepts w a fits = ground arith

pub guarded_refuses : {A : Type 0} (w : ℕ) (a : A) → ¬ IsWindow w → guarded w a ≡ none
guarded_refuses w a bad = ground arith

pub guarded_is : {A : Type 0} (w : ℕ) (a t : A) → guarded w a ≡ some t → t ≡ a
guarded_is w a t e = ground arith

-- A session is its stream with the key and salt; it leaves every packet as it is.
abbrev pub srtp0 : Srtp
srtp0 = record {
  Session = ℕ × Bytes × Bytes;
  new_session = some (0, [], []);
  add_stream = λ s ssrc window key. guarded window (ssrc, key, []);
  inplace_rekey = λ s ssrc key salt. some (ssrc, key, salt);
  protect = λ s buf. (s, buf, ok);
  unprotect = λ s buf. (s, buf, ok);
  loaded = λ s. (s.1, s.2);
  stream = λ s. s.0;
  creates = ((0, [], []), refl);
  accepts_window = λ s ssrc window key e fits h. ((ssrc, key, []), guarded_accepts window _ fits);
  refuses_window = λ s ssrc window key bad. guarded_refuses window _ bad;
  stream-add_stream =
      λ s t ssrc window key e. ap (λ (x : ℕ × Bytes × Bytes). x.0) (guarded_is window _ t e);
  inplace_rekey_loads = λ s key salt h h'. ((s.0, key, salt), refl, refl, refl);
  loaded-protect = λ s buf. refl;
  loaded-unprotect = λ s buf. refl;
  stream-protect = λ s buf. refl;
  stream-unprotect = λ s buf. refl;
}

abbrev pub key0 : Bytes
key0 = replicate 20 9

abbrev pub seed0 : Bytes
seed0 = replicate 32 5

abbrev pub packet0 : Bytes
packet0 = 0x80 ∷ 96 ∷ 0 ∷ 3 ∷ 0 ∷ 0 ∷ 0 ∷ 0 ∷ 0 ∷ 0 ∷ 0 ∷ 7 ∷ 1 ∷ 2 ∷ []
