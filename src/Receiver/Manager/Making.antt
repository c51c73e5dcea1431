-- ===== src/Receiver/Manager/Making.antt =====
-- The constructor of src/receiver.rs's `ReceiverKeyManager`.
use safe_cast.Base.{
  ℕ, zero, suc, ◌≤◌, ◌≡◌, ◌≢◌, refl, arith, Option, none, some, Bytes, get_elem?, le→leb,
  length-replicate, ret, replicate, assert, expect, expect-eq-ret, ret_inj, >>=-eq-ret, leb,
}
use safe_cast.Crypto.{Hkdf, Srtp, IsWindow}
use safe_cast.Keying.Ratchet.{KeySalt}
use safe_cast.Receiver.Generation.{GenerationScheme}
use safe_cast.Receiver.IndexRecovery.{fresh}
use safe_cast.Receiver.Manager.State.{ReceiverKeyManager, no_stats, new_manager}
use safe_cast.Receiver.Manager.Window.{IsSynced}

get_elem?-replicate-none :
    {A : Type 0} (k i : ℕ) (a : A) → get_elem? {A = Option A} (replicate k none) i ≢ some (some a)
get_elem?-replicate-none zero i a e = cc
get_elem?-replicate-none (suc k) zero a e = cc
get_elem?-replicate-none (suc k) (suc i) a e = get_elem?-replicate-none k i a e

module _ (K : Hkdf) (P : Srtp) (seed : Bytes) where
  -- The receiver around a session with its stream.
  abbrev pub manager_of :
      GenerationScheme → (ssrc k seek_cap : ℕ) → P.Session → ReceiverKeyManager P
  manager_of scheme ssrc k seek_cap session = record {
    session = session;
    ssrc = ssrc;
    scheme = scheme;
    recovery = fresh;
    ratchet = record { chain_secret = seed; generation = 0 };
    ring = replicate k none;
    frontier = none;
    installed = none;
    seek_cap = seek_cap;
    stats = no_stats;
  }

  pub manager_of-IsSynced :
      (scheme : GenerationScheme) (ssrc k seek_cap : ℕ) (session : P.Session)
      → 1 ≤ k
      → P.stream session ≡ ssrc
      → IsSynced K P seed (manager_of scheme ssrc k seek_cap session)
  manager_of-IsSynced scheme ssrc k seek_cap session pos streams = record {
    size = omega (arith, length-replicate {A = Option (ℕ × KeySalt)} k none);
    on_chain = refl;
    at_frontier = refl;
    covers = λ g lo hi. absurd (omega arith);
    only = λ i t ks e. absurd (get_elem?-replicate-none k i (t, ks) e);
    loaded_key = λ g e. absurd (cc);
    own_stream = streams;
  }

  -- What the constructor comes to, for a window that libsrtp accepts.
  pub new_manager_returns :
      (scheme : GenerationScheme) (ssrc k seek_cap window : ℕ)
      → 1 ≤ k
      → IsWindow window
      → (bare session : P.Session) × (P.new_session ≡ some bare)
        × (P.add_stream bare ssrc window (replicate 28 0) ≡ some session)
        × (new_manager P scheme ssrc
              (record { chain_secret = seed; generation = 0 })
              k
              seek_cap
              window
            ≡ ret (manager_of scheme ssrc k seek_cap session))
  unfolding new_manager
  new_manager_returns scheme ssrc k seek_cap window pos ok =
      let (bare, creates) = P.creates in
      let (session, added) = P.accepts_window bare ssrc window (replicate 28 0) creates ok refl in
      (bare, session, creates, added, rw (le→leb 1 k pos, creates, added) refl)

  pub made_of :
      (scheme : GenerationScheme) (ssrc k seek_cap window : ℕ) (m : ReceiverKeyManager P)
      → new_manager P scheme ssrc (record { chain_secret = seed; generation = 0 }) k seek_cap window
        ≡ ret m
      → (session : P.Session) × (P.stream session ≡ ssrc)
        × (manager_of scheme ssrc k seek_cap session ≡ m)
  unfolding new_manager
  made_of scheme ssrc k seek_cap window m e =
      let (_, _, e₁) = >>=-eq-ret (assert (leb 1 k)) _ e in
      let (bare, _, e₂) = >>=-eq-ret (expect P.new_session) _ e₁ in
      let (session, added, e₃) =
        >>=-eq-ret (expect (P.add_stream bare ssrc window (replicate 28 0))) _ e₂ in
      (
        session,
        P.stream-add_stream bare session ssrc window (replicate 28 0) (expect-eq-ret _ added),
        ret_inj e₃,
      )
