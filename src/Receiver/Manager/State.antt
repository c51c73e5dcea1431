-- ===== src/Receiver/Manager/State.antt =====
-- The state of src/receiver.rs's `ReceiverKeyManager`, and its constructor.
use safe_cast.Base.{ℕ, List, Option, none, leb, replicate, Exec, ret, assert, expect, ◌>>=◌, ◌>>◌}
use safe_cast.Crypto.{Srtp}
use safe_cast.Keying.Ratchet.{KeySalt, StreamRatchet}
use safe_cast.Receiver.IndexRecovery.{IndexRecovery, fresh}
use safe_cast.Receiver.Generation.{GenerationScheme}

pub data RecvDrop : Type 0 where
  behind_window seek_cap_exceeded srtp_replay auth_fail : RecvDrop

pub record RecvStats : Type 0 where
  pub decrypted : ℕ
  pub cache_hits : ℕ
  pub catchup_steps : ℕ
  pub catchup_steps_wasted : ℕ
  pub max_catchup : ℕ
  pub installs : ℕ
  pub drops_behind : ℕ
  pub drops_seek_cap : ℕ
  pub drops_replay : ℕ
  pub drops_auth : ℕ

abbrev pub no_stats : RecvStats
no_stats = record {
  decrypted = 0;
  cache_hits = 0;
  catchup_steps = 0;
  catchup_steps_wasted = 0;
  max_catchup = 0;
  installs = 0;
  drops_behind = 0;
  drops_seek_cap = 0;
  drops_replay = 0;
  drops_auth = 0;
}

abbrev pub Ring : Type 0
Ring = List (Option (ℕ × KeySalt))

pub data Placement : Type 0 where
  in_window : KeySalt → Placement
  ahead : ℕ → Placement

pub record PendingCatchup : Type 0 where
  pub ratchet : StreamRatchet
  pub derived : List (ℕ × KeySalt)
  pub jump : ℕ

-- Without the crypto provider, which has no state: the ratchet's HKDF is a parameter.
pub record ReceiverKeyManager (P : Srtp) : Type 0 where
  pub session : P.Session
  pub ssrc : ℕ
  pub scheme : GenerationScheme
  pub recovery : IndexRecovery
  pub ratchet : StreamRatchet
  pub ring : Ring
  pub frontier : Option ℕ
  pub installed : Option ℕ
  pub seek_cap : ℕ
  pub stats : RecvStats

-- The session starts with a throwaway key of 28 zero bytes.
unfoldable pub new_manager :
    (P : Srtp) → GenerationScheme → ℕ → StreamRatchet → ℕ → ℕ → ℕ → Exec (ReceiverKeyManager P)
new_manager P scheme ssrc ratchet k seek_cap replay_window = do
  assert (leb 1 k)
  bare ← expect P.new_session
  session ← expect (P.add_stream bare ssrc replay_window (replicate 28 0))
  ret (record {
    session = session;
    ssrc = ssrc;
    scheme = scheme;
    recovery = fresh;
    ratchet = ratchet;
    ring = replicate k none;
    frontier = none;
    installed = none;
    seek_cap = seek_cap;
    stats = no_stats;
  })
