-- ===== src/Tests/Streams.antt =====
-- The sending side at concrete inputs.
use safe_cast.Base.{ℕ, ◌+◌, ◌-◌, ◌/◌, ◌≡◌, refl, arith, [], ◌∷◌, Bytes, some, true, take, ret}
use safe_cast.Crypto.{SrtpResult}
use safe_cast.Keying.Ratchet.{StreamRatchet, split_key_salt}
use safe_cast.Keying.Ratchet.Chain.{key_at, secret_at}
use safe_cast.Keying.Granularity.{every_n, RekeyingStream, protect}
use safe_cast.Keying.Granularity.Steps.{InStep, protect_lem}
use safe_cast.Keying.Granularity.Boundary.{IsGenerationOf}
use safe_cast.Tesla.Chain.{from_final_key, mac_key}
use safe_cast.Tesla.Chain.Keys.{f_iter, key-from_final_key}
use safe_cast.Tesla.Mac.{hmac_sha256, hmac_state, prepare}
use safe_cast.Tesla.Sender.{TeslaSender, authenticate}
use safe_cast.Tesla.Sender.Packets.{IsReady, Carries, authenticate_lem}
use safe_cast.Tests.Instances.{hmac0, gmac0, hkdf0, srtp0, key0, seed0, packet0}
use safe_cast.Tests.Chains.{schedule0, schedule0-IsValid}

abbrev ratchet0 : StreamRatchet
ratchet0 = record { chain_secret = seed0; generation = 0 }

abbrev stream0 : RekeyingStream srtp0
stream0 = record {
  session =
      (7, (split_key_salt (key_at hkdf0 seed0 1)).0, (split_key_salt (key_at hkdf0 seed0 1)).1);
  ratchet = record { chain_secret = secret_at hkdf0 seed0 2; generation = 2 };
  granularity = every_n 2;
  ssrc = 7;
  installed_gen = 1;
  last_ts = some 3000;
  started = true;
  packet_count = 4;
}

stream0-InStep : InStep hkdf0 srtp0 seed0 stream0
stream0-InStep = record {
  on_chain = refl;
  past = refl;
  keyed = refl;
  own_stream = refl;
  began = refl;
  placed = refl;
}

protect_lem_example :
    (s : RekeyingStream srtp0) × (buf : Bytes) × (out : SrtpResult) × (protect hkdf0 srtp0 stream0
        packet0
      ≡ ret (s, buf, out))
    × InStep hkdf0 srtp0 seed0 s
    × (s.packet_count ≡ stream0.packet_count + 1)
    × IsGenerationOf stream0.granularity stream0.packet_count s.installed_gen
    × ((t : ℕ × Bytes × Bytes) × (srtp0.loaded t
          ≡ split_key_salt (key_at hkdf0 seed0 s.installed_gen))
        × (srtp0.protect t packet0 ≡ (s.session, buf, out)))
protect_lem_example =
    protect_lem hkdf0 srtp0 seed0 stream0 packet0 (omega arith) stream0-InStep (omega arith)

abbrev pub sender0 : TeslaSender
sender0 = record {
  params = schedule0;
  chain = from_final_key hmac0 key0 50;
  alg = hmac_sha256;
  current_interval = 1;
  prepared = hmac_state (take 32 (hmac0.hmac (f_iter hmac0 49 key0) (1 ∷ [])));
}

pub sender0-IsReady : IsReady hmac0 gmac0 key0 sender0
unfolding prepare mac_key
sender0-IsReady = record {
  chain_below = refl;
  interval_key = f_iter hmac0 49 key0;
  current = (key-from_final_key hmac0 key0 50 1).0 (omega arith);
  keyed = refl;
}

authenticate_lem_example :
    (s : TeslaSender) × (out : Bytes) × (authenticate hmac0 gmac0 sender0 packet0 65539 1035
      ≡ ret (s, out))
    × Carries hmac0 gmac0 sender0 packet0 65539 (1 + (1035 - 1000) / 10) out
    × IsReady hmac0 gmac0 key0 s
    × (s.params ≡ sender0.params)
authenticate_lem_example =
    authenticate_lem hmac0 gmac0 key0 sender0 packet0 65539 1035 refl schedule0-IsValid
      sender0-IsReady (omega arith) (omega arith) (omega arith) (omega arith)
