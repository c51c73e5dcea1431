-- ===== src/Tests/Verdicts.antt =====
-- The settling of waiting packets at concrete inputs.
use safe_cast.Base.{ℕ, ◌+◌, ◌≡◌, refl, arith, [], ◌∷◌, Bytes, take, ret}
use safe_cast.Tesla.Chain.{ChainKey, mac_key}
use safe_cast.Tesla.Chain.Keys.{f_iter, key-from_final_key}
use safe_cast.Tesla.Mac.{PreparedMac, hmac_state, prepare, tag}
use safe_cast.Tesla.Sender.Packets.{Carries, authenticate_lem}
use safe_cast.Tesla.Receiver.State.{DrawerEntry, TeslaReceiver, no_tesla_stats, remove}
use safe_cast.Tesla.Receiver.{settle}
use safe_cast.Tesla.Receiver.Settle.{Verdicts, settle_lem}
use safe_cast.Tesla.Receiver.Genuine.{FromSender, genuine, settle-genuine, settle-sender}
use safe_cast.Tests.Chains.{schedule0-IsValid}
use safe_cast.Tests.Streams.{sender0, sender0-IsReady}
use safe_cast.Tests.Receivers.{tesla0}
use safe_cast.Tests.Instances.{hmac0, gmac0, hkdf0, srtp0, key0, packet0}

-- The packet that the sender sends in interval 4.
abbrev sent : (out : Bytes) × Carries hmac0 gmac0 sender0 packet0 65539 4 out
sent =
    let p =
      authenticate_lem hmac0 gmac0 key0 sender0 packet0 65539 1035 refl schedule0-IsValid
        sender0-IsReady (omega arith) (omega arith) (omega arith) (omega arith) in
    (p.1, p.3)

abbrev entry0 : DrawerEntry
entry0 = record {
  ext_index = 65539;
  arrival_ns = 1036;
  mac = tag hmac0 gmac0 sent.1.mac 65539 packet0;
  covered = packet0;
}

entry0-FromSender : FromSender hmac0 gmac0 sender0 4 entry0
entry0-FromSender = record {
  packet = sent.0;
  disclosed = sent.1.disclosed;
  carried = sent.1;
  kept = sent.1.extension;
}

abbrev tesla2 : TeslaReceiver srtp0
tesla2 = record tesla0 {
  drawers = (3, []) ∷ (4, entry0 ∷ []) ∷ [];
  pending = 1;
  stats = record no_tesla_stats { delivered = 1; peak_pending = 1 };
}

abbrev key4 : ChainKey
key4 = f_iter hmac0 46 key0

settle_lem_example :
    (r : TeslaReceiver srtp0) × (m : ℕ) × (settle hkdf0 srtp0 hmac0 gmac0 tesla2
        ((2, key0) ∷ (4, key4) ∷ [])
        1056
        0
      ≡ ret (r, 0 + m))
    × Verdicts tesla2 r m
settle_lem_example = settle_lem hkdf0 srtp0 hmac0 gmac0 tesla2 ((2, key0) ∷ (4, key4) ∷ []) 1056 0

abbrev prepared4 : PreparedMac
prepared4 = hmac_state (take 32 (hmac0.hmac key4 (1 ∷ [])))

settle-genuine_example :
    (r : TeslaReceiver srtp0) × (settle hkdf0 srtp0 hmac0 gmac0 tesla2 ((4, key4) ∷ []) 1056 0
      ≡ ret (r, 1))
    × (r.drawers ≡ (3, []) ∷ [])
    × (r.stats.verified ≡ 0 + genuine hmac0 gmac0 prepared4 (entry0 ∷ []))
    × (r.stats.forged + genuine hmac0 gmac0 prepared4 (entry0 ∷ []) ≡ 0 + 1)
unfolding remove prepare mac_key
settle-genuine_example =
    settle-genuine hkdf0 srtp0 hmac0 gmac0 tesla2 4 key4 prepared4 1056 (entry0 ∷ []) ((3, []) ∷ [])
      refl refl

settle-sender_example :
    (r : TeslaReceiver srtp0) × (settle hkdf0 srtp0 hmac0 gmac0 tesla2 ((4, key4) ∷ []) 1056 0
      ≡ ret (r, 1))
    × (r.drawers ≡ (3, []) ∷ [])
    × (r.stats.verified ≡ 0 + 1)
    × (r.stats.forged ≡ 0)
unfolding remove
settle-sender_example =
    settle-sender hkdf0 srtp0 hmac0 gmac0 sender0 tesla2 4 key4 1056 (entry0 ∷ []) ((3, []) ∷ [])
      refl ((key-from_final_key hmac0 key0 50 4).0 (omega arith)) refl (entry0-FromSender, tt)
