-- ===== src/Tests/Broadcasts.antt =====
-- An authenticated stream from end to end at a concrete input.
use safe_cast.Base.{inr, ℕ, ◌+◌, ◌*◌, ◌<◌, ◌≡◌, refl, arith, [], ◌∷◌, Bytes, some, none, ◌++◌, ret}
use safe_cast.Keying.Granularity.{every_n}
use safe_cast.Simulation.Network.Config.{Schedule}
use safe_cast.Simulation.Sender.{plain_packet}
use safe_cast.Tesla.Chain.Keys.{f_iter}
use safe_cast.Tesla.Commitment.{to_bytes}
use safe_cast.Tesla.Mac.{hmac_sha256}
use safe_cast.Tesla.Schedule.{TeslaSchedule, disclosed_index}
use safe_cast.Tesla.Schedule.Safety.{IsValid}
use safe_cast.Delivery.{indices}
use safe_cast.Delivery.Authentic.{commit, tesla_outcomes, broadcast}
use safe_cast.Delivery.Authentic.Signing.{IsTimely}
use safe_cast.Delivery.Authentic.Broadcast.{broadcast_lem}
use safe_cast.Tests.Instances.{hmac0, gmac0, hkdf0, scheme0, key0, seed0}
use safe_cast.Tests.Links.{srtp1, link1}
use safe_cast.Tests.Deliveries.{model1}

abbrev schedule2 : TeslaSchedule
schedule2 = record { t0_ns = 1000; t_int_ns = 10; d = 4; n_chain = 8; d_t_ns = 3; g_max = 1 }

schedule2-IsValid : IsValid schedule2
schedule2-IsValid = record {
  longer = omega arith;
  delay = omega arith;
  media = omega arith;
  cap = omega arith;
  chain_u32 = omega arith;
  t0_u64 = omega arith;
}

-- One packet in each interval.
abbrev send_at2 : ℕ → ℕ
send_at2 i = 1000 + 10 * i

send_at2-IsTimely : (j : ℕ) → j < 5 → IsTimely schedule2 send_at2 j
send_at2-IsTimely j lt = record { is_u64 = omega arith; started = omega arith; lasts = omega arith }

-- Five packets: one is lost, two are overtaken, and one comes twice. The key of the first interval
-- comes with the last packet.
abbrev arrivals2 : Schedule
arrivals2 = (1012, 1) ∷ (1013, 0) ∷ (1030, 1) ∷ (1042, 4) ∷ (1045, 2) ∷ []

abbrev signature2 : Bytes
signature2 =
    (6 ∷ []) ++ to_bytes (commit schedule2 hmac_sha256 (f_iter hmac0 8 key0) (1 ∷ []) (2 ∷ []) 7 3)

broadcast_lem_example :
    broadcast hmac0 gmac0 hkdf0 srtp1 scheme0
      (every_n 2)
      model1
      schedule2
      hmac_sha256
      (λ zeros. key0)
      send_at2
      (6 ∷ [])
      (1 ∷ [])
      (2 ∷ [])
      3
      seed0
      5
      3
      10
      128
      arrivals2
    ≡ ret (tesla_outcomes model1 [] arrivals2, 0)
unfolding indices disclosed_index
broadcast_lem_example =
    broadcast_lem hkdf0 srtp1 hmac0 gmac0 link1 seed0 model1 (every_n 2) 3 10 128 (omega arith)
      (omega arith) (omega arith) scheme0 schedule2 hmac_sha256 (λ zeros. key0) send_at2 (6 ∷ [])
      (1 ∷ []) (2 ∷ []) signature2 3 5 27 arrivals2 refl (omega arith) tt (omega arith)
      (inr (omega arith)) schedule2-IsValid refl refl send_at2-IsTimely (omega arith) (omega arith)
      (omega arith) (omega arith)

-- What should come of them.
outcomes2 :
    tesla_outcomes model1 [] arrivals2
    ≡ some (plain_packet model1 1)
      ∷ some (plain_packet model1 0)
      ∷ none
      ∷ some (plain_packet model1 4)
      ∷ some (plain_packet model1 2)
      ∷ []
unfolding tesla_outcomes
outcomes2 = refl
