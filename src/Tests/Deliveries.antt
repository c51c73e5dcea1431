-- ===== src/Tests/Deliveries.antt =====
-- Streams from end to end at concrete inputs.
use safe_cast.Base.{inr, ℕ, ◌≡◌, refl, arith, List, [], ◌∷◌, ret, sort_by_key}
use safe_cast.Keying.Granularity.{every_n, per_packet}
use safe_cast.Receiver.Manager.{delivered, refused}
use safe_cast.Receiver.Manager.State.{srtp_replay}
use safe_cast.Simulation.Network.Config.{Schedule, NetworkStats}
use safe_cast.Simulation.Network.{
  disturb, measure_displacement, walk, send_packets, send_packet, merge, copy_arrival, second_copy,
  displacement_of, count_late,
}
use safe_cast.Simulation.Sender.{StreamModel, plain_packet}
use safe_cast.Delivery.{outcomes, deliveries, indices, transmit}
use safe_cast.Delivery.Stream.{transmit_lem}
use safe_cast.Delivery.Network.{disturb-deliveries}
use safe_cast.Tests.Instances.{hkdf0, seed0}
use safe_cast.Tests.Links.{srtp1, link1}
use safe_cast.Tests.Networks.{randomness0, network0, send0}

abbrev pub model1 : StreamModel
model1 = record { payload_size = 10; ppf = 2; ssrc = 7 }

-- Five packets with a key for every two: one is lost, one overtaken, and one comes twice.
abbrev arrivals1 : List ℕ
arrivals1 = 1 ∷ 0 ∷ 4 ∷ 1 ∷ 2 ∷ []

transmit_lem_example :
    transmit hkdf0 srtp1 (every_n 2) model1 seed0 5 3 10 128 arrivals1
    ≡ ret (outcomes (every_n 2) model1 [] arrivals1)
transmit_lem_example =
    transmit_lem hkdf0 srtp1 link1 seed0 (every_n 2) model1 5 3 10 128 arrivals1 refl (omega arith)
      (omega arith) (omega arith) (omega arith) tt (omega arith) (inr (omega arith)) (omega arith)

-- What should come of them.
outcomes1 :
    outcomes (every_n 2) model1 [] arrivals1
    ≡ (delivered 0, plain_packet model1 1)
      ∷ (delivered 0, plain_packet model1 0)
      ∷ (delivered 2, plain_packet model1 4)
      ∷ (refused srtp_replay, [])
      ∷ (delivered 1, plain_packet model1 2)
      ∷ []
unfolding outcomes
outcomes1 = refl

-- Six packets over the network with two paths.
abbrev schedule1 : Schedule
schedule1 = (246, 1) ∷ (280, 0) ∷ (580, 3) ∷ (650, 2) ∷ (680, 4) ∷ (780, 5) ∷ []

abbrev stats1 : NetworkStats
stats1 = record {
  sent = 6;
  delivered = 6;
  lost_a = 1;
  lost_b = 1;
  lost_packets = 0;
  wins_a = 1;
  wins_b = 5;
  duplicates_dropped = 4;
  displacement = record {
    reordered = 2;
    max_lateness = 1;
    p50 = 0;
    p99 = 1;
    p99_9 = 1;
    gaps = 2;
    max_gap = 1;
  };
}

disturb1 : disturb randomness0 6 send0 network0 ≡ ret (schedule1, stats1)
unfolding disturb measure_displacement walk sort_by_key send_packets send_packet merge copy_arrival
    second_copy displacement_of count_late
disturb1 = refl

disturb-deliveries_example :
    transmit hkdf0 srtp1 per_packet model1 seed0 6 2 2 128 (indices schedule1)
    ≡ ret (deliveries per_packet model1 schedule1)
disturb-deliveries_example =
    disturb-deliveries randomness0 hkdf0 srtp1 link1 seed0 per_packet model1 6 2 2 128 send0
      network0 schedule1 stats1 refl tt (omega arith) (omega arith) (omega arith) tt disturb1
      (omega arith) (inr (omega arith)) (omega arith) (omega arith) (omega arith)
