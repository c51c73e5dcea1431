-- ===== src/Tests/Receivers.antt =====
-- The receivers at concrete inputs.
use safe_cast.Base.{
  ℕ, suc, ◌+◌, ◌-◌, ◌≤◌, ◌<◌, ◌≡◌, ◌⊎◌, inl, inr, refl, arith, [], ◌∷◌, ◌++◌, Bytes, AreBytes, some,
  none, true, bytes_eq_refl, replicate, ret,
}
use safe_cast.Keying.Ratchet.{KeySalt}
use safe_cast.Keying.Ratchet.Chain.{key_at, secret_at}
use safe_cast.Receiver.IndexRecovery.{fresh}
use safe_cast.Receiver.Generation.{every_n}
use safe_cast.Receiver.Manager.State.{
  Ring, ReceiverKeyManager, RecvDrop, new_manager, no_stats, in_window, ahead, behind_window,
  seek_cap_exceeded,
}
use safe_cast.Receiver.Manager.Phases.{placed, dropped, classify, catch_up}
use safe_cast.Receiver.Manager.RingKeys.{first_kept, Covers}
use safe_cast.Receiver.Manager.CatchUp.{Caught, catch_up_lem, classify_lem}
use safe_cast.Receiver.Manager.Window.{IsSynced}
use safe_cast.Receiver.Manager.Unprotect.{Post}
use safe_cast.Receiver.Manager.Calls.{here, next, unprotect_lem, new_manager-Reach}
use safe_cast.Receiver.Manager.{refused, unprotect, drop_packet, count_drop}
use safe_cast.Tesla.Chain.{new_verifier}
use safe_cast.Tesla.Chain.Keys.{f_iter}
use safe_cast.Tesla.Commitment.{TeslaCommitment, to_bytes, schedule, verify}
use safe_cast.Tesla.Extension.{append_extension, split_extension}
use safe_cast.Tesla.Mac.{hmac_sha256}
use safe_cast.Tesla.Schedule.{new_schedule}
use safe_cast.Tesla.Receiver.State.{TeslaReceiver, TeslaResult, malformed, no_tesla_stats}
use safe_cast.Tesla.Receiver.{accept, process_arrival, on_split, reject}
use safe_cast.Tesla.Receiver.Accounts.{IsBalanced}
use safe_cast.Tesla.Receiver.Filing.{Opened}
use safe_cast.Tesla.Receiver.Arrivals.{start, arrive, process_arrival_lem, accept-Arrived}
use safe_cast.Tests.Chains.{schedule0}
use safe_cast.Tests.Instances.{hmac0, gmac0, hkdf0, srtp0, scheme0, key0, seed0, packet0}

abbrev key_of : ℕ → KeySalt
key_of g = key_at hkdf0 seed0 g

catch_up_lem_example : Caught hkdf0 seed0 5 (first_kept 3 1 (suc 5)) (
    catch_up hkdf0
      (suc 5 - 1)
      5
      3
      (record { chain_secret = secret_at hkdf0 seed0 1; generation = 1 })
      [])
catch_up_lem_example =
    catch_up_lem hkdf0 seed0 5 3 (record { chain_secret = secret_at hkdf0 seed0 1; generation = 1 })
      (omega arith) refl (omega arith)

-- Generations 3 to 5 in three slots.
abbrev ring0 : Ring
ring0 = some (3, key_of 3) ∷ some (4, key_of 4) ∷ some (5, key_of 5) ∷ []

last_three : (g : ℕ) → g < 6 → 3 ≤ g → (g ≡ 3) ⊎ (g ≡ 4) ⊎ (g ≡ 5)
last_three g lt ge = omega arith

ring0-Covers : Covers (key_at hkdf0 seed0) ring0 6
ring0-Covers g lt near = elim (last_three g lt (omega arith)) [
  | inl e ↦ rw e refl
  | inr (inl e) ↦ rw e refl
  | inr (inr e) ↦ rw e refl
]

classify_lem_example :
    (4 < 6 → 6 ≤ 4 + 3 → classify ring0 (some 5) 10 4 ≡ ret (placed (in_window (key_of 4))))
    × (4 + 3 < 6 → classify ring0 (some 5) 10 4 ≡ ret (dropped behind_window))
    × (6 ≤ 4 → suc 4 - 6 ≤ 10 → classify ring0 (some 5) 10 4 ≡ ret (placed (ahead (suc 4 - 6))))
    × (6 ≤ 4 → 10 < suc 4 - 6 → classify ring0 (some 5) 10 4 ≡ ret (dropped seek_cap_exceeded))
classify_lem_example =
    classify_lem hkdf0 seed0 ring0 (some 5) 10 4 (omega arith) (omega arith) ring0-Covers

abbrev pub receiver0 : ReceiverKeyManager srtp0
receiver0 = record {
  session = (7, replicate 28 0, []);
  ssrc = 7;
  scheme = every_n 0 2;
  recovery = fresh;
  ratchet = record { chain_secret = seed0; generation = 0 };
  ring = none ∷ none ∷ none ∷ [];
  frontier = none;
  installed = none;
  seek_cap = 10;
  stats = no_stats;
}

receiver0_made :
    new_manager srtp0 (every_n 0 2) 7 (record { chain_secret = seed0; generation = 0 }) 3 10 128
    ≡ ret receiver0
unfolding new_manager
receiver0_made = refl

receiver0-IsSynced : IsSynced hkdf0 srtp0 seed0 receiver0
receiver0-IsSynced =
    new_manager-Reach hkdf0 srtp0 seed0 (every_n 0 2) 7 3 10 128 receiver0 receiver0 (omega arith)
      receiver0_made here

packet0-AreBytes : AreBytes packet0
packet0-AreBytes = omega arith

unprotect_lem_example :
    Post hkdf0 srtp0 seed0 receiver0 packet0 (unprotect hkdf0 srtp0 receiver0 packet0)
unprotect_lem_example =
    unprotect_lem hkdf0 srtp0 seed0 receiver0 packet0 receiver0-IsSynced packet0-AreBytes tt

-- A datagram that is too short is dropped, and the receiver stays in step.
abbrev receiver1 : ReceiverKeyManager srtp0
receiver1 = record receiver0 { stats = record no_stats { drops_auth = 1 } }

new_manager-Reach_example : IsSynced hkdf0 srtp0 seed0 receiver1
unfolding unprotect drop_packet count_drop
new_manager-Reach_example =
    new_manager-Reach hkdf0 srtp0 seed0 (every_n 0 2) 7 3 10 128 receiver0 receiver1 (omega arith)
      receiver0_made
      (next (1 ∷ []) (1 ∷ []) (refused RecvDrop.auth_fail) here (omega arith) tt refl)

abbrev commitment1 : TeslaCommitment
commitment1 = record {
  anchor = f_iter hmac0 50 key0;
  t0_ns = 1000;
  t_int_ns = 10;
  d = 2;
  n_chain = 50;
  mac_alg = hmac_sha256;
  sender_identity = 1 ∷ 2 ∷ [];
  ssrc = 7;
  group_id = 4 ∷ [];
  epoch = 3;
}

abbrev signature1 : Bytes
signature1 = (8 ∷ []) ++ to_bytes commitment1

abbrev pub tesla0 : TeslaReceiver srtp0
tesla0 = record {
  params = schedule0;
  verifier = record {
    n_chain = 50;
    g_max = 5;
    trusted_index = 0;
    trusted_key = f_iter hmac0 50 key0;
  };
  alg = hmac_sha256;
  inner = receiver0;
  recovery = fresh;
  drawers = [];
  pending = 0;
  stats = no_tesla_stats;
}

tesla0_made : accept srtp0 scheme0 commitment1 signature1 (8 ∷ []) 3 5 receiver0 ≡ ret (some tesla0)
unfolding accept verify schedule new_schedule new_verifier
tesla0_made = rw (bytes_eq_refl signature1) refl

tesla0-IsBalanced : IsBalanced hkdf0 srtp0 hmac0 gmac0 (f_iter hmac0 50 key0) tesla0
tesla0-IsBalanced =
    (accept-Arrived hkdf0 srtp0 hmac0 gmac0 scheme0 commitment1 signature1 (8 ∷ []) 3 5 receiver0
      tesla0 tesla0 tesla0_made start).1

abbrev tesla1 : TeslaReceiver srtp0
tesla1 = record tesla0 { stats = record no_tesla_stats { drops_malformed = 1 } }

accept-Arrived_example :
    (verify scheme0 commitment1 signature1 (8 ∷ []) ≡ true)
    × IsBalanced hkdf0 srtp0 hmac0 gmac0 (f_iter hmac0 50 key0) tesla1
unfolding process_arrival on_split split_extension reject
accept-Arrived_example =
    accept-Arrived hkdf0 srtp0 hmac0 gmac0 scheme0 commitment1 signature1 (8 ∷ []) 3 5 receiver0
      tesla0 tesla1 tesla0_made
      (arrive packet0 packet0 1015 (TeslaResult.refused malformed) start refl)

abbrev datagram1 : Bytes
datagram1 = append_extension packet0 2 (f_iter hmac0 50 key0) (replicate 10 0)

process_arrival_lem_example :
    Opened hkdf0 srtp0 hmac0 gmac0
      (f_iter hmac0 50 key0)
      tesla0
      (split_extension datagram1)
      1015
      (process_arrival hkdf0 srtp0 hmac0 gmac0 tesla0 datagram1 1015)
process_arrival_lem_example =
    process_arrival_lem hkdf0 srtp0 hmac0 gmac0 (f_iter hmac0 50 key0) tesla0 datagram1 1015
      tesla0-IsBalanced
