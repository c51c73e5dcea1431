-- ===== src/Tests/Chains.antt =====
-- The key chain and the schedule at concrete inputs.
use safe_cast.Base.{ℕ, ◌+◌, ◌-◌, ◌≤◌, ◌<◌, ◌≡◌, refl, arith, [], ◌∷◌, ret}
use safe_cast.Tesla.Chain.{ChainKey, ChainVerifier, new, new_verifier, check}
use safe_cast.Tesla.Chain.Keys.{f_iter, key-from_final_key}
use safe_cast.Tesla.Chain.Trust.{Outcome, check-Outcome}
use safe_cast.Tesla.Chain.Genuine.{IsRooted, checks, checks-IsRooted, chain_keys, check_genuine}
use safe_cast.Tesla.Schedule.{
  TeslaSchedule, safe, accepts, interval_of, disclosed_index, sender_upper_bound,
}
use safe_cast.Tesla.Schedule.Safety.{IsValid, accepts_secret, late_disclosed, travel_budget}
use safe_cast.Tests.Instances.{hmac0, key0}

abbrev at0 : ℕ → ChainKey
at0 i = f_iter hmac0 (10 - i) key0

check_genuine_example :
    check hmac0
      (record { n_chain = 10; g_max = 5; trusted_index = 2; trusted_key = at0 2 })
      (at0 5)
      5
    ≡ (
      record { n_chain = 10; g_max = 5; trusted_index = 5; trusted_key = at0 5 },
      new (chain_keys hmac0 key0 10 2 (5 - 2)),
    )
check_genuine_example =
    check_genuine hmac0 key0 (at0 2) (at0 5) 10 5 2 5 (omega arith) (omega arith) (omega arith)
      ((key-from_final_key hmac0 key0 10 2).0 (omega arith))
      ((key-from_final_key hmac0 key0 10 5).0 (omega arith))

checks-IsRooted_example :
    IsRooted hmac0
      (at0 0)
      (checks hmac0 (new_verifier (at0 0) 10 5) ((at0 2, 2) ∷ (key0, 4) ∷ (at0 6, 6) ∷ []))
checks-IsRooted_example =
    checks-IsRooted hmac0 (at0 0) 10 5 ((at0 2, 2) ∷ (key0, 4) ∷ (at0 6, 6) ∷ [])

abbrev verifier0 : ChainVerifier
verifier0 = record { n_chain = 10; g_max = 5; trusted_index = 2; trusted_key = at0 2 }

check-Outcome_example : Outcome hmac0 verifier0 (at0 5) 5 (check hmac0 verifier0 (at0 5) 5)
check-Outcome_example = check-Outcome hmac0 verifier0 (at0 5) 5

abbrev pub schedule0 : TeslaSchedule
schedule0 = record { t0_ns = 1000; t_int_ns = 10; d = 2; n_chain = 50; d_t_ns = 3; g_max = 5 }

pub schedule0-IsValid : IsValid schedule0
schedule0-IsValid = record {
  longer = omega arith;
  delay = omega arith;
  media = omega arith;
  cap = omega arith;
  chain_u32 = omega arith;
  t0_u64 = omega arith;
}

accepts_secret_example : disclosed_index schedule0 5 < 4
unfolding accepts sender_upper_bound interval_of
accepts_secret_example =
    accepts_secret 1040 4 1043 5 schedule0-IsValid (omega arith) refl (omega arith) (omega arith)
      refl

late_disclosed_example :
    (send : ℕ) × (j : ℕ) × (send ≤ 1060 + 3)
    × (interval_of schedule0 send ≡ ret j)
    × (4 ≤ disclosed_index schedule0 j)
unfolding accepts sender_upper_bound
late_disclosed_example = late_disclosed 1060 4 schedule0-IsValid refl (omega arith)

travel_budget_example : accepts schedule0 1042 4 ≡ safe
unfolding interval_of
travel_budget_example =
    travel_budget 1035 1042 4 7 schedule0-IsValid (omega arith) refl (omega arith) (omega arith)
