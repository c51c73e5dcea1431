-- ===== src/Delivery/Authentic/Accepting.antt =====
-- The receiver of src/tesla/receiver.rs that a commitment signed by the sender makes.
use safe_cast.Base.{ℕ, ◌≡◌, refl, arith, [], Bytes, none, some, le→leb, lt→ltb, ret}
use safe_cast.Crypto.{Srtp, SignatureScheme}
use safe_cast.Receiver.Manager.State.{ReceiverKeyManager}
use safe_cast.Tesla.Chain.{ChainKey, new_verifier}
use safe_cast.Tesla.Commitment.{to_bytes, verify, schedule}
use safe_cast.Tesla.Mac.{TeslaMacAlg}
use safe_cast.Tesla.Schedule.{TeslaSchedule, new_schedule}
use safe_cast.Tesla.Schedule.Safety.{IsValid}
use safe_cast.Tesla.Receiver.State.{TeslaReceiver, no_tesla_stats}
use safe_cast.Tesla.Receiver.{accept}
use safe_cast.Delivery.Authentic.{commit}

new_schedule_returns :
    (p : TeslaSchedule)
    → IsValid p
    → new_schedule p.t0_ns p.t_int_ns p.d p.n_chain p.d_t_ns p.g_max ≡ ret p
unfolding new_schedule
new_schedule_returns p v =
    rw
      (
        lt→ltb 0 p.t_int_ns (omega (arith, v.longer)),
        le→leb 2 p.d v.delay,
        le→leb 1 p.n_chain v.media,
        le→leb 1 p.g_max v.cap,
      )
      refl

-- The receiver that a signed commitment makes.
abbrev pub accepted :
    (P : Srtp) → TeslaSchedule → TeslaMacAlg → ChainKey → ReceiverKeyManager P → TeslaReceiver P
accepted P params alg first inner = record {
  params = params;
  verifier = new_verifier first params.n_chain params.g_max;
  alg = alg;
  inner = inner;
  recovery = record { highest = none };
  drawers = [];
  pending = 0;
  stats = no_tesla_stats;
}

pub accept_returns :
    (S : SignatureScheme) (P : Srtp) (params : TeslaSchedule) (alg : TeslaMacAlg)
    (first identity group_id signer signature : Bytes) (ssrc epoch : ℕ)
    (inner : ReceiverKeyManager P)
    → IsValid params
    → S.sign signer (to_bytes (commit params alg first identity group_id ssrc epoch))
      ≡ some signature
    → accept P S
        (commit params alg first identity group_id ssrc epoch)
        signature
        (S.public_key signer)
        params.d_t_ns
        params.g_max
        inner
      ≡ ret (some (accepted P params alg first inner))
unfolding accept verify schedule
accept_returns S P params alg first identity group_id signer signature ssrc epoch inner v signed =
    rw (S.sign_verifies signer _ signature signed, new_schedule_returns params v) refl
