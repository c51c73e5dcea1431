-- ===== src/Tesla/Sender.antt =====
-- src/tesla/sender.rs: the sender authenticates each outgoing packet. The random
-- generator of `TeslaChain::generate` is an argument of `new_sender`.
pub mod Packets
use safe_cast.Base.{ℕ, Bytes, ◌==◌, if◌then◌else◌, Exec, ret, ◌>>=◌}
use safe_cast.Crypto.{HmacSha256, Gmac}
use safe_cast.Tesla.Chain.{ChainKey, TeslaChain, key, anchor, generate}
use safe_cast.Tesla.Extension.{append_extension}
use safe_cast.Tesla.Mac.{TeslaMacAlg, PreparedMac, prepare, tag}
use safe_cast.Tesla.Schedule.{TeslaSchedule, interval_of, disclosed_index}

pub record TeslaSender : Type 0 where
  pub params : TeslaSchedule
  pub chain : TeslaChain
  pub alg : TeslaMacAlg
  pub current_interval : ℕ
  pub prepared : PreparedMac

-- `TeslaSender::anchor`.
unfoldable pub sender_anchor : TeslaSender → Exec ChainKey
sender_anchor s = anchor s.chain

module _ (H : HmacSha256) (G : Gmac) where
  unfoldable pub new_sender :
      TeslaSchedule → TeslaMacAlg → (fill_bytes : Bytes → Bytes) → Exec TeslaSender
  unfolding generate
  new_sender params alg fill_bytes = do
    let chain = generate H fill_bytes params.n_chain
    first ← key chain 1
    prepared ← prepare H G alg first
    ret (record {
      params = params;
      chain = chain;
      alg = alg;
      current_interval = 1;
      prepared = prepared;
    })

  -- On entering a new interval its MAC state is set up.
  unfoldable pub enter : TeslaSender → ℕ → Exec TeslaSender
  enter s interval = if interval == s.current_interval then ret s else (do
    k ← key s.chain interval
    prepared ← prepare H G s.alg k
    ret (record s { prepared = prepared; current_interval = interval }))

  -- The sender, and the buffer with its extension.
  unfoldable pub authenticate : TeslaSender → Bytes → ℕ → ℕ → Exec (TeslaSender × Bytes)
  unfolding enter
  authenticate s buf ext_index send_ns = do
    interval ← interval_of s.params send_ns
    s' ← enter s interval
    let mac = tag H G s'.prepared ext_index buf
    disclosed ← key s'.chain (disclosed_index s'.params interval)
    ret (s', append_extension buf interval disclosed mac)
