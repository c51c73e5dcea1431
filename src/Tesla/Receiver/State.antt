-- ===== src/Tesla/Receiver/State.antt =====
-- The state of src/tesla/receiver.rs, and its map of drawers.
use safe_cast.Base.{ℕ, List, [], ◌∷◌, ◌++◌, Bytes, Option, none, some, ◌==◌, if◌then◌else◌}
use safe_cast.Crypto.{Srtp}
use safe_cast.Receiver.IndexRecovery.{IndexRecovery}
use safe_cast.Receiver.Manager.State.{ReceiverKeyManager, RecvDrop}
use safe_cast.Tesla.Chain.{ChainVerifier}
use safe_cast.Tesla.Mac.{TeslaMacAlg}
use safe_cast.Tesla.Schedule.{TeslaSchedule}

pub data TeslaDrop : Type 0 where
  malformed unsafe_late bad_disclosure : TeslaDrop
  srtp : RecvDrop → TeslaDrop

pub record TeslaStats : Type 0 where
  pub delivered : ℕ
  pub verified : ℕ
  pub forged : ℕ
  pub drops_malformed : ℕ
  pub drops_unsafe : ℕ
  pub drops_bad_disclosure : ℕ
  pub drops_srtp : ℕ
  pub peak_pending : ℕ
  pub latencies_ns : List ℕ

-- `TeslaStats::default()`.
abbrev pub no_tesla_stats : TeslaStats
no_tesla_stats = record {
  delivered = 0;
  verified = 0;
  forged = 0;
  drops_malformed = 0;
  drops_unsafe = 0;
  drops_bad_disclosure = 0;
  drops_srtp = 0;
  peak_pending = 0;
  latencies_ns = [];
}

pub record DrawerEntry : Type 0 where
  pub ext_index : ℕ
  pub arrival_ns : ℕ
  pub mac : Bytes
  pub covered : Bytes

-- The map from an interval to its entries; the program never iterates over it.
abbrev pub Drawers : Type 0
Drawers = List (ℕ × List DrawerEntry)

-- `BTreeMap::remove`.
unfoldable pub remove : ℕ → Drawers → Option (List DrawerEntry) × Drawers
remove i [] = (none, [])
remove i ((j, entries) ∷ rest) =
    let (found, others) = remove i rest in
    if i == j then (some entries, rest) else (found, (j, entries) ∷ others)

-- `entry(interval).or_default().push(e)`.
unfoldable pub file : ℕ → DrawerEntry → Drawers → Drawers
file i e [] = (i, e ∷ []) ∷ []
file i e ((j, entries) ∷ rest) =
    let others = file i e rest in
    if i == j then (j, entries ++ (e ∷ [])) ∷ rest else (j, entries) ∷ others

pub record TeslaReceiver (P : Srtp) : Type 0 where
  pub params : TeslaSchedule
  pub verifier : ChainVerifier
  pub alg : TeslaMacAlg
  pub inner : ReceiverKeyManager P
  pub recovery : IndexRecovery
  pub drawers : Drawers
  pub pending : ℕ
  pub stats : TeslaStats

-- What `process_arrival` returns.
pub data TeslaResult : Type 0 where
  settled : ℕ → TeslaResult
  refused : TeslaDrop → TeslaResult
