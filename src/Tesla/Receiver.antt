-- ===== src/Tesla/Receiver.antt =====
-- src/tesla/receiver.rs: the receiver of one authenticated stream, around the SRTP receiver.
-- Counters are unbounded numbers; `u64` times wrap modulo 2^64 where they are subtracted.
pub mod State
pub mod Settle
pub mod Accounts
pub mod Filing
pub mod Genuine
pub mod Honest
pub mod Trusting
pub mod Joining
pub mod Arrivals
use safe_cast.Base.{
  ℕ, zero, suc, ◌+◌, ◌-◌, ◌%◌, ◌^◌, max, List, [], ◌∷◌, ◌++◌, Bytes, Bool, true, false, Option,
  none, some, bytes_eq, ltb, ◌==◌, if◌then◌else◌, length, get_or, from_be16, Exec, ret, ◌>>=◌,
}
use safe_cast.Crypto.{HmacSha256, Gmac, SignatureScheme, Hkdf, Srtp}
use safe_cast.Transport.Rtp.{rtp_header_len}
use safe_cast.Receiver.IndexRecovery.{IndexRecovery, fresh, recover, update}
use safe_cast.Receiver.Manager.{RecvResult, unprotect}
use safe_cast.Receiver.Manager.State.{ReceiverKeyManager, RecvDrop}
use safe_cast.Tesla.Chain.{
  ChainKey, ChainVerifier, Disclosure, new, not_new, invalid, too_far_ahead, beyond_chain,
  new_verifier, check,
}
use safe_cast.Tesla.Commitment.{TeslaCommitment, schedule, verify}
use safe_cast.Tesla.Extension.{split_extension}
use safe_cast.Tesla.Mac.{TeslaMacAlg, PreparedMac, prepare, tag}
use safe_cast.Tesla.Schedule.{TeslaSchedule, IntervalCheck, safe, accepts, disclosed_index}
use State.{
  TeslaDrop, TeslaStats, no_tesla_stats, DrawerEntry, Drawers, remove, file, TeslaReceiver,
  TeslaResult, malformed, bad_disclosure, srtp, settled, refused,
}

module _ (P : Srtp) where
  -- `TeslaReceiver::accept`.
  unfoldable pub accept :
      SignatureScheme
      → TeslaCommitment
      → Bytes
      → Bytes
      → ℕ
      → ℕ
      → ReceiverKeyManager P
      → Exec (Option (TeslaReceiver P))
  accept S c signature sender_public_key d_t_ns g_max inner =
      if verify S c signature sender_public_key
      then (do
        params ← schedule c d_t_ns g_max
        ret (
            some (record {
              params = params;
              verifier = new_verifier c.anchor params.n_chain params.g_max;
              alg = c.mac_alg;
              inner = inner;
              recovery = fresh;
              drawers = [];
              pending = 0;
              stats = no_tesla_stats;
            })))
      else ret none

  -- `unsettled`.
  unfoldable pub unsettled : TeslaReceiver P → ℕ
  unsettled r = r.pending

module _ (K : Hkdf) (P : Srtp) (H : HmacSha256) (G : Gmac) where
  -- The counters after the verdict on one entry.
  unfoldable pub verdict : TeslaStats → PreparedMac → ℕ → DrawerEntry → TeslaStats
  verdict stats prepared now entry =
      if bytes_eq (tag H G prepared entry.ext_index entry.covered) entry.mac
      then record stats {
        verified = stats.verified + 1;
        latencies_ns = stats.latencies_ns ++ ((now + 2 ^ 64 - entry.arrival_ns) % 2 ^ 64 ∷ []);
      }
      else record stats { forged = stats.forged + 1 }

  -- The inner loop of `settle` over the entries of one drawer: the counters, the packets that wait
  -- and the packets settled so far.
  unfoldable pub settle_drawer :
      PreparedMac → ℕ → List DrawerEntry → (TeslaStats × ℕ × ℕ) → TeslaStats × ℕ × ℕ
  settle_drawer prepared now [] state = state
  settle_drawer prepared now (entry ∷ entries) (stats, pending, n) =
      settle_drawer prepared now entries (verdict stats prepared now entry, pending - 1, n + 1)

  -- One round of its outer loop, on what the drawers gave for the interval.
  unfoldable pub settle_found :
      TeslaReceiver P
      → ChainKey
      → ℕ
      → Option (List DrawerEntry) × Drawers
      → ℕ
      → Exec (TeslaReceiver P × ℕ)
  settle_found r key now (none, rest) n = ret (r, n)
  settle_found r key now (some entries, rest) n = do
    prepared ← prepare H G r.alg key
    let (stats, pending, n') = settle_drawer prepared now entries (r.stats, r.pending, n)
    ret (record r { drawers = rest; stats = stats; pending = pending }, n')

  unfoldable pub settle : TeslaReceiver P → List (ℕ × ChainKey) → ℕ → ℕ → Exec (TeslaReceiver P × ℕ)
  settle r [] now n = ret (r, n)
  settle r ((interval, key) ∷ keys) now n = do
    (r', n') ← settle_found r key now (remove interval r.drawers) n
    settle r' keys now n'

  unfoldable pub reject : TeslaReceiver P → TeslaDrop → TeslaReceiver P × TeslaResult
  reject r malformed = (
    record r { stats = record r.stats { drops_malformed = r.stats.drops_malformed + 1 } },
    refused malformed,
  )
  reject r TeslaDrop.unsafe_late = (
    record r { stats = record r.stats { drops_unsafe = r.stats.drops_unsafe + 1 } },
    refused TeslaDrop.unsafe_late,
  )
  reject r bad_disclosure = (
    record r { stats = record r.stats { drops_bad_disclosure = r.stats.drops_bad_disclosure + 1 } },
    refused bad_disclosure,
  )
  reject r (srtp why) = (
    record r { stats = record r.stats { drops_srtp = r.stats.drops_srtp + 1 } },
    refused (srtp why),
  )

  -- The packet joins its drawer.
  unfoldable pub await : TeslaReceiver P → ℕ → DrawerEntry → ℕ → TeslaReceiver P × TeslaResult
  await r interval entry n =
      let pending = r.pending + 1 in
      (
        record r {
          drawers = file interval entry r.drawers;
          pending = pending;
          stats = record r.stats {
            peak_pending = max r.stats.peak_pending pending;
            delivered = r.stats.delivered + 1;
          };
        },
        settled n,
      )

  -- What follows the check of the disclosed key.
  unfoldable pub disclose :
      TeslaReceiver P → ℕ → DrawerEntry → Disclosure → Exec (TeslaReceiver P × TeslaResult)
  unfolding reject await
  disclose r interval entry (new keys) = do
    (r', n) ← settle r keys entry.arrival_ns 0
    ret (await r' interval entry n)
  disclose r interval entry not_new = ret (await r interval entry 0)
  disclose r interval entry invalid = ret (reject r bad_disclosure)
  disclose r interval entry too_far_ahead = ret (reject r bad_disclosure)
  disclose r interval entry beyond_chain = ret (reject r bad_disclosure)

  -- What follows the SRTP decryption.
  unfoldable pub after_srtp :
      TeslaReceiver P
      → ℕ
      → ChainKey
      → DrawerEntry
      → RecvResult
      → Exec (TeslaReceiver P × TeslaResult)
  after_srtp r interval disclosed entry (RecvResult.refused why) = ret (reject r (srtp why))
  after_srtp r interval disclosed entry (RecvResult.delivered g) =
      let (verifier, d) = check H r.verifier disclosed (disclosed_index r.params interval) in
      disclose (record r { recovery = update r.recovery entry.ext_index; verifier = verifier })
        interval entry d

  -- A packet with a header, past the accept test.
  unfoldable pub open_packet :
      TeslaReceiver P
      → Bytes
      → ℕ
      → ℕ
      → ChainKey
      → Bytes
      → Exec (TeslaReceiver P × Bytes × TeslaResult)
  unfolding after_srtp
  open_packet r buf arrival_ns interval disclosed mac = do
    let seq = from_be16 (get_or buf 2 0) (get_or buf 3 0)
    let entry : DrawerEntry = record {
      ext_index = recover r.recovery seq;
      arrival_ns = arrival_ns;
      mac = mac;
      covered = buf;
    }
    (inner, buf', result) ← unprotect K P r.inner buf
    (r', out) ← after_srtp (record r { inner = inner }) interval disclosed entry result
    ret (r', buf', out)

  -- The accept test, on a buffer without its extension.
  unfoldable pub screen :
      TeslaReceiver P
      → Bytes
      → ℕ
      → ℕ
      → ChainKey
      → Bytes
      → IntervalCheck
      → Exec (TeslaReceiver P × Bytes × TeslaResult)
  unfolding open_packet reject
  screen r buf arrival_ns interval disclosed mac safe =
      open_packet r buf arrival_ns interval disclosed mac
  screen r buf arrival_ns interval disclosed mac IntervalCheck.unsafe_late =
      let (r', out) = reject r TeslaDrop.unsafe_late in ret (r', buf, out)

  unfoldable pub on_split :
      TeslaReceiver P
      → ℕ
      → Option (ℕ × ChainKey × Bytes) × Bytes
      → Exec (TeslaReceiver P × Bytes × TeslaResult)
  unfolding screen reject
  on_split r arrival_ns (none, buf) = let (r', out) = reject r malformed in ret (r', buf, out)
  on_split r arrival_ns (some (interval, disclosed, mac), buf) =
      if ltb (length buf) rtp_header_len
      then (let (r', out) = reject r malformed in ret (r', buf, out))
      else screen r buf arrival_ns interval disclosed mac (accepts r.params arrival_ns interval)

  unfoldable pub process_arrival :
      TeslaReceiver P → Bytes → ℕ → Exec (TeslaReceiver P × Bytes × TeslaResult)
  process_arrival r buf arrival_ns = on_split r arrival_ns (split_extension buf)
