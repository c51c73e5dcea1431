-- ===== src/Receiver/Manager.antt =====
-- src/receiver.rs: the receiver's key management. This file has phase 4 of `unprotect` and the whole
-- call; its state and the phases before are in the children.
pub mod State
pub mod Phases
pub mod RingKeys
pub mod CatchUp
pub mod Window
pub mod Adopt
pub mod Making
pub mod Unprotect
pub mod Calls
use safe_cast.Base.{
  ℕ, zero, suc, ◌+◌, ◌-◌, ◌/◌, ◌%◌, ◌^◌, max, List, [], ◌∷◌, ◌++◌, Bytes, Bool, true, false, Option,
  none, some, ltb, leb, ◌==◌, if◌then◌else◌, length, get_elem?, get_or, set, from_be16, from_be32,
  Exec, ret, panic, expect, assert, ◌>>=◌, ◌>>◌,
}
use mathlib.Core.List.{get_last?}
use safe_cast.Crypto.{
  Hkdf, Srtp, SrtpResult, ok, err, SrtpError, replay_fail, replay_old, auth_fail, other,
}
use safe_cast.Keying.Ratchet.{KeySalt, StreamRatchet, next_key_salt, split_key_salt}
use safe_cast.Transport.Rtp.{rtp_header_len}
use safe_cast.Receiver.IndexRecovery.{IndexRecovery, recover, update}
use safe_cast.Receiver.Generation.{
  GenerationScheme, epoch_only, frame, packet, every_n, frame_generation,
}
use State.{
  RecvDrop, behind_window, seek_cap_exceeded, srtp_replay, RecvStats, Ring, Placement, in_window,
  ahead, PendingCatchup, ReceiverKeyManager,
}
use Phases.{Classified, placed, dropped, locate, classify, fold_ring, is_installed, fetch}

-- What `unprotect` returns.
pub data RecvResult : Type 0 where
  delivered : ℕ → RecvResult
  refused : RecvDrop → RecvResult

module _ (K : Hkdf) (P : Srtp) where
  -- Phase 4, first half: the key goes into the cipher unless it is there.
  unfoldable pub install : ReceiverKeyManager P → ℕ → KeySalt → Exec (ReceiverKeyManager P)
  install m g key_salt = if is_installed m.installed g then ret m else (do
    let (key, salt) = split_key_salt key_salt
    session ← expect (P.inplace_rekey m.session m.ssrc key salt)
    ret (record m {
      session = session;
      installed = some g;
      stats = record m.stats { installs = m.stats.installs + 1 };
    }))

  -- Adopting the advanced clone, the derived keys and the new frontier.
  unfoldable pub adopt : ReceiverKeyManager P → ℕ → Option PendingCatchup → ReceiverKeyManager P
  adopt m g none = m
  adopt m g (some pending) = record m {
    ratchet = pending.ratchet;
    ring = fold_ring (length m.ring) m.ring pending.derived;
    frontier = some g;
  }

  unfoldable pub settle_index : ReceiverKeyManager P → Option ℕ → ReceiverKeyManager P
  settle_index m none = m
  settle_index m (some index) = record m { recovery = update m.recovery index }

  -- The wasted steps of a dropped clone.
  unfoldable pub waste : RecvStats → Option PendingCatchup → RecvStats
  waste stats none = stats
  waste stats (some pending) = record stats {
    catchup_steps_wasted = stats.catchup_steps_wasted + pending.jump;
  }

  -- Phase 4, second half: the state change is final only if the packet authenticates.
  unfoldable pub conclude :
      ReceiverKeyManager P
      → ℕ
      → Option ℕ
      → Option PendingCatchup
      → Bytes
      → SrtpResult
      → Exec (ReceiverKeyManager P × Bytes × RecvResult)
  unfolding adopt settle_index waste
  conclude m g est_index pending buf ok =
      let m' = settle_index (adopt m g pending) est_index in
      ret (
        record m' { stats = record m'.stats { decrypted = m'.stats.decrypted + 1 } },
        buf,
        delivered g,
      )
  conclude m g est_index pending buf (err (other code)) = panic
  conclude m g est_index pending buf (err auth_fail) =
      let stats = waste m.stats pending in
      ret (
        record m { stats = record stats { drops_auth = stats.drops_auth + 1 } },
        buf,
        refused RecvDrop.auth_fail,
      )
  conclude m g est_index pending buf (err replay_fail) =
      let stats = waste m.stats pending in
      ret (
        record m { stats = record stats { drops_replay = stats.drops_replay + 1 } },
        buf,
        refused srtp_replay,
      )
  conclude m g est_index pending buf (err replay_old) =
      let stats = waste m.stats pending in
      ret (
        record m { stats = record stats { drops_replay = stats.drops_replay + 1 } },
        buf,
        refused srtp_replay,
      )

  -- Phases 3 and 4 of a packet whose generation is placed.
  unfoldable pub decrypt :
      ReceiverKeyManager P
      → Bytes
      → ℕ
      → Option ℕ
      → Placement
      → Exec (ReceiverKeyManager P × Bytes × RecvResult)
  decrypt m buf g est_index placement = do
    (stats, key_salt, pending) ← fetch K m.stats m.ratchet (length m.ring) g placement
    m' ← install (record m { stats = stats }) g key_salt
    let (session, buf', result) = P.unprotect m'.session buf
    conclude (record m' { session = session }) g est_index pending buf' result

  -- The counter of a phase 2 drop.
  unfoldable pub count_drop : RecvStats → RecvDrop → RecvStats
  count_drop stats behind_window = record stats { drops_behind = stats.drops_behind + 1 }
  count_drop stats seek_cap_exceeded = record stats { drops_seek_cap = stats.drops_seek_cap + 1 }
  count_drop stats srtp_replay = record stats { drops_replay = stats.drops_replay + 1 }
  count_drop stats RecvDrop.auth_fail = record stats { drops_auth = stats.drops_auth + 1 }

  unfoldable pub drop_packet :
      ReceiverKeyManager P → Bytes → RecvDrop → ReceiverKeyManager P × Bytes × RecvResult
  unfolding count_drop
  drop_packet m buf why = (record m { stats = count_drop m.stats why }, buf, refused why)

  unfoldable pub proceed :
      ReceiverKeyManager P
      → Bytes
      → ℕ
      → Option ℕ
      → Classified
      → Exec (ReceiverKeyManager P × Bytes × RecvResult)
  proceed m buf g est_index (placed placement) = decrypt m buf g est_index placement
  proceed m buf g est_index (dropped why) = ret (drop_packet m buf why)

  unfoldable pub with_generation :
      ReceiverKeyManager P
      → Bytes
      → Option (ℕ × Option ℕ)
      → Exec (ReceiverKeyManager P × Bytes × RecvResult)
  with_generation m buf none = ret (drop_packet m buf behind_window)
  with_generation m buf (some (g, est_index)) = do
    class ← classify m.ring m.frontier m.seek_cap g
    proceed m buf g est_index class

  unfoldable pub unprotect :
      ReceiverKeyManager P → Bytes → Exec (ReceiverKeyManager P × Bytes × RecvResult)
  unprotect m buf =
      if ltb (length buf) rtp_header_len then ret (drop_packet m buf RecvDrop.auth_fail) else (do
        let seq = from_be16 (get_or buf 2 0) (get_or buf 3 0)
        let ts = from_be32 (get_or buf 4 0) (get_or buf 5 0) (get_or buf 6 0) (get_or buf 7 0)
        located ← locate m.scheme m.recovery seq ts
        with_generation m buf located)
