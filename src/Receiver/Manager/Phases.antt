-- ===== src/Receiver/Manager/Phases.antt =====
-- Phases 1 to 3 of src/receiver.rs's `unprotect`: the packet's generation, its placement against the
-- key window, and its key.
use safe_cast.Base.{
  ℕ, zero, suc, ◌+◌, ◌-◌, ◌/◌, ◌%◌, ◌^◌, max, List, [], ◌∷◌, ◌++◌, Bool, false, Option, none, some,
  ltb, leb, ◌==◌, if◌then◌else◌, length, get_elem?, set, Exec, ret, panic, expect, assert, ◌>>=◌,
  ◌>>◌,
}
use safe_cast.Crypto.{Hkdf}
use safe_cast.Keying.Ratchet.{KeySalt, StreamRatchet, next_key_salt}
use safe_cast.Receiver.IndexRecovery.{IndexRecovery, recover}
use safe_cast.Receiver.Generation.{
  GenerationScheme, epoch_only, frame, packet, every_n, frame_generation,
}
use safe_cast.Receiver.Manager.State.{
  RecvDrop, behind_window, seek_cap_exceeded, RecvStats, Ring, Placement, in_window, ahead,
  PendingCatchup,
}

-- A packet's placement, or why phase 2 drops it.
pub data Classified : Type 0 where
  placed : Placement → Classified
  dropped : RecvDrop → Classified

-- Phase 1: the packet's generation, with its extended index in the schemes that recover one; `none`
-- for a packet from before the epoch's first.
unfoldable pub locate : GenerationScheme → IndexRecovery → ℕ → ℕ → Exec (Option (ℕ × Option ℕ))
locate epoch_only recovery seq ts = ret (some (0, none))
locate (frame epoch_start_ts frame_period) recovery seq ts = do
  g ← frame_generation ts epoch_start_ts frame_period
  ret (some (g, none))
locate (packet base) recovery seq ts =
    let index = recover recovery seq in
    if ltb index base then ret none else ret (some (index - base, some index))
locate (every_n base n) recovery seq ts =
    let index = recover recovery seq in
    if ltb index base
    then ret none
    else (do assert (ltb 0 n); ret (some ((index - base) / n, some index)))

-- The slot of a generation in the window: any other tag is `unreachable!`.
unfoldable pub in_slot : Option (Option (ℕ × KeySalt)) → ℕ → Exec Classified
in_slot (some (some (tag, ks))) g = if tag == g then ret (placed (in_window ks)) else panic
in_slot (some none) g = panic
in_slot none g = panic

-- Phase 2: where `g` falls against the window of the last `k` generations.
unfoldable pub classify : Ring → Option ℕ → ℕ → ℕ → Exec Classified
unfolding in_slot
classify ring (some f) seek_cap g =
    if leb g f
    then (if leb (length ring) (f - g)
        then ret (dropped behind_window)
        else in_slot (get_elem? ring (g % length ring)) g)
    else if ltb seek_cap (g - f)
    then ret (dropped seek_cap_exceeded)
    else ret (placed (ahead (g - f)))
classify ring none seek_cap g =
    if ltb seek_cap ((g + 1) % 2 ^ 64)
    then ret (dropped seek_cap_exceeded)
    else ret (placed (ahead ((g + 1) % 2 ^ 64)))

-- `pop_front`.
abbrev pub pop_front : List (ℕ × KeySalt) → List (ℕ × KeySalt)
pop_front [] = []
pop_front (x ∷ xs) = xs

abbrev pub back : List (ℕ × KeySalt) → Option (ℕ × KeySalt)
back [] = none
back (x ∷ []) = some x
back (x ∷ y ∷ xs) = back (y ∷ xs)

-- One more derived key behind at most `k` of them.
abbrev pub push_bounded : ℕ → List (ℕ × KeySalt) → ℕ × KeySalt → List (ℕ × KeySalt)
push_bounded k derived x = (if length derived == k then pop_front derived else derived) ++ (x ∷ [])

-- The derived keys folded into the ring, each overwriting the key of `k` generations before.
unfoldable pub fold_ring : ℕ → Ring → List (ℕ × KeySalt) → Ring
fold_ring k ring [] = ring
fold_ring k ring ((g, ks) ∷ rest) = fold_ring k (set ring (g % k) (some (g, ks))) rest

abbrev pub is_installed : Option ℕ → ℕ → Bool
is_installed none g = false
is_installed (some h) g = h == g

module _ (K : Hkdf) where
  -- `while ratchet.generation() <= g`, with fuel.
  unfoldable pub catch_up :
      (fuel g k : ℕ) → StreamRatchet → List (ℕ × KeySalt) → StreamRatchet × List (ℕ × KeySalt)
  catch_up zero g k ratchet derived = (ratchet, derived)
  catch_up (suc fuel) g k ratchet derived =
      let (x, ratchet') = next_key_salt K ratchet in
      let rest = catch_up fuel g k ratchet' (push_bounded k derived x) in
      if leb ratchet.generation g then rest else (ratchet, derived)

  -- Phase 3: the key of `g`, from the window or by catching up on a clone of the ratchet.
  unfoldable pub fetch :
      RecvStats
      → StreamRatchet
      → ℕ
      → ℕ
      → Placement
      → Exec (RecvStats × KeySalt × Option PendingCatchup)
  unfolding catch_up
  fetch stats ratchet k g (in_window ks) =
      ret (record stats { cache_hits = stats.cache_hits + 1 }, ks, none)
  fetch stats ratchet k g (ahead jump) = do
    let (ratchet', derived) = catch_up (suc g - ratchet.generation) g k ratchet []
    last ← expect (back derived)
    ret (
      record stats {
        catchup_steps = stats.catchup_steps + jump;
        max_catchup = max stats.max_catchup jump;
      },
      last.1,
      some (record { ratchet = ratchet'; derived = derived; jump = jump }),
    )
