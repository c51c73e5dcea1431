-- ===== src/Receiver/IndexRecovery/Nearest.antt =====
-- `recover` of src/receiver/index_recovery.rs chooses the nearest candidate.
use safe_cast.Base.{ℕ, ◌+◌, ◌-◌, ◌%◌, ◌^◌, ◌≤◌, ◌<◌, ◌≡◌, refl, arith, Option, none, some, max}
use safe_cast.Receiver.IndexRecovery.{IndexRecovery, recover, recover_from, update}

-- How far apart two positions are.
abbrev pub distance : ℕ → ℕ → ℕ
distance a b = (a - b) + (b - a)

-- With a highest index `h` seen, and no wrap of the 64-bit position in sight, the recovered position
-- has the sequence number of the packet, and no position with that sequence number is nearer to `h`.
pub recover_nearest :
    (h seq c : ℕ)
    → h + 2 ^ 17 < 2 ^ 64
    → seq < 2 ^ 16
    → c % 2 ^ 16 ≡ seq
    → let r = recover (record { highest = some h }) seq in
      (r % 2 ^ 16 ≡ seq) × (distance r h ≤ distance c h)
unfolding recover
recover_nearest h seq c small lt e = ground arith

-- The true position of a packet is recovered whenever it is at most 32767 away from the highest
-- position that has been authenticated, in either direction and across any number of wraps of the
-- sequence number, while the 64-bit position is far from wrapping.
pub recover_true :
    (h i : ℕ)
    → h + 2 ^ 17 < 2 ^ 64
    → i ≤ h + 32767
    → h ≤ i + 32767
    → recover (record { highest = some h }) (i % 2 ^ 16) ≡ i
unfolding recover
recover_true h i small ahead behind = ground arith

-- The reference point is the highest authenticated position.
pub highest-update :
    (h i : ℕ)
    → ((update (record { highest = none }) i).highest ≡ some i)
      × ((update (record { highest = some h }) i).highest ≡ some (max h i))
unfolding update
highest-update h i = (refl, ground arith)

-- A 64-bit position is far from wrapping.
abbrev pub IsSmall : Option ℕ → Type 0
IsSmall none = Unit
IsSmall (some h) = h + 2 ^ 17 < 2 ^ 64

pub recover_bound :
    (r : IndexRecovery) (seq : ℕ) → IsSmall r.highest → seq < 2 ^ 16 → recover r seq + 1 < 2 ^ 64
unfolding recover
recover_bound r seq h lt = go r.highest h
  where
    go : (o : Option ℕ) → IsSmall o → recover_from o seq + 1 < 2 ^ 64
    go none h = omega arith
    go (some x) h = ground arith
