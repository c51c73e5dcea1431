-- ===== src/Receiver/Manager/Calls.antt =====
-- Whole calls of src/receiver.rs's `unprotect`, and any sequence of them.
use safe_cast.Base.{
  ℕ, ◌+◌, ◌-◌, ◌^◌, ◌≤◌, ◌<◌, ◌≡◌, inl, inr, subst, arith, Option, none, some, Bytes, AreBytes,
  Bool-cases, length, get_or, get_or-byte, from_be16, from_be32, from_be16_bound, ltb, ltb→le,
  ◌>>=◌, ◌%◌, Exec, ret, panic,
}
use native.Mathlib.Nat.{div-le_self}
use safe_cast.Crypto.{Hkdf, Srtp}
use safe_cast.Receiver.Generation.{
  GenerationScheme, epoch_only, frame, packet, every_n, frame_generation,
}
use safe_cast.Receiver.IndexRecovery.{IndexRecovery, recover}
use safe_cast.Receiver.IndexRecovery.Nearest.{IsSmall, recover_bound}
use safe_cast.Receiver.Manager.State.{ReceiverKeyManager, RecvDrop, new_manager}
use safe_cast.Receiver.Manager.Phases.{locate}
use safe_cast.Receiver.Manager.Window.{IsSynced}
use safe_cast.Receiver.Manager.Making.{made_of, manager_of-IsSynced}
use safe_cast.Receiver.Manager.Unprotect.{DividesByZero, Post, drop_lem, with_generation_lem}
use safe_cast.Receiver.Manager.{RecvResult, delivered, refused, with_generation, unprotect}

-- What phase 1 may answer.
abbrev Located : GenerationScheme → Exec (Option (ℕ × Option ℕ)) → Type 0
Located scheme (ret none) = Unit
Located scheme (ret (some (g, est))) = g + 1 < 2 ^ 64
Located scheme panic = DividesByZero scheme

locate_lem :
    (scheme : GenerationScheme) (recovery : IndexRecovery) (seq ts : ℕ)
    → IsSmall recovery.highest
    → seq < 2 ^ 16
    → Located scheme (locate scheme recovery seq ts)
unfolding locate frame_generation
locate_lem epoch_only recovery seq ts small lt = omega arith
locate_lem (frame start period) recovery seq ts small lt = elim (Bool-cases (ltb 0 period)) [
  | inl pos ↦ rw pos (omega (arith, div-le_self ((ts + 2 ^ 32 - start) % 2 ^ 32) period))
  | inr zero_period ↦ rw zero_period (omega (arith, ltb→le 0 period zero_period))
]
locate_lem (packet base) recovery seq ts small lt =
    elim (Bool-cases (ltb (recover recovery seq) base)) [
      | inl before ↦ rw before tt
      | inr after ↦ rw after (omega (arith, recover_bound recovery seq small lt))
    ]
locate_lem (every_n base n) recovery seq ts small lt =
    elim (Bool-cases (ltb (recover recovery seq) base)) [
      | inl before ↦ rw before tt
      | inr after ↦ rw after (elim (Bool-cases (ltb 0 n)) [
        | inl pos ↦ rw pos (
            omega (
              arith,
              recover_bound recovery seq small lt,
              div-le_self (recover recovery seq - base) n,
            ))
        | inr zero_n ↦ rw zero_n (omega (arith, ltb→le 0 n zero_n))
      ])
    ]

pub some_first : {A : Type 0} (p q : A × Option ℕ) → some p ≡ some q → p.0 ≡ q.0
some_first p q e = cc

module _ (K : Hkdf) (P : Srtp) (seed : Bytes) where
  located_lem :
      (m : ReceiverKeyManager P) (buf : Bytes) (e : Exec (Option (ℕ × Option ℕ)))
      → IsSynced K P seed m
      → Located m.scheme e
      → Post K P seed m buf (e >>= with_generation K P m buf)
  located_lem m buf panic v h = inl h
  located_lem m buf (ret none) v h = with_generation_lem K P seed m buf none v (λ g est e. cc)
  located_lem m buf (ret (some (g, est))) v h =
      with_generation_lem K P seed m buf (some (g, est)) v
        (λ g' est' e. subst (λ n. n + 1 < 2 ^ 64) (some_first (g, est) (g', est') e) h)

  -- A call on a receiver in step with the sender, for a buffer of bytes and while the 64-bit
  -- position is far from wrapping. If it delivers a packet, the packet was decrypted under the key
  -- of the generation returned, within reach of the window, and the frontier is the highest
  -- generation so far. If it drops one, the ratchet, the ring, the frontier and the recovery are as
  -- before. In both cases the receiver stays in step: its ring holds the keys of the last
  -- generations and no older key. It panics only if the scheme divides by zero, or if libsrtp answers
  -- this very buffer with a code that the program does not expect, on the receiver's session with the
  -- key of a generation in reach loaded: the `unreachable!` and the `expect`s are not reached.
  pub unprotect_lem :
      (m : ReceiverKeyManager P) (buf : Bytes)
      → IsSynced K P seed m
      → AreBytes buf
      → IsSmall m.recovery.highest
      → Post K P seed m buf (unprotect K P m buf)
  unfolding unprotect
  unprotect_lem m buf v bytes small = elim (Bool-cases (ltb (length buf) 12)) [
    | inl short ↦ rw short (drop_lem K P seed m buf RecvDrop.auth_fail v)
    | inr long ↦ rw long (
        located_lem m buf (locate m.scheme m.recovery seq ts) v (
          locate_lem m.scheme m.recovery seq ts small
            (from_be16_bound _ _ (get_or-byte buf 2 bytes) (get_or-byte buf 3 bytes))))
  ]
    where
      seq : ℕ
      seq = from_be16 (get_or buf 2 0) (get_or buf 3 0)

      ts : ℕ
      ts = from_be32 (get_or buf 4 0) (get_or buf 5 0) (get_or buf 6 0) (get_or buf 7 0)

  -- The states that calls of `unprotect` lead to.
  pub data Reach (m : ReceiverKeyManager P) : ReceiverKeyManager P → Type 0 where
    here : Reach m m
    next :
        {m1 m2 : ReceiverKeyManager P} (buf buf' : Bytes) (r : RecvResult)
        → Reach m m1
        → AreBytes buf
        → IsSmall m1.recovery.highest
        → unprotect K P m1 buf ≡ ret (m2, buf', r)
        → Reach m m2

  Post-IsSynced :
      (m m' : ReceiverKeyManager P) (buf buf' : Bytes) (r : RecvResult)
      → Post K P seed m buf (ret (m', buf', r))
      → IsSynced K P seed m'
  Post-IsSynced m m' buf buf' (delivered g) p = p.0
  Post-IsSynced m m' buf buf' (refused why) p = p.0

  Reach-IsSynced :
      {m m' : ReceiverKeyManager P} → IsSynced K P seed m → Reach m m' → IsSynced K P seed m'
  Reach-IsSynced v here = v
  Reach-IsSynced {m} {m'} v (next {m1} {m2} buf buf' r path bytes small e) =
      Post-IsSynced m1 m2 buf buf' r
        (subst (Post K P seed m1 buf) e (unprotect_lem m1 buf (Reach-IsSynced v path) bytes small))

  -- A receiver made with a positive retention `k`, from the seed of the sender's ratchet: whatever
  -- buffers of bytes it was given (while its position is far from wrapping), its ring holds the
  -- ratchet keys of exactly the last generations, each in its slot, its ratchet is just past the
  -- frontier, and its cipher holds the key of the generation noted as installed.
  pub new_manager-Reach :
      (scheme : GenerationScheme) (ssrc k seek_cap window : ℕ) (m m' : ReceiverKeyManager P)
      → 1 ≤ k
      → (new_manager P scheme ssrc
            (record { chain_secret = seed; generation = 0 })
            k
            seek_cap
            window
          ≡ ret m)
      → Reach m m'
      → IsSynced K P seed m'
  new_manager-Reach scheme ssrc k seek_cap window m m' pos e path =
      let (session, streams, same) = made_of K P seed scheme ssrc k seek_cap window m e in
      Reach-IsSynced
        (subst (IsSynced K P seed) same
          (manager_of-IsSynced K P seed scheme ssrc k seek_cap session pos streams))
        path
