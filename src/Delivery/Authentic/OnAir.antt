-- ===== src/Delivery/Authentic/OnAir.antt =====
-- The state of a receiver of src/tesla/receiver.rs that hears only the stream's sender, and its call
-- as far as the packet's decryption.
use safe_cast.Base.{
  mem, if◌then◌else◌, ℕ, suc, ◌+◌, ◌%◌, ◌^◌, ◌≤◌, ◌<◌, ◌≡◌, ◌∙◌, refl, ap, ap₂, arith, max, List,
  [], ◌∷◌, Bytes, some, length, get_or, from_be16, le→ltb, ret, ◌>>=◌,
}
use safe_cast.Crypto.{Hkdf, Srtp, HmacSha256, Gmac}
use safe_cast.Keying.Granularity.{Granularity}
use safe_cast.Keying.Granularity.Boundary.{IsUsable}
use safe_cast.Receiver.Manager.State.{RecvDrop}
use safe_cast.Receiver.Manager.{RecvResult, delivered, refused, unprotect}
use safe_cast.Simulation.Sender.{StreamModel, plain_packet}
use safe_cast.Tesla.Chain.{ChainKey, from_final_key}
use safe_cast.Tesla.Extension.{split_extension}
use safe_cast.Tesla.Schedule.{safe, accepts, disclosed_index}
use safe_cast.Tesla.Sender.{TeslaSender}
use safe_cast.Tesla.Sender.Packets
use safe_cast.Tesla.Receiver.State.{DrawerEntry, TeslaReceiver, TeslaResult}
use safe_cast.Tesla.Receiver.{process_arrival, on_split, screen, open_packet, after_srtp}
use safe_cast.Tesla.Receiver.Honest.{AllFrom}
use safe_cast.Delivery.Link.{SrtpLink, IsNumbered, IsNear}
use safe_cast.Delivery.Numbers.{last_below, plain_packet-IsNumbered}
use safe_cast.Delivery.Sending.{Carries}
use safe_cast.Delivery.Opening.{recovered}
use safe_cast.Delivery.Tracking.{IsTracking}
use safe_cast.Tesla.Receiver.Trusting.{Trusts}
use safe_cast.Delivery.Authentic.{tesla_answer, tesla_outcome}
use safe_cast.Delivery.{Answer, answer}

pub answer-delivered :
    (result : RecvResult) (left : Bytes) (g : ℕ) (p : Bytes)
    → answer result left ≡ (delivered g, p)
    → (result ≡ delivered g) × (left ≡ p)
answer-delivered (delivered g') left g p e =
    (ap (λ (a : Answer). a.0) e, ap (λ (a : Answer). a.1) e)
answer-delivered (refused why) left g p e =
    let bad : refused why ≡ delivered g = ap (λ (a : Answer). a.0) e in absurd (cc)

pub answer-refused :
    (result : RecvResult) (left : Bytes) (why : RecvDrop)
    → answer result left ≡ (refused why, [])
    → result ≡ refused why
answer-refused (delivered g) left why e =
    let bad : delivered g ≡ refused why = ap (λ (a : Answer). a.0) e in absurd (cc)
answer-refused (refused why') left why e = ap (λ (a : Answer). a.0) e

-- The newest key that the receiver knows after an arrival that discloses key `c`.
abbrev pub newest : List ℕ → ℕ → ℕ → ℕ → ℕ
newest done i trusted c = if mem i done then trusted else max trusted c

module _ (K : Hkdf) (P : Srtp) (H : HmacSha256) (G : Gmac) (L : SrtpLink P) (seed : Bytes)
    (model : StreamModel) (granularity : Granularity) (k seek_cap window : ℕ)
    (usable : IsUsable granularity) (framed : 0 < model.ppf) (short : model.ssrc < 2 ^ 32)
    (s : TeslaSender) (k_final : ChainKey) (g_max : ℕ)
    (chain : s.chain ≡ from_final_key H k_final s.params.n_chain) where
  -- A datagram with packet `i`, sealed and authenticated by the sender, that comes in time.
  pub record IsOnAir (i interval arrival : ℕ) (datagram : Bytes) : Type 0 where
    pub buf : Bytes
    pub sealed : Carries K P L seed model granularity i buf
    pub carried : Packets.Carries H G s buf i interval datagram
    pub within : interval ≤ s.params.n_chain
    pub in_time : accepts s.params arrival interval ≡ safe

  -- A receiver of the stream that has seen the arrivals `done`, all below `next`.
  pub record IsTrusting (r : TeslaReceiver P) (done : List ℕ) (next : ℕ) : Type 0 where
    pub tracks : IsTracking K P L seed model granularity k seek_cap window r.inner done next
    pub scheduled : r.params ≡ s.params
    pub same_alg : r.alg ≡ s.alg
    pub trusts : Trusts H s k_final g_max chain r.verifier
    pub top : r.recovery.highest ≡ last_below next
    pub all_from : AllFrom H G s r.drawers
    pub unforged : r.stats.forged ≡ 0

  -- What an arrival comes to.
  pub record Heard (r : TeslaReceiver P) (done : List ℕ) (next i interval arrival : ℕ)
      (datagram : Bytes) : Type 0 where
    pub after : TeslaReceiver P
    pub left : Bytes
    pub result : TeslaResult
    pub call : process_arrival K P H G r datagram arrival ≡ ret (after, left, result)
    pub answered : tesla_answer result left ≡ tesla_outcome model done i
    pub keyed :
        after.verifier.trusted_index
        ≡ newest done i r.verifier.trusted_index (disclosed_index s.params interval)
    pub trusting : IsTrusting after (i ∷ done) (max next (suc i))

  entry_of : ℕ → ℕ → Bytes → Bytes → DrawerEntry
  entry_of i arrival mac buf = record {
    ext_index = i;
    arrival_ns = arrival;
    mac = mac;
    covered = buf;
  }

  -- The call as far as the packet's decryption.
  pub opens_packet :
      (r : TeslaReceiver P) (done : List ℕ) (next i interval arrival : ℕ) (datagram : Bytes)
      (air : IsOnAir i interval arrival datagram)
      → next ≤ 2 ^ 48
      → IsTrusting r done next
      → IsNear next window i
      → (mac : Bytes) × (split_extension datagram
          ≡ (some (interval, air.carried.disclosed, mac), air.buf))
        × (process_arrival K P H G r datagram arrival ≡ (
            unprotect K P r.inner air.buf >>= λ out.
            after_srtp K P H G
              (record r { inner = out.0 })
              interval
              air.carried.disclosed
              (record { ext_index = i; arrival_ns = arrival; mac = mac; covered = air.buf })
              out.2
            >>= λ next. ret (next.0, out.1, next.1)))
  unfolding process_arrival on_split screen open_packet
  opens_packet r done next i interval arrival datagram air small v near = (
    _,
    air.carried.extension,
    rw
        (
          air.carried.extension,
          le→ltb (length air.buf) 12 (omega (arith, size, numbered.has_header)),
          v.scheduled,
          air.in_time,
          seq,
          recovered r.recovery next window i v.top small near,
        )
        refl,
  )
    where
      numbered : IsNumbered (plain_packet model i) model.ssrc i
      numbered = plain_packet-IsNumbered model i short

      size : length air.buf ≡ length (plain_packet model i) + 16
      size = (L.Seals_header _ i (plain_packet model i) air.buf air.sealed).0

      same_byte : (j : ℕ) → j < 12 → get_or air.buf j 0 ≡ get_or (plain_packet model i) j 0
      same_byte j lt =
          (L.Seals_header _ i (plain_packet model i) air.buf air.sealed).1 j lt numbered.has_header

      seq : from_be16 (get_or air.buf 2 0) (get_or air.buf 3 0) ≡ i % 2 ^ 16
      seq =
          ap₂ from_be16 (same_byte 2 (omega arith)) (same_byte 3 (omega arith)) ∙ numbered.sequence
