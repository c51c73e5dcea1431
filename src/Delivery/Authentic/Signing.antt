-- ===== src/Delivery/Authentic/Signing.antt =====
-- The datagrams of a stream that src/tesla/sender.rs has authenticated.
use safe_cast.Base.{
  ℕ, zero, suc, ◌+◌, ◌-◌, ◌/◌, ◌^◌, ◌≤◌, ◌<◌, ◌≡◌, ◌∙◌, refl, sym, ap, subst, arith, List, [], ◌∷◌,
  Bytes, some, length, get_elem?, ret,
}
use safe_cast.Crypto.{Hkdf, Srtp, HmacSha256, Gmac}
use safe_cast.Keying.Granularity.{Granularity}
use safe_cast.Simulation.Sender.{StreamModel, plain_packet}
use safe_cast.Tesla.Chain.{ChainKey, key}
use safe_cast.Tesla.Mac.{prepare}
use safe_cast.Tesla.Schedule.{TeslaSchedule, disclosed_index}
use safe_cast.Tesla.Schedule.Safety.{IsValid}
use safe_cast.Tesla.Sender.{TeslaSender}
use safe_cast.Tesla.Sender.Packets
use safe_cast.Tesla.Sender.Packets.{IsReady, Entered, authenticate_next}
use safe_cast.Delivery.Link.{SrtpLink}
use safe_cast.Delivery.Sending.{Carries, CarriesFrom}
use safe_cast.Delivery.Authentic.{authenticate_all}

-- The interval of a clock reading.
abbrev pub interval_at : TeslaSchedule → ℕ → ℕ
interval_at params t = 1 + (t - params.t0_ns) / params.t_int_ns

-- Packet `i` is authenticated within the stream.
pub record IsTimely (params : TeslaSchedule) (send_at : ℕ → ℕ) (i : ℕ) : Type 0 where
  pub is_u64 : send_at i < 2 ^ 64
  pub started : params.t0_ns ≤ send_at i
  pub lasts : interval_at params (send_at i) ≤ params.n_chain

module _ (K : Hkdf) (P : Srtp) (H : HmacSha256) (G : Gmac) (L : SrtpLink P) (seed : Bytes)
    (model : StreamModel) (granularity : Granularity) (s : TeslaSender) (send_at : ℕ → ℕ) where
  pub record IsSigned (i : ℕ) (datagram : Bytes) : Type 0 where
    pub buf : Bytes
    pub sealed : Carries K P L seed model granularity i buf
    pub carried : Packets.Carries H G s buf i (interval_at s.params (send_at i)) datagram

  abbrev pub AreSigned : ℕ → List Bytes → Type 0
  AreSigned i [] = Unit
  AreSigned i (datagram ∷ rest) = IsSigned i datagram × AreSigned (suc i) rest

  -- The datagram with a packet's number is signed.
  pub datagram_at :
      (sent : List Bytes) (i j : ℕ)
      → AreSigned i sent
      → j < length sent
      → (datagram : Bytes) × (get_elem? sent j ≡ some datagram) × IsSigned (i + j) datagram
  datagram_at [] i j h lt = absurd (omega arith)
  datagram_at (datagram ∷ sent) i zero h lt =
      (datagram, refl, subst (λ n. IsSigned n datagram) (let e : i ≡ i + 0 = omega arith in e) h.0)
  datagram_at (datagram ∷ sent) i (suc j) h lt =
      let (other, e, c) = datagram_at sent (suc i) j h.1 (omega arith) in
      (
        other,
        e,
        subst (λ n. IsSigned n other) (let e' : suc i + j ≡ i + suc j = omega arith in e') c,
      )

  -- A later state of the same sender.
  pub record Continues (k : ChainKey) (s' : TeslaSender) : Type 0 where
    pub ready : IsReady H G k s'
    pub same_params : s'.params ≡ s.params
    pub same_chain : s'.chain ≡ s.chain
    pub same_alg : s'.alg ≡ s.alg

  carried_then :
      (k : ChainKey) (s' : TeslaSender) (buf : Bytes) (i t : ℕ) (datagram : Bytes)
      → Continues k s'
      → Packets.Carries H G s' buf i (interval_at s'.params t) datagram
      → Packets.Carries H G s buf i (interval_at s.params t) datagram
  carried_then k s' buf i t datagram c h =
      subst (λ p. Packets.Carries H G s buf i (interval_at p t) datagram) c.same_params
        (record {
          interval_key = h.interval_key;
          disclosed = h.disclosed;
          mac = h.mac;
          own_key = ap (λ l. key l (interval_at s'.params t)) (sym c.same_chain) ∙ h.own_key;
          old_key =
              (λ j.
                key (sym c.same_chain j)
                  (disclosed_index (sym c.same_params j) (interval_at s'.params t)))
              ∙ h.old_key;
          keyed = ap (λ a. prepare H G a h.interval_key) (sym c.same_alg) ∙ h.keyed;
          extension = h.extension;
        })

  pub authenticate_all-AreSigned :
      (k : ChainKey) (s' : TeslaSender) (i count : ℕ) (sent : List Bytes)
      → length k ≡ 20
      → IsValid s.params
      → ((j : ℕ) → j < count → IsTimely s.params send_at j)
      → i + length sent ≤ count
      → CarriesFrom K P L seed model granularity i sent
      → Continues k s'
      → (datagrams : List Bytes) × (authenticate_all H G s' send_at i sent ≡ ret datagrams)
        × (length datagrams ≡ length sent)
        × AreSigned i datagrams
  unfolding authenticate_all
  authenticate_all-AreSigned k s' i count [] size v timely le h c = ([], refl, refl, tt)
  authenticate_all-AreSigned k s' i count (buf ∷ rest) size v timely le h c =
      let here = subst (λ p. IsTimely p send_at i) (sym c.same_params) (timely i (omega arith)) in
      let long = (L.Seals_header _ i (plain_packet model i) buf h.0).0 in
      let (s'', datagram, call, carries, e) =
        authenticate_next H G k s' buf i (send_at i) size (subst IsValid (sym c.same_params) v)
          c.ready (omega (arith, long)) here.is_u64 here.started here.lasts in
      let (others, calls, same, all) =
        authenticate_all-AreSigned k s'' (suc i) count rest size v timely (omega (arith, le)) h.1
          (record {
            ready = e.ready;
            same_params = e.same_params ∙ c.same_params;
            same_chain = e.same_chain ∙ c.same_chain;
            same_alg = e.same_alg ∙ c.same_alg;
          }) in
      (
        datagram ∷ others,
        rw (call, calls) refl,
        ap suc same,
        (
          record {
            buf = buf;
            sealed = h.0;
            carried = carried_then k s' buf i (send_at i) datagram c carries;
          },
          all,
        ),
      )
