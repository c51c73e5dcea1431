-- ===== src/Tesla/Receiver/Genuine.antt =====
-- Which waiting packets `settle` of src/tesla/receiver.rs verifies, and that it verifies those of
-- src/tesla/sender.rs.
use safe_cast.Base.{
  ℕ, ◌+◌, ◌-◌, ◌≡◌, ◌∙◌, refl, sym, ap, subst, arith, List, [], ◌∷◌, Option, some, Bytes,
  Bool-cases, inl, inr, All, length, bytes_eq, bytes_eq_refl, if◌then◌else◌, ret,
}
use safe_cast.Crypto.{HmacSha256, Gmac, Hkdf, Srtp}
use safe_cast.Tesla.Chain.{ChainKey, key}
use safe_cast.Tesla.Extension.{split_extension}
use safe_cast.Tesla.Mac.{PreparedMac, prepare, prepare_returns, tag}
use safe_cast.Tesla.Sender.{TeslaSender}
use safe_cast.Tesla.Sender.Packets.{Carries}
use safe_cast.Tesla.Receiver.State.{DrawerEntry, Drawers, remove, TeslaReceiver, TeslaStats}
use safe_cast.Tesla.Receiver.{verdict, settle_drawer, settle_found, settle}

module _ (H : HmacSha256) (G : Gmac) where
  -- 1 for an entry whose MAC is the one computed under `p`, and their number.
  unfoldable pub matching : PreparedMac → DrawerEntry → ℕ
  matching p e = if bytes_eq (tag H G p e.ext_index e.covered) e.mac then 1 else 0

  unfoldable pub genuine : PreparedMac → List DrawerEntry → ℕ
  genuine p [] = 0
  genuine p (e ∷ entries) = matching p e + genuine p entries

  -- An entry that holds what the extension of a packet of the sender says.
  pub record FromSender (s : TeslaSender) (i : ℕ) (e : DrawerEntry) : Type 0 where
    pub packet : Bytes
    pub disclosed : ChainKey
    pub carried : Carries H G s e.covered e.ext_index i packet
    pub kept : split_extension packet ≡ (some (i, disclosed, e.mac), e.covered)

  sender_mac :
      (s : TeslaSender) (i : ℕ) (k : ChainKey) (p : PreparedMac) (e : DrawerEntry)
      → key s.chain i ≡ ret k
      → prepare H G s.alg k ≡ ret p
      → FromSender s i e
      → tag H G p e.ext_index e.covered ≡ e.mac
  sender_mac s i k p e own keyed f =
      ap (λ q. tag H G q e.ext_index e.covered) same_mac ∙ mac_of (sym f.carried.extension ∙ f.kept)
    where
      same_key : k ≡ f.carried.interval_key
      same_key = cc (own, f.carried.own_key)

      same_mac : p ≡ f.carried.mac
      same_mac = cc (keyed, f.carried.keyed, ap (prepare H G s.alg) same_key)

      mac_of :
          {i j : ℕ} {a b : ChainKey} {m m' x y : Bytes}
          → ◌≡◌ {A = Option (ℕ × ChainKey × Bytes) × Bytes} (some (i, a, m), x) (some (j, b, m'), y)
          → m ≡ m'
      mac_of q = cc

  pub genuine-All :
      (s : TeslaSender) (i : ℕ) (k : ChainKey) (p : PreparedMac) (entries : List DrawerEntry)
      → key s.chain i ≡ ret k
      → prepare H G s.alg k ≡ ret p
      → All (FromSender s i) entries
      → genuine p entries ≡ length entries
  unfolding genuine matching
  genuine-All s i k p [] own keyed h = refl
  genuine-All s i k p (e ∷ entries) own keyed h =
      rw (sender_mac s i k p e own keyed h.0, bytes_eq_refl e.mac)
        (omega (arith, genuine-All s i k p entries own keyed h.1))

module _ (K : Hkdf) (P : Srtp) (H : HmacSha256) (G : Gmac) where
  verdict-genuine :
      (stats : TeslaStats) (p : PreparedMac) (now : ℕ) (e : DrawerEntry)
      → ((verdict K P H G stats p now e).verified ≡ stats.verified + matching H G p e)
        × ((verdict K P H G stats p now e).forged + matching H G p e ≡ stats.forged + 1)
  unfolding verdict matching
  verdict-genuine stats p now e =
      elim (Bool-cases (bytes_eq (tag H G p e.ext_index e.covered) e.mac)) [
        | inl same ↦ rw same (refl, refl)
        | inr other ↦ rw other (omega arith, omega arith)
      ]

  pub settle_drawer-genuine :
      (p : PreparedMac) (now : ℕ) (entries : List DrawerEntry) (stats : TeslaStats) (pending n : ℕ)
      → let out = settle_drawer K P H G p now entries (stats, pending, n) in
        (out.0.verified ≡ stats.verified + genuine H G p entries)
        × (out.0.forged + genuine H G p entries ≡ stats.forged + length entries)
        × (out.2 ≡ n + length entries)
  unfolding settle_drawer genuine
  settle_drawer-genuine p now [] stats pending n = (omega arith, omega arith, omega arith)
  settle_drawer-genuine p now (e ∷ entries) stats pending n =
      let ih =
        settle_drawer-genuine p now entries (verdict K P H G stats p now e) (pending - 1) (n + 1) in
      let v = verdict-genuine stats p now e in
      (omega (arith, ih.0, v.0), omega (arith, ih.1, v.1), omega (arith, ih.2))

  -- When the key of an interval with waiting packets is settled, all of them get a verdict: the
  -- verified ones are those whose MAC is the tag over their position and bytes under the MAC key
  -- that the chain key gives, the others are forged.
  pub settle-genuine :
      (r : TeslaReceiver P) (i : ℕ) (k : ChainKey) (p : PreparedMac) (now : ℕ)
      (entries : List DrawerEntry) (rest : Drawers)
      → remove i r.drawers ≡ (some entries, rest)
      → prepare H G r.alg k ≡ ret p
      → (r' : TeslaReceiver P) × (settle K P H G r ((i, k) ∷ []) now 0 ≡ ret (r', length entries))
        × (r'.drawers ≡ rest)
        × (r'.stats.verified ≡ r.stats.verified + genuine H G p entries)
        × (r'.stats.forged + genuine H G p entries ≡ r.stats.forged + length entries)
  unfolding settle settle_found
  settle-genuine r i k p now entries rest found keyed =
      let out = settle_drawer K P H G p now entries (r.stats, r.pending, 0) in
      let (v, f, n) = settle_drawer-genuine p now entries r.stats r.pending 0 in
      let r' = record r { drawers = rest; stats = out.0; pending = out.1 } in
      (
        r',
        rw (found, keyed)
            (ap (λ x. ret (r', x)) (let e : out.2 ≡ length entries = omega (arith, n) in e)),
        refl,
        v,
        f,
      )

  -- If the packets that wait for an interval hold what the extensions of packets of the sender say, and
  -- the sender's own chain key of that interval is settled by a receiver with the same MAC algorithm, all
  -- of them are verified and none is forged.
  pub settle-sender :
      (s : TeslaSender) (r : TeslaReceiver P) (i : ℕ) (k : ChainKey) (now : ℕ)
      (entries : List DrawerEntry) (rest : Drawers)
      → r.alg ≡ s.alg
      → key s.chain i ≡ ret k
      → remove i r.drawers ≡ (some entries, rest)
      → All (FromSender H G s i) entries
      → (r' : TeslaReceiver P) × (settle K P H G r ((i, k) ∷ []) now 0 ≡ ret (r', length entries))
        × (r'.drawers ≡ rest)
        × (r'.stats.verified ≡ r.stats.verified + length entries)
        × (r'.stats.forged ≡ r.stats.forged)
  settle-sender s r i k now entries rest same own found from =
      let (p, keyed) = prepare_returns H G r.alg k in
      let (r', run, left, v, f) = settle-genuine r i k p now entries rest found keyed in
      let all =
        genuine-All H G s i k p entries own (subst (λ a. prepare H G a k ≡ ret p) same keyed)
          from in
      (r', run, left, omega (arith, v, all), omega (arith, f, all))
