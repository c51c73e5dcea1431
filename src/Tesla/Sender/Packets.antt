-- ===== src/Tesla/Sender/Packets.antt =====
-- What each packet of src/tesla/sender.rs carries.
use safe_cast.Base.{
  ℕ, zero, suc, ◌+◌, ◌-◌, ◌/◌, ◌<◌, ◌≤◌, ◌^◌, ◌≡◌, ◌∙◌, refl, sym, ap, arith, Bytes, ret, some,
  length, Bool-cases, ◌==◌, ==_iff, inl, inr,
}
use safe_cast.Crypto.{HmacSha256, Gmac}
use safe_cast.Tesla.Chain.{zero_key, ChainKey, key, from_final_key, f_step, length-f_step}
use safe_cast.Tesla.Chain.Keys.{f_iter, key-from_final_key}
use safe_cast.Tesla.Extension.{append_extension, split_extension}
use safe_cast.Tesla.Extension.RoundTrip.{split-append}
use safe_cast.Tesla.Mac.{TeslaMacAlg, PreparedMac, prepare, tag, prepare_returns, length-tag}
use safe_cast.Tesla.Schedule.{TeslaSchedule, interval_of, disclosed_index}
use safe_cast.Tesla.Schedule.Safety.{IsValid, interval_of_returns}
use safe_cast.Tesla.Sender.{TeslaSender, new_sender, enter, authenticate}

module _ (H : HmacSha256) (G : Gmac) where
  -- The MAC state belongs to the current interval, and the chain is the one below `k`, as long as
  -- the schedule says.
  pub record IsReady (k : ChainKey) (s : TeslaSender) : Type 0 where
    pub chain_below : s.chain ≡ from_final_key H k s.params.n_chain
    pub interval_key : ChainKey
    pub current : key s.chain s.current_interval ≡ ret interval_key
    pub keyed : prepare H G s.alg interval_key ≡ ret s.prepared

  -- The sender that a packet of `interval` leaves behind.
  pub record Entered (k : ChainKey) (s s' : TeslaSender) (interval : ℕ) : Type 0 where
    pub ready : IsReady k s'
    pub entered : s'.current_interval ≡ interval
    pub same_params : s'.params ≡ s.params
    pub same_chain : s'.chain ≡ s.chain
    pub same_alg : s'.alg ≡ s.alg

  chain_key :
      (k : ChainKey) (s : TeslaSender) (i : ℕ)
      → s.chain ≡ from_final_key H k s.params.n_chain
      → i ≤ s.params.n_chain
      → key s.chain i ≡ ret (f_iter H (s.params.n_chain - i) k)
  chain_key k s i e h = ap (λ c. key c i) e ∙ (key-from_final_key H k s.params.n_chain i).0 h

  enter_lem :
      (k : ChainKey) (s : TeslaSender) (i : ℕ)
      → IsReady k s
      → i ≤ s.params.n_chain
      → (s' : TeslaSender) × (enter H G s i ≡ ret s') × Entered k s s' i
  unfolding enter
  enter_lem k s i r h = elim (Bool-cases (i == s.current_interval)) [
    | inl same ↦ (
      s,
      rw same,
      record {
        ready = r;
        entered = sym ((==_iff i s.current_interval).0 same);
        same_params = refl;
        same_chain = refl;
        same_alg = refl;
      },
    )
    | inr other ↦
        let (p, ep) = prepare_returns H G s.alg (f_iter H (s.params.n_chain - i) k) in
        let ek = chain_key k s i r.chain_below h in
        (
          record s { prepared = p; current_interval = i },
          rw (other, ek, ep),
          record {
            ready = record {
              chain_below = r.chain_below;
              interval_key = f_iter H (s.params.n_chain - i) k;
              current = ek;
              keyed = ep;
            };
            entered = refl;
            same_params = refl;
            same_chain = refl;
            same_alg = refl;
          },
        )
  ]

  length-f_iter : (n : ℕ) (k : ChainKey) → length k ≡ 20 → length (f_iter H n k) ≡ 20
  length-f_iter zero k h = h
  length-f_iter (suc n) k h = length-f_iter n (f_step H k) (length-f_step H k)

  -- A new sender is ready for interval 1, on a chain that has one.
  pub new_sender-IsReady :
      (params : TeslaSchedule) (alg : TeslaMacAlg) (fill_bytes : Bytes → Bytes)
      → 1 ≤ params.n_chain
      → (s : TeslaSender) × (new_sender H G params alg fill_bytes ≡ ret s)
        × IsReady (fill_bytes zero_key) s
        × (s.params ≡ params)
        × (s.alg ≡ alg)
  unfolding new_sender
  new_sender-IsReady params alg fill_bytes h =
      let k = fill_bytes zero_key in
      let ek = (key-from_final_key H k params.n_chain 1).0 h in
      let (p, ep) = prepare_returns H G alg (f_iter H (params.n_chain - 1) k) in
      (
        record {
          params = params;
          chain = from_final_key H k params.n_chain;
          alg = alg;
          current_interval = 1;
          prepared = p;
        },
        rw (ek, ep),
        record {
          chain_below = refl;
          interval_key = f_iter H (params.n_chain - 1) k;
          current = ek;
          keyed = ep;
        },
        refl,
        refl,
      )

  -- What a packet carries: the interval of its send time, the chain key of `d` intervals before, and
  -- the tag over its position and its bytes under the MAC key of the interval's own chain key.
  pub record Carries (s : TeslaSender) (buf : Bytes) (index interval : ℕ) (out : Bytes)
      : Type 0 where
    pub interval_key : ChainKey
    pub disclosed : ChainKey
    pub mac : PreparedMac
    pub own_key : key s.chain interval ≡ ret interval_key
    pub old_key : key s.chain (disclosed_index s.params interval) ≡ ret disclosed
    pub keyed : prepare H G s.alg interval_key ≡ ret mac
    pub extension : split_extension out ≡ (some (interval, disclosed, tag H G mac index buf), buf)

  authenticate-Entered :
      (k : ChainKey) (s s' : TeslaSender) (buf : Bytes) (ext_index send i : ℕ)
      → length k ≡ 20
      → IsValid s.params
      → 0 < length buf
      → i ≤ s.params.n_chain
      → interval_of s.params send ≡ ret i
      → enter H G s i ≡ ret s'
      → Entered k s s' i
      → (out : Bytes) × (authenticate H G s buf ext_index send ≡ ret (s', out))
        × Carries s buf ext_index i out
  unfolding authenticate disclosed_index
  authenticate-Entered k s s' buf ext_index send i len v pos within at e r = (
    append_extension buf i old (tag H G s'.prepared ext_index buf),
    rw (at, e, r.same_params, ap (λ c. key c (i - s.params.d)) r.same_chain, old_is),
    record {
      interval_key = r.ready.interval_key;
      disclosed = old;
      mac = s'.prepared;
      own_key =
          ap (λ c. key c i) (sym r.same_chain)
          ∙ ap (key s'.chain) (sym r.entered)
          ∙ r.ready.current;
      old_key = old_is;
      keyed = ap (λ a. prepare H G a r.ready.interval_key) (sym r.same_alg) ∙ r.ready.keyed;
      extension =
          split-append buf i old (tag H G s'.prepared ext_index buf) pos
            (omega (arith, v.chain_u32)) (length-f_iter (s.params.n_chain - (i - s.params.d)) k len)
            (length-tag H G s'.prepared ext_index buf);
    },
  )
    where
      old : ChainKey
      old = f_iter H (s.params.n_chain - (i - s.params.d)) k

      old_is : key s.chain (i - s.params.d) ≡ ret old
      old_is =
          chain_key k s (i - s.params.d)
            (sym r.same_chain
              ∙ r.ready.chain_below
              ∙ ap (λ (t : TeslaSchedule). from_final_key H k t.n_chain) r.same_params)
            (omega arith)

  -- The call for one packet, with all that it leaves of the sender.
  pub authenticate_next :
      (k : ChainKey) (s : TeslaSender) (buf : Bytes) (ext_index send : ℕ)
      → length k ≡ 20
      → IsValid s.params
      → IsReady k s
      → 0 < length buf
      → send < 2 ^ 64
      → s.params.t0_ns ≤ send
      → 1 + (send - s.params.t0_ns) / s.params.t_int_ns ≤ s.params.n_chain
      → (s' : TeslaSender) × (out : Bytes) × (authenticate H G s buf ext_index send ≡ ret (s', out))
        × Carries s buf ext_index (1 + (send - s.params.t0_ns) / s.params.t_int_ns) out
        × Entered k s s' (1 + (send - s.params.t0_ns) / s.params.t_int_ns)
  authenticate_next k s buf ext_index send len v ready pos lt from to =
      let i = 1 + (send - s.params.t0_ns) / s.params.t_int_ns in
      let (s', e, r) = enter_lem k s i ready to in
      let (out, done, carries) =
        authenticate-Entered k s s' buf ext_index send i len v pos to
          (interval_of_returns send v lt from to) e r in
      (s', out, done, carries, r)

  -- For a ready sender with a valid schedule, a packet that is not empty and a send time within the
  -- stream whose interval the chain still has: the sender does not panic, the packet carries the
  -- interval of its send time, the key of `d` intervals before and the tag under its own interval's
  -- key, and the sender is ready for the next packet.
  pub authenticate_lem :
      (k : ChainKey) (s : TeslaSender) (buf : Bytes) (ext_index send : ℕ)
      → length k ≡ 20
      → IsValid s.params
      → IsReady k s
      → 0 < length buf
      → send < 2 ^ 64
      → s.params.t0_ns ≤ send
      → 1 + (send - s.params.t0_ns) / s.params.t_int_ns ≤ s.params.n_chain
      → (s' : TeslaSender) × (out : Bytes) × (authenticate H G s buf ext_index send ≡ ret (s', out))
        × Carries s buf ext_index (1 + (send - s.params.t0_ns) / s.params.t_int_ns) out
        × IsReady k s'
        × (s'.params ≡ s.params)
  authenticate_lem k s buf ext_index send len v ready pos lt from to =
      let (s', out, done, carries, e) =
        authenticate_next k s buf ext_index send len v ready pos lt from to in
      (s', out, done, carries, e.ready, e.same_params)
