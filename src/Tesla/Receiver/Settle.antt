-- ===== src/Tesla/Receiver/Settle.antt =====
-- What `settle` of src/tesla/receiver.rs does to the waiting packets and to the counters.
use safe_cast.Base.{
  ℕ, ◌+◌, ◌-◌, ◌%◌, ◌^◌, ◌≡◌, ◌∙◌, refl, ap, arith, List, [], ◌∷◌, Option, none, some, subst,
  Bool-cases, inl, inr, All, All-append, length, length-append, bytes_eq, ◌==◌, ==_iff, ret,
  >>=-eq-ret,
}
use safe_cast.Crypto.{HmacSha256, Gmac, Hkdf, Srtp}
use safe_cast.Tesla.Chain.{ChainKey}
use safe_cast.Tesla.Mac.{PreparedMac, tag, prepare, prepare_returns}
use safe_cast.Tesla.Receiver.State.{DrawerEntry, Drawers, remove, file, TeslaReceiver, TeslaStats}
use safe_cast.Tesla.Receiver.{verdict, settle_drawer, settle_found, settle}

-- The packets that wait in the drawers.
abbrev pub waiting : Drawers → ℕ
waiting [] = 0
waiting ((i, entries) ∷ rest) = length entries + waiting rest

abbrev pub held : Option (List DrawerEntry) → ℕ
held none = 0
held (some entries) = length entries

-- A property of every waiting packet and of the interval it waits for.
abbrev pub Everywhere : (ℕ → DrawerEntry → Type 0) → Drawers → Type 0
Everywhere Q drawers = All (λ (d : ℕ × List DrawerEntry). All (Q d.0) d.1) drawers

waiting-remove :
    (i : ℕ) (drawers : Drawers)
    → held (remove i drawers).0 + waiting (remove i drawers).1 ≡ waiting drawers
unfolding remove
waiting-remove i [] = refl
waiting-remove i ((j, entries) ∷ rest) = elim (Bool-cases (i == j)) [
  | inl same ↦ rw same refl
  | inr other ↦ rw other (omega (arith, waiting-remove i rest))
]

remove-Everywhere :
    (Q : ℕ → DrawerEntry → Type 0) (i : ℕ) (drawers : Drawers)
    → Everywhere Q drawers
    → Everywhere Q (remove i drawers).1
unfolding remove
remove-Everywhere Q i [] h = tt
remove-Everywhere Q i ((j, entries) ∷ rest) h = elim (Bool-cases (i == j)) [
  | inl same ↦ rw same h.1
  | inr other ↦ rw other (h.0, remove-Everywhere Q i rest h.1)
]

pub waiting-file :
    (i : ℕ) (e : DrawerEntry) (drawers : Drawers) → waiting (file i e drawers) ≡ waiting drawers + 1
unfolding file
waiting-file i e [] = refl
waiting-file i e ((j, entries) ∷ rest) = elim (Bool-cases (i == j)) [
  | inl same ↦ rw same (omega (arith, length-append entries (e ∷ [])))
  | inr other ↦ rw other (omega (arith, waiting-file i e rest))
]

pub file-Everywhere :
    (Q : ℕ → DrawerEntry → Type 0) (i : ℕ) (e : DrawerEntry) (drawers : Drawers)
    → Q i e
    → Everywhere Q drawers
    → Everywhere Q (file i e drawers)
unfolding file
file-Everywhere Q i e [] q h = ((q, tt), tt)
file-Everywhere Q i e ((j, entries) ∷ rest) q h = elim (Bool-cases (i == j)) [
  | inl same ↦
      rw same (
        All-append (Q j) entries (e ∷ []) h.0 (subst (λ t. Q t e) ((==_iff i j).0 same) q, tt),
        h.1,
      )
  | inr other ↦ rw other (h.0, file-Everywhere Q i e rest q h.1)
]

-- What any part of settling does when `m` packets get their verdict.
pub record Verdicts {P : Srtp} (r r' : TeslaReceiver P) (m : ℕ) : Type 1 where
  pub same_params : r'.params ≡ r.params
  pub same_verifier : r'.verifier ≡ r.verifier
  pub same_alg : r'.alg ≡ r.alg
  pub same_inner : r'.inner ≡ r.inner
  pub same_delivered : r'.stats.delivered ≡ r.stats.delivered
  pub same_peak : r'.stats.peak_pending ≡ r.stats.peak_pending
  pub pending_less : r'.pending ≡ r.pending - m
  pub one_verdict_each : r'.stats.verified + r'.stats.forged ≡ r.stats.verified + r.stats.forged + m
  pub one_latency_each :
      length r'.stats.latencies_ns + r.stats.verified
      ≡ length r.stats.latencies_ns + r'.stats.verified
  pub waiting_less : waiting r'.drawers + m ≡ waiting r.drawers
  pub no_new : (Q : ℕ → DrawerEntry → Type 0) → Everywhere Q r.drawers → Everywhere Q r'.drawers

-- The drawers without those of the intervals whose keys are listed.
abbrev left_by : Drawers → Option (List DrawerEntry) × Drawers → Drawers
left_by ds (none, rest) = ds
left_by ds (some entries, rest) = rest

unfoldable pub without : List (ℕ × ChainKey) → Drawers → Drawers
without [] ds = ds
without ((i, k) ∷ keys) ds = without keys (left_by ds (remove i ds))

module _ {P : Srtp} where
  pub no-Verdicts : (r : TeslaReceiver P) → Verdicts r r 0
  no-Verdicts r = record {
    same_params = refl;
    same_verifier = refl;
    same_alg = refl;
    same_inner = refl;
    same_delivered = refl;
    same_peak = refl;
    pending_less = omega arith;
    one_verdict_each = omega arith;
    one_latency_each = omega arith;
    waiting_less = omega arith;
    no_new = λ Q h. h;
  }

  both-Verdicts :
      {r s t : TeslaReceiver P} {m n : ℕ} → Verdicts r s m → Verdicts s t n → Verdicts r t (m + n)
  both-Verdicts {r} {s} {t} {m} {n} v w = record {
    same_params = w.same_params ∙ v.same_params;
    same_verifier = w.same_verifier ∙ v.same_verifier;
    same_alg = w.same_alg ∙ v.same_alg;
    same_inner = w.same_inner ∙ v.same_inner;
    same_delivered = w.same_delivered ∙ v.same_delivered;
    same_peak = w.same_peak ∙ v.same_peak;
    pending_less = omega (arith, v.pending_less, w.pending_less);
    one_verdict_each = omega (arith, v.one_verdict_each, w.one_verdict_each);
    one_latency_each = omega (arith, v.one_latency_each, w.one_latency_each);
    waiting_less = omega (arith, v.waiting_less, w.waiting_less);
    no_new = λ Q h. w.no_new Q (v.no_new Q h);
  }

-- The counters after a loop with `m` verdicts.
record Tallied (stats stats' : TeslaStats) (m : ℕ) : Type 0 where
  verdicts : stats'.verified + stats'.forged ≡ stats.verified + stats.forged + m
  latencies :
      length stats'.latencies_ns + stats.verified ≡ length stats.latencies_ns + stats'.verified
  delivered_kept : stats'.delivered ≡ stats.delivered
  peak_kept : stats'.peak_pending ≡ stats.peak_pending

module _ (K : Hkdf) (P : Srtp) (H : HmacSha256) (G : Gmac) where
  verdict_lem :
      (stats : TeslaStats) (p : PreparedMac) (now : ℕ) (e : DrawerEntry)
      → Tallied stats (verdict K P H G stats p now e) 1
  unfolding verdict
  verdict_lem stats p now e = elim (Bool-cases (bytes_eq (tag H G p e.ext_index e.covered) e.mac)) [
    | inl same ↦ rw same (record {
      verdicts = omega arith;
      latencies =
          omega
            (arith, length-append stats.latencies_ns ((now + 2 ^ 64 - e.arrival_ns) % 2 ^ 64 ∷ []));
      delivered_kept = refl;
      peak_kept = refl;
    })
    | inr other ↦ rw other (record {
      verdicts = omega arith;
      latencies = refl;
      delivered_kept = refl;
      peak_kept = refl;
    })
  ]

  settle_drawer_lem :
      (p : PreparedMac) (now : ℕ) (entries : List DrawerEntry) (stats : TeslaStats) (pending n : ℕ)
      → Tallied stats (settle_drawer K P H G p now entries (stats, pending, n)).0 (length entries)
        × ((settle_drawer K P H G p now entries (stats, pending, n)).1 ≡ pending - length entries)
        × ((settle_drawer K P H G p now entries (stats, pending, n)).2 ≡ n + length entries)
  unfolding settle_drawer
  settle_drawer_lem p now [] stats pending n = (
    record { verdicts = omega arith; latencies = refl; delivered_kept = refl; peak_kept = refl },
    omega arith,
    omega arith,
  )
  settle_drawer_lem p now (e ∷ entries) stats pending n =
      let v = verdict_lem stats p now e in
      let (t, less, more) =
        settle_drawer_lem p now entries (verdict K P H G stats p now e) (pending - 1) (n + 1) in
      (
        record {
          verdicts = omega (arith, v.verdicts, t.verdicts);
          latencies = omega (arith, v.latencies, t.latencies);
          delivered_kept = t.delivered_kept ∙ v.delivered_kept;
          peak_kept = t.peak_kept ∙ v.peak_kept;
        },
        omega (arith, less),
        omega (arith, more),
      )

  settle_found_lem :
      (r : TeslaReceiver P) (k : ChainKey) (now n : ℕ) (found : Option (List DrawerEntry) × Drawers)
      → held found.0 + waiting found.1 ≡ waiting r.drawers
      → ((Q : ℕ → DrawerEntry → Type 0) → Everywhere Q r.drawers → Everywhere Q found.1)
      → (r' : TeslaReceiver P) × (m : ℕ) × (settle_found K P H G r k now found n ≡ ret (r', n + m))
        × Verdicts r r' m
  unfolding settle_found
  settle_found_lem r k now n (none, rest) adds keeps =
      (r, 0, ap (λ x. ret (r, x)) (let e : n ≡ n + 0 = omega arith in e), no-Verdicts r)
  settle_found_lem r k now n (some entries, rest) adds keeps =
      let (p, ep) = prepare_returns H G r.alg k in
      let (t, less, more) = settle_drawer_lem p now entries r.stats r.pending n in
      let out = settle_drawer K P H G p now entries (r.stats, r.pending, n) in
      let r' = record r { drawers = rest; stats = out.0; pending = out.1 } in
      (
        r',
        length entries,
        rw ep (ap (λ x. ret (r', x)) more),
        record {
          same_params = refl;
          same_verifier = refl;
          same_alg = refl;
          same_inner = refl;
          same_delivered = t.delivered_kept;
          same_peak = t.peak_kept;
          pending_less = less;
          one_verdict_each = t.verdicts;
          one_latency_each = t.latencies;
          waiting_less = omega (arith, adds);
          no_new = keeps;
        },
      )

  settle_found-left_by :
      (r r' : TeslaReceiver P) (k : ChainKey) (now n m : ℕ)
      (found : Option (List DrawerEntry) × Drawers)
      → settle_found K P H G r k now found n ≡ ret (r', m)
      → r'.drawers ≡ left_by r.drawers found
  unfolding settle_found
  settle_found-left_by r r' k now n m (none, rest) e =
      ap (λ (x : TeslaReceiver P × ℕ). x.0.drawers)
        (let same : ◌≡◌ {A = TeslaReceiver P × ℕ} (r', m) (r, n) = cc in same)
  settle_found-left_by r r' k now n m (some entries, rest) e =
      let (p, _, e₁) = >>=-eq-ret (prepare H G r.alg k) _ e in
      let out = settle_drawer K P H G p now entries (r.stats, r.pending, n) in
      ap (λ (x : TeslaReceiver P × ℕ). x.0.drawers)
        (let same : ◌≡◌ {A = TeslaReceiver P × ℕ} (r', m)
              (record r { drawers = rest; stats = out.0; pending = out.1 }, out.2) =
            cc in
          same)

  -- Settling empties the drawers of the keys' intervals and no others.
  pub settle-without :
      (r r' : TeslaReceiver P) (keys : List (ℕ × ChainKey)) (now n m : ℕ)
      → settle K P H G r keys now n ≡ ret (r', m)
      → r'.drawers ≡ without keys r.drawers
  unfolding settle without
  settle-without r r' [] now n m e =
      ap (λ (x : TeslaReceiver P × ℕ). x.0.drawers)
        (let same : ◌≡◌ {A = TeslaReceiver P × ℕ} (r', m) (r, n) = cc in same)
  settle-without r r' ((i, k) ∷ keys) now n m e =
      let (s, first, rest) = >>=-eq-ret (settle_found K P H G r k now (remove i r.drawers) n) _ e in
      settle-without s.0 r' keys now s.1 m rest
      ∙ ap (without keys) (settle_found-left_by r s.0 k now n s.1 (remove i r.drawers) first)

  -- Settling never panics. Whatever the keys, each packet that leaves the drawers gets one verdict,
  -- a latency is noted for each verified one, and the number returned counts them.
  pub settle_lem :
      (r : TeslaReceiver P) (keys : List (ℕ × ChainKey)) (now n : ℕ)
      → (r' : TeslaReceiver P) × (m : ℕ) × (settle K P H G r keys now n ≡ ret (r', n + m))
        × Verdicts r r' m
  unfolding settle
  settle_lem r [] now n =
      (r, 0, ap (λ x. ret (r, x)) (let e : n ≡ n + 0 = omega arith in e), no-Verdicts r)
  settle_lem r ((i, k) ∷ keys) now n =
      let (s, a, first, v) =
        settle_found_lem r k now n (remove i r.drawers) (waiting-remove i r.drawers)
          (λ Q h. remove-Everywhere Q i r.drawers h) in
      let (t, b, rest, w) = settle_lem s keys now (n + a) in
      (
        t,
        a + b,
        rw (first, rest)
            (ap (λ x. ret (t, x)) (let e : n + a + b ≡ n + (a + b) = omega arith in e)),
        both-Verdicts v w,
      )
