-- ===== src/Tesla/Receiver/Joining.antt =====
-- What a packet of src/tesla/sender.rs that has been decrypted changes in a receiver of
-- src/tesla/receiver.rs.
use safe_cast.Base.{ℕ, ◌-◌, ◌+◌, max, ◌≤◌, ◌≡◌, ◌∙◌, refl, sym, ap, subst, arith, inl, inr, ret}
use safe_cast.Crypto.{Hkdf, Srtp, HmacSha256, Gmac}
use safe_cast.Receiver.IndexRecovery.{update}
use safe_cast.Receiver.Manager.{delivered}
use safe_cast.Tesla.Chain.{ChainKey, ChainVerifier, Disclosure, key, from_final_key, check}
use safe_cast.Tesla.Schedule.{disclosed_index}
use safe_cast.Tesla.Sender.{TeslaSender}
use safe_cast.Tesla.Receiver.State.{DrawerEntry, TeslaReceiver, settled}
use safe_cast.Tesla.Receiver.{after_srtp, disclose, await}
use safe_cast.Tesla.Receiver.Genuine.{FromSender}
use safe_cast.Tesla.Receiver.Honest.{AllFrom, file-AllFrom, settle-Settled}
use safe_cast.Tesla.Receiver.Trusting.{Trusts, Checked, check-Checked}

module _ (K : Hkdf) (P : Srtp) (H : HmacSha256) (G : Gmac) (s : TeslaSender) (k_final : ChainKey)
    (g_max : ℕ) (chain : s.chain ≡ from_final_key H k_final s.params.n_chain) where
  -- What a packet of the sender that has been decrypted changes.
  pub record Joined (r r' : TeslaReceiver P) (index c : ℕ) : Type 0 where
    pub params_kept : r'.params ≡ r.params
    pub alg_kept : r'.alg ≡ r.alg
    pub inner_kept : r'.inner ≡ r.inner
    pub trusts : Trusts H s k_final g_max chain r'.verifier
    pub moved : r'.verifier.trusted_index ≡ max r.verifier.trusted_index c
    pub updated : r'.recovery ≡ update r.recovery index
    pub all_from : AllFrom H G s r'.drawers
    pub none_forged : r'.stats.forged ≡ r.stats.forged

  answered-Joined :
      (r : TeslaReceiver P) (interval c : ℕ) (entry : DrawerEntry)
      (out : ChainVerifier × Disclosure)
      → r.alg ≡ s.alg
      → AllFrom H G s r.drawers
      → FromSender H G s interval entry
      → Checked H s k_final g_max chain r.verifier.trusted_index c out
      → (r' : TeslaReceiver P) × (n : ℕ) × (disclose K P H G
            (record r { recovery = update r.recovery entry.ext_index; verifier = out.0 })
            interval
            entry
            out.1
          ≡ ret (r', settled n))
        × Joined r r' entry.ext_index c
  unfolding disclose await
  answered-Joined r interval c entry out same all from checked =
      let r₁ : TeslaReceiver P = record r {
        recovery = update r.recovery entry.ext_index;
        verifier = out.0;
      } in
      elim checked.answers [
        | inl e ↦ (
          (await K P H G r₁ interval entry 0).0,
          0,
          rw e refl,
          record {
            params_kept = refl;
            alg_kept = refl;
            inner_kept = refl;
            trusts = checked.trusts;
            moved = checked.moved;
            updated = refl;
            all_from = file-AllFrom H G s interval entry r.drawers from all;
            none_forged = refl;
          },
        )
        | inr (keys, e, own) ↦
            let (r₂, n, done, t) =
              settle-Settled H G s K P r₁ keys entry.arrival_ns 0 same own all in
            (
              (await K P H G r₂ interval entry n).0,
              n,
              rw (e, done) refl,
              record {
                params_kept = t.params_kept;
                alg_kept = t.alg_kept;
                inner_kept = t.inner_kept;
                trusts =
                    subst (Trusts H s k_final g_max chain) (sym t.verifier_kept) checked.trusts;
                moved = ap (λ (x : ChainVerifier). x.trusted_index) t.verifier_kept ∙ checked.moved;
                updated = t.recovery_kept;
                all_from = file-AllFrom H G s interval entry r₂.drawers from t.all_from;
                none_forged = t.none_forged;
              },
            )
      ]

  pub decrypted-Joined :
      (r : TeslaReceiver P) (interval g : ℕ) (disclosed : ChainKey) (entry : DrawerEntry)
      → r.params ≡ s.params
      → r.alg ≡ s.alg
      → interval ≤ s.params.n_chain
      → key s.chain (disclosed_index s.params interval) ≡ ret disclosed
      → Trusts H s k_final g_max chain r.verifier
      → AllFrom H G s r.drawers
      → FromSender H G s interval entry
      → disclosed_index r.params interval ≤ r.verifier.trusted_index + g_max
      → (r' : TeslaReceiver P) × (n : ℕ) × (after_srtp K P H G r interval disclosed entry
            (delivered g)
          ≡ ret (r', settled n))
        × Joined r r' entry.ext_index (disclosed_index r.params interval)
  unfolding after_srtp disclosed_index
  decrypted-Joined r interval g disclosed entry scheduled same within own trusts all from near =
      answered-Joined r interval (interval - r.params.d) entry
        (check H r.verifier disclosed (interval - r.params.d)) same all from
        (check-Checked H s k_final g_max chain r.verifier (interval - r.params.d) disclosed trusts
          (omega (arith, within)) (ap (λ (p : _). key s.chain (interval - p.d)) scheduled ∙ own)
          near)
