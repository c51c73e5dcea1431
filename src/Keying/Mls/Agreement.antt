-- ===== src/Keying/Mls/Agreement.antt =====
-- Two members of one group of src/keying/mls.rs export the same keys, before and after a rekeying.
use safe_cast.Base.{
  ℕ, ◌≡◌, refl, sym, ◌∙◌, arith, ==_iff, some, ◌++◌, Bytes, length, length-append, be32,
  take-append_exact, drop-append_exact, ret,
}
use safe_cast.Keying.Ratchet.{from_seed, split_key_salt}
use safe_cast.Keying.Mls.{
  OpenMls, srtp_master_key_label, srtp_master_salt_label, srtp_ratchet_seed_label,
  build_exporter_context, export_srtp_keys, seed_from_exporter, create_rekey_commit, process_commit,
}

module _ (M : OpenMls) where
  -- The calls of openmls in a rekeying of `g` that `h` processes, each with its result.
  pub record Rekeys (signer : M.KeyPair) (g h : M.MlsGroup) : Type 0 where
    pub commit : M.MlsMessageOut
    pub pending : M.MlsGroup
    pub updated : M.self_update g signer ≡ some (commit, pending)
    pub next : M.MlsGroup
    pub merged : M.merge_pending_commit pending ≡ some next
    pub message : M.ProtocolMessage
    pub unpacked : M.into_protocol_message commit ≡ some message
    pub processed : M.ProcessedMessage
    pub staging : M.MlsGroup
    pub accepted : M.process_message h message ≡ some (processed, staging)
    pub staged : M.StagedCommit
    pub is_commit : M.staged_commit processed ≡ some staged
    pub peer : M.MlsGroup
    pub peer_merged : M.merge_staged_commit staging staged ≡ some peer

  -- The exports of a group for a stream, each with its result.
  pub record Exports (g : M.MlsGroup) (ssrc : ℕ) : Type 0 where
    pub key : Bytes
    pub key_exported : M.export_secret g srtp_master_key_label (be32 ssrc) 16 ≡ some key
    pub salt : Bytes
    pub salt_exported : M.export_secret g srtp_master_salt_label (be32 ssrc) 12 ≡ some salt
    pub seed : Bytes
    pub seed_exported : M.export_secret g srtp_ratchet_seed_label (be32 ssrc) 32 ≡ some seed

  pub export_srtp_keys-eq_of_secret :
      (g h : M.MlsGroup) (ssrc : ℕ)
      → M.exporter_secret g ≡ M.exporter_secret h
      → export_srtp_keys M g ssrc ≡ export_srtp_keys M h ssrc
  unfolding export_srtp_keys
  export_srtp_keys-eq_of_secret g h ssrc e =
      rw
        (
          M.export_secret_from g h srtp_master_key_label (build_exporter_context ssrc) 16 e,
          M.export_secret_from g h srtp_master_salt_label (build_exporter_context ssrc) 12 e,
        )
        refl

  seed_from_exporter-eq_of_secret :
      (g h : M.MlsGroup) (ssrc : ℕ)
      → M.exporter_secret g ≡ M.exporter_secret h
      → seed_from_exporter M g ssrc ≡ seed_from_exporter M h ssrc
  unfolding seed_from_exporter
  seed_from_exporter-eq_of_secret g h ssrc e =
      rw (M.export_secret_from g h srtp_ratchet_seed_label (build_exporter_context ssrc) 32 e) refl

  -- The lengths fit: 28 bytes that split into key and salt, and a seed that the ratchet takes.
  pub export_lem :
      (g : M.MlsGroup) (ssrc : ℕ) (x : Exports g ssrc)
      → (export_srtp_keys M g ssrc ≡ ret (x.key ++ x.salt, x.key, x.salt))
        × (length (x.key ++ x.salt) ≡ 28)
        × (split_key_salt (x.key ++ x.salt) ≡ (x.key, x.salt))
        × (seed_from_exporter M g ssrc ≡ ret (record { chain_secret = x.seed; generation = 0 }))
  unfolding export_srtp_keys seed_from_exporter build_exporter_context split_key_salt from_seed
  export_lem g ssrc x =
      let kl = M.export_secret_length g srtp_master_key_label (be32 ssrc) x.key 16 x.key_exported in
      let sl =
        M.export_secret_length g srtp_master_salt_label (be32 ssrc) x.salt 12 x.salt_exported in
      let dl =
        M.export_secret_length g srtp_ratchet_seed_label (be32 ssrc) x.seed 32 x.seed_exported in
      (
        rw (x.key_exported, x.salt_exported) refl,
        omega (arith, length-append x.key x.salt, kl, sl),
        (λ i. (take-append_exact x.key x.salt 16 kl i, drop-append_exact x.key x.salt 16 kl i)),
        rw x.seed_exported (rw ((==_iff (length x.seed) 32).1 dl) refl),
      )

  -- If two members stand in one epoch of the group and the calls of openmls return, then
  -- `create_rekey_commit` by the one and `process_commit` by the other return, and if the exports of the
  -- committer's new epoch return for a stream, both members' `export_srtp_keys` return the same 28
  -- bytes, the key followed by the salt, as `split_key_salt` takes them apart, and both members'
  -- `seed_from_exporter` the same ratchet, at generation 0.
  pub process_commit-create_rekey_commit :
      (signer : M.KeyPair) (g h : M.MlsGroup) (ssrc : ℕ) (r : Rekeys signer g h)
      (x : Exports r.next ssrc)
      → M.SameEpoch g h
      → (create_rekey_commit M g signer ≡ ret (r.commit, r.next))
        × (process_commit M h r.commit ≡ ret r.peer)
        × (export_srtp_keys M r.next ssrc ≡ ret (x.key ++ x.salt, x.key, x.salt))
        × (export_srtp_keys M r.peer ssrc ≡ ret (x.key ++ x.salt, x.key, x.salt))
        × (length (x.key ++ x.salt) ≡ 28)
        × (split_key_salt (x.key ++ x.salt) ≡ (x.key, x.salt))
        × (seed_from_exporter M r.next ssrc
            ≡ ret (record { chain_secret = x.seed; generation = 0 }))
        × (seed_from_exporter M r.peer ssrc ≡ seed_from_exporter M r.next ssrc)
  unfolding create_rekey_commit process_commit
  process_commit-create_rekey_commit signer g h ssrc r x epoch =
      let both = M.SameEpoch-exporter_secret r.next r.peer (
        M.commit_epoch g r.pending r.next h r.staging r.peer signer r.commit r.message r.processed
          r.staged epoch r.updated r.merged r.unpacked r.accepted r.is_commit r.peer_merged) in
      let (keys, size, split, seeded) = export_lem r.next ssrc x in
      (
        rw (r.updated, r.merged) refl,
        rw (r.unpacked, r.accepted, r.is_commit, r.peer_merged) refl,
        keys,
        sym (export_srtp_keys-eq_of_secret r.next r.peer ssrc both) ∙ keys,
        size,
        split,
        seeded,
        sym (seed_from_exporter-eq_of_secret r.next r.peer ssrc both),
      )
