-- ===== src/Keying/Mls.antt =====
-- src/keying/mls.rs: members, credential identities, the keys exported from a group and its rekeying,
-- and the exported seed of src/keying/ratchet.rs. What openmls does is the record OpenMls.
pub mod Identity
pub mod Agreement
use safe_cast.Base.{
  ℕ, ◌%◌, ◌^◌, ◌≡◌, ◌==◌, Bool, true, false, Option, none, some, [], ◌∷◌, ◌++◌, Bytes, length, be32,
  if◌then◌else◌, Exec, ret, panic, expect, ◌>>=◌,
}
use safe_cast.Keying.Ratchet.{
  StreamRatchet, from_seed, aes_128_gcm_key_len, aes_128_gcm_salt_len, chain_secret_len,
}

-- What the program takes from openmls. A group and a member's provider stand with the storage that they
-- are kept in. `exporter_secret` is the secret of the group's epoch, the one input from the group to
-- an export (RFC 9420, section 8.5); a member that merges another's commit reaches the epoch that the
-- committer reached by merging it, if they stood in one epoch.
pub record OpenMls : Type 1 where
  pub Entropy : Type 0
  pub Provider : Type 0
  pub KeyPair : Type 0
  pub KeyPackageBundle : Type 0
  pub MlsGroup : Type 0
  pub MlsMessageOut : Type 0
  pub ProtocolMessage : Type 0
  pub StagedCommit : Type 0
  pub ProcessedMessage : Type 0
  pub default_provider : Entropy → Provider
  pub new_key_pair : Entropy → Option KeyPair
  pub store : KeyPair → Provider → Option Provider
  pub to_public_vec : KeyPair → Bytes
  pub build_key_package : Provider → KeyPair → Bytes → Bytes → Option (KeyPackageBundle × Provider)
  pub export_secret : MlsGroup → Bytes → Bytes → ℕ → Option Bytes
  pub self_update : MlsGroup → KeyPair → Option (MlsMessageOut × MlsGroup)
  pub merge_pending_commit : MlsGroup → Option MlsGroup
  pub into_protocol_message : MlsMessageOut → Option ProtocolMessage
  pub process_message : MlsGroup → ProtocolMessage → Option (ProcessedMessage × MlsGroup)
  pub staged_commit : ProcessedMessage → Option StagedCommit
  pub merge_staged_commit : MlsGroup → StagedCommit → Option MlsGroup
  pub exporter_secret : MlsGroup → Bytes
  pub SameEpoch : MlsGroup → MlsGroup → Type 0
  pub export_secret_length :
      (g : MlsGroup) (label context secret : Bytes) (n : ℕ)
      → export_secret g label context n ≡ some secret
      → length secret ≡ n
  pub SameEpoch-exporter_secret :
      (g h : MlsGroup) → SameEpoch g h → exporter_secret g ≡ exporter_secret h
  pub export_secret_from :
      (g h : MlsGroup) (label context : Bytes) (n : ℕ)
      → exporter_secret g ≡ exporter_secret h
      → export_secret g label context n ≡ export_secret h label context n
  pub commit_epoch :
      (g g₁ g₂ h h₁ h₂ : MlsGroup) (signer : KeyPair) (commit : MlsMessageOut)
      (message : ProtocolMessage) (processed : ProcessedMessage) (staged : StagedCommit)
      → SameEpoch g h
      → self_update g signer ≡ some (commit, g₁)
      → merge_pending_commit g₁ ≡ some g₂
      → into_protocol_message commit ≡ some message
      → process_message h message ≡ some (processed, h₁)
      → staged_commit processed ≡ some staged
      → merge_staged_commit h₁ staged ≡ some h₂
      → SameEpoch g₂ h₂

-- "SRTP master key", "SRTP master salt" and "SRTP ratchet seed".
abbrev pub srtp_master_key_label : Bytes
srtp_master_key_label =
    b'S' ∷ b'R' ∷ b'T' ∷ b'P' ∷ b' ' ∷ b'm' ∷ b'a' ∷ b's' ∷ b't' ∷ b'e' ∷ b'r' ∷ b' ' ∷ b'k' ∷ b'e'
    ∷ b'y' ∷ []

abbrev pub srtp_master_salt_label : Bytes
srtp_master_salt_label =
    b'S' ∷ b'R' ∷ b'T' ∷ b'P' ∷ b' ' ∷ b'm' ∷ b'a' ∷ b's' ∷ b't' ∷ b'e' ∷ b'r' ∷ b' ' ∷ b's' ∷ b'a'
    ∷ b'l' ∷ b't' ∷ []

abbrev pub srtp_ratchet_seed_label : Bytes
srtp_ratchet_seed_label =
    b'S' ∷ b'R' ∷ b'T' ∷ b'P' ∷ b' ' ∷ b'r' ∷ b'a' ∷ b't' ∷ b'c' ∷ b'h' ∷ b'e' ∷ b't' ∷ b' ' ∷ b's'
    ∷ b'e' ∷ b'e' ∷ b'd' ∷ []

-- `identity.hash(&mut hasher)` with the standard library's hasher is the parameter.
unfoldable pub ssrc_from_identity : (Bytes → ℕ) → Bytes → ℕ
ssrc_from_identity hash identity = hash identity % 2 ^ 32

-- `str::rsplit_once`, at the last occurrence of a byte.
unfoldable pub rsplit_once : ℕ → Bytes → Option (Bytes × Bytes)
rsplit_once c [] = none
rsplit_once c (x ∷ xs) = elim (rsplit_once c xs) [
  | some parts ↦ some (x ∷ parts.0, parts.1)
  | none ↦ if x == c then some ([], xs) else none
]

unfoldable pub parse_credential_identity : Bytes → Exec (Bytes × Bytes)
unfolding rsplit_once
parse_credential_identity identity = expect (rsplit_once b':' identity)

unfoldable pub build_exporter_context : ℕ → Bytes
build_exporter_context ssrc = be32 ssrc

module _ (M : OpenMls) where
  open M use {
    Entropy, Provider, KeyPair, KeyPackageBundle, MlsGroup, MlsMessageOut, default_provider,
    new_key_pair, store, to_public_vec, build_key_package, export_secret, self_update,
    merge_pending_commit, into_protocol_message, process_message, staged_commit,
    merge_staged_commit,
  }

  -- The basic credential is the identity.
  pub record MlsMember : Type 0 where
    pub provider : Provider
    pub signer : KeyPair
    pub credential : Bytes
    pub signature_key : Bytes

  unfoldable pub new_member : Bytes → Entropy → Exec MlsMember
  new_member identity entropy = do
    let provider = default_provider entropy
    signer ← expect (new_key_pair entropy)
    provider' ← expect (store signer provider)
    ret (record {
      provider = provider';
      signer = signer;
      credential = identity;
      signature_key = to_public_vec signer;
    })

  unfoldable pub generate_key_package : MlsMember → Exec (KeyPackageBundle × MlsMember)
  generate_key_package member = do
    built ←
        expect
          (build_key_package member.provider member.signer member.credential member.signature_key)
    ret (built.0, record member { provider = built.1 })

  unfoldable pub export_srtp_keys : MlsGroup → ℕ → Exec (Bytes × Bytes × Bytes)
  unfolding build_exporter_context
  export_srtp_keys group ssrc = do
    let context = build_exporter_context ssrc
    master_key ← expect (export_secret group srtp_master_key_label context aes_128_gcm_key_len)
    master_salt ← expect (export_secret group srtp_master_salt_label context aes_128_gcm_salt_len)
    ret (master_key ++ master_salt, master_key, master_salt)

  unfoldable pub seed_from_exporter : MlsGroup → ℕ → Exec StreamRatchet
  unfolding from_seed build_exporter_context
  seed_from_exporter group ssrc = do
    let context = build_exporter_context ssrc
    seed ← expect (export_secret group srtp_ratchet_seed_label context chain_secret_len)
    from_seed seed

  unfoldable pub create_rekey_commit : MlsGroup → KeyPair → Exec (MlsMessageOut × MlsGroup)
  create_rekey_commit group signer = do
    update ← expect (self_update group signer)
    group' ← expect (merge_pending_commit update.1)
    ret (update.0, group')

  unfoldable pub process_commit : MlsGroup → MlsMessageOut → Exec MlsGroup
  process_commit group commit = do
    message ← expect (into_protocol_message commit)
    processed ← expect (process_message group message)
    staged ← expect (staged_commit processed.0)
    expect (merge_staged_commit processed.1 staged)
