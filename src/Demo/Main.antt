-- ===== src/Demo/Main.antt =====
-- `main` of demo/safecast-client/src/main.rs: the steps of a client, from its registration to its media.
-- Log lines and the command line's parser are left out.
pub mod Entering
pub mod Steps
use safe_cast.Base.{
  ℕ, ◌+◌, ◌*◌, ◌%◌, ◌^◌, Bool, true, false, Option, none, some, List, [], ◌∷◌, Bytes, length, Exec,
  ret, expect, ◌>>=◌,
}
use safe_cast.Keying.Mls.{
  OpenMls, MlsMember, new_member, generate_key_package, parse_credential_identity,
  ssrc_from_identity, export_srtp_keys,
}
use safe_cast.Transport.Rtp.{RtpPacket}
use safe_cast.Transport.SrtpSession.{SrtpTemplates}
use safe_cast.Demo.DsClient.{
  Call, Response, Result, ok, err, Codec, DsClient, new_client, register_with_as, register_with_ds,
  lookup_as,
}
use safe_cast.Demo.Group.{
  GroupSetup, Polled, done, and_then, from_exec, expect_result, create_group, join_group,
}
use safe_cast.Demo.Client.{
  Mode, creator, sender, receiver, Member, Lookup, Event, generate_identity, verify_group_members,
  all_members, sender_identities, receiver_sessions, send_srtp, recv_srtp,
}

-- The options of the command line.
pub record Cli : Type 0 where
  pub mode : Mode
  pub senders : ℕ
  pub receivers : ℕ
  pub packets : ℕ
  pub as_url : Bytes
  pub ds_url : Bytes

-- What a client has done when it ends: its datagrams, or the packets that it displayed.
pub data Outcome : Type 0 where
  group_created : Outcome
  sent : List Bytes → Outcome
  displayed : List RtpPacket → Outcome

-- What `main` takes from openmls besides the interfaces of the two phases: one group for both, and the
-- key package's hash and its form on the wire.
pub record Shared (C : Codec) (K : GroupSetup C) (M : OpenMls) : Type 0 where
  pub same_group : K.MlsGroup → M.MlsGroup
  pub members : K.MlsGroup → List Member
  pub hash_ref : M.Provider → M.KeyPackageBundle → Option Bytes
  pub into_key_package_in : M.KeyPackageBundle → C.KeyPackageIn

-- `expected_peers`, a sum of two `u32`, and the receiver's `expected_packets`.
abbrev pub expected_peers : Cli → ℕ
expected_peers cli = (cli.senders + cli.receivers) % 2 ^ 32

abbrev pub expected_packets : Cli → List Bytes → ℕ
expected_packets cli senders = length senders % 2 ^ 32 * cli.packets % 2 ^ 32

module _ (C : Codec) (K : GroupSetup C) (M : OpenMls) (S : SrtpTemplates) (X : Shared C K M)
    {W : Type 0} (http : W → Call → Option Response × W) (from_utf8_lossy : Bytes → Bytes)
    (hash : Bytes → ℕ) (decimal : ℕ → Bytes) where
  -- Step 1: the directory gets the identity with the signature key, the delivery service two key
  -- packages under their hashes.
  unfoldable pub registration :
      DsClient C http → W → Bytes → MlsMember M → Exec (DsClient C http × W)
  registration ds_client w identity member = do
    let (registered, w₁) =
        register_with_as C http ds_client w identity (M.to_public_vec member.signer)
    with_as ← expect_result registered
    kp1 ← generate_key_package M member
    kp2 ← generate_key_package M kp1.1
    kp1_hash ← expect (X.hash_ref kp2.1.provider kp1.0)
    kp2_hash ← expect (X.hash_ref kp2.1.provider kp2.0)
    let (uploaded, ds_client', w₂) =
        register_with_ds C http ds_client w₁ identity
          ((kp1_hash, X.into_key_package_in kp1.0) ∷ (kp2_hash, X.into_key_package_in kp2.0) ∷ [])
    with_ds ← expect_result uploaded
    ret (ds_client', w₂)

  -- Step 2. `fuel` bounds the polls of each loop.
  unfoldable pub group_setup :
      (fuel : ℕ) → Cli → DsClient C http → W → Bytes → Mode → Polled (K.MlsGroup × W)
  group_setup fuel cli ds_client w identity creator =
      create_group C K http from_utf8_lossy ds_client fuel w identity (expected_peers cli)
  group_setup fuel cli ds_client w identity sender =
      join_group C K http from_utf8_lossy ds_client fuel w
  group_setup fuel cli ds_client w identity receiver =
      join_group C K http from_utf8_lossy ds_client fuel w

  abbrev pub as_option {ℓ} : {A : Type ℓ} → Result A → Option A
  as_option (ok a) = some a
  as_option (err e) = none

  -- `lookup_as` of step 3.
  abbrev pub directory : DsClient C http → Lookup W
  directory ds_client w identity =
      let (key, w') = lookup_as C http ds_client w identity in (as_option key, w')

  -- Steps 4 and 5, for a sender and for a receiver; the socket's events are an argument.
  unfoldable pub send_media : Cli → Bytes → Bytes → M.MlsGroup → Exec Outcome
  send_media cli identity label group = do
    let my_ssrc = ssrc_from_identity hash identity
    keys ← export_srtp_keys M group my_ssrc
    datagrams ← send_srtp M S hash decimal label my_ssrc keys.0 cli.packets
    ret (sent datagrams)

  unfoldable pub receive_media :
      Cli → List (Event M S hash) → M.MlsGroup → List Bytes → Exec Outcome
  receive_media cli events group senders = do
    sessions ← receiver_sessions M S hash group senders []
    packets ← recv_srtp M S hash events sessions (expected_packets cli senders)
    ret (displayed packets)

  -- The creator is done before.
  unfoldable pub media :
      Cli → List (Event M S hash) → Bytes → Bytes → K.MlsGroup → Mode → Exec Outcome
  unfolding send_media receive_media
  media cli events identity label group creator = ret group_created
  media cli events identity label group sender = do
    members ← all_members from_utf8_lossy (X.members group)
    send_media cli identity label (X.same_group group)
  media cli events identity label group receiver = do
    members ← all_members from_utf8_lossy (X.members group)
    receive_media cli events (X.same_group group) (sender_identities members)

  -- Step 3 and what follows.
  unfoldable pub verified_media :
      Cli → List (Event M S hash) → Bytes → Bytes → DsClient C http → K.MlsGroup × W → Exec Outcome
  verified_media cli events identity label ds_client (group, w) = do
    w' ← verify_group_members from_utf8_lossy (directory ds_client) w (X.members group) identity
    media cli events identity label group cli.mode

  -- The client before it sets up its group: its identity, its label, and what step 1 leaves.
  unfoldable pub start_up :
      Cli → (pid : Bytes) → M.Entropy → W → Exec (Bytes × Bytes × DsClient C http × W)
  unfolding registration
  start_up cli pid entropy w = do
    let identity = generate_identity cli.mode pid
    parts ← parse_credential_identity identity
    member ← new_member M identity entropy
    registered ← registration (new_client C http cli.as_url cli.ds_url) w identity member
    ret (identity, parts.0, registered.0, registered.1)

  unfoldable pub main :
      (fuel : ℕ) → Cli → (pid : Bytes) → M.Entropy → List (Event M S hash) → W → Polled Outcome
  unfolding start_up group_setup verified_media media
  main fuel cli pid entropy events w = and_then (from_exec (start_up cli pid entropy w)) (λ entered.
      let (identity, label, ds_client, w₁) = entered in
      and_then (group_setup fuel cli ds_client w₁ identity cli.mode)
        (λ joined. from_exec (verified_media cli events identity label ds_client joined)))
