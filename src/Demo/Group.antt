-- ===== src/Demo/Group.antt =====
-- `create_group` and `join_group` of demo/safecast-client/src/main.rs. A loop that polls a service runs
-- on a fuel of polls; the network moves on with each call.
pub mod Polls
pub mod Vouched
use safe_cast.Base.{
  ℕ, zero, suc, Bool, true, false, Option, none, some, List, [], ◌∷◌, Bytes, bytes_eq, leb, length,
  if◌then◌else◌, Exec, ret, panic, expect, assert, ◌>>=◌,
}
use safe_cast.Keying.Mls.{parse_credential_identity}
use safe_cast.Demo.DsClient.{
  Call, Response, Result, ok, err, Codec, DsClient, list_clients, consume_key_package, lookup_as,
  send_welcome, recv_messages,
}

-- What setting up a group takes from openmls, for one member.
pub record GroupSetup (C : Codec) : Type 1 where
  pub KeyPackage : Type 0
  pub MlsGroup : Type 0
  pub Welcome : Type 0
  pub StagedWelcome : Type 0
  pub deserialize_key_package : Bytes → Option C.KeyPackageIn
  pub validate : C.KeyPackageIn → Option KeyPackage
  pub signature_key : KeyPackage → Bytes
  pub new_group : Option MlsGroup
  pub add_members : MlsGroup → List KeyPackage → Option (Welcome × MlsGroup)
  pub merge_pending_commit : MlsGroup → Option MlsGroup
  pub serialize_welcome : Welcome → Option Bytes
  pub into_welcome : C.MlsMessageIn → Option Welcome
  pub new_from_welcome : Welcome → Option StagedWelcome
  pub into_group : StagedWelcome → Option MlsGroup

-- What a polling loop comes to; `waiting` when the fuel is used up.
pub data Polled {ℓ} (A : Type ℓ) : Type ℓ where
  done : A → Polled A
  panicked : Polled A
  waiting : Polled A

abbrev pub and_then {ℓ κ} : {A : Type ℓ} {B : Type κ} → Polled A → (A → Polled B) → Polled B
and_then (done a) f = f a
and_then panicked f = panicked
and_then waiting f = waiting

abbrev pub from_exec {ℓ} : {A : Type ℓ} → Exec A → Polled A
from_exec (ret a) = done a
from_exec panic = panicked

-- `Result::expect`.
abbrev pub expect_result {ℓ} : {A : Type ℓ} → Result A → Exec A
expect_result (ok a) = ret a
expect_result (err _) = panic

module _ (C : Codec) (K : GroupSetup C) {W : Type 0} (http : W → Call → Option Response × W)
    (from_utf8_lossy : Bytes → Bytes) (c : DsClient C http) where
  open K use {KeyPackage, MlsGroup, Welcome}

  -- The listed clients but oneself.
  unfoldable pub peers_of : Bytes → List Bytes → List Bytes
  peers_of identity [] = []
  peers_of identity (id ∷ clients) =
      let later = peers_of identity clients in
      if bytes_eq (from_utf8_lossy id) identity then later else from_utf8_lossy id ∷ later

  unfoldable pub discover_peers : (fuel : ℕ) → W → Bytes → ℕ → Polled (List Bytes × W)
  unfolding peers_of
  discover_peers zero w identity expected_peers = waiting
  discover_peers (suc fuel) w identity expected_peers =
      let (listed, w') = list_clients C http c w in
      and_then (from_exec (expect_result listed)) (λ clients.
        let peers = peers_of identity clients in
        elim (leb expected_peers (length peers)) [
          | true ↦ done (peers, w')
          | false ↦ discover_peers fuel w' identity expected_peers
        ])

  unfoldable pub fetch_key_package : (fuel : ℕ) → W → Bytes → Polled (Bytes × W)
  fetch_key_package zero w peer_id = waiting
  fetch_key_package (suc fuel) w peer_id =
      let (answer, w') = consume_key_package C http c w peer_id in
      and_then (from_exec (expect_result answer))
        (λ kp. elim kp [ some bytes ↦ done (bytes, w') | none ↦ fetch_key_package fuel w' peer_id ])

  -- The checks of a fetched key package, and the network after the lookup.
  unfoldable pub check_key_package : W → Bytes → Bytes → Exec (KeyPackage × W)
  check_key_package w peer_id kp_bytes = do
    kp_in ← expect (K.deserialize_key_package kp_bytes)
    pk_from_as ← expect_result (lookup_as C http c w peer_id).0
    kp_ref ← expect (K.validate kp_in)
    same ← assert (bytes_eq pk_from_as (K.signature_key kp_ref))
    ret (kp_ref, (lookup_as C http c w peer_id).1)

  unfoldable pub fetch_peer : (fuel : ℕ) → W → Bytes → Polled (KeyPackage × W)
  unfolding fetch_key_package check_key_package
  fetch_peer fuel w peer_id = and_then (from_exec (parse_credential_identity peer_id)) (λ parts.
      and_then (fetch_key_package fuel w peer_id)
        (λ fetched. from_exec (check_key_package fetched.1 peer_id fetched.0)))

  unfoldable pub fetch_peers : (fuel : ℕ) → W → List Bytes → Polled (List KeyPackage × W)
  unfolding fetch_peer
  fetch_peers fuel w [] = done ([], w)
  fetch_peers fuel w (peer_id ∷ peers) = and_then (fetch_peer fuel w peer_id) (λ first.
      and_then (fetch_peers fuel first.1 peers) (λ later. done (first.0 ∷ later.0, later.1)))

  unfoldable pub set_up : W → List KeyPackage → Exec (MlsGroup × W)
  set_up w peer_kps = do
    group ← expect K.new_group
    added ← expect (K.add_members group peer_kps)
    group' ← expect (K.merge_pending_commit added.1)
    welcome_bytes ← expect (K.serialize_welcome added.0)
    sent ← expect_result (send_welcome C http c w welcome_bytes).0
    ret (group', (send_welcome C http c w welcome_bytes).1)

  -- `fuel` bounds the polls of each loop.
  unfoldable pub create_group :
      (fuel : ℕ) → W → (identity : Bytes) → (expected_peers : ℕ) → Polled (MlsGroup × W)
  unfolding discover_peers fetch_peers set_up
  create_group fuel w identity expected_peers =
      and_then (discover_peers fuel w identity expected_peers) (λ found.
        and_then (fetch_peers fuel found.1 found.0)
          (λ fetched. from_exec (set_up fetched.1 fetched.0)))

  unfoldable pub first_welcome : List C.MlsMessageIn → Option Welcome
  first_welcome [] = none
  first_welcome (msg ∷ msgs) = elim (K.into_welcome msg) [
    | some welcome ↦ some welcome
    | none ↦ first_welcome msgs
  ]

  unfoldable pub await_welcome : (fuel : ℕ) → W → Polled (Welcome × W)
  unfolding first_welcome
  await_welcome zero w = waiting
  await_welcome (suc fuel) w = and_then (from_exec (recv_messages C http c w)) (λ got.
      and_then (from_exec (expect_result got.0)) (λ msgs. elim (first_welcome msgs) [
        | some welcome ↦ done (welcome, got.1)
        | none ↦ await_welcome fuel got.1
      ]))

  unfoldable pub join_with : Welcome → Exec MlsGroup
  join_with welcome_msg = do
    staged ← expect (K.new_from_welcome welcome_msg)
    expect (K.into_group staged)

  unfoldable pub join_group : (fuel : ℕ) → W → Polled (MlsGroup × W)
  unfolding await_welcome join_with
  join_group fuel w =
      and_then (await_welcome fuel w)
        (λ got. and_then (from_exec (join_with got.0)) (λ group. done (group, got.1)))
