-- ===== src/Tests/Groups.antt =====
-- A group created over a concrete network.
use safe_cast.Base.{
  ℕ, ◌+◌, ◌≤◌, ◌≡◌, ◌≢◌, ◌==◌, refl, ltb, Option, none, some, List, [], ◌∷◌, Bytes, bytes_eq, All,
  length, if◌then◌else◌,
}
use safe_cast.Keying.Mls.{rsplit_once, parse_credential_identity}
use safe_cast.Demo.DsClient.{
  Call, get, post, Response, DsClient, is_success, succeeded, or_empty, key_package_of,
  list_clients, consume_key_package, lookup_as, send_welcome,
}
use safe_cast.Demo.Group.{
  GroupSetup, done, peers_of, discover_peers, fetch_key_package, check_key_package, fetch_peer,
  fetch_peers, set_up, create_group, discover_peers,
}
use safe_cast.Demo.Group.Vouched.{Vouched, MadeWith, create_group-Vouched}
use safe_cast.Tests.Services.{codec0}

-- A key package is its bytes, with one signature key for all; a group is the packages added.
abbrev pub setup0 : GroupSetup codec0
setup0 = record {
  KeyPackage = Bytes;
  MlsGroup = List Bytes;
  Welcome = Bytes;
  StagedWelcome = Bytes;
  deserialize_key_package = λ bytes. some bytes;
  validate = λ kp_in. some kp_in;
  signature_key = λ kp. 7 ∷ [];
  new_group = some [];
  add_members = λ group kps. some ([], kps);
  merge_pending_commit = λ group. some group;
  serialize_welcome = λ welcome. some welcome;
  into_welcome = λ msg. some msg;
  new_from_welcome = λ welcome. some welcome;
  into_group = λ staged. some [];
}

-- "p:r".
abbrev peer0 : Bytes
peer0 = b'p' ∷ b':' ∷ b'r' ∷ []

-- The network counts the calls, and has the peer's key package from the fourth on. Paths are told
-- apart by their length.
abbrev http1 : ℕ → Call → Option Response × ℕ
http1 w (post url body) = (some (record { status = 200; body = none }), w + 1)
http1 w (get url body) = (
  if length url == 13
      then some (record { status = 200; body = some peer0 })
      else if length url == 11
      then some (record { status = 200; body = some (1 ∷ 1 ∷ 1 ∷ 1 ∷ 1 ∷ 1 ∷ 1 ∷ 0 ∷ []) })
      else if ltb w 3
      then some (record { status = 204; body = none })
      else some (record { status = 200; body = some (9 ∷ []) }),
  w + 1,
)

abbrev client1 : DsClient codec0 http1
client1 = record { as_url = []; ds_url = []; auth_token = none; client_id = none }

created0 :
    create_group codec0 setup0 http1 (λ b. b) client1 5 0 (1 ∷ []) 1 ≡ done ((9 ∷ []) ∷ [], 6)
unfolding create_group set_up fetch_peers fetch_peer check_key_package fetch_key_package
    discover_peers peers_of list_clients consume_key_package lookup_as send_welcome succeeded
    or_empty key_package_of is_success rsplit_once parse_credential_identity bytes_eq
created0 = refl

create_group-Vouched_example :
    (peers : List Bytes) × (kps : List Bytes) × (w₁ : ℕ) × (w₂ : ℕ) × (discover_peers codec0 setup0
        http1
        (λ b. b)
        client1
        5
        0
        (1 ∷ [])
        1
      ≡ done (peers, w₁))
    × (1 ≤ length peers)
    × All (λ p. p ≢ 1 ∷ []) peers
    × Vouched codec0 setup0 http1 (λ b. b) client1 5 w₁ peers kps w₂
    × MadeWith codec0 setup0 http1 (λ b. b) client1 kps ((9 ∷ []) ∷ [])
    × ((more : ℕ)
        → create_group codec0 setup0 http1 (λ b. b) client1 (5 + more) 0 (1 ∷ []) 1
          ≡ done ((9 ∷ []) ∷ [], 6))
create_group-Vouched_example =
    create_group-Vouched codec0 setup0 http1 (λ b. b) client1 5 0 (1 ∷ []) 1 ((9 ∷ []) ∷ [], 6)
      created0
