-- ===== src/Demo/DsClient.antt =====
-- demo/safecast-client/src/ds_client.rs: the client of the authentication service and of the delivery
-- service. The network is a parameter that changes with each call; base64, JSON and the TLS encoding are
-- the record Codec. An error's text is its constructor.
pub mod Directory
use safe_cast.Base.{
  ℕ, ◌≡◌, Bool, true, false, ◌&&◌, Option, none, some, List, [], ◌∷◌, ◌++◌, Bytes, All, ◌<◌, leb,
  ltb, ◌==◌, length, if◌then◌else◌, Exec, ret, panic, expect, ◌>>=◌,
}

-- An HTTP request with its body.
pub data Call : Type 0 where
  get : (url body : Bytes) → Call
  post : (url body : Bytes) → Call

-- The status and the body, unless reading the body fails.
pub record Response : Type 0 where
  pub status : ℕ
  pub body : Option Bytes

pub data Failure : Type 0 where
  request_failed status_failed read_failed parse_failed serialize_failed decode_failed : Failure

pub data Result {ℓ} (A : Type ℓ) : Type ℓ where
  ok : A → Result A
  err : Failure → Result A

-- `?` and early returns.
abbrev pub and_then {ℓ κ} : {A : Type ℓ} {B : Type κ} → Result A → (A → Result B) → Result B
and_then (ok a) f = f a
and_then (err e) f = err e

-- `map_err`.
abbrev pub or_err {ℓ} : {A : Type ℓ} → Failure → Option A → Result A
or_err e none = err e
or_err e (some a) = ok a

-- The encodings of the crates `base64`, `serde_json` and `openmls`. Standard base64 is ASCII and is read
-- back.
pub record Codec : Type 1 where
  pub KeyPackageIn : Type 0
  pub AuthToken : Type 0
  pub MlsMessageIn : Type 0
  pub base64 : Bytes → Bytes
  pub base64_decode : Bytes → Option Bytes
  pub base64_url : Bytes → Bytes
  pub register_json : Bytes → Bytes → Bytes
  pub lookup_public_key : Bytes → Option Bytes
  pub serialize_key_packages : List (Bytes × KeyPackageIn) → Option Bytes
  pub deserialize_auth_token : Bytes → Option AuthToken
  pub deserialize_clients : Bytes → Option (List Bytes)
  pub serialize_recv_request : AuthToken → Option Bytes
  pub deserialize_messages : Bytes → Option (List MlsMessageIn)
  pub base64_decode-base64 : (key : Bytes) → base64_decode (base64 key) ≡ some key
  pub base64_ascii : (key : Bytes) → All (λ b. b < 128) (base64 key)

unfoldable pub is_success : ℕ → Bool
is_success status = leb 200 status && ltb status 300

-- "/register", "/lookup/", "/clients/register", "/clients/list", "/clients/key_package/",
-- "/send/welcome" and "/recv/".
abbrev pub register_path : Bytes
register_path = b'/' ∷ b'r' ∷ b'e' ∷ b'g' ∷ b'i' ∷ b's' ∷ b't' ∷ b'e' ∷ b'r' ∷ []

abbrev pub lookup_path : Bytes
lookup_path = b'/' ∷ b'l' ∷ b'o' ∷ b'o' ∷ b'k' ∷ b'u' ∷ b'p' ∷ b'/' ∷ []

abbrev pub clients_register_path : Bytes
clients_register_path =
    b'/' ∷ b'c' ∷ b'l' ∷ b'i' ∷ b'e' ∷ b'n' ∷ b't' ∷ b's' ∷ b'/' ∷ b'r' ∷ b'e' ∷ b'g' ∷ b'i' ∷ b's'
    ∷ b't' ∷ b'e' ∷ b'r' ∷ []

abbrev pub clients_list_path : Bytes
clients_list_path =
    b'/' ∷ b'c' ∷ b'l' ∷ b'i' ∷ b'e' ∷ b'n' ∷ b't' ∷ b's' ∷ b'/' ∷ b'l' ∷ b'i' ∷ b's' ∷ b't' ∷ []

abbrev pub key_package_path : Bytes
key_package_path =
    b'/' ∷ b'c' ∷ b'l' ∷ b'i' ∷ b'e' ∷ b'n' ∷ b't' ∷ b's' ∷ b'/' ∷ b'k' ∷ b'e' ∷ b'y' ∷ b'_' ∷ b'p'
    ∷ b'a' ∷ b'c' ∷ b'k' ∷ b'a' ∷ b'g' ∷ b'e' ∷ b'/' ∷ []

abbrev pub send_welcome_path : Bytes
send_welcome_path =
    b'/' ∷ b's' ∷ b'e' ∷ b'n' ∷ b'd' ∷ b'/' ∷ b'w' ∷ b'e' ∷ b'l' ∷ b'c' ∷ b'o' ∷ b'm' ∷ b'e' ∷ []

abbrev pub recv_path : Bytes
recv_path = b'/' ∷ b'r' ∷ b'e' ∷ b'c' ∷ b'v' ∷ b'/' ∷ []

module _ (C : Codec) {W : Type 0} (http : W → Call → Option Response × W) where
  open C use {KeyPackageIn, AuthToken, MlsMessageIn}

  pub record DsClient : Type 0 where
    pub as_url : Bytes
    pub ds_url : Bytes
    pub auth_token : Option AuthToken
    pub client_id : Option Bytes

  unfoldable pub new_client : Bytes → Bytes → DsClient
  new_client as_url ds_url = record {
    as_url = as_url;
    ds_url = ds_url;
    auth_token = none;
    client_id = none;
  }

  unfoldable pub id_b64 : DsClient → Exec Bytes
  id_b64 c = do id ← expect c.client_id; ret (C.base64_url id)

  unfoldable pub registered_token : DsClient → Exec AuthToken
  registered_token c = expect c.auth_token

  -- A response that is a success, else the error.
  unfoldable pub succeeded : Option Response → Result Response
  succeeded none = err request_failed
  succeeded (some resp) = if is_success resp.status then ok resp else err status_failed

  unfoldable pub register_with_as :
      DsClient → W → (identity public_key : Bytes) → Result (Unit {0}) × W
  unfolding succeeded
  register_with_as c w identity public_key =
      let (resp, w') =
        http w
          (post (c.as_url ++ register_path) (C.register_json identity (C.base64 public_key))) in
      (and_then (succeeded resp) (λ _. ok tt), w')

  unfoldable pub lookup_as : DsClient → W → (identity : Bytes) → Result Bytes × W
  unfolding succeeded
  lookup_as c w identity =
      let (resp, w') = http w (get (c.as_url ++ (lookup_path ++ identity)) []) in
      (
        and_then (succeeded resp) (λ r. and_then (or_err parse_failed r.body) (λ bytes.
            and_then (or_err parse_failed (C.lookup_public_key bytes))
              (λ key. or_err decode_failed (C.base64_decode key)))),
        w',
      )

  unfoldable pub after_register : DsClient → Bytes → Result AuthToken → Result (Unit {0}) × DsClient
  after_register c identity (ok token) =
      (ok tt, record c { auth_token = some token; client_id = some identity })
  after_register c identity (err e) = (err e, c)

  unfoldable pub post_key_packages :
      DsClient → W → Bytes → Option Bytes → Result (Unit {0}) × DsClient × W
  unfolding succeeded after_register
  post_key_packages c w identity none = (err serialize_failed, c, w)
  post_key_packages c w identity (some body) =
      let (resp, w') = http w (post (c.ds_url ++ clients_register_path) body) in
      let (result, c') = after_register c identity (
        and_then (succeeded resp) (λ r.
          and_then (or_err read_failed r.body)
            (λ bytes. or_err parse_failed (C.deserialize_auth_token bytes)))) in
      (result, c', w')

  unfoldable pub register_with_ds :
      DsClient → W → Bytes → List (Bytes × KeyPackageIn) → Result (Unit {0}) × DsClient × W
  unfolding post_key_packages
  register_with_ds c w identity key_packages =
      post_key_packages c w identity (C.serialize_key_packages key_packages)

  -- An empty body is an empty list.
  unfoldable pub or_empty {ℓ} : {A : Type ℓ} → (Bytes → Option (List A)) → Bytes → Result (List A)
  or_empty parse bytes = if length bytes == 0 then ok [] else or_err parse_failed (parse bytes)

  unfoldable pub list_clients : DsClient → W → Result (List Bytes) × W
  unfolding succeeded or_empty
  list_clients c w =
      let (resp, w') = http w (get (c.ds_url ++ clients_list_path) []) in
      (
        and_then (succeeded resp)
            (λ r. and_then (or_err read_failed r.body) (or_empty C.deserialize_clients)),
        w',
      )

  unfoldable pub key_package_of : Option Response → Result (Option Bytes)
  unfolding succeeded
  key_package_of none = err request_failed
  key_package_of (some resp) =
      if resp.status == 204
      then ok none
      else and_then (succeeded (some resp))
          (λ r. and_then (or_err read_failed r.body) (λ bytes. ok (some bytes)))

  unfoldable pub consume_key_package : DsClient → W → Bytes → Result (Option Bytes) × W
  unfolding key_package_of
  consume_key_package c w client_identity =
      let (resp, w') =
        http w (get (c.ds_url ++ (key_package_path ++ C.base64_url client_identity)) []) in
      (key_package_of resp, w')

  unfoldable pub send_welcome : DsClient → W → Bytes → Result (Unit {0}) × W
  unfolding succeeded
  send_welcome c w welcome_bytes =
      let (resp, w') = http w (post (c.ds_url ++ send_welcome_path) welcome_bytes) in
      (and_then (succeeded resp) (λ _. ok tt), w')

  unfoldable pub receive_with : DsClient → W → Option Bytes → Exec (Result (List MlsMessageIn) × W)
  unfolding id_b64 succeeded or_empty
  receive_with c w none = ret (err serialize_failed, w)
  receive_with c w (some req_body) = do
    id ← id_b64 c
    let got = http w (get (c.ds_url ++ (recv_path ++ id)) req_body)
    ret (
      and_then (succeeded got.0)
          (λ r. and_then (or_err read_failed r.body) (or_empty C.deserialize_messages)),
      got.1,
    )

  unfoldable pub recv_messages : DsClient → W → Exec (Result (List MlsMessageIn) × W)
  unfolding registered_token receive_with
  recv_messages c w = do
    token ← registered_token c
    receive_with c w (C.serialize_recv_request token)
