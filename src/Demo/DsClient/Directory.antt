-- ===== src/Demo/DsClient/Directory.antt =====
-- The client of demo/safecast-client and the service of demo/auth-service together.
use safe_cast.Base.{
  ◌≡◌, refl, Bool, true, false, Bool-cases, inl, inr, Option, none, some, List, [], ◌++◌, Bytes,
  All, bytes_eq_refl, Exec, ret, panic,
}
use safe_cast.Demo.AuthService.{
  Credentials, is_some, insert, AsData, RegisterRequest, LookupResponse, HttpResponse, registered,
  conflict, found, not_found, logged_prefix, register_new, register, lookup_response, lookup,
  Request, post_register, get_lookup, handle, serve,
}
use safe_cast.Demo.AuthService as As
use safe_cast.Demo.AuthService.FirstCome.{IsLogged, serve_logged}
use safe_cast.Demo.AuthService.Poisoned.{serve-keeps_key}
use safe_cast.Demo.DsClient.{
  Call, get, post, Response, Result, ok, err, status_failed, and_then, Codec, is_success,
  register_path, lookup_path, DsClient, succeeded, register_with_as, lookup_as,
}

-- What a handler's answer becomes on the network; a panic drops the connection.
abbrev pub Answers : Codec → Exec HttpResponse → Option Response → Type 0
Answers C panic resp = resp ≡ none
Answers C (ret registered) resp =
    (body : Option Bytes) × (resp ≡ some (record { status = 200; body = body }))
Answers C (ret conflict) resp =
    (body : Option Bytes) × (resp ≡ some (record { status = 409; body = body }))
Answers C (ret not_found) resp =
    (body : Option Bytes) × (resp ≡ some (record { status = 404; body = body }))
Answers C (ret (found l)) resp =
    (bytes : Bytes) × (resp ≡ some (record { status = 200; body = some bytes }))
    × (C.lookup_public_key bytes ≡ some l.public_key)

module _ (C : Codec) {W : Type 0} (http : W → Call → Option Response × W) where
  -- The network carries the two routes of the service, whose data is `state`. `IsSegment` holds of the
  -- identities that arrive as they are in a path.
  pub record Routes (as_url : Bytes) : Type 1 where
    pub state : W → AsData
    pub IsSegment : Bytes → Type 0
    pub on_register :
        (w : W) (identity key : Bytes)
        → let call = post (as_url ++ register_path) (C.register_json identity key) in
          let answer =
            handle (state w) (post_register (record { identity = identity; public_key = key })) in
          (state (http w call).1 ≡ answer.1) × Answers C answer.0 (http w call).0
    pub on_lookup :
        (w : W) (identity : Bytes)
        → IsSegment identity
        → Answers C
            (handle (state w) (get_lookup identity)).0
            (http w (get (as_url ++ (lookup_path ++ identity)) [])).0

  succeeds : Option Response → Bool
  unfolding is_success
  succeeds none = false
  succeeds (some resp) = is_success resp.status

  register_with_as-succeeds :
      (resp : Option Response)
      → ◌≡◌ {A = Result (Unit {0})} (and_then (succeeded C http resp) (λ _. ok tt)) (ok tt)
      → succeeds resp ≡ true
  unfolding succeeds succeeded
  register_with_as-succeeds none e = absurd (cc)
  register_with_as-succeeds (some resp) e = elim (Bool-cases (is_success resp.status)) [
    | inl good ↦ good
    | inr bad ↦ absurd (no_success (rw bad at e))
  ]
    where
      no_success : ◌≡◌ {A = Result (Unit {0})} (err status_failed) (ok tt) → ⊥
      no_success e = cc

  -- A registration whose answer is a success has put the key there.
  register_succeeds :
      (d : AsData) (body : RegisterRequest) (resp : Option Response)
      → Answers C (handle d (post_register body)).0 resp
      → succeeds resp ≡ true
      → ((handle d (post_register body)).1.poisoned ≡ false)
        × (As.get (handle d (post_register body)).1.credentials body.identity
            ≡ some body.public_key)
  unfolding handle register register_new succeeds is_success As.get insert
  register_succeeds d body resp answers good = elim (Bool-cases d.poisoned) [
    | inl p ↦ let lost : resp ≡ none = rw p at answers in absurd (failed resp lost good)
    | inr p ↦ elim (Bool-cases (is_some (As.get d.credentials body.identity))) [
      | inl e ↦ absurd (refused resp (rw (p, e) at answers) good)
      | inr e ↦ elim (Bool-cases (logged_prefix body.public_key)) [
        | inl c ↦ rw (p, e, c) (refl, rw (bytes_eq_refl body.identity) refl)
        | inr c ↦ absurd (failed resp (rw (p, e, c) at answers) good)
      ]
    ]
  ]
    where
      failed : (resp : Option Response) → resp ≡ none → succeeds resp ≡ true → ⊥
      failed resp e good = let bad : succeeds resp ≡ false = rw e refl in absurd (cc)

      refused :
          (resp : Option Response)
          → (body : Option Bytes) × (resp ≡ some (record { status = 409; body = body }))
          → succeeds resp ≡ true
          → ⊥
      refused resp h good = let bad : succeeds resp ≡ false = rw h.1 refl in absurd (cc)

  looked_up :
      (c : DsClient C http) (R : Routes c.as_url) (w : W) (identity key : Bytes)
      → R.IsSegment identity
      → (R.state w).poisoned ≡ false
      → As.get (R.state w).credentials identity ≡ some (C.base64 key)
      → (lookup_as C http c w identity).0 ≡ ok key
  unfolding lookup_as handle lookup lookup_response succeeded is_success
  looked_up c R w identity key segment unlocked there =
      let answers = R.on_lookup w identity segment in
      let (bytes, e, parsed) = rw (unlocked, there) at answers in
      rw e (rw parsed (rw (C.base64_decode-base64 key) refl))

  -- If `register_with_as` returns `Ok` for an identity and a key, then whatever requests of loggable keys the service
  -- handles after that, `lookup_as` for the identity returns the key.
  pub lookup_as-register_with_as :
      (c : DsClient C http) (R : Routes c.as_url) (w w' : W) (identity key : Bytes)
      (requests : List Request)
      → R.IsSegment identity
      → (register_with_as C http c w identity key).0 ≡ ok tt
      → All IsLogged requests
      → R.state w' ≡ (serve (R.state (register_with_as C http c w identity key).1) requests).1
      → (lookup_as C http c w' identity).0 ≡ ok key
  unfolding register_with_as
  lookup_as-register_with_as c R w w' identity key requests segment good logged later =
      let body : RegisterRequest = record { identity = identity; public_key = C.base64 key } in
      let route = R.on_register w identity (C.base64 key) in
      let call = post (c.as_url ++ register_path) (C.register_json identity (C.base64 key)) in
      let (unlocked, there) =
        register_succeeds (R.state w) body (http w call).0 route.1
          (register_with_as-succeeds (http w call).0 good) in
      let d' = R.state (http w call).1 in
      let unlocked' : d'.poisoned ≡ false = rw route.0 unlocked in
      let there' : As.get d'.credentials identity ≡ some (C.base64 key) = rw route.0 there in
      looked_up c R w' identity key segment
        (rw later (serve_logged d' requests identity unlocked' logged).0)
        (rw later (serve-keeps_key d' requests identity (C.base64 key) there'))
