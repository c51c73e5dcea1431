-- ===== src/Demo/Group/Vouched.antt =====
-- Whom `create_group` of demo/safecast-client/src/main.rs adds to the group.
use safe_cast.Base.{
  ℕ, zero, suc, ◌+◌, ◌≤◌, arith, ◌≡◌, ◌≢◌, refl, ap, ◌∙◌, subst, Bool, true, false, Bool-cases, inl,
  inr, Option, some, List, [], ◌∷◌, Bytes, bytes_eq, bytes_eq→eq, bytes_eq_refl, All, leb, leb→le,
  length, ret, expect, assert, ◌>>=◌, expect-eq-ret, >>=-eq-ret,
}
use safe_cast.Keying.Mls.{parse_credential_identity}
use safe_cast.Demo.DsClient.{
  Call, Response, Result, ok, err, Codec, DsClient, list_clients, lookup_as, send_welcome,
}
use safe_cast.Demo.Group.{
  GroupSetup, Polled, done, and_then, from_exec, expect_result, peers_of, discover_peers,
  fetch_key_package, check_key_package, fetch_peer, fetch_peers, set_up, create_group,
}
use safe_cast.Demo.Group.Polls.{and_then-eq-done, from_exec-eq-done, create_group-more}

pub expect_result-eq-ret : {A : Type 0} (r : Result A) {a : A} → expect_result r ≡ ret a → r ≡ ok a
expect_result-eq-ret (ok a') e = ap ok (cc)
expect_result-eq-ret (err f) e = cc

assert-eq-ret : (b : Bool) {u : Unit {0}} → assert b ≡ ret u → b ≡ true
assert-eq-ret true e = refl
assert-eq-ret false e = cc

module _ (C : Codec) (K : GroupSetup C) {W : Type 0} (http : W → Call → Option Response × W)
    (from_utf8_lossy : Bytes → Bytes) (c : DsClient C http) where
  -- A peer at the network `w`, which its calls take to `w'`: it has a label and a role; its key package is
  -- read and validated from what the delivery service gave out for it; and the authentication service,
  -- asked right after, answered with the very key of that key package.
  pub record IsVouched (fuel : ℕ) (w : W) (peer : Bytes) (kp : K.KeyPackage) (w' : W) : Type 0 where
    pub parts : Bytes × Bytes
    pub parsed : parse_credential_identity peer ≡ ret parts
    pub bytes : Bytes
    pub v : W
    pub fetched : fetch_key_package C K http from_utf8_lossy c fuel w peer ≡ done (bytes, v)
    pub kp_in : C.KeyPackageIn
    pub read : K.deserialize_key_package bytes ≡ some kp_in
    pub valid : K.validate kp_in ≡ some kp
    pub vouched : lookup_as C http c v peer ≡ (ok (K.signature_key kp), w')

  -- The peers one after the other, each at the network that the one before left.
  abbrev pub Vouched : (fuel : ℕ) → W → List Bytes → List K.KeyPackage → W → Type 0
  Vouched fuel w [] [] w' = w' ≡ w
  Vouched fuel w [] (kp ∷ kps) w' = ⊥
  Vouched fuel w (p ∷ peers) [] w' = ⊥
  Vouched fuel w (p ∷ peers) (kp ∷ kps) w' =
      (v : W) × IsVouched fuel w p kp v × Vouched fuel v peers kps w'

  peers_of-others :
      (identity : Bytes) (clients : List Bytes)
      → All (λ p. p ≢ identity) (peers_of C K http from_utf8_lossy c identity clients)
  unfolding peers_of
  peers_of-others identity [] = tt
  peers_of-others identity (id ∷ clients) =
      elim (Bool-cases (bytes_eq (from_utf8_lossy id) identity)) [
        | inl e ↦ rw e (peers_of-others identity clients)
        | inr e ↦ rw e (differ (from_utf8_lossy id) identity e, peers_of-others identity clients)
      ]
    where
      differ : (a b : Bytes) → bytes_eq a b ≡ false → a ≢ b
      differ a b e h = let t : bytes_eq a b ≡ true = rw h (bytes_eq_refl b) in cc

  discover_peers-enough :
      (fuel : ℕ) (w w' : W) (identity : Bytes) (expected : ℕ) (peers : List Bytes)
      → discover_peers C K http from_utf8_lossy c fuel w identity expected ≡ done (peers, w')
      → (expected ≤ length peers) × All (λ p. p ≢ identity) peers
  unfolding discover_peers
  discover_peers-enough zero w w' identity expected peers e = absurd (cc)
  discover_peers-enough (suc fuel) w w' identity expected peers e =
      let (clients, listed, rest) =
        and_then-eq-done (from_exec (expect_result (list_clients C http c w).0))
          (λ clients.
            elim (leb expected (length (peers_of C K http from_utf8_lossy c identity clients))) [
              | true ↦ done (
                peers_of C K http from_utf8_lossy c identity clients,
                (list_clients C http c w).1,
              )
              | false ↦
                  discover_peers C K http from_utf8_lossy c fuel (list_clients C http c w).1
                    identity expected
            ])
          e in
      elim (Bool-cases
        (leb expected (length (peers_of C K http from_utf8_lossy c identity clients)))) [
          | inl enough ↦
              let found : peers_of C K http from_utf8_lossy c identity clients ≡ peers =
                done_inj (rw enough at rest) in
              subst (λ l. (expected ≤ length l) × All (λ p. p ≢ identity) l) found
                (
                  leb→le expected (length (peers_of C K http from_utf8_lossy c identity clients))
                      enough,
                  peers_of-others identity clients,
                )
          | inr few ↦
              discover_peers-enough fuel (list_clients C http c w).1 w' identity expected peers
                (rw few at rest)
        ]
    where
      done_inj :
          {a b : List Bytes} {v v' : W}
          → ◌≡◌ {A = Polled (List Bytes × W)} (done (a, v)) (done (b, v'))
          → a ≡ b
      done_inj e = cc

  check_key_package-IsVouched :
      (fuel : ℕ) (w v : W) (peer_id kp_bytes : Bytes) (parts : Bytes × Bytes)
      (got : K.KeyPackage × W)
      → parse_credential_identity peer_id ≡ ret parts
      → fetch_key_package C K http from_utf8_lossy c fuel w peer_id ≡ done (kp_bytes, v)
      → check_key_package C K http from_utf8_lossy c v peer_id kp_bytes ≡ ret got
      → IsVouched fuel w peer_id got.0 got.1
  unfolding check_key_package
  check_key_package-IsVouched fuel w v peer_id kp_bytes parts got parsed fetched e =
      let answer = lookup_as C http c v peer_id in
      let out = λ (kp_ref : K.KeyPackage) (_ : Unit {0}). ret (kp_ref, answer.1) in
      let compare = λ (pk : Bytes) (kp_ref : K.KeyPackage).
        assert (bytes_eq pk (K.signature_key kp_ref)) >>= out kp_ref in
      let (kp_in, read, e₁) =
        >>=-eq-ret (expect (K.deserialize_key_package kp_bytes))
          (λ kp_in. expect_result answer.0 >>= λ pk. expect (K.validate kp_in) >>= compare pk) e in
      let (pk, found, e₂) =
        >>=-eq-ret (expect_result answer.0) (λ pk. expect (K.validate kp_in) >>= compare pk) e₁ in
      let (kp_ref, valid, e₃) = >>=-eq-ret (expect (K.validate kp_in)) (compare pk) e₂ in
      let (u, equal, e₄) =
        >>=-eq-ret (assert (bytes_eq pk (K.signature_key kp_ref))) (out kp_ref) e₃ in
      let same : ◌≡◌ {A = K.KeyPackage × W} (kp_ref, answer.1) got = cc in
      let key : answer.0 ≡ ok (K.signature_key kp_ref) =
        expect_result-eq-ret answer.0 found
        ∙ ap ok (
            bytes_eq→eq pk (K.signature_key kp_ref)
              (assert-eq-ret (bytes_eq pk (K.signature_key kp_ref)) equal)) in
      subst (λ (x : K.KeyPackage × W). IsVouched fuel w peer_id x.0 x.1) same
        (record {
          parts = parts;
          parsed = parsed;
          bytes = kp_bytes;
          v = v;
          fetched = fetched;
          kp_in = kp_in;
          read = expect-eq-ret _ read;
          valid = expect-eq-ret _ valid;
          vouched = λ j. (key j, answer.1);
        })

  fetch_peer-IsVouched :
      (fuel : ℕ) (w : W) (peer_id : Bytes) (got : K.KeyPackage × W)
      → fetch_peer C K http from_utf8_lossy c fuel w peer_id ≡ done got
      → IsVouched fuel w peer_id got.0 got.1
  unfolding fetch_peer
  fetch_peer-IsVouched fuel w peer_id got e =
      let check = λ (fetched : Bytes × W).
        from_exec (check_key_package C K http from_utf8_lossy c fetched.1 peer_id fetched.0) in
      let fetch = fetch_key_package C K http from_utf8_lossy c fuel w peer_id in
      let (parts, parsed, e₁) =
        and_then-eq-done (from_exec (parse_credential_identity peer_id)) (λ _. and_then fetch check)
          e in
      let (fetched, ready, e₂) = and_then-eq-done fetch check e₁ in
      check_key_package-IsVouched fuel w fetched.1 peer_id fetched.0 parts got
        (from_exec-eq-done (parse_credential_identity peer_id) parsed) ready
        (from_exec-eq-done
          (check_key_package C K http from_utf8_lossy c fetched.1 peer_id fetched.0) e₂)

  fetch_peers-Vouched :
      (fuel : ℕ) (w : W) (peers : List Bytes) (got : List K.KeyPackage × W)
      → fetch_peers C K http from_utf8_lossy c fuel w peers ≡ done got
      → Vouched fuel w peers got.0 got.1
  unfolding fetch_peers
  fetch_peers-Vouched fuel w [] got e =
      let same : ◌≡◌ {A = List K.KeyPackage × W} ([], w) got = cc in
      subst (λ (x : List K.KeyPackage × W). Vouched fuel w [] x.0 x.1) same refl
  fetch_peers-Vouched fuel w (peer_id ∷ peers) got e =
      let rest = λ (first : K.KeyPackage × W).
        and_then (fetch_peers C K http from_utf8_lossy c fuel first.1 peers)
          (λ later. done (first.0 ∷ later.0, later.1)) in
      let (first, one, e₁) =
        and_then-eq-done (fetch_peer C K http from_utf8_lossy c fuel w peer_id) rest e in
      let (later, others, e₂) =
        and_then-eq-done (fetch_peers C K http from_utf8_lossy c fuel first.1 peers)
          (λ later. done (first.0 ∷ later.0, later.1)) e₁ in
      let same : ◌≡◌ {A = List K.KeyPackage × W} (first.0 ∷ later.0, later.1) got = cc in
      subst (λ (x : List K.KeyPackage × W). Vouched fuel w (peer_id ∷ peers) x.0 x.1) same
        (
          first.1,
          fetch_peer-IsVouched fuel w peer_id first one,
          fetch_peers-Vouched fuel first.1 peers later others,
        )

  -- The calls of openmls that make the group.
  pub record MadeWith (kps : List K.KeyPackage) (group : K.MlsGroup) : Type 0 where
    pub fresh : K.MlsGroup
    pub created : K.new_group ≡ some fresh
    pub welcome : K.Welcome
    pub pending : K.MlsGroup
    pub added : K.add_members fresh kps ≡ some (welcome, pending)
    pub merged : K.merge_pending_commit pending ≡ some group

  set_up-MadeWith :
      (w : W) (kps : List K.KeyPackage) (got : K.MlsGroup × W)
      → set_up C K http from_utf8_lossy c w kps ≡ ret got
      → MadeWith kps got.0
  unfolding set_up
  set_up-MadeWith w kps got e =
      let send = λ (group : K.MlsGroup) (bytes : Bytes).
        expect_result (send_welcome C http c w bytes).0 >>= λ _.
        ret (group, (send_welcome C http c w bytes).1) in
      let deliver = λ (added : K.Welcome × K.MlsGroup) (group : K.MlsGroup).
        expect (K.serialize_welcome added.0) >>= send group in
      let merge = λ (added : K.Welcome × K.MlsGroup).
        expect (K.merge_pending_commit added.1) >>= deliver added in
      let (fresh, created, e₁) =
        >>=-eq-ret (expect K.new_group) (λ g. expect (K.add_members g kps) >>= merge) e in
      let (added, adding, e₂) = >>=-eq-ret (expect (K.add_members fresh kps)) merge e₁ in
      let (group, merged, e₃) =
        >>=-eq-ret (expect (K.merge_pending_commit added.1)) (deliver added) e₂ in
      let (bytes, written, e₄) =
        >>=-eq-ret (expect (K.serialize_welcome added.0)) (send group) e₃ in
      let (u, sent, e₅) =
        >>=-eq-ret (expect_result (send_welcome C http c w bytes).0)
          (λ _. ret (group, (send_welcome C http c w bytes).1)) e₄ in
      let same : ◌≡◌ {A = K.MlsGroup × W} (group, (send_welcome C http c w bytes).1) got = cc in
      record {
        fresh = fresh;
        created = expect-eq-ret K.new_group created;
        welcome = added.0;
        pending = added.1;
        added = expect-eq-ret (K.add_members fresh kps) adding;
        merged = expect-eq-ret (K.merge_pending_commit added.1) merged ∙ ap (λ x. some x.0) same;
      }

  -- When `create_group` returns, then in this run: the polls of the client list ended with a list of
  -- peers, at least as many as expected, none of them oneself. From the network that they left, each
  -- peer in turn had a label and a role, its key package came from the delivery service, and the authentication
  -- service, asked for the peer at that point, answered with the signature key of the key package. The group is a fresh
  -- one to which these key packages were added in one commit that was merged. A larger bound on the polls
  -- changes nothing.
  pub create_group-Vouched :
      (fuel : ℕ) (w : W) (identity : Bytes) (expected : ℕ) (got : K.MlsGroup × W)
      → create_group C K http from_utf8_lossy c fuel w identity expected ≡ done got
      → (peers : List Bytes) × (kps : List K.KeyPackage) × (w₁ : W) × (w₂ : W) × (discover_peers C K
            http from_utf8_lossy c fuel w identity expected
          ≡ done (peers, w₁))
        × (expected ≤ length peers)
        × All (λ p. p ≢ identity) peers
        × Vouched fuel w₁ peers kps w₂
        × MadeWith kps got.0
        × ((more : ℕ)
            → create_group C K http from_utf8_lossy c (fuel + more) w identity expected ≡ done got)
  unfolding create_group
  create_group-Vouched fuel w identity expected got e =
      let make = λ (fetched : List K.KeyPackage × W).
        from_exec (set_up C K http from_utf8_lossy c fetched.1 fetched.0) in
      let gather = λ (found : List Bytes × W).
        and_then (fetch_peers C K http from_utf8_lossy c fuel found.1 found.0) make in
      let (found, discovered, e₁) =
        and_then-eq-done (discover_peers C K http from_utf8_lossy c fuel w identity expected) gather
          e in
      let (fetched, ready, e₂) =
        and_then-eq-done (fetch_peers C K http from_utf8_lossy c fuel found.1 found.0) make e₁ in
      let enough = discover_peers-enough fuel w found.1 identity expected found.0 discovered in
      (
        found.0,
        fetched.0,
        found.1,
        fetched.1,
        discovered,
        enough.0,
        enough.1,
        fetch_peers-Vouched fuel found.1 found.0 fetched ready,
        set_up-MadeWith fetched.1 fetched.0 got
            (from_exec-eq-done (set_up C K http from_utf8_lossy c fetched.1 fetched.0) e₂),
        λ more.
            create_group-more C K http from_utf8_lossy c fuel (fuel + more) w identity expected got
              (omega arith) e,
      )
