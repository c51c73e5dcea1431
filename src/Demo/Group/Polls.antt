-- ===== src/Demo/Group/Polls.antt =====
-- The polling loops of `create_group` and `join_group` of demo/safecast-client/src/main.rs.
use safe_cast.Base.{
  ℕ, zero, suc, ◌≤◌, ◌≡◌, refl, ap, true, false, Bool-cases, inl, inr, Option, none, some, List, [],
  ◌∷◌, Bytes, leb, arith, Option-cases, length, Exec, ret, panic,
}
use safe_cast.Keying.Mls.{parse_credential_identity}
use safe_cast.Demo.DsClient.{Call, Response, Codec, DsClient, list_clients, consume_key_package}
use safe_cast.Demo.Group.{
  GroupSetup, Polled, done, panicked, waiting, and_then, from_exec, expect_result, peers_of,
  discover_peers, fetch_key_package, check_key_package, fetch_peer, fetch_peers, set_up,
  create_group,
}

pub and_then-eq-done :
    {A B : Type 0} (m : Polled A) (f : A → Polled B) {b : B}
    → and_then m f ≡ done b
    → (a : A) × (m ≡ done a) × (f a ≡ done b)
and_then-eq-done (done a) f e = (a, refl, e)
and_then-eq-done panicked f e = cc
and_then-eq-done waiting f e = cc

pub from_exec-eq-done : {A : Type 0} (m : Exec A) {a : A} → from_exec m ≡ done a → m ≡ ret a
from_exec-eq-done (ret a') e = ap ret (cc)
from_exec-eq-done panic e = cc

module _ (C : Codec) (K : GroupSetup C) {W : Type 0} (http : W → Call → Option Response × W)
    (from_utf8_lossy : Bytes → Bytes) (c : DsClient C http) where
  discover_peers-more :
      (n m : ℕ) (w : W) (identity : Bytes) (expected : ℕ) (got : List Bytes × W)
      → n ≤ m
      → discover_peers C K http from_utf8_lossy c n w identity expected ≡ done got
      → discover_peers C K http from_utf8_lossy c m w identity expected ≡ done got
  unfolding discover_peers
  discover_peers-more zero m w identity expected got le e = absurd (cc)
  discover_peers-more (suc n) zero w identity expected got le e = absurd (omega arith)
  discover_peers-more (suc n) (suc m) w identity expected got le e =
      let w' = (list_clients C http c w).1 in
      let (clients, listed, rest) =
        and_then-eq-done (from_exec (expect_result (list_clients C http c w).0))
          (λ clients.
            elim (leb expected (length (peers_of C K http from_utf8_lossy c identity clients))) [
              | true ↦ done (peers_of C K http from_utf8_lossy c identity clients, w')
              | false ↦ discover_peers C K http from_utf8_lossy c n w' identity expected
            ])
          e in
      elim (Bool-cases
        (leb expected (length (peers_of C K http from_utf8_lossy c identity clients)))) [
          | inl enough ↦ rw (listed, discover_peers) (rw (enough, and_then) (rw enough at rest))
          | inr few ↦
              rw (listed, discover_peers)
                (rw (few, and_then)
                  (discover_peers-more n m w' identity expected got (omega arith) (rw few at rest)))
        ]

  fetch_key_package-more :
      (n m : ℕ) (w : W) (peer_id : Bytes) (got : Bytes × W)
      → n ≤ m
      → fetch_key_package C K http from_utf8_lossy c n w peer_id ≡ done got
      → fetch_key_package C K http from_utf8_lossy c m w peer_id ≡ done got
  unfolding fetch_key_package
  fetch_key_package-more zero m w peer_id got le e = absurd (cc)
  fetch_key_package-more (suc n) zero w peer_id got le e = absurd (omega arith)
  fetch_key_package-more (suc n) (suc m) w peer_id got le e =
      let w' = (consume_key_package C http c w peer_id).1 in
      let (kp, answered, rest) =
        and_then-eq-done (from_exec (expect_result (consume_key_package C http c w peer_id).0))
          (λ kp. elim kp [
            | some bytes ↦ done (bytes, w')
            | none ↦ fetch_key_package C K http from_utf8_lossy c n w' peer_id
          ])
          e in
      rw (answered, fetch_key_package)
        (elim (Option-cases kp) [
          | inl pending ↦
              rw (pending, fetch_key_package)
                (fetch_key_package-more n m w' peer_id got (omega arith) (rw pending at rest))
          | inr (bytes, ready) ↦ rw (ready, fetch_key_package) (rw ready at rest)
        ])

  fetch_peer-more :
      (n m : ℕ) (w : W) (peer_id : Bytes) (got : K.KeyPackage × W)
      → n ≤ m
      → fetch_peer C K http from_utf8_lossy c n w peer_id ≡ done got
      → fetch_peer C K http from_utf8_lossy c m w peer_id ≡ done got
  unfolding fetch_peer
  fetch_peer-more n m w peer_id got le e =
      let check = λ (fetched : Bytes × W).
        from_exec (check_key_package C K http from_utf8_lossy c fetched.1 peer_id fetched.0) in
      let fetch = fetch_key_package C K http from_utf8_lossy c n w peer_id in
      let (parts, parsed, e₁) =
        and_then-eq-done (from_exec (parse_credential_identity peer_id)) (λ _. and_then fetch check)
          e in
      let (fetched, ready, e₂) = and_then-eq-done fetch check e₁ in
      rw parsed (rw (fetch_key_package-more n m w peer_id fetched le ready) e₂)

  fetch_peers-more :
      (n m : ℕ) (w : W) (peers : List Bytes) (got : List K.KeyPackage × W)
      → n ≤ m
      → fetch_peers C K http from_utf8_lossy c n w peers ≡ done got
      → fetch_peers C K http from_utf8_lossy c m w peers ≡ done got
  unfolding fetch_peers
  fetch_peers-more n m w [] got le e = e
  fetch_peers-more n m w (peer_id ∷ peers) got le e =
      let rest = λ (first : K.KeyPackage × W).
        and_then (fetch_peers C K http from_utf8_lossy c n first.1 peers)
          (λ later. done (first.0 ∷ later.0, later.1)) in
      let (first, one, e₁) =
        and_then-eq-done (fetch_peer C K http from_utf8_lossy c n w peer_id) rest e in
      let (later, others, e₂) =
        and_then-eq-done (fetch_peers C K http from_utf8_lossy c n first.1 peers)
          (λ later. done (first.0 ∷ later.0, later.1)) e₁ in
      rw (fetch_peer-more n m w peer_id first le one)
        (rw (fetch_peers-more n m first.1 peers later le others) e₂)

  -- More polls than a run needs change nothing.
  pub create_group-more :
      (n m : ℕ) (w : W) (identity : Bytes) (expected : ℕ) (got : K.MlsGroup × W)
      → n ≤ m
      → create_group C K http from_utf8_lossy c n w identity expected ≡ done got
      → create_group C K http from_utf8_lossy c m w identity expected ≡ done got
  unfolding create_group
  create_group-more n m w identity expected got le e =
      let make = λ (fetched : List K.KeyPackage × W).
        from_exec (set_up C K http from_utf8_lossy c fetched.1 fetched.0) in
      let gather = λ (found : List Bytes × W).
        and_then (fetch_peers C K http from_utf8_lossy c n found.1 found.0) make in
      let (found, discovered, e₁) =
        and_then-eq-done (discover_peers C K http from_utf8_lossy c n w identity expected) gather
          e in
      let (fetched, ready, e₂) =
        and_then-eq-done (fetch_peers C K http from_utf8_lossy c n found.1 found.0) make e₁ in
      rw (discover_peers-more n m w identity expected found le discovered)
        (rw (fetch_peers-more n m found.1 found.0 fetched le ready) e₂)
