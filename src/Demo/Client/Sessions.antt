-- ===== src/Demo/Client/Sessions.antt =====
-- The receiver's sessions in demo/safecast-client/src/main.rs hold the keys of the senders.
use safe_cast.Base.{
  ℕ, ◌≡◌, refl, ap, ◌∙◌, subst, ◌==◌, ==_iff, Bool-cases, inl, inr, some, List, [], ◌∷◌, ◌++◌,
  Bytes, bytes_eq, All, ret, ◌>>=◌, >>=-eq-ret,
}
use safe_cast.Keying.Mls.{OpenMls, parse_credential_identity, ssrc_from_identity, export_srtp_keys}
use safe_cast.Keying.Mls.Agreement.{Exports, export_lem, export_srtp_keys-eq_of_secret}
use safe_cast.Transport.SrtpSession.{SrtpTemplates, create_receiver_session}
use safe_cast.Demo.Client.{
  Member, all_members, sender_role, sender_identities, Sessions, insert, get, receiver_sessions,
}

abbrev IsParsed : Bytes → Type 0
IsParsed id = (parts : Bytes × Bytes) × (parse_credential_identity id ≡ ret parts)

all_members-IsParsed :
    (lossy : Bytes → Bytes) (members : List Member) (parsed : List (Bytes × Bytes))
    → all_members lossy members ≡ ret parsed
    → All (λ (p : Bytes × Bytes). IsParsed p.0) parsed
unfolding all_members
all_members-IsParsed lossy [] parsed e =
    subst (All (λ (p : Bytes × Bytes). IsParsed p.0)) (ret_inj e) tt
  where
    ret_inj : {a b : List (Bytes × Bytes)} → ret a ≡ ret b → a ≡ b
    ret_inj e = cc
all_members-IsParsed lossy (m ∷ members) parsed e =
    let (parts, ok, rest) =
      >>=-eq-ret (parse_credential_identity (lossy m.credential))
        (λ parts.
          all_members lossy members >>= λ later. ret ((lossy m.credential, parts.1) ∷ later))
        e in
    let (later, done, out) =
      >>=-eq-ret (all_members lossy members) (λ later. ret ((lossy m.credential, parts.1) ∷ later))
        rest in
    subst (All (λ (p : Bytes × Bytes). IsParsed p.0)) (ret_inj out)
      ((parts, ok), all_members-IsParsed lossy members later done)
  where
    ret_inj : {a b : List (Bytes × Bytes)} → ret a ≡ ret b → a ≡ b
    ret_inj e = cc

sender_identities-IsParsed :
    (parsed : List (Bytes × Bytes))
    → All (λ (p : Bytes × Bytes). IsParsed p.0) parsed
    → All IsParsed (sender_identities parsed)
unfolding sender_identities
sender_identities-IsParsed [] h = tt
sender_identities-IsParsed ((id, r) ∷ parsed) h = elim (Bool-cases (bytes_eq r sender_role)) [
  | inl e ↦ rw e (h.0, sender_identities-IsParsed parsed h.1)
  | inr e ↦ rw e (sender_identities-IsParsed parsed h.1)
]

module _ (M : OpenMls) (S : SrtpTemplates) (hash : Bytes → ℕ) where
  -- For a stream the session of a receiver, made from what the sender exports for itself.
  pub record Keyed (g : M.MlsGroup) (sessions : Sessions M S hash) (ssrc : ℕ) : Type 0 where
    pub keys : Bytes × Bytes × Bytes
    pub exported : export_srtp_keys M g ssrc ≡ ret keys
    pub session : S.Session
    pub made : create_receiver_session S keys.0 ≡ ret session
    pub there : get M S hash sessions ssrc ≡ some session

  module _ (h : M.MlsGroup) (exports : (ssrc : ℕ) → Exports M h ssrc) where
    made_for :
        (ssrc : ℕ)
        → (s : S.Session) × (create_receiver_session S ((exports ssrc).key ++ (exports ssrc).salt)
            ≡ ret s)
    unfolding create_receiver_session
    made_for ssrc =
        let x = exports ssrc in
        let (s, e) =
          S.inbound_accepts
            (record {
              rtp = S.aes_gcm_128_16_auth;
              rtcp = S.aes_gcm_128_16_auth;
              key = x.key ++ x.salt;
              window_size = 128;
            })
            refl refl (export_lem M h ssrc x).1 in
        (s, rw e refl)

    session_for : ℕ → S.Session
    session_for ssrc = (made_for ssrc).0

    get-insert :
        (sessions : Sessions M S hash) (ssrc k : ℕ)
        → get M S hash sessions k ≡ some (session_for k)
        → get M S hash (insert M S hash sessions ssrc (session_for ssrc)) k ≡ some (session_for k)
    unfolding get
    get-insert sessions ssrc k e = elim (Bool-cases (ssrc == k)) [
      | inl same ↦ rw same (ap (λ s. some (session_for s)) ((==_iff ssrc k).0 same))
      | inr other ↦ rw other e
    ]

    get-insert_self :
        (sessions : Sessions M S hash) (ssrc : ℕ)
        → get M S hash (insert M S hash sessions ssrc (session_for ssrc)) ssrc
          ≡ some (session_for ssrc)
    unfolding get
    get-insert_self sessions ssrc = rw ((==_iff ssrc ssrc).1 refl) refl

    receiver_sessions-loop :
        (senders : List Bytes) (sessions : Sessions M S hash)
        → All IsParsed senders
        → (out : Sessions M S hash) × (receiver_sessions M S hash h senders sessions ≡ ret out)
          × ((k : ℕ)
              → get M S hash sessions k ≡ some (session_for k)
              → get M S hash out k ≡ some (session_for k))
          × All
              (λ id.
                get M S hash out (ssrc_from_identity hash id)
                ≡ some (session_for (ssrc_from_identity hash id)))
              senders
    unfolding receiver_sessions session_for
    receiver_sessions-loop [] sessions ok = (sessions, refl, (λ k e. e), tt)
    receiver_sessions-loop (id ∷ senders) sessions ok =
        let ssrc = ssrc_from_identity hash id in
        let (keys, size, split, seed) = export_lem M h ssrc (exports ssrc) in
        let (out, done, kept, all) =
          receiver_sessions-loop senders (insert M S hash sessions ssrc (session_for ssrc)) ok.1 in
        (
          out,
          rw (keys, ok.0.1, (made_for ssrc).1) done,
          (λ k e. kept k (get-insert sessions ssrc k e)),
          (kept ssrc (get-insert_self sessions ssrc), all),
        )

  -- If the identities of the group's members parse, the receiver's exports return and the sender's
  -- group has the receiver's exporter secret, then the receiver gets a session for each member whose
  -- role is "sender": under that member's SSRC it finds the session made from the key material that
  -- the member exports for itself, also where two SSRCs collide.
  pub receiver_sessions-Keyed :
      (g h : M.MlsGroup) (lossy : Bytes → Bytes) (members : List Member)
      (parsed : List (Bytes × Bytes))
      → ((ssrc : ℕ) → Exports M h ssrc)
      → M.exporter_secret g ≡ M.exporter_secret h
      → all_members lossy members ≡ ret parsed
      → (sessions : Sessions M S hash) × (receiver_sessions M S hash h (sender_identities parsed) []
          ≡ ret sessions)
        × All (λ id. Keyed g sessions (ssrc_from_identity hash id)) (sender_identities parsed)
  unfolding session_for made_for
  receiver_sessions-Keyed g h lossy members parsed exports secret e =
      let senders = sender_identities parsed in
      let (out, done, kept, all) =
        receiver_sessions-loop h exports senders []
          (sender_identities-IsParsed parsed (all_members-IsParsed lossy members parsed e)) in
      (out, done, keyed senders out all)
    where
      keyed :
          (senders : List Bytes) (out : Sessions M S hash)
          → All
              (λ id.
                get M S hash out (ssrc_from_identity hash id)
                ≡ some (session_for h exports (ssrc_from_identity hash id)))
              senders
          → All (λ id. Keyed g out (ssrc_from_identity hash id)) senders
      keyed [] out all = tt
      keyed (id ∷ senders) out all =
          let ssrc = ssrc_from_identity hash id in
          let x = exports ssrc in
          (
            record {
              keys = (x.key ++ x.salt, x.key, x.salt);
              exported =
                  export_srtp_keys-eq_of_secret M g h ssrc secret ∙ (export_lem M h ssrc x).0;
              session = (made_for h exports ssrc).0;
              made = (made_for h exports ssrc).1;
              there = all.0;
            },
            keyed senders out all.1,
          )
