-- ===== src/Demo/Client/Media.antt =====
-- The media of one sender of demo/safecast-client/src/main.rs, from the group's keys to what a receiver
-- displays.
use safe_cast.Base.{
  ℕ, ◌-◌, ◌^◌, ◌≤◌, ◌<◌, ◌≡◌, sym, ap, ◌∙◌, subst, arith, some, List, [], ◌∷◌, Bytes, All, length,
  take, get_or, get_elem?, zero, suc, ret,
}
use safe_cast.Transport.Rtp.{to_bytes}
use safe_cast.Transport.SrtpSession.{SrtpTemplates, SrtpPair}
use safe_cast.Keying.Mls.{OpenMls, ssrc_from_identity, export_srtp_keys}
use safe_cast.Keying.Mls.Agreement.{Exports}
use safe_cast.Demo.Client.{
  Member, all_members, sender_identities, frame, Sessions, receiver_sessions, datagram, send_srtp,
  recv_srtp,
}
use safe_cast.Demo.Client.Sessions.{Keyed, receiver_sessions-Keyed}
use safe_cast.Demo.Client.Frames.{first_times, map}
use safe_cast.Demo.Client.Receive.{recv_srtp-send_srtp}

All-get_elem? :
    (P : Bytes → Type 0) (l : List Bytes) (k : ℕ) (id : Bytes)
    → All P l
    → get_elem? l k ≡ some id
    → P id
All-get_elem? P [] k id h e = absurd (cc)
All-get_elem? P (x ∷ l) zero id h e = subst P (some_inj e) h.0
  where
    some_inj : {a b : Bytes} → some a ≡ some b → a ≡ b
    some_inj e = cc
All-get_elem? P (x ∷ l) (suc k) id h e = All-get_elem? P l k id h.1 e

module _ (M : OpenMls) (S : SrtpTemplates) (P : SrtpPair S) (hash : Bytes → ℕ) where
  ssrc_bound : (id : Bytes) → ssrc_from_identity hash id < 2 ^ 32
  unfolding ssrc_from_identity
  ssrc_bound id = omega arith

  -- A sender of at most 128 frames that fit the receive buffer, and a receiver, stand in one epoch of a
  -- group whose identities parse, and their exports return. Then the receiver gets its
  -- sessions, and whatever the network makes of the datagrams that the sender's `send_srtp` returns under its own
  -- export, dropping, repeating and reordering them, `recv_srtp` returns and displays the frames of
  -- those that arrive, each as it was sent and once, where its first copy arrived, and no more than
  -- it expects.
  pub recv_srtp-receiver_sessions :
      (g h : M.MlsGroup) (lossy : Bytes → Bytes) (members : List Member)
      (parsed : List (Bytes × Bytes)) (k : ℕ) (id label : Bytes) (keys : Bytes × Bytes × Bytes)
      (decimal : ℕ → Bytes) (n expected : ℕ) (datagrams : List Bytes) (arrivals : List ℕ)
      → ((ssrc : ℕ) → Exports M h ssrc)
      → M.SameEpoch g h
      → all_members lossy members ≡ ret parsed
      → get_elem? (sender_identities parsed) k ≡ some id
      → export_srtp_keys M g (ssrc_from_identity hash id) ≡ ret keys
      → n ≤ 128
      → ((i : ℕ) → length (to_bytes (frame decimal label (ssrc_from_identity hash id) i)) ≤ 2032)
      → send_srtp M S hash decimal label (ssrc_from_identity hash id) keys.0 n ≡ ret datagrams
      → All (λ i. (1 ≤ i) × (i ≤ n)) arrivals
      → (sessions : Sessions M S hash) × (receiver_sessions M S hash h (sender_identities parsed) []
          ≡ ret sessions)
        × (recv_srtp M S hash
              (map (λ i. datagram (get_or datagrams (i - 1) [])) arrivals)
              sessions
              expected
            ≡ ret (
                take expected (
                  map
                    (frame decimal label (ssrc_from_identity hash id))
                    (first_times [] arrivals))))
  recv_srtp-receiver_sessions g h lossy members parsed k id label keys decimal n expected datagrams
        arrivals exports epoch members_parsed sender exported few short sends sent =
      let (sessions, made, keyed) =
        receiver_sessions-Keyed M S hash g h lossy members parsed exports
          (M.SameEpoch-exporter_secret g h epoch) members_parsed in
      let mine =
        All-get_elem? (λ id. Keyed M S hash g sessions (ssrc_from_identity hash id))
          (sender_identities parsed) k id keyed sender in
      let same = ret_inj (sym exported ∙ mine.exported) in
      (
        sessions,
        made,
        recv_srtp-send_srtp M S P hash decimal label mine.keys.0 (ssrc_from_identity hash id) n
            expected datagrams arrivals mine.session sessions few (ssrc_bound id) short
            (ap
                (λ (x : Bytes × Bytes × Bytes).
                  send_srtp M S hash decimal label (ssrc_from_identity hash id) x.0 n)
                (sym same)
              ∙ sends)
            mine.made mine.there sent,
      )
    where
      ret_inj : {a b : Bytes × Bytes × Bytes} → ret a ≡ ret b → a ≡ b
      ret_inj e = cc
