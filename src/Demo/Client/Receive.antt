-- ===== src/Demo/Client/Receive.antt =====
-- What `recv_srtp` of demo/safecast-client/src/main.rs displays of what `send_srtp` sends.
use safe_cast.Base.{
  mem, ℕ, suc, ◌+◌, ◌-◌, ◌^◌, ◌≤◌, ◌<◌, ◌≡◌, sym, ap, ap₂, ◌∙◌, subst, arith, ◌==◌, ltb, ◌||◌, Bool,
  true, false, Bool-cases, inl, inr, none, some, List, [], ◌∷◌, Bytes, All, length, take, get_or,
  ret, >>=-eq-ret,
}
use safe_cast.Transport.Rtp.{to_bytes}
use safe_cast.Transport.SrtpSession.{
  SrtpTemplates, SrtpPair, create_sender_session, create_receiver_session,
}
use safe_cast.Keying.Mls.{OpenMls}
use safe_cast.Demo.Client.{
  frame, Sessions, insert, get, send_rounds, send_srtp, datagram, after_unprotect, receive,
  recv_loop, recv_srtp,
}
use safe_cast.Demo.Client.Frames.{
  first_times, map, mem-above, take-none, frame-IsValid, frame-sequence_number, send_rounds-Seals,
  receive_sealed, after_opened, get-insert_self, loop_empty, loop_full, loop_skip, loop_next,
}

module _ (M : OpenMls) (S : SrtpTemplates) (P : SrtpPair S) (hash : Bytes → ℕ) where
  module _ (decimal : ℕ → Bytes) (label key : Bytes) (ssrc : ℕ) (at : ℕ → Bytes) (n : ℕ)
      (few : n ≤ 128) (ssrc_u32 : ssrc < 2 ^ 32)
      (short : (i : ℕ) → length (to_bytes (frame decimal label ssrc i)) ≤ 2032)
      (sealed : (i : ℕ) → 1 ≤ i → i ≤ n → P.Seals key (frame decimal label ssrc i) (at i)) where
    -- The receiver's session has opened the frames `done` and no others.
    record Opened (done : List ℕ) (sessions : Sessions M S hash) : Type 0 where
      session : S.Session
      there : get M S hash sessions ssrc ≡ some session
      keyed : P.Receives key session
      seen : (k : ℕ) → P.seen session k ≡ mem k done
      window : All (λ i. i ≤ 128) done

    receive_again :
        (done : List ℕ) (sessions : Sessions M S hash) (i : ℕ)
        → Opened done sessions
        → 1 ≤ i
        → i ≤ n
        → mem i done ≡ true
        → (sessions' : Sessions M S hash) × (receive M S hash sessions (at i)
            ≡ ret (none, sessions'))
          × Opened done sessions'
    unfolding after_unprotect frame
    receive_again done sessions i o low high again =
        let p = frame decimal label ssrc i in
        let seq = frame-sequence_number decimal label ssrc i (omega arith) in
        let (r, out, e, keyed, seen) =
          P.replays key (at i) o.session p o.keyed (sealed i low high) (omega (arith, seq))
            (λ k lt. o.seen k ∙ mem-above k done o.window lt)
            (ap (P.seen o.session) seq ∙ o.seen i ∙ again) in
        (
          insert M S hash sessions ssrc r,
          receive_sealed M S P hash sessions o.session key (at i) p
                (frame-IsValid decimal label ssrc i ssrc_u32) (short i) (sealed i low high) o.there
              ∙ ap (after_unprotect M S hash sessions ssrc) e,
          record {
            session = r;
            there = get-insert_self M S P hash sessions ssrc r;
            keyed = keyed;
            seen = λ k. seen k ∙ o.seen k;
            window = o.window;
          },
        )

    receive_new :
        (done : List ℕ) (sessions : Sessions M S hash) (i : ℕ)
        → Opened done sessions
        → 1 ≤ i
        → i ≤ n
        → mem i done ≡ false
        → (sessions' : Sessions M S hash) × (receive M S hash sessions (at i)
            ≡ ret (some (frame decimal label ssrc i), sessions'))
          × Opened (i ∷ done) sessions'
    unfolding frame
    receive_new done sessions i o low high new =
        let p = frame decimal label ssrc i in
        let v = frame-IsValid decimal label ssrc i ssrc_u32 in
        let seq = frame-sequence_number decimal label ssrc i (omega arith) in
        let (r, e, keyed, seen) =
          P.opens key (at i) o.session p o.keyed (sealed i low high) (omega (arith, seq))
            (λ k lt. o.seen k ∙ mem-above k done o.window lt)
            (ap (P.seen o.session) seq ∙ o.seen i ∙ new) in
        (
          insert M S hash sessions ssrc r,
          receive_sealed M S P hash sessions o.session key (at i) p v (short i) (sealed i low high)
                o.there
              ∙ ap (after_unprotect M S hash sessions ssrc) e
              ∙ after_opened M S P hash sessions ssrc r p v,
          record {
            session = r;
            there = get-insert_self M S P hash sessions ssrc r;
            keyed = keyed;
            seen = λ k. seen k ∙ ap₂ (λ (a : ℕ) (b : Bool). k == a || b) seq (o.seen k);
            window = (omega arith, o.window);
          },
        )

    recv_loop-first_times :
        (es done : List ℕ) (received expected : ℕ) (sessions : Sessions M S hash)
        → All (λ i. (1 ≤ i) × (i ≤ n)) es
        → Opened done sessions
        → received ≤ expected
        → recv_loop M S hash (map (λ i. datagram (at i)) es) received expected sessions
          ≡ ret (take (expected - received) (map (frame decimal label ssrc) (first_times done es)))
    unfolding map first_times
    recv_loop-first_times [] done received expected sessions sent o le =
        nothing (expected - received)
      where
        nothing :
            (k : ℕ)
            → recv_loop M S hash [] received expected sessions
              ≡ ret (take k (map (frame decimal label ssrc) []))
        nothing k = loop_empty M S P hash received expected sessions ∙ ap ret (sym (take-none k))
    recv_loop-first_times (i ∷ es) done received expected sessions sent o le =
        elim (Bool-cases (ltb received expected)) [
          | inr full ↦
              let e : expected - received ≡ 0 = ground arith in
              rw e (
                loop_full M S P hash (at i) (map (λ j. datagram (at j)) es) received expected
                  sessions full)
          | inl more ↦ elim (Bool-cases (mem i done)) [
            | inl again ↦
                let (sessions', e, o') = receive_again done sessions i o sent.0.0 sent.0.1 again in
                rw again (
                  loop_skip M S P hash (at i) (map (λ j. datagram (at j)) es) received expected
                    sessions sessions' more e
                  ∙ recv_loop-first_times es done received expected sessions' sent.1 o' le)
            | inr new ↦
                let (sessions', e, o') = receive_new done sessions i o sent.0.0 sent.0.1 new in
                let left : expected - received ≡ suc (expected - (received + 1)) = ground arith in
                let later =
                  recv_loop-first_times es (i ∷ done) (received + 1) expected sessions' sent.1 o'
                    (ground arith) in
                rw (new, left)
                  (loop_next M S P hash (at i) (map (λ j. datagram (at j)) es) received expected
                    sessions sessions' (frame decimal label ssrc i)
                    (take (expected - (received + 1))
                      (map (frame decimal label ssrc) (first_times (i ∷ done) es)))
                    more e later)
          ]
        ]

  -- A receiver and a sender with the same key material, and a sender of at most 128 frames that fit the
  -- receive buffer. Whatever the network makes of the datagrams that `send_srtp` returns, dropping,
  -- repeating and reordering them, `recv_srtp` returns and displays the frames of those that arrive,
  -- each as it was sent and once, where its first copy arrived, and no more than it expects.
  pub recv_srtp-send_srtp :
      (decimal : ℕ → Bytes) (label key : Bytes) (ssrc n expected : ℕ) (datagrams : List Bytes)
      (arrivals : List ℕ) (session : S.Session) (sessions : Sessions M S hash)
      → n ≤ 128
      → ssrc < 2 ^ 32
      → ((i : ℕ) → length (to_bytes (frame decimal label ssrc i)) ≤ 2032)
      → send_srtp M S hash decimal label ssrc key n ≡ ret datagrams
      → create_receiver_session S key ≡ ret session
      → get M S hash sessions ssrc ≡ some session
      → All (λ i. (1 ≤ i) × (i ≤ n)) arrivals
      → recv_srtp M S hash
          (map (λ i. datagram (get_or datagrams (i - 1) [])) arrivals)
          sessions
          expected
        ≡ ret (take expected (map (frame decimal label ssrc) (first_times [] arrivals)))
  unfolding recv_srtp send_srtp
  recv_srtp-send_srtp decimal label key ssrc n expected datagrams arrivals session sessions few u32
        short sends made there all =
      let (first, created, rest) =
        >>=-eq-ret (create_sender_session S key)
          (λ s. send_rounds M S hash (frame decimal label ssrc) s 1 n) sends in
      let seals =
        send_rounds-Seals M S P hash (frame decimal label ssrc) key first 1 n datagrams
          (P.sends_first key first created) rest in
      let fresh = P.receives_first key session made in
      let all_left : expected - 0 ≡ expected = omega arith in
      rw all_left at (
        recv_loop-first_times decimal label key ssrc (λ i. get_or datagrams (i - 1) []) n few u32
          short
          (λ i low high.
            subst (λ j. P.Seals key (frame decimal label ssrc j) (get_or datagrams (i - 1) []))
              (let e : 1 + (i - 1) ≡ i = omega arith in e) (seals (i - 1) (omega arith)))
          arrivals [] 0 expected sessions all
          (record {
            session = session;
            there = there;
            keyed = fresh.0;
            seen = fresh.1;
            window = tt;
          })
          (omega arith))
