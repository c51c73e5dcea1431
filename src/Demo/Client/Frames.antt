-- ===== src/Demo/Client/Frames.antt =====
-- The single steps of `send_srtp` and `recv_srtp` of demo/safecast-client/src/main.rs.
use safe_cast.Base.{
  ℕ, zero, suc, ◌+◌, ◌^◌, ◌≤◌, ◌<◌, ◌≡◌, refl, subst, arith, ◌==◌, ==_iff, ltb, le→ltb, mem, true,
  false, none, some, List, [], ◌∷◌, Bytes, All, length, take, take_all, get_or, be16, be32,
  from_be32, from_be32-be32, if◌then◌else◌, ret, assert, ◌>>=◌, >>=-eq-ret,
}
use safe_cast.Crypto.{SrtpResult, ok, err}
use safe_cast.Transport.Rtp.{RtpPacket, IsValid, to_bytes, from_bytes-to_bytes}
use safe_cast.Transport.SrtpSession.{SrtpTemplates, SrtpPair}
use safe_cast.Keying.Mls.{OpenMls}
use safe_cast.Demo.Client.{
  is_ok, frame, Sessions, insert, get, send_rounds, Event, datagram, after_unprotect, with_session,
  receive, recv_loop,
}

-- The numbers of a list, each where it comes first and is not yet `done`.
unfoldable pub first_times : List ℕ → List ℕ → List ℕ
first_times done [] = []
first_times done (i ∷ l) =
    let again = first_times done l in
    let later = first_times (i ∷ done) l in if mem i done then again else i ∷ later

unfoldable pub map {ℓ κ} : {A : Type ℓ} {B : Type κ} → (A → B) → List A → List B
map f [] = []
map f (x ∷ xs) = f x ∷ map f xs

pub mem-above : (k : ℕ) (l : List ℕ) → All (λ i. i ≤ 128) l → 128 < k → mem k l ≡ false
mem-above k [] h lt = refl
mem-above k (i ∷ l) h lt = rw (differ k i (omega (arith, h.0))) (mem-above k l h.1 lt)
  where
    differ : (k i : ℕ) → i < k → (k == i) ≡ false
    differ k i lt = ground arith

pub take-none {ℓ} : {A : Type ℓ} (n : ℕ) → take {A = A} n [] ≡ []
take-none zero = refl
take-none (suc n) = refl

pub frame-IsValid :
    (decimal : ℕ → Bytes) (label : Bytes) (ssrc i : ℕ)
    → ssrc < 2 ^ 32
    → IsValid (frame decimal label ssrc i)
unfolding frame
frame-IsValid decimal label ssrc i h = record {
  type_bits = omega arith;
  seq_u16 = omega arith;
  ts_u32 = omega arith;
  ssrc_u32 = h;
}

pub frame-sequence_number :
    (decimal : ℕ → Bytes) (label : Bytes) (ssrc i : ℕ)
    → i ≤ 128
    → (frame decimal label ssrc i).sequence_number ≡ i
unfolding frame
frame-sequence_number decimal label ssrc i h = omega arith

is_ok→ok : (r : SrtpResult) → assert (is_ok r) ≡ ret tt → r ≡ ok
is_ok→ok ok e = refl
is_ok→ok (err e') e = absurd (cc)

module _ (M : OpenMls) (S : SrtpTemplates) (P : SrtpPair S) (hash : Bytes → ℕ) where
  pick :
      (packet : ℕ → RtpPacket) (key b : Bytes) (later : List Bytes) (i n k : ℕ)
      → P.Seals key (packet i) b
      → ((j : ℕ) → j < n → P.Seals key (packet (i + 1 + j)) (get_or later j []))
      → k < suc n
      → P.Seals key (packet (i + k)) (get_or (b ∷ later) k [])
  pick packet key b later i n zero first rest lt =
      subst (λ j. P.Seals key (packet j) b) (let e : i ≡ i + 0 = omega arith in e) first
  pick packet key b later i n (suc k) first rest lt =
      subst (λ j. P.Seals key (packet j) (get_or later k []))
        (let e : i + 1 + k ≡ i + suc k = omega arith in e) (rest k (omega arith))

  pub send_rounds-Seals :
      (packet : ℕ → RtpPacket) (key : Bytes) (s : S.Session) (i n : ℕ) (datagrams : List Bytes)
      → P.Sends key s
      → send_rounds M S hash packet s i n ≡ ret datagrams
      → (k : ℕ) → k < n
      → P.Seals key (packet (i + k)) (get_or datagrams k [])
  unfolding send_rounds
  send_rounds-Seals packet key s i zero datagrams sends e k lt = absurd (omega arith)
  send_rounds-Seals packet key s i (suc n) datagrams sends e k lt =
      let sent = S.protect s (to_bytes (packet i)) in
      let rounds = send_rounds M S hash packet sent.0 (i + 1) n in
      let (u, good, rest) =
        >>=-eq-ret (assert (is_ok sent.2)) (λ _. rounds >>= λ later. ret (sent.1 ∷ later)) e in
      let (later, done, out) = >>=-eq-ret rounds (λ later. ret (sent.1 ∷ later)) rest in
      let sealed =
        P.protect_seals key sent.1 s sent.0 (packet i) sends
          (λ j. (sent.0, sent.1, is_ok→ok sent.2 good j)) in
      subst (λ d. P.Seals key (packet (i + k)) (get_or d k [])) (ret_inj out)
        (pick packet key sent.1 later i n k sealed.1
          (send_rounds-Seals packet key sent.0 (i + 1) n later sealed.0 done) lt)
    where
      ret_inj : {a b : List Bytes} → ret a ≡ ret b → a ≡ b
      ret_inj e = cc

  -- A sealed packet reaches the session of its stream.
  pub receive_sealed :
      (sessions : Sessions M S hash) (r : S.Session) (key buf : Bytes) (p : RtpPacket)
      → IsValid p
      → length (to_bytes p) ≤ 2032
      → P.Seals key p buf
      → get M S hash sessions p.ssrc ≡ some r
      → receive M S hash sessions buf ≡ after_unprotect M S hash sessions p.ssrc (S.unprotect r buf)
  unfolding receive with_session to_bytes be16 be32
  receive_sealed sessions r key buf p v short sealed there =
      let size = P.Seals_length key buf p sealed in
      let byte = λ (k : ℕ) (lt : k < 12). P.Seals_header key buf p k sealed lt in
      let same_ssrc : from_be32 (get_or buf 8 0) (get_or buf 9 0) (get_or buf 10 0)
            (get_or buf 11 0)
          ≡ p.ssrc =
        rw
          (byte 8 (omega arith), byte 9 (omega arith), byte 10 (omega arith), byte 11 (omega arith))
          (from_be32-be32 p.ssrc v.ssrc_u32) in
      rw (take_all buf 2048 (omega (arith, size)))
        (rw (le→ltb (length buf) 12 (omega (arith, size))) (rw same_ssrc (rw there refl)))

  pub after_opened :
      (sessions : Sessions M S hash) (ssrc : ℕ) (r : S.Session) (p : RtpPacket)
      → IsValid p
      → after_unprotect M S hash sessions ssrc (r, to_bytes p, ok)
        ≡ ret (some p, insert M S hash sessions ssrc r)
  unfolding after_unprotect
  after_opened sessions ssrc r p v = rw (from_bytes-to_bytes p [] v).0 refl

  pub get-insert_self :
      (sessions : Sessions M S hash) (ssrc : ℕ) (r : S.Session)
      → get M S hash (insert M S hash sessions ssrc r) ssrc ≡ some r
  unfolding get
  get-insert_self sessions ssrc r = rw ((==_iff ssrc ssrc).1 refl) refl

  pub loop_empty :
      (received expected : ℕ) (sessions : Sessions M S hash)
      → recv_loop M S hash [] received expected sessions ≡ ret []
  unfolding recv_loop
  loop_empty received expected sessions = refl

  pub loop_full :
      (bytes : Bytes) (events : List (Event M S hash)) (received expected : ℕ)
      (sessions : Sessions M S hash)
      → ltb received expected ≡ false
      → recv_loop M S hash (datagram bytes ∷ events) received expected sessions ≡ ret []
  unfolding recv_loop
  loop_full bytes events received expected sessions full = rw (full, recv_loop) refl

  pub loop_skip :
      (bytes : Bytes) (events : List (Event M S hash)) (received expected : ℕ)
      (sessions sessions' : Sessions M S hash)
      → ltb received expected ≡ true
      → receive M S hash sessions bytes ≡ ret (none, sessions')
      → recv_loop M S hash (datagram bytes ∷ events) received expected sessions
        ≡ recv_loop M S hash events received expected sessions'
  unfolding recv_loop
  loop_skip bytes events received expected sessions sessions' more e =
      rw (more, recv_loop) (rw e refl)

  pub loop_next :
      (bytes : Bytes) (events : List (Event M S hash)) (received expected : ℕ)
      (sessions sessions' : Sessions M S hash) (p : RtpPacket) (later : List RtpPacket)
      → ltb received expected ≡ true
      → receive M S hash sessions bytes ≡ ret (some p, sessions')
      → recv_loop M S hash events (received + 1) expected sessions' ≡ ret later
      → recv_loop M S hash (datagram bytes ∷ events) received expected sessions ≡ ret (p ∷ later)
  unfolding recv_loop
  loop_next bytes events received expected sessions sessions' p later more e h =
      rw (more, recv_loop) (rw e (rw h refl))
