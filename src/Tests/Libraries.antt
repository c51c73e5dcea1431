-- ===== src/Tests/Libraries.antt =====
-- Concrete stand-ins for openmls and for the srtp crate's sessions with a template.
use safe_cast.Base.{
  mem, ℕ, suc, zero, ◌+◌, ◌-◌, ◌<◌, ◌≤◌, ◌≡◌, refl, sym, ap, ◌∙◌, arith, true, false, List, [], ◌∷◌,
  ◌++◌, Option, none, some, Bytes, length, length-append, length-replicate, replicate, take,
  take-append_exact, get_or, be16, be32, if◌then◌else◌, ret,
}
use safe_cast.Crypto.{SrtpResult, ok, err, replay_fail}
use safe_cast.Transport.Rtp.{RtpPacket, to_bytes}
use safe_cast.Transport.SrtpSession.{SrtpTemplates, SrtpPair, create_receiver_session}
use safe_cast.Keying.Mls.{OpenMls}

abbrev get_some {ℓ} : {A : Type ℓ} → A → Option A → A
get_some d none = d
get_some d (some a) = a

pub exported_length :
    (b : ℕ) (secret : Bytes) (n : ℕ) → some (replicate n b) ≡ some secret → length secret ≡ n
exported_length b secret n e =
    let same : replicate n b ≡ secret = cc in ap length (sym same) ∙ length-replicate n b

pub next_epoch :
    (g g₁ g₂ h h₁ h₂ : ℕ × ℕ) (commit message processed staged : ℕ)
    → ◌≡◌ {A = Option (ℕ × (ℕ × ℕ))} (some (suc g.0, (g.0, suc g.0))) (some (commit, g₁))
    → ◌≡◌ {A = Option (ℕ × ℕ)} (some (g₁.1, g₁.1)) (some g₂)
    → some commit ≡ some message
    → ◌≡◌ {A = Option (ℕ × (ℕ × ℕ))} (some (message, h)) (some (processed, h₁))
    → some processed ≡ some staged
    → ◌≡◌ {A = Option (ℕ × ℕ)} (some (staged, staged)) (some h₂)
    → g₂.0 ≡ h₂.0
next_epoch g g₁ g₂ h h₁ h₂ commit message processed staged a b c d f k =
    sym (ap (λ (o : Option (ℕ × ℕ)). (get_some (0, 0) o).0) b)
    ∙ sym (ap (λ (o : Option (ℕ × (ℕ × ℕ))). (get_some (0, (0, 0)) o).1.1) a)
    ∙ ap (λ (o : Option (ℕ × (ℕ × ℕ))). (get_some (0, (0, 0)) o).0) a
    ∙ ap (get_some 0) c
    ∙ ap (λ (o : Option (ℕ × (ℕ × ℕ))). (get_some (0, (0, 0)) o).0) d
    ∙ ap (get_some 0) f
    ∙ ap (λ (o : Option (ℕ × ℕ)). (get_some (0, 0) o).0) k

-- A group is the number of its epoch and of the pending one.
abbrev pub openmls0 : OpenMls
openmls0 = record {
  Entropy = ℕ;
  Provider = ℕ;
  KeyPair = Bytes;
  KeyPackageBundle = Bytes;
  MlsGroup = ℕ × ℕ;
  MlsMessageOut = ℕ;
  ProtocolMessage = ℕ;
  StagedCommit = ℕ;
  ProcessedMessage = ℕ;
  default_provider = λ entropy. entropy;
  new_key_pair = λ entropy. some (entropy ∷ []);
  store = λ signer provider. some provider;
  to_public_vec = λ signer. signer;
  build_key_package = λ provider signer credential key. some (credential ++ key, provider);
  export_secret = λ g label context n. some (replicate n (get_or (g.0 ∷ []) 0 0));
  self_update = λ g signer. some (suc g.0, (g.0, suc g.0));
  merge_pending_commit = λ g. some (g.1, g.1);
  into_protocol_message = λ commit. some commit;
  process_message = λ g message. some (message, g);
  staged_commit = λ processed. some processed;
  merge_staged_commit = λ g staged. some (staged, staged);
  exporter_secret = λ g. g.0 ∷ [];
  SameEpoch = λ g h. g.0 ≡ h.0;
  export_secret_length = λ g label context secret n e. exported_length (g.0) secret n e;
  SameEpoch-exporter_secret = λ g h e i. e i ∷ [];
  export_secret_from = λ g h label context n e i. some (replicate n (get_or (e i) 0 0));
  commit_epoch = λ g g₁ g₂ h h₁ h₂ signer commit message processed staged e a b c d f k.
      next_epoch g g₁ g₂ h h₁ h₂ commit message processed staged a b c d f k;
}

-- A session is its key and the sequence numbers seen; protection adds 16 zeros.
abbrev pub templates0 : SrtpTemplates
templates0 = record {
  Session = Bytes × List ℕ;
  CryptoPolicy = ℕ;
  aes_gcm_128_16_auth = 0;
  with_outbound_template = λ policy. some (policy.key, []);
  with_inbound_template = λ policy. some (policy.key, []);
  protect = λ s buf. (s, buf ++ replicate 16 0, ok);
  unprotect = λ s buf.
      let seq = get_or buf 2 0 + get_or buf 3 0 in
      if mem seq s.1
      then (s, buf, err replay_fail)
      else ((s.0, seq ∷ s.1), take (length buf - 16) buf, ok);
  inbound_accepts = λ policy e f h. ((policy.key, []), refl);
}

pub get_or-append : (l t : Bytes) (k : ℕ) → k < length l → get_or (l ++ t) k 0 ≡ get_or l k 0
get_or-append [] t k h = absurd (omega arith)
get_or-append (x ∷ l) t zero h = refl
get_or-append (x ∷ l) t (suc k) h = get_or-append l t k (omega arith)

pub long : (p : RtpPacket) (k : ℕ) → k < 12 → k < length (to_bytes p)
unfolding to_bytes be16 be32
long p k h = omega arith

sequence_bytes :
    (p : RtpPacket) (t : Bytes)
    → p.sequence_number ≤ 128
    → get_or (to_bytes p ++ t) 2 0 + get_or (to_bytes p ++ t) 3 0 ≡ p.sequence_number
unfolding to_bytes be16 be32
sequence_bytes p t h = omega arith

trimmed : (l : Bytes) → take (length (l ++ replicate 16 0) - 16) (l ++ replicate 16 0) ≡ l
trimmed l =
    take-append_exact l (replicate 16 0) (length (l ++ replicate 16 0) - 16)
      (omega (arith, length-append l (replicate 16 0), length-replicate {A = ℕ} 16 0))

pub fresh_session :
    (key : Bytes) (s : Bytes × List ℕ)
    → create_receiver_session templates0 key ≡ ret s
    → (seq : ℕ) → mem seq s.1 ≡ false
unfolding create_receiver_session
fresh_session key s e seq =
    let same : ◌≡◌ {A = Bytes × List ℕ} (key, []) s = cc in
    ap (λ (t : Bytes × List ℕ). mem seq t.1) (sym same)

abbrev pub Sealed : RtpPacket → Bytes → Type 0
Sealed p buf = buf ≡ to_bytes p ++ replicate 16 0

pub opened :
    (buf : Bytes) (r : Bytes × List ℕ) (p : RtpPacket)
    → Sealed p buf
    → p.sequence_number ≤ 128
    → mem p.sequence_number r.1 ≡ false
    → templates0.unprotect r buf ≡ ((r.0, p.sequence_number ∷ r.1), to_bytes p, ok)
opened buf r p sealed le new =
    rw sealed (rw (sequence_bytes p (replicate 16 0) le) (rw (new, trimmed (to_bytes p)) refl))

pub replayed :
    (buf : Bytes) (r : Bytes × List ℕ) (p : RtpPacket)
    → Sealed p buf
    → p.sequence_number ≤ 128
    → mem p.sequence_number r.1 ≡ true
    → templates0.unprotect r buf ≡ (r, buf, err replay_fail)
replayed buf r p sealed le again =
    rw sealed (rw (sequence_bytes p (replicate 16 0) le) (rw again refl))

abbrev pub pair0 : SrtpPair templates0
pair0 = record {
  Sends = λ key s. Unit;
  Receives = λ key s. Unit;
  seen = λ s seq. mem seq s.1;
  Seals = λ key p buf. Sealed p buf;
  sends_first = λ key s e. tt;
  receives_first = λ key s e. (tt, fresh_session key s e);
  protect_seals = λ key buf s s' p sends e.
      (tt, sym (ap (λ (q : (Bytes × List ℕ) × Bytes × SrtpResult). q.1) e));
  Seals_length = λ key buf p sealed. ap length sealed ∙ length-append (to_bytes p) (replicate 16 0);
  Seals_header = λ key buf p k sealed lt.
      ap (λ (b : Bytes). get_or b k 0) sealed
      ∙ get_or-append (to_bytes p) (replicate 16 0) k (long p k lt);
  opens = λ key buf r p keyed sealed le window new.
      ((r.0, p.sequence_number ∷ r.1), opened buf r p sealed le new, tt, λ k. refl);
  replays = λ key buf r p keyed sealed le window again.
      (r, buf, replayed buf r p sealed le again, tt, λ k. refl);
}
