-- ===== src/Demo/Client.antt =====
-- demo/safecast-client/src/main.rs: verification of the group's members, the sessions, and the loops
-- that send and receive. Log lines and waiting are left out.
pub mod Members
pub mod Sessions
pub mod Frames
pub mod Receive
pub mod Media
use safe_cast.Base.{
  ℕ, zero, suc, ◌+◌, ◌*◌, ◌%◌, ◌^◌, Bool, true, false, Option, none, some, List, [], ◌∷◌, ◌++◌,
  Bytes, bytes_eq, ltb, ◌==◌, length, take, get_or, from_be32, if◌then◌else◌, Exec, ret, panic,
  assert, expect, ◌>>=◌, ◌>>◌,
}
use safe_cast.Crypto.{SrtpError, replay_fail, replay_old, auth_fail, other, SrtpResult, ok, err}
use safe_cast.Keying.Mls.{OpenMls, parse_credential_identity, ssrc_from_identity, export_srtp_keys}
use safe_cast.Transport.Rtp.{RtpPacket, to_bytes, from_bytes}
use safe_cast.Transport.SrtpSession.{SrtpTemplates, create_sender_session, create_receiver_session}

pub data Mode : Type 0 where
  creator sender receiver : Mode

-- "creator", "sender" and "receiver".
abbrev pub sender_role : Bytes
sender_role = b's' ∷ b'e' ∷ b'n' ∷ b'd' ∷ b'e' ∷ b'r' ∷ []

abbrev pub role : Mode → Bytes
role creator = b'c' ∷ b'r' ∷ b'e' ∷ b'a' ∷ b't' ∷ b'o' ∷ b'r' ∷ []
role sender = sender_role
role receiver = b'r' ∷ b'e' ∷ b'c' ∷ b'e' ∷ b'i' ∷ b'v' ∷ b'e' ∷ b'r' ∷ []

-- The process id as its decimal text.
unfoldable pub generate_identity : Mode → Bytes → Bytes
generate_identity mode pid = role mode ++ (b'-' ∷ (pid ++ (b':' ∷ role mode)))

-- What the code reads of a member of the group's tree.
pub record Member : Type 0 where
  pub credential : Bytes
  pub signature_key : Bytes

-- The directory's answer over the network: a key, or `Err`.
abbrev pub Lookup : Type 0 → Type 0
Lookup W = W → Bytes → Option Bytes × W

-- With `String::from_utf8_lossy`.
module _ (from_utf8_lossy : Bytes → Bytes) where
  -- The network after it.
  unfoldable pub verify_group_members : {W : Type 0} → Lookup W → W → List Member → Bytes → Exec W
  verify_group_members lookup_as w [] my_identity = ret w
  verify_group_members lookup_as w (m ∷ members) my_identity =
      let identity = from_utf8_lossy m.credential in
      let later = verify_group_members lookup_as w members my_identity in
      let checked = (do
        parts ← parse_credential_identity identity
        pk_from_as ← expect (lookup_as w identity).0
        assert (bytes_eq pk_from_as m.signature_key)
        verify_group_members lookup_as (lookup_as w identity).1 members my_identity) in
      if bytes_eq identity my_identity then later else checked

  -- Each member's identity and role.
  unfoldable pub all_members : List Member → Exec (List (Bytes × Bytes))
  all_members [] = ret []
  all_members (m ∷ members) = do
    let id = from_utf8_lossy m.credential
    parts ← parse_credential_identity id
    later ← all_members members
    ret ((id, parts.1) ∷ later)

unfoldable pub sender_identities : List (Bytes × Bytes) → List Bytes
sender_identities [] = []
sender_identities ((id, r) ∷ members) =
    let later = sender_identities members in if bytes_eq r sender_role then id ∷ later else later

-- The text of a payload, with the frame's number in decimal.
abbrev pub hello : Bytes → Bytes → Bytes
hello label number =
    (b'H' ∷ b'e' ∷ b'l' ∷ b'l' ∷ b'o' ∷ b' ' ∷ b'f' ∷ b'r' ∷ b'o' ∷ b'm' ∷ b' ' ∷ [])
    ++ (label
        ++ ((b' ' ∷ b'-' ∷ b' ' ∷ b'a' ∷ b'u' ∷ b'd' ∷ b'i' ∷ b'o' ∷ b' ' ∷ b'f' ∷ b'r' ∷ b'a'
              ∷ b'm' ∷ b'e' ∷ b' ' ∷ [])
            ++ number))

abbrev pub is_ok : SrtpResult → Bool
is_ok ok = true
is_ok (err _) = false

-- The packet of round `i`, in release builds.
unfoldable pub frame : (ℕ → Bytes) → Bytes → ℕ → ℕ → RtpPacket
frame decimal label ssrc i = record {
  payload_type = 111;
  sequence_number = i % 2 ^ 16;
  timestamp = i * 960 % 2 ^ 32;
  ssrc = ssrc;
  payload = hello label (decimal i);
}

module _ (M : OpenMls) (S : SrtpTemplates) (hash : Bytes → ℕ) where
  open S use {Session, protect, unprotect}

  -- `HashMap<u32, srtp::Session>`, the newest entry of an SSRC first.
  abbrev pub Sessions : Type 0
  Sessions = List (ℕ × Session)

  abbrev pub insert : Sessions → ℕ → Session → Sessions
  insert sessions ssrc session = (ssrc, session) ∷ sessions

  unfoldable pub get : Sessions → ℕ → Option Session
  get [] ssrc = none
  get ((k, session) ∷ rest) ssrc =
      let later = get rest ssrc in if k == ssrc then some session else later

  -- The receiver's sessions, one for each sender of the group.
  unfoldable pub receiver_sessions : M.MlsGroup → List Bytes → Sessions → Exec Sessions
  unfolding ssrc_from_identity
  receiver_sessions group [] sessions = ret sessions
  receiver_sessions group (sender_id ∷ senders) sessions = do
    let sender_ssrc = ssrc_from_identity hash sender_id
    keys ← export_srtp_keys M group sender_ssrc
    parts ← parse_credential_identity sender_id
    session ← create_receiver_session S keys.0
    receiver_sessions group senders (insert sessions sender_ssrc session)

  -- The datagrams of rounds `i` on, `n` of them.
  unfoldable pub send_rounds : (ℕ → RtpPacket) → Session → ℕ → ℕ → Exec (List Bytes)
  send_rounds packet session i zero = ret []
  send_rounds packet session i (suc n) = do
    let sent = protect session (to_bytes (packet i))
    assert (is_ok sent.2)
    later ← send_rounds packet sent.0 (i + 1) n
    ret (sent.1 ∷ later)

  unfoldable pub send_srtp : (ℕ → Bytes) → Bytes → ℕ → Bytes → ℕ → Exec (List Bytes)
  unfolding send_rounds frame
  send_srtp decimal label ssrc key_material num_packets = do
    session ← create_sender_session S key_material
    send_rounds (frame decimal label ssrc) session 1 num_packets

  -- What the socket gives next. After the last event there is silence until the timeout.
  pub data Event : Type 0 where
    datagram : Bytes → Event
    receive_error : Event

  -- The packet to display, if the datagram was not skipped.
  unfoldable pub after_unprotect :
      Sessions → ℕ → Session × Bytes × SrtpResult → Exec (Option RtpPacket × Sessions)
  after_unprotect sessions ssrc (session, buf, ok) = do
    rtp ← expect (from_bytes buf)
    ret (some rtp, insert sessions ssrc session)
  after_unprotect sessions ssrc (session, buf, err replay_fail) =
      ret (none, insert sessions ssrc session)
  after_unprotect sessions ssrc (session, buf, err replay_old) = panic
  after_unprotect sessions ssrc (session, buf, err auth_fail) = panic
  after_unprotect sessions ssrc (session, buf, err (other _)) = panic

  unfoldable pub with_session :
      Sessions → ℕ → Bytes → Option Session → Exec (Option RtpPacket × Sessions)
  with_session sessions ssrc pkt_buf none = ret (none, sessions)
  with_session sessions ssrc pkt_buf (some session) =
      after_unprotect sessions ssrc (unprotect session pkt_buf)

  -- A datagram in the receive buffer of 2048 bytes.
  unfoldable pub receive : Sessions → Bytes → Exec (Option RtpPacket × Sessions)
  unfolding from_be32 with_session
  receive sessions bytes =
      let pkt_buf = take 2048 bytes in
      let ssrc =
        from_be32 (get_or pkt_buf 8 0) (get_or pkt_buf 9 0) (get_or pkt_buf 10 0)
          (get_or pkt_buf 11 0) in
      if ltb (length pkt_buf) 12
      then ret (none, sessions)
      else with_session sessions ssrc pkt_buf (get sessions ssrc)

  -- The packets displayed from now on.
  unfoldable pub recv_loop : List Event → ℕ → ℕ → Sessions → Exec (List RtpPacket)
  recv_loop [] received expected sessions = ret []
  recv_loop (receive_error ∷ events) received expected sessions = ret []
  recv_loop (datagram bytes ∷ events) received expected sessions = elim (ltb received expected) [
    | false ↦ ret []
    | true ↦ do
      next ← receive sessions bytes
      elim next.0 [
        | none ↦ recv_loop events received expected next.1
        | some rtp ↦ do later ← recv_loop events (received + 1) expected next.1; ret (rtp ∷ later)
      ]
  ]

  unfoldable pub recv_srtp : List Event → Sessions → ℕ → Exec (List RtpPacket)
  recv_srtp events sessions expected_packets = recv_loop events 0 expected_packets sessions
