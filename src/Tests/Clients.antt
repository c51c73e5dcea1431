-- ===== src/Tests/Clients.antt =====
-- The clients of the demo at concrete inputs, from their start to the media.
use safe_cast.Base.{ℕ, ◌+◌, Option, some, List, [], ◌∷◌, ◌++◌, Bytes, length, replicate}
use safe_cast.Keying.Mls.{ssrc_from_identity}
use safe_cast.Transport.Rtp.{to_bytes}
use safe_cast.Demo.DsClient.{Call, Response}
use safe_cast.Demo.Client.{sender, Member, frame}
use safe_cast.Demo.Main.{Cli, Shared}
use safe_cast.Tests.Libraries.{openmls0}
use safe_cast.Tests.Services.{codec0}
use safe_cast.Tests.Groups.{setup0}
use safe_cast.Tests.Demos.{identity0, label0, members0, group0, peer0}

-- The hash is the length; frame numbers are one digit.
abbrev hash0 : Bytes → ℕ
hash0 = length

abbrev digit0 : ℕ → Bytes
digit0 i = (48 + i) ∷ []

abbrev key0 : Bytes
key0 = replicate 16 5 ++ replicate 12 5

abbrev datagrams0 : List Bytes
datagrams0 =
    (to_bytes (frame digit0 label0 (ssrc_from_identity hash0 identity0) 1) ++ replicate 16 0)
    ∷ (to_bytes (frame digit0 label0 (ssrc_from_identity hash0 identity0) 2) ++ replicate 16 0)
    ∷ []

-- A group of no packages is the sender's, any other the receiver's.
abbrev groups0 : List Bytes → ℕ × ℕ
groups0 [] = group0
groups0 (kp ∷ kps) = peer0

-- Before the receiver joins, the sender's tree has one other member.
abbrev tree0 : List Bytes → List Member
tree0 [] = record { credential = identity0; signature_key = 7 ∷ [] } ∷ []
tree0 (kp ∷ kps) = members0

abbrev shared0 : Shared codec0 setup0 openmls0
shared0 = record {
  same_group = groups0;
  members = tree0;
  hash_ref = λ provider kp. some kp;
  into_key_package_in = λ kp. kp;
}

abbrev cli0 : Cli
cli0 = record { mode = sender; senders = 1; receivers = 1; packets = 2; as_url = []; ds_url = [] }

-- Every call succeeds, with the key 7 in its answer.
abbrev http2 : ℕ → Call → Option Response × ℕ
http2 w call =
    (some (record { status = 200; body = some (1 ∷ 1 ∷ 1 ∷ 1 ∷ 1 ∷ 1 ∷ 1 ∷ 0 ∷ []) }), w + 1)

-- "sender-\x01", whose SSRC is the length of its identity.
abbrev label1 : Bytes
label1 = b's' ∷ b'e' ∷ b'n' ∷ b'd' ∷ b'e' ∷ b'r' ∷ b'-' ∷ 1 ∷ []

abbrev datagrams1 : List Bytes
datagrams1 =
    (to_bytes (frame digit0 label1 15 1) ++ replicate 16 0)
    ∷ (to_bytes (frame digit0 label1 15 2) ++ replicate 16 0)
    ∷ []
