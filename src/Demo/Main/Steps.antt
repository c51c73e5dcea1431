-- ===== src/Demo/Main/Steps.antt =====
-- What `main` of demo/safecast-client/src/main.rs has done by the time that it shares media.
use safe_cast.Base.{ℕ, ◌≡◌, Option, List, Bytes, ret}
use safe_cast.Keying.Mls.{OpenMls, MlsMember, new_member, parse_credential_identity}
use safe_cast.Transport.SrtpSession.{SrtpTemplates}
use safe_cast.Demo.DsClient.{Call, Response, Codec, DsClient}
use safe_cast.Demo.Group.{GroupSetup, done}
use safe_cast.Demo.Client.{Event, generate_identity}
use safe_cast.Demo.Client.Members.{AreVerified}
use safe_cast.Demo.Main.Entering.{Registered}
use safe_cast.Demo.Main.{Cli, Outcome, Shared, group_setup, directory, media}

module _ (C : Codec) (K : GroupSetup C) (M : OpenMls) (S : SrtpTemplates) (X : Shared C K M)
    {W : Type 0} (http : W → Call → Option Response × W) (from_utf8_lossy : Bytes → Bytes)
    (hash : Bytes → ℕ) (decimal : ℕ → Bytes) where
  -- How a client came to its outcome.
  pub record Course (fuel : ℕ) (cli : Cli) (pid : Bytes) (entropy : M.Entropy)
      (events : List (Event M S hash)) (w : W) (outcome : Outcome) : Type 0 where
    pub identity : Bytes
    pub own : identity ≡ generate_identity cli.mode pid
    pub member : MlsMember M
    pub label : Bytes
    pub role : Bytes
    pub ds_client : DsClient C http
    pub group : K.MlsGroup
    pub w₁ : W
    pub w₂ : W
    pub w₃ : W
    pub generated : new_member M (generate_identity cli.mode pid) entropy ≡ ret member
    pub labelled : parse_credential_identity identity ≡ ret (label, role)
    pub step1 : Registered C K M S X http from_utf8_lossy hash decimal cli pid w member ds_client w₁
    pub set_up :
        group_setup C K M S X http from_utf8_lossy hash decimal fuel cli ds_client w₁ identity
          cli.mode
        ≡ done (group, w₂)
    pub verified :
        AreVerified from_utf8_lossy
          (directory C K M S X http from_utf8_lossy hash decimal ds_client)
          identity
          w₂
          (X.members group)
          w₃
    pub shared :
        media C K M S X http from_utf8_lossy hash decimal cli events identity label group cli.mode
        ≡ ret outcome
