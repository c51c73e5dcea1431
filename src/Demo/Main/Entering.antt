-- ===== src/Demo/Main/Entering.antt =====
-- What step 1 of `main` of demo/safecast-client/src/main.rs, the registration, leaves.
use safe_cast.Base.{
  ℕ, ◌≡◌, ◌∙◌, refl, sym, ap, Option, some, List, [], Bytes, ret, >>=-eq-ret, expect, expect-eq-ret,
  ret_inj, inl, inr, ◌∷◌, subst, Option-cases,
}
use safe_cast.Keying.Mls.{
  OpenMls, MlsMember, new_member, generate_key_package, parse_credential_identity,
}
use safe_cast.Transport.SrtpSession.{SrtpTemplates}
use safe_cast.Demo.DsClient.{
  Call, Response, Result, ok, err, Codec, DsClient, new_client, register_with_as, register_with_ds,
  post_key_packages, after_register,
}
use safe_cast.Demo.Group.{GroupSetup, expect_result}
use safe_cast.Demo.Group.Vouched.{expect_result-eq-ret}
use safe_cast.Demo.Client.{generate_identity}
use safe_cast.Demo.Main.{Cli, Shared, registration, start_up}

module _ (C : Codec) (K : GroupSetup C) (M : OpenMls) (S : SrtpTemplates) (X : Shared C K M)
    {W : Type 0} (http : W → Call → Option Response × W) (from_utf8_lossy : Bytes → Bytes)
    (hash : Bytes → ℕ) (decimal : ℕ → Bytes) where
  -- What step 1 did with the network and the client's own services: the authentication service took
  -- the identity with the public key, then the delivery service the client's two new key packages.
  pub record Registered (cli : Cli) (pid : Bytes) (w : W) (member : MlsMember M)
      (ds_client : DsClient C http) (w₁ : W) : Type 0 where
    pub w₀ : W
    pub with_as :
        register_with_as C http
          (new_client C http cli.as_url cli.ds_url)
          w
          (generate_identity cli.mode pid)
          (M.to_public_vec member.signer)
        ≡ (ok tt, w₀)
    pub kp1 : M.KeyPackageBundle
    pub kp2 : M.KeyPackageBundle
    pub member1 : MlsMember M
    pub member2 : MlsMember M
    pub made1 : generate_key_package M member ≡ ret (kp1, member1)
    pub made2 : generate_key_package M member1 ≡ ret (kp2, member2)
    pub hash1 : Bytes
    pub hash2 : Bytes
    pub hashed1 : X.hash_ref member2.provider kp1 ≡ some hash1
    pub hashed2 : X.hash_ref member2.provider kp2 ≡ some hash2
    pub with_ds :
        register_with_ds C http
          (new_client C http cli.as_url cli.ds_url)
          w₀
          (generate_identity cli.mode pid)
          ((hash1, X.into_key_package_in kp1) ∷ (hash2, X.into_key_package_in kp2) ∷ [])
        ≡ (ok tt, ds_client, w₁)
    pub same_service : ds_client.as_url ≡ cli.as_url

  -- What step 1 established.
  pub record Entered (cli : Cli) (pid : Bytes) (entropy : M.Entropy) (w : W)
      (out : Bytes × Bytes × DsClient C http × W) : Type 0 where
    pub own : out.0 ≡ generate_identity cli.mode pid
    pub member : MlsMember M
    pub generated : new_member M (generate_identity cli.mode pid) entropy ≡ ret member
    pub role : Bytes
    pub labelled : parse_credential_identity (generate_identity cli.mode pid) ≡ ret (out.1, role)
    pub step1 : Registered cli pid w member out.2 out.3

  register_with_ds-as_url :
      (c : DsClient C http) (w : W) (identity : Bytes) (kps : List (Bytes × C.KeyPackageIn))
      → (register_with_ds C http c w identity kps).1.as_url ≡ c.as_url
  unfolding register_with_ds post_key_packages after_register
  register_with_ds-as_url c w identity kps = elim (Option-cases (C.serialize_key_packages kps)) [
    | inl e ↦ rw e refl
    | inr (body, e) ↦ rw e (after _)
  ]
    where
      after :
          (answer : Result C.AuthToken)
          → (after_register C http c identity answer).1.as_url ≡ c.as_url
      after (ok token) = refl
      after (err f) = refl

  registration-Registered :
      (cli : Cli) (pid : Bytes) (w : W) (member : MlsMember M) (out : DsClient C http × W)
      → registration C K M S X http from_utf8_lossy hash decimal
          (new_client C http cli.as_url cli.ds_url)
          w
          (generate_identity cli.mode pid)
          member
        ≡ ret out
      → Registered cli pid w member out.0 out.1
  unfolding registration new_client
  registration-Registered cli pid w member out e =
      let c = new_client C http cli.as_url cli.ds_url in
      let id = generate_identity cli.mode pid in
      let answer = register_with_as C http c w id (M.to_public_vec member.signer) in
      let (_, first, e₁) = >>=-eq-ret (expect_result answer.0) _ e in
      let (kp1, made1, e₂) = >>=-eq-ret (generate_key_package M member) _ e₁ in
      let (kp2, made2, e₃) = >>=-eq-ret (generate_key_package M kp1.1) _ e₂ in
      let (hash1, hashed1, e₄) = >>=-eq-ret (expect (X.hash_ref kp2.1.provider kp1.0)) _ e₃ in
      let (hash2, hashed2, e₅) = >>=-eq-ret (expect (X.hash_ref kp2.1.provider kp2.0)) _ e₄ in
      let kps = (hash1, X.into_key_package_in kp1.0) ∷ (hash2, X.into_key_package_in kp2.0) ∷ [] in
      let ds = register_with_ds C http c answer.1 id kps in
      let (_, second, e₆) = >>=-eq-ret (expect_result ds.0) _ e₅ in
      let same : ◌≡◌ {A = DsClient C http × W} (ds.1, ds.2) out = ret_inj e₆ in
      record {
        w₀ = answer.1;
        with_as = λ j. (expect_result-eq-ret _ first j, answer.1);
        kp1 = kp1.0;
        kp2 = kp2.0;
        member1 = kp1.1;
        member2 = kp2.1;
        made1 = made1;
        made2 = made2;
        hash1 = hash1;
        hash2 = hash2;
        hashed1 = expect-eq-ret _ hashed1;
        hashed2 = expect-eq-ret _ hashed2;
        with_ds = λ j. (expect_result-eq-ret _ second j, (same j).0, (same j).1);
        same_service =
            ap (λ (x : DsClient C http × W). x.0.as_url) (sym same)
            ∙ register_with_ds-as_url c answer.1 id kps;
      }

  pub start_up-Entered :
      (cli : Cli) (pid : Bytes) (entropy : M.Entropy) (w : W)
      (out : Bytes × Bytes × DsClient C http × W)
      → start_up C K M S X http from_utf8_lossy hash decimal cli pid entropy w ≡ ret out
      → Entered cli pid entropy w out
  unfolding start_up
  start_up-Entered cli pid entropy w out e =
      let identity = generate_identity cli.mode pid in
      let (parts, parsed, e₁) = >>=-eq-ret (parse_credential_identity identity) _ e in
      let (member, generated, e₂) = >>=-eq-ret (new_member M identity entropy) _ e₁ in
      let (r, registered, e₃) =
        >>=-eq-ret
          (registration C K M S X http from_utf8_lossy hash decimal
            (new_client C http cli.as_url cli.ds_url) w identity member)
          _ e₂ in
      let same : ◌≡◌ {A = Bytes × Bytes × DsClient C http × W} (identity, parts.0, r.0, r.1) out =
        ret_inj e₃ in
      subst (Entered cli pid entropy w) same (record {
        own = refl;
        member = member;
        generated = generated;
        role = parts.1;
        labelled = parsed;
        step1 = registration-Registered cli pid w member r registered;
      })
