-- ===== src/Demo/Client/Members.antt =====
-- `verify_group_members` of demo/safecast-client/src/main.rs.
use safe_cast.Base.{
  ◌≡◌, ◌↔◌, ◌⊎◌, ◌≢◌, inl, inr, refl, ap, ◌∙◌, Bool, true, false, Bool-cases, Option, none, some,
  List, [], ◌∷◌, Bytes, bytes_eq, bytes_eq→eq, bytes_eq_refl, Exec, ret, panic, assert, expect,
  ◌>>=◌, ◌>>◌, >>=-eq-ret,
}
use safe_cast.Keying.Mls.{parse_credential_identity}
use safe_cast.Demo.Client.{Member, Lookup, verify_group_members}

assert→true : (b : Bool) → assert b ≡ ret tt → b ≡ true
assert→true true e = refl
assert→true false e = absurd (cc)

expect→some : (o : Option Bytes) (k : Bytes) → expect o ≡ ret k → o ≡ some k
expect→some none k e = absurd (cc)
expect→some (some k') k e = ap some (cc)

other : (a b : Bytes) → bytes_eq a b ≡ false → a ≢ b
other a b e h = let t : bytes_eq a b ≡ true = rw h (bytes_eq_refl b) in cc

other→false : (a b : Bytes) → a ≢ b → bytes_eq a b ≡ false
other→false a b h = elim (Bool-cases (bytes_eq a b)) [
  | inl e ↦ absurd (h (bytes_eq→eq a b e))
  | inr e ↦ e
]

module _ (from_utf8_lossy : Bytes → Bytes) {W : Type 0} (lookup_as : Lookup W)
    (my_identity : Bytes) where
  -- A peer whose identity has a label and a role, and whose key in the tree is the one that the
  -- directory answers.
  abbrev pub IsVouched : W → Bytes → Bytes → Type 0
  IsVouched w identity key =
      ((parts : Bytes × Bytes) × (parse_credential_identity identity ≡ ret parts))
      × ((lookup_as w identity).0 ≡ some key)

  -- Each member is oneself, or vouched for when it is looked up; the lookups lead from `w` to `w'`.
  abbrev pub AreVerified : W → List Member → W → Type 0
  AreVerified w [] w' = w ≡ w'
  AreVerified w (m ∷ members) w' =
      let identity = from_utf8_lossy m.credential in
      ((identity ≡ my_identity) × AreVerified w members w')
      ⊎ ((identity ≢ my_identity)
          × IsVouched w identity m.signature_key
          × AreVerified (lookup_as w identity).1 members w')

  -- What the checks of a peer established when they pass.
  checked :
      (w w' : W) (m : Member) (members : List Member)
      → (parse_credential_identity (from_utf8_lossy m.credential) >>= λ _.
          expect (lookup_as w (from_utf8_lossy m.credential)).0 >>= λ pk.
          assert (bytes_eq pk m.signature_key)
          >> verify_group_members from_utf8_lossy lookup_as
              (lookup_as w (from_utf8_lossy m.credential)).1
              members
              my_identity)
        ≡ ret w'
      → IsVouched w (from_utf8_lossy m.credential) m.signature_key
        × (verify_group_members from_utf8_lossy lookup_as
              (lookup_as w (from_utf8_lossy m.credential)).1
              members
              my_identity
            ≡ ret w')
  checked w w' m members e =
      let identity = from_utf8_lossy m.credential in
      let answer = (lookup_as w identity).0 in
      let later =
        verify_group_members from_utf8_lossy lookup_as (lookup_as w identity).1 members
          my_identity in
      let (parts, parsed, e₁) =
        >>=-eq-ret (parse_credential_identity identity)
          (λ _. expect answer >>= λ pk. assert (bytes_eq pk m.signature_key) >> later) e in
      let (pk, found, e₂) =
        >>=-eq-ret (expect answer) (λ pk. assert (bytes_eq pk m.signature_key) >> later) e₁ in
      let (u, equal, e₃) = >>=-eq-ret (assert (bytes_eq pk m.signature_key)) (λ _. later) e₂ in
      let key = bytes_eq→eq pk m.signature_key (assert→true (bytes_eq pk m.signature_key) equal) in
      (((parts, parsed), expect→some answer pk found ∙ ap some key), e₃)

  pub verify_group_members-AreVerified :
      (w w' : W) (members : List Member)
      → verify_group_members from_utf8_lossy lookup_as w members my_identity ≡ ret w'
      → AreVerified w members w'
  unfolding verify_group_members
  verify_group_members-AreVerified w w' [] e = cc
  verify_group_members-AreVerified w w' (m ∷ members) e =
      let identity = from_utf8_lossy m.credential in
      elim (Bool-cases (bytes_eq identity my_identity)) [
        | inl me ↦ inl (
          bytes_eq→eq identity my_identity me,
          verify_group_members-AreVerified w w' members (rw me at e),
        )
        | inr peer ↦
            let (vouched, later) = checked w w' m members (rw peer at e) in
            inr (
              other identity my_identity peer,
              vouched,
              verify_group_members-AreVerified (lookup_as w identity).1 w' members later,
            )
      ]

  verifies :
      (w w' : W) (members : List Member)
      → AreVerified w members w'
      → verify_group_members from_utf8_lossy lookup_as w members my_identity ≡ ret w'
  unfolding verify_group_members
  verifies w w' [] h = ap ret h
  verifies w w' (m ∷ members) (inl (me, h)) =
      rw (me, bytes_eq_refl my_identity) (verifies w w' members h)
  verifies w w' (m ∷ members) (inr (peer, ((parts, parsed), found), h)) =
      rw (other→false (from_utf8_lossy m.credential) my_identity peer) (
        rw (parsed, found, bytes_eq_refl m.signature_key)
          (verifies (lookup_as w (from_utf8_lossy m.credential)).1 w' members h))

  -- Over any network, verification passes exactly when every member of the group but oneself has an
  -- identity of a label and a role, under which the authentication service answers, when it is asked,
  -- the very signature key that stands in the group's tree; in every other case it panics.
  pub verify_group_members_lem :
      (w : W) (members : List Member)
      → ((w' : W)
          → (verify_group_members from_utf8_lossy lookup_as w members my_identity ≡ ret w')
            ↔ AreVerified w members w')
        × (((w' : W) × (verify_group_members from_utf8_lossy lookup_as w members my_identity
                ≡ ret w'))
            ⊎ (verify_group_members from_utf8_lossy lookup_as w members my_identity ≡ panic))
  verify_group_members_lem w members = (
    λ w'. (verify_group_members-AreVerified w w' members, verifies w w' members),
    cases (verify_group_members from_utf8_lossy lookup_as w members my_identity),
  )
    where
      cases : (e : Exec W) → ((w' : W) × (e ≡ ret w')) ⊎ (e ≡ panic)
      cases (ret w') = inl (w', refl)
      cases panic = inr refl
