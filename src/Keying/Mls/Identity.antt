-- ===== src/Keying/Mls/Identity.antt =====
-- Credential identities `label:role` of src/keying/mls.rs.
use safe_cast.Base.{
  ℕ, ◌≡◌, ◌≢◌, ◌↔◌, refl, ap, subst, ◌==◌, ==_iff, true, false, Option, none, some, [], ◌∷◌, ◌++◌,
  Bytes, All, Bool-cases, Option-cases, inl, inr, ret, panic, expect,
}
use safe_cast.Keying.Mls.{rsplit_once, parse_credential_identity}

same : (x c : ℕ) → (x == c) ≡ true → x ≡ c
same x c e = (==_iff x c).0 e

other : (x c : ℕ) → (x == c) ≡ false → x ≢ c
other x c e h = let t = (==_iff x c).1 h in cc

other→false : (x c : ℕ) → x ≢ c → (x == c) ≡ false
other→false x c h = elim (Bool-cases (x == c)) [ inl e ↦ absurd (h (same x c e)) | inr e ↦ e ]

rsplit_once-none : (c : ℕ) (l : Bytes) → All (λ x. x ≢ c) l → rsplit_once c l ≡ none
unfolding rsplit_once
rsplit_once-none c [] h = refl
rsplit_once-none c (x ∷ xs) h = rw (rsplit_once-none c xs h.1, other→false x c h.0) refl

rsplit_once-append :
    (c : ℕ) (label role : Bytes)
    → All (λ x. x ≢ c) role
    → rsplit_once c (label ++ (c ∷ role)) ≡ some (label, role)
unfolding rsplit_once
rsplit_once-append c [] role h = rw (rsplit_once-none c role h) (rw ((==_iff c c).1 refl) refl)
rsplit_once-append c (x ∷ label) role h = rw (rsplit_once-append c label role h) refl

-- What a split says of the text.
abbrev Splits : ℕ → Bytes → Option (Bytes × Bytes) → Type 0
Splits c l none = All (λ x. x ≢ c) l
Splits c l (some parts) = (l ≡ parts.0 ++ (c ∷ parts.1)) × All (λ x. x ≢ c) parts.1

rsplit_once-Splits : (c : ℕ) (l : Bytes) → Splits c l (rsplit_once c l)
unfolding rsplit_once
rsplit_once-Splits c [] = tt
rsplit_once-Splits c (x ∷ xs) = elim (Option-cases (rsplit_once c xs)) [
  | inl e ↦
      let rest = subst (Splits c xs) e (rsplit_once-Splits c xs) in
      elim (Bool-cases (x == c)) [
        | inl t ↦ rw (e, t) (ap (λ b. b ∷ xs) (same x c t), rest)
        | inr f ↦ rw (e, f) (other x c f, rest)
      ]
  | inr (parts, e) ↦
      let rest = subst (Splits c xs) e (rsplit_once-Splits c xs) in
      rw e (ap (λ l. x ∷ l) rest.0, rest.1)
]

-- An identity parses as `(label, role)` exactly when it is `label`, a colon and `role`, and `role` has
-- no colon; parsing panics exactly when the identity has none.
pub parse_credential_identity_lem :
    (identity label role : Bytes)
    → ((parse_credential_identity identity ≡ ret (label, role))
        ↔ ((identity ≡ label ++ (b':' ∷ role)) × All (λ b. b ≢ b':') role))
      × ((parse_credential_identity identity ≡ panic) ↔ All (λ b. b ≢ b':') identity)
unfolding parse_credential_identity
parse_credential_identity_lem identity label role = (
  (
    λ e.
        let parts =
          subst (Splits b':' identity) (returned (rsplit_once b':' identity) e)
            (rsplit_once-Splits b':' identity) in
        parts,
    λ h. rw h.0 (ap expect (rsplit_once-append b':' label role h.1)),
  ),
  (
    λ e.
        subst (Splits b':' identity) (panicked (rsplit_once b':' identity) e)
          (rsplit_once-Splits b':' identity),
    λ h. ap expect (rsplit_once-none b':' identity h),
  ),
)
  where
    returned : (o : Option (Bytes × Bytes)) → expect o ≡ ret (label, role) → o ≡ some (label, role)
    returned none e = absurd (cc)
    returned (some parts) e = ap some (cc)

    panicked : (o : Option (Bytes × Bytes)) → expect o ≡ panic → o ≡ none
    panicked none e = refl
    panicked (some parts) e = absurd (cc)
