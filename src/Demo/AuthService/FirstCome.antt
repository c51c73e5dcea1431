-- ===== src/Demo/AuthService/FirstCome.antt =====
-- The first key registered for an identity of demo/auth-service/src/main.rs is the one looked up.
use safe_cast.Base.{
  ℕ, zero, suc, ◌≤◌, ◌<◌, ◌≡◌, refl, sym, ap, ◌∙◌, arith, min, true, false, Option, none, some,
  List, [], ◌∷◌, Bytes, All, bytes_eq, bytes_eq→eq, length, get_elem?, if◌then◌else◌, Bool-cases,
  inl, inr, ret,
}
use safe_cast.Demo.AuthService.{
  Credentials, get, is_some, insert, AsData, default, RegisterRequest, HttpResponse, registered,
  conflict, starts_char, is_char_boundary, logged_prefix, register_new, register, lookup_response,
  lookup, Request, post_register, get_lookup, handle, serve,
}

-- The earlier key stays.
abbrev pub first_over : Option Bytes → Option Bytes → Option Bytes
first_over none later = later
first_over (some key) later = some key

abbrev pub registers : Bytes → Request → Option Bytes
registers identity (post_register body) =
    if bytes_eq body.identity identity then some body.public_key else none
registers identity (get_lookup _) = none

-- The key of the first request to register the identity.
unfoldable pub first_key : Bytes → List Request → Option Bytes
first_key identity [] = none
first_key identity (r ∷ requests) = first_over (registers identity r) (first_key identity requests)

-- What a service with no other memory than the earlier requests answers.
unfoldable pub answer_after : List Request → Request → HttpResponse
answer_after earlier (post_register body) =
    if is_some (first_key body.identity earlier) then conflict else registered
answer_after earlier (get_lookup identity) = lookup_response identity (first_key identity earlier)

-- The key's first 16 bytes end with a character.
abbrev pub IsLogged : Request → Type 0
IsLogged (post_register body) = logged_prefix body.public_key ≡ true
IsLogged (get_lookup _) = Unit

over_none : (o : Option Bytes) → o ≡ first_over o none
over_none none = refl
over_none (some k) = refl

over_assoc : (a b c : Option Bytes) → first_over (first_over a b) c ≡ first_over a (first_over b c)
over_assoc none b c = refl
over_assoc (some k) b c = refl

over_present : (o later : Option Bytes) → is_some o ≡ true → first_over o later ≡ o
over_present none later e = absurd (cc)
over_present (some k) later e = refl

over_absent : (o later : Option Bytes) → is_some o ≡ false → first_over o later ≡ later
over_absent none later e = refl
over_absent (some k) later e = absurd (cc)

-- A registration for an identity that is there changes no answer, one for a new identity adds its own.
over_registered :
    (creds : Credentials) (identity key id : Bytes)
    → is_some (get creds identity) ≡ true
    → get creds id ≡ first_over (get creds id) (if bytes_eq identity id then some key else none)
over_registered creds identity key id e = elim (Bool-cases (bytes_eq identity id)) [
  | inl same ↦
      let there : is_some (get creds id) ≡ true = rw (← bytes_eq→eq identity id same) e in
      sym (over_present (get creds id) (if bytes_eq identity id then some key else none) there)
  | inr other ↦ rw other (over_none (get creds id))
]

pub get-insert :
    (creds : Credentials) (identity key id : Bytes)
    → is_some (get creds identity) ≡ false
    → get (insert creds identity key) id
      ≡ first_over (get creds id) (if bytes_eq identity id then some key else none)
unfolding get insert
get-insert creds identity key id new = elim (Bool-cases (bytes_eq identity id)) [
  | inl e ↦
      let absent : is_some (get creds id) ≡ false = rw (← bytes_eq→eq identity id e) new in
      rw e (sym (over_absent (get creds id) (some key) absent))
  | inr e ↦ rw e (over_none (get creds id))
]

handle_logged :
    (d : AsData) (r : Request) (id : Bytes)
    → d.poisoned ≡ false
    → IsLogged r
    → ((handle d r).1.poisoned ≡ false)
      × (get (handle d r).1.credentials id ≡ first_over (get d.credentials id) (registers id r))
unfolding handle register register_new lookup
handle_logged d (post_register body) id p ok =
    elim (Bool-cases (is_some (get d.credentials body.identity))) [
      | inl e ↦ rw (p, e) (refl, over_registered d.credentials body.identity body.public_key id e)
      | inr e ↦ rw (p, e, ok) (refl, get-insert d.credentials body.identity body.public_key id e)
    ]
handle_logged d (get_lookup identity) id p ok = rw p (refl, over_none (get d.credentials id))

pub serve_logged :
    (d : AsData) (requests : List Request) (id : Bytes)
    → d.poisoned ≡ false
    → All IsLogged requests
    → ((serve d requests).1.poisoned ≡ false)
      × (get (serve d requests).1.credentials id
          ≡ first_over (get d.credentials id) (first_key id requests))
unfolding serve first_key
serve_logged d [] id p ok = (p, over_none (get d.credentials id))
serve_logged d (r ∷ requests) id p ok =
    let (unlocked, step) = handle_logged d r id p ok.0 in
    let (q, later) = serve_logged (handle d r).1 requests id unlocked ok.1 in
    (
      q,
      later
          ∙ ap (λ o. first_over o (first_key id requests)) step
          ∙ over_assoc (get d.credentials id) (registers id r) (first_key id requests),
    )

handle_answers :
    (d : AsData) (earlier : List Request) (r : Request)
    → d.poisoned ≡ false
    → ((id : Bytes) → get d.credentials id ≡ first_key id earlier)
    → IsLogged r
    → (handle d r).0 ≡ ret (answer_after earlier r)
unfolding handle register register_new lookup answer_after
handle_answers d earlier (post_register body) p same ok =
    elim (Bool-cases (is_some (first_key body.identity earlier))) [
      | inl e ↦ rw (p, same body.identity, e) refl
      | inr e ↦ rw (p, same body.identity, e, ok) refl
    ]
handle_answers d earlier (get_lookup identity) p same ok = rw (p, same identity) refl

-- If the first 16 bytes of every key sent for registration end with a character, then the answer to
-- each request, from the empty registry on, is that of a service which knows nothing but the earlier
-- requests: `register` answers 200 if none of them registers its identity and 409 otherwise, and
-- `lookup` answers with the key of the first of them that registers the identity, or 404. No handler
-- panics.
pub serve-FirstCome :
    (earlier : List Request) (r : Request)
    → All IsLogged earlier
    → IsLogged r
    → (handle (serve default earlier).1 r).0 ≡ ret (answer_after earlier r)
unfolding get
serve-FirstCome earlier r logged ok =
    handle_answers (serve default earlier).1 earlier r
      (serve_logged default earlier [] refl logged).0
      (λ id. (serve_logged default earlier id refl logged).1) ok

-- A key of ASCII characters, as base64 gives, is one that `register` can log.
pub ascii-IsLogged :
    (body : RegisterRequest) → All (λ b. b < 128) body.public_key → IsLogged (post_register body)
unfolding logged_prefix is_char_boundary starts_char
ascii-IsLogged body h = at body.public_key (min 16 (length body.public_key)) h (omega arith)
  where
    start : (l : Bytes) (i : ℕ) → All (λ b. b < 128) l → starts_char (get_elem? l i) ≡ true
    start [] i h = refl
    start (x ∷ l) zero h = let lt = h.0 in ground arith
    start (x ∷ l) (suc i) h = start l i h.1

    at : (l : Bytes) (i : ℕ) → All (λ b. b < 128) l → i ≤ length l → is_char_boundary l i ≡ true
    at l i h le = let s = start l i h in ground arith
