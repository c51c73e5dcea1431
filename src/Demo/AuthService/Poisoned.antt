-- ===== src/Demo/AuthService/Poisoned.antt =====
-- What a panic of demo/auth-service/src/main.rs leaves behind.
use safe_cast.Base.{
  ◌≡◌, refl, ◌∙◌, true, false, none, some, List, [], ◌∷◌, Bytes, All, Bool-cases, inl, inr, Exec,
  panic,
}
use safe_cast.Demo.AuthService.{
  get, is_some, AsData, RegisterRequest, HttpResponse, logged_prefix, register_new, register,
  lookup, Request, post_register, get_lookup, handle, serve,
}
use safe_cast.Demo.AuthService.FirstCome.{get-insert}

handle_poisoned : (d : AsData) (r : Request) → d.poisoned ≡ true → handle d r ≡ (panic, d)
unfolding handle register lookup
handle_poisoned d (post_register body) p = rw p refl
handle_poisoned d (get_lookup identity) p = rw p refl

serve_poisoned :
    (d : AsData) (requests : List Request)
    → d.poisoned ≡ true
    → All (λ (answer : Exec HttpResponse). answer ≡ panic) (serve d requests).0
unfolding serve
serve_poisoned d [] p = tt
serve_poisoned d (r ∷ requests) p = rw (handle_poisoned d r p) (refl, serve_poisoned d requests p)

-- If a new identity is registered with a key whose first 16 bytes do not end with a character, the
-- handler panics with the lock held, and from then on every request panics.
pub register_poisons :
    (d : AsData) (body : RegisterRequest) (requests : List Request)
    → get d.credentials body.identity ≡ none
    → logged_prefix body.public_key ≡ false
    → All
        (λ (answer : Exec HttpResponse). answer ≡ panic)
        (serve d (post_register body ∷ requests)).0
unfolding serve handle register register_new
register_poisons d body requests new cut = elim (Bool-cases d.poisoned) [
  | inl p ↦ simp p (refl, serve_poisoned d requests p)
  | inr p ↦ rw (p, new, cut) (refl, serve_poisoned (record d { poisoned = true }) requests refl)
]

handle_kept :
    (d : AsData) (r : Request) (id key : Bytes)
    → get d.credentials id ≡ some key
    → get (handle d r).1.credentials id ≡ some key
unfolding handle register register_new lookup
handle_kept d (post_register body) id key there = elim (Bool-cases d.poisoned) [
  | inl p ↦ simp p there
  | inr p ↦ elim (Bool-cases (is_some (get d.credentials body.identity))) [
    | inl e ↦ simp (p, e) there
    | inr e ↦ elim (Bool-cases (logged_prefix body.public_key)) [
      | inl ok ↦
          simp (p, e, ok)
            (get-insert d.credentials body.identity body.public_key id e ∙ rw there refl)
      | inr cut ↦ simp (p, e, cut) there
    ]
  ]
]
handle_kept d (get_lookup identity) id key there = elim (Bool-cases d.poisoned) [
  | inl p ↦ simp p there
  | inr p ↦ simp p there
]

-- Whatever requests follow, also past a panic, a registered identity keeps its key.
pub serve-keeps_key :
    (d : AsData) (requests : List Request) (id key : Bytes)
    → get d.credentials id ≡ some key
    → get (serve d requests).1.credentials id ≡ some key
unfolding serve
serve-keeps_key d [] id key there = there
serve-keeps_key d (r ∷ requests) id key there =
    serve-keeps_key (handle d r).1 requests id key (handle_kept d r id key there)
