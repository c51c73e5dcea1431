-- ===== src/Demo/AuthService.antt =====
-- demo/auth-service/src/main.rs: the registry of identities and public keys. Strings are their UTF-8
-- bytes. A handler that panics gives `panic` and the state it leaves; log lines are left out, but not
-- the slice that one of them takes.
pub mod FirstCome
pub mod Poisoned
use safe_cast.Base.{
  ℕ, zero, suc, ◌≤◌, min, Bool, true, false, ◌&&◌, not, Option, none, some, List, [], ◌∷◌, Bytes,
  bytes_eq, leb, ◌==◌, length, get_elem?, if◌then◌else◌, Exec, ret, panic,
}

-- `HashMap<String, String>`.
abbrev pub Credentials : Type 0
Credentials = List (Bytes × Bytes)

unfoldable pub get : Credentials → Bytes → Option Bytes
get [] identity = none
get ((id, public_key) ∷ rest) identity =
    let later = get rest identity in if bytes_eq id identity then some public_key else later

abbrev pub is_some : Option Bytes → Bool
is_some none = false
is_some (some _) = true

-- Only for a new identity.
unfoldable pub insert : Credentials → Bytes → Bytes → Credentials
insert creds identity public_key = (identity, public_key) ∷ creds

-- The credentials behind their mutex. A panic while the lock is held poisons it.
pub record AsData : Type 0 where
  pub credentials : Credentials
  pub poisoned : Bool

-- `AsData::default()`.
abbrev pub default : AsData
default = record { credentials = []; poisoned = false }

pub record RegisterRequest : Type 0 where
  pub identity : Bytes
  pub public_key : Bytes

pub record LookupResponse : Type 0 where
  pub identity : Bytes
  pub public_key : Bytes

pub data HttpResponse : Type 0 where
  registered : HttpResponse
  conflict : HttpResponse
  found : LookupResponse → HttpResponse
  not_found : HttpResponse

-- `str::is_char_boundary`: not at a continuation byte, `0b10xxxxxx`.
unfoldable pub starts_char : Option ℕ → Bool
starts_char none = true
starts_char (some b) = not (leb 128 b && leb b 191)

unfoldable pub is_char_boundary : Bytes → ℕ → Bool
unfolding starts_char
is_char_boundary s i =
    if i == 0 then true else if leb i (length s) then starts_char (get_elem? s i) else false

-- Whether the slice `[..min(16, len)]` of the log line is one.
unfoldable pub logged_prefix : Bytes → Bool
logged_prefix public_key = is_char_boundary public_key (min 16 (length public_key))

unfoldable pub register_new : AsData → RegisterRequest → Exec HttpResponse × AsData
register_new d body =
    if logged_prefix body.public_key
    then (
      ret registered,
      record d { credentials = insert d.credentials body.identity body.public_key },
    )
    else (panic, record d { poisoned = true })

unfoldable pub register : AsData → RegisterRequest → Exec HttpResponse × AsData
register d body =
    if d.poisoned
    then (panic, d)
    else if is_some (get d.credentials body.identity)
    then (ret conflict, d)
    else register_new d body

unfoldable pub lookup_response : Bytes → Option Bytes → HttpResponse
lookup_response identity none = not_found
lookup_response identity (some public_key) =
    found (record { identity = identity; public_key = public_key })

unfoldable pub lookup : AsData → Bytes → Exec HttpResponse × AsData
lookup d identity =
    if d.poisoned
    then (panic, d)
    else (ret (lookup_response identity (get d.credentials identity)), d)

-- The routes of `main`, and the requests in the order in which they take the lock.
pub data Request : Type 0 where
  post_register : RegisterRequest → Request
  get_lookup : Bytes → Request

unfoldable pub handle : AsData → Request → Exec HttpResponse × AsData
handle d (post_register body) = register d body
handle d (get_lookup identity) = lookup d identity

unfoldable pub serve : AsData → List Request → List (Exec HttpResponse) × AsData
serve d [] = ([], d)
serve d (r ∷ requests) =
    let (answer, d') = handle d r in
    let (answers, d'') = serve d' requests in (answer ∷ answers, d'')
