-- ===== src/Tests/Services.antt =====
-- A concrete encoding, and a network that is the authentication service itself.
use safe_cast.Base.{
  ℕ, zero, suc, ◌+◌, ◌<◌, ◌≡◌, refl, ap, ◌∙◌, arith, Option, none, some, [], ◌∷◌, ◌++◌, Bytes, All,
  All-append, length, take, drop, replicate, get_or, take-append_exact, drop-append_exact, Exec,
  ret, panic,
}
use safe_cast.Demo.AuthService.{
  AsData, HttpResponse, registered, conflict, found, not_found, Request, post_register, get_lookup,
  handle,
}
use safe_cast.Demo.DsClient.{Call, get, post, Response, Codec, register_path}
use safe_cast.Demo.DsClient.Directory.{Answers, Routes}

-- Each byte in unary, then a zero.
abbrev pub unary : Bytes → Bytes
unary [] = []
unary (b ∷ l) = replicate b (suc zero) ++ (zero ∷ unary l)

abbrev pub from_unary : ℕ → Bytes → Bytes
from_unary n [] = []
from_unary n (zero ∷ l) = n ∷ from_unary 0 l
from_unary n (suc _ ∷ l) = from_unary (suc n) l

from_unary-run :
    (n b : ℕ) (l : Bytes)
    → from_unary n (replicate b (suc zero) ++ (zero ∷ l)) ≡ (b + n) ∷ from_unary 0 l
from_unary-run n zero l = ap (λ k. k ∷ from_unary 0 l) (let e : n ≡ 0 + n = omega arith in e)
from_unary-run n (suc b) l =
    from_unary-run (suc n) b l
    ∙ ap (λ k. k ∷ from_unary 0 l) (let e : b + suc n ≡ suc b + n = omega arith in e)

pub from_unary-unary : (l : Bytes) → from_unary 0 (unary l) ≡ l
from_unary-unary [] = refl
from_unary-unary (b ∷ l) = from_unary-run 0 b (unary l) ∙ λ i.
    (let e : b + 0 ≡ b = omega arith in e) i ∷ from_unary-unary l i

ones : (b : ℕ) → All (λ x. x < 128) (replicate b (suc zero))
ones zero = tt
ones (suc b) = (omega arith, ones b)

pub unary_small : (l : Bytes) → All (λ x. x < 128) (unary l)
unary_small [] = tt
unary_small (b ∷ l) =
    All-append (λ x. x < 128) (replicate b (suc zero)) (zero ∷ unary l) (ones b)
      (omega arith, unary_small l)

abbrev pub codec0 : Codec
codec0 = record {
  KeyPackageIn = Bytes;
  AuthToken = Bytes;
  MlsMessageIn = Bytes;
  base64 = unary;
  base64_decode = λ text. some (from_unary 0 text);
  base64_url = unary;
  register_json = λ identity key. length identity ∷ identity ++ key;
  lookup_public_key = λ body. some body;
  serialize_key_packages = λ packages. some [];
  deserialize_auth_token = λ body. some body;
  deserialize_clients = λ body. some (body ∷ []);
  serialize_recv_request = λ token. some token;
  deserialize_messages = λ body. some (body ∷ []);
  base64_decode-base64 = λ key. ap some (from_unary-unary key);
  base64_ascii = unary_small;
}

abbrev pub respond : Exec HttpResponse → Option Response
respond panic = none
respond (ret registered) = some (record { status = 200; body = some [] })
respond (ret conflict) = some (record { status = 409; body = none })
respond (ret not_found) = some (record { status = 404; body = none })
respond (ret (found l)) = some (record { status = 200; body = some l.public_key })

abbrev pub routed : AsData → Request → Option Response × AsData
routed d r = (respond (handle d r).0, (handle d r).1)

abbrev pub http0 : AsData → Call → Option Response × AsData
http0 d (get url body) = routed d (get_lookup (drop 8 url))
http0 d (post url body) = routed d (
    post_register (record {
      identity = take (get_or body 0 0) (drop 1 body);
      public_key = drop (get_or body 0 0) (drop 1 body);
    }))

pub answered : (answer : Exec HttpResponse) → Answers codec0 answer (respond answer)
answered panic = refl
answered (ret registered) = (some [], refl)
answered (ret conflict) = (none, refl)
answered (ret not_found) = (none, refl)
answered (ret (found l)) = (l.public_key, refl, refl)

pub request_read :
    (identity key : Bytes)
    → ◌≡◌ {A = Request}
        (post_register (record {
          identity = take (length identity) (identity ++ key);
          public_key = drop (length identity) (identity ++ key);
        }))
        (post_register (record { identity = identity; public_key = key }))
request_read identity key i = post_register (record {
  identity = take-append_exact identity key (length identity) refl i;
  public_key = drop-append_exact identity key (length identity) refl i;
})

abbrev pub routes0 : Routes codec0 http0 []
routes0 = record {
  state = λ d. d;
  IsSegment = λ identity. Unit;
  on_register = λ d identity key. on_register0 d identity key;
  on_lookup = λ d identity segment. answered (handle d (get_lookup identity)).0;
}
  where
    on_register0 :
        (d : AsData) (identity key : Bytes)
        → let call = post ([] ++ register_path) (codec0.register_json identity key) in
          let answer =
            handle d (post_register (record { identity = identity; public_key = key })) in
          ((http0 d call).1 ≡ answer.1) × Answers codec0 answer.0 (http0 d call).0
    on_register0 d identity key =
        let e = request_read identity key in
        (
          ap (λ (r : Request). (handle d r).1) e,
          rw (ap (λ (r : Request). (handle d r).0) e) (
              answered
                (handle d (post_register (record { identity = identity; public_key = key }))).0),
        )
