-- ===== src/Tests/Demos.antt =====
-- The keying of a group and the demo's programs at concrete inputs.
use safe_cast.Base.{
  ℕ, ◌+◌, ◌≡◌, ◌≢◌, ◌↔◌, ◌⊎◌, refl, none, some, List, [], ◌∷◌, ◌++◌, Bytes, All, length, replicate,
  Exec, ret, panic,
}
use safe_cast.Keying.Ratchet.{split_key_salt}
use safe_cast.Keying.Mls.{
  parse_credential_identity, export_srtp_keys, seed_from_exporter, create_rekey_commit,
  process_commit,
}
use safe_cast.Keying.Mls.Identity.{parse_credential_identity_lem}
use safe_cast.Keying.Mls.Agreement.{Rekeys, Exports, process_commit-create_rekey_commit}
use safe_cast.Demo.AuthService.{
  default, RegisterRequest, HttpResponse, get, logged_prefix, is_char_boundary, starts_char,
  register, register_new, post_register, get_lookup, handle, serve,
}
use safe_cast.Demo.AuthService.FirstCome.{IsLogged, answer_after, serve-FirstCome}
use safe_cast.Demo.AuthService.Poisoned.{register_poisons}
use safe_cast.Demo.DsClient.{
  DsClient, Result, ok, is_success, succeeded, register_with_as, lookup_as,
}
use safe_cast.Demo.DsClient.Directory.{lookup_as-register_with_as}
use safe_cast.Demo.Client.{Member, Lookup, verify_group_members}
use safe_cast.Demo.Client.Members.{AreVerified, verify_group_members_lem}
use safe_cast.Tests.Libraries.{openmls0}
use safe_cast.Tests.Services.{codec0, http0, routes0}

abbrev ann0 : RegisterRequest
ann0 = record { identity = 97 ∷ []; public_key = 65 ∷ 66 ∷ [] }

abbrev eve0 : RegisterRequest
eve0 = record { identity = 97 ∷ []; public_key = 67 ∷ [] }

-- Sixteen bytes in, a character of two bytes is cut.
abbrev cut0 : RegisterRequest
cut0 = record { identity = 99 ∷ []; public_key = replicate 15 65 ++ (0xC3 ∷ 0xA9 ∷ []) }

ann0-IsLogged : IsLogged (post_register ann0)
unfolding logged_prefix is_char_boundary
ann0-IsLogged = refl

eve0-IsLogged : IsLogged (post_register eve0)
unfolding logged_prefix is_char_boundary
eve0-IsLogged = refl

serve-FirstCome_example :
    (handle
      (serve default (post_register ann0 ∷ post_register eve0 ∷ [])).1
      (get_lookup (97 ∷ []))).0
    ≡ ret (answer_after (post_register ann0 ∷ post_register eve0 ∷ []) (get_lookup (97 ∷ [])))
serve-FirstCome_example =
    serve-FirstCome (post_register ann0 ∷ post_register eve0 ∷ []) (get_lookup (97 ∷ []))
      (ann0-IsLogged, (eve0-IsLogged, tt)) tt

register_poisons_example :
    All
      (λ (answer : Exec HttpResponse). answer ≡ panic)
      (serve default (post_register cut0 ∷ get_lookup (97 ∷ []) ∷ [])).0
unfolding get logged_prefix is_char_boundary
register_poisons_example = register_poisons default cut0 (get_lookup (97 ∷ []) ∷ []) refl refl

-- "a:b:sender".
abbrev pub identity0 : Bytes
identity0 = b'a' ∷ b':' ∷ b'b' ∷ b':' ∷ b's' ∷ b'e' ∷ b'n' ∷ b'd' ∷ b'e' ∷ b'r' ∷ []

abbrev pub label0 : Bytes
label0 = b'a' ∷ b':' ∷ b'b' ∷ []

abbrev pub role0 : Bytes
role0 = b's' ∷ b'e' ∷ b'n' ∷ b'd' ∷ b'e' ∷ b'r' ∷ []

parse_credential_identity_lem_example :
    ((parse_credential_identity identity0 ≡ ret (label0, role0))
      ↔ ((identity0 ≡ label0 ++ (b':' ∷ role0)) × All (λ b. b ≢ b':') role0))
    × ((parse_credential_identity identity0 ≡ panic) ↔ All (λ b. b ≢ b':') identity0)
parse_credential_identity_lem_example = parse_credential_identity_lem identity0 label0 role0

abbrev pub group0 : ℕ × ℕ
group0 = (5, 0)

abbrev pub peer0 : ℕ × ℕ
peer0 = (5, 2)

abbrev rekeys0 : Rekeys openmls0 (1 ∷ []) group0 peer0
rekeys0 = record {
  commit = 6;
  pending = (5, 6);
  updated = refl;
  next = (6, 6);
  merged = refl;
  message = 6;
  unpacked = refl;
  processed = 6;
  staging = (5, 2);
  accepted = refl;
  staged = 6;
  is_commit = refl;
  peer = (6, 6);
  peer_merged = refl;
}

abbrev pub exports0 : (g : ℕ × ℕ) (ssrc : ℕ) → Exports openmls0 g ssrc
exports0 g ssrc = record {
  key = replicate 16 g.0;
  key_exported = refl;
  salt = replicate 12 g.0;
  salt_exported = refl;
  seed = replicate 32 g.0;
  seed_exported = refl;
}

process_commit-create_rekey_commit_example :
    (create_rekey_commit openmls0 group0 (1 ∷ []) ≡ ret (6, (6, 6)))
    × (process_commit openmls0 peer0 6 ≡ ret (6, 6))
    × (export_srtp_keys openmls0 (6, 6) 9
        ≡ ret (replicate 16 6 ++ replicate 12 6, replicate 16 6, replicate 12 6))
    × (export_srtp_keys openmls0 (6, 6) 9
        ≡ ret (replicate 16 6 ++ replicate 12 6, replicate 16 6, replicate 12 6))
    × (length {A = ℕ} (replicate 16 6 ++ replicate 12 6) ≡ 28)
    × (split_key_salt (replicate 16 6 ++ replicate 12 6) ≡ (replicate 16 6, replicate 12 6))
    × (seed_from_exporter openmls0 (6, 6) 9
        ≡ ret (record { chain_secret = replicate 32 6; generation = 0 }))
    × (seed_from_exporter openmls0 (6, 6) 9 ≡ seed_from_exporter openmls0 (6, 6) 9)
process_commit-create_rekey_commit_example =
    process_commit-create_rekey_commit openmls0 (1 ∷ []) group0 peer0 9 rekeys0 (exports0 (6, 6) 9)
      refl

-- A sender, a receiver, and a directory that has the sender's key.
abbrev pub members0 : List Member
members0 =
    record { credential = identity0; signature_key = 7 ∷ [] }
    ∷ record { credential = b'r' ∷ b':' ∷ b'r' ∷ []; signature_key = 8 ∷ [] }
    ∷ []

-- The network counts the lookups.
abbrev directory0 : Lookup ℕ
directory0 w identity = (some (7 ∷ []), w + 1)

verify_group_members_lem_example :
    ((w' : ℕ)
      → (verify_group_members (λ b. b) directory0 0 members0 (b'r' ∷ b':' ∷ b'r' ∷ []) ≡ ret w')
        ↔ AreVerified (λ b. b) directory0 (b'r' ∷ b':' ∷ b'r' ∷ []) 0 members0 w')
    × (((w' : ℕ) × (verify_group_members (λ b. b) directory0 0 members0 (b'r' ∷ b':' ∷ b'r' ∷ [])
            ≡ ret w'))
        ⊎ (verify_group_members (λ b. b) directory0 0 members0 (b'r' ∷ b':' ∷ b'r' ∷ []) ≡ panic))
verify_group_members_lem_example =
    verify_group_members_lem (λ b. b) directory0 (b'r' ∷ b':' ∷ b'r' ∷ []) 0 members0

abbrev client0 : DsClient codec0 http0
client0 = record { as_url = []; ds_url = []; auth_token = none; client_id = none }

registers0 :
    ◌≡◌ {A = Result (Unit {0})}
      (register_with_as codec0 http0 client0 default (97 ∷ []) (1 ∷ 2 ∷ [])).0
      (ok tt)
unfolding register_with_as succeeded is_success handle register register_new get logged_prefix
    is_char_boundary starts_char
registers0 = refl

lookup_as-register_with_as_example :
    (lookup_as codec0 http0 client0
      (serve
        (register_with_as codec0 http0 client0 default (97 ∷ []) (1 ∷ 2 ∷ [])).1
        (post_register eve0 ∷ [])).1
      (97 ∷ [])).0
    ≡ ok (1 ∷ 2 ∷ [])
lookup_as-register_with_as_example =
    lookup_as-register_with_as codec0 http0 client0 routes0 default
      (serve (register_with_as codec0 http0 client0 default (97 ∷ []) (1 ∷ 2 ∷ [])).1
        (post_register eve0 ∷ [])).1
      (97 ∷ []) (1 ∷ 2 ∷ []) (post_register eve0 ∷ []) tt registers0 (eve0-IsLogged, tt) refl
