-- ===== src/Server/Sessions/Examples.antt =====
-- Runs of the admin token and of the session store, and their theorems at them. The hashes stand-in:
-- scrypt gives one byte that depends on the secret's length, a digest marks its text.
use Prim.Native.String.{◌++◌}
use out_warp.Prelude.{
  str-ne, ◌+◌, ◌%◌, ◌≡◌, ◌↔◌, refl, String, true, false, none, some, [], ◌∷◌, arith, leb, str_eq,
  Bool-cases, inl, inr, if◌then◌else◌,
}
use out_warp.Prelude.Text.{str_len, concat}
use out_warp.Prelude.Dict
use out_warp.Prelude.Hex.{hex}
use out_warp.Server.AdminToken.{
  Scrypt, TokenFile, scrypt_params, hash_secret, verify_token, generate_and_store_token,
}
use out_warp.Server.AdminToken.Laws.{verify-generate_iff}
use out_warp.Server.Sessions.{
  Session, entries, SessionStore, ttl, wrap_all, create, validate, destroy, purge_expired,
  open_store,
}
use out_warp.Server.Sessions.Fingerprint.{IsCoherent}
use out_warp.Server.Sessions.Access.{
  create_then_validate, destroy_then_validate, purge_then_validate, rotate_then_validate,
  OpenedWith,
}
use out_warp.Server.Sessions.Restart.{IsSaved, restart_then_validate}

abbrev scrypt : Scrypt
scrypt secret salt params = some ((str_len secret % 256) ∷ [])

abbrev sha256 : String → String
sha256 s = "h" ++ s

abbrev token_digest : String → String
token_digest s = "d" ++ s

abbrev file : TokenFile
file = record { stamp = 7; salt = some "0102"; hash = some "0c"; scrypt = scrypt_params }

generated : generate_and_store_token scrypt 7 "abc" (1 ∷ 2 ∷ []) ≡ some ("ow_admin_abc", file)
unfolding generate_and_store_token hash_secret concat hex
generated = refl

verify-generate_iff_example :
    (verify_token scrypt (some file) "guess" ≡ true)
    ↔ (hash_secret scrypt "guess" (1 ∷ 2 ∷ []) ≡ hash_secret scrypt "ow_admin_abc" (1 ∷ 2 ∷ []))
verify-generate_iff_example =
    verify-generate_iff scrypt (λ secret salt digest e. ground arith) 7 "abc" (1 ∷ 2 ∷ [])
      "ow_admin_abc" file (omega arith, (omega arith, tt)) generated "guess"
      (str-ne "guess" "" refl)

abbrev session : Session
session = record { exp = 500; token = "d0102" }

-- One session of the token in force.
abbrev store : SessionStore
store = record {
  sessions = ("ha", session) ∷ [];
  persistent = true;
  writable = true;
  file = entries (wrap_all (("ha", session) ∷ []));
  token_file = some file;
  fp_cache = some (7, "d0102");
}

coherent : IsCoherent token_digest store
coherent e = ("0102", refl, refl)

create_then_validate_example :
    (validate sha256 token_digest 300 (some "b") (create sha256 token_digest 200 "b" false store)).0
    ≡ (if str_eq (sha256 "b") (sha256 "b")
        then leb 300 (200 + ttl false)
        else (validate sha256 token_digest 300 (some "b") store).0)
create_then_validate_example =
    create_then_validate sha256 token_digest 200 "b" false store 300 "b" coherent
      (str-ne "b" "" refl)

destroy_then_validate_example :
    (validate sha256 token_digest 300 (some "a") (destroy sha256 token_digest (some "a") store)).0
    ≡ (if str_eq (sha256 "a") (sha256 "a")
        then false
        else (validate sha256 token_digest 300 (some "a") store).0)
destroy_then_validate_example =
    destroy_then_validate sha256 token_digest "a" store 300 "a" coherent (str-ne "a" "" refl)
      (str-ne "a" "" refl)

purge_then_validate_example :
    (validate sha256 token_digest 300 (some "a") (purge_expired sha256 token_digest 300 store)).0
    ≡ (validate sha256 token_digest 300 (some "a") store).0
unfolding Dict.lookup
purge_then_validate_example =
    purge_then_validate sha256 token_digest 300 store 300 "a" coherent (refl, tt) (omega arith)
      (str-ne "a" "" refl)

abbrev new_file : TokenFile
new_file = record { stamp = 8; salt = some "0304"; hash = some "0c"; scrypt = scrypt_params }

regenerated : generate_and_store_token scrypt 8 "abd" (3 ∷ 4 ∷ []) ≡ some ("ow_admin_abd", new_file)
unfolding generate_and_store_token hash_secret concat hex
regenerated = refl

opened_with : OpenedWith sha256 token_digest "d0102" store
unfolding Dict.lookup
opened_with key e found = elim (Bool-cases (str_eq "ha" key)) [
  | inl same ↦ let p : some session ≡ some e = (simp same at found) in ground (arith, p)
  | inr other ↦ let p : none ≡ some e = (simp other at found) in absurd (ground (arith, p))
]

rotate_then_validate_example :
    (validate sha256 token_digest 300 (some "a") (record store { token_file = some new_file })).0
    ≡ false
unfolding hex
rotate_then_validate_example =
    rotate_then_validate sha256 token_digest store "d0102" scrypt 8 "abd" (3 ∷ 4 ∷ [])
      "ow_admin_abd" new_file 300 "a" refl opened_with regenerated (λ e. omega (arith, e))
      (str-ne "d0304" "d0102" refl) (str-ne "a" "" refl)

is_saved : IsSaved store
unfolding Dict.lookup
is_saved = record { persistent = refl; file_saved = refl; unique = (refl, tt) }

restart_then_validate_example :
    (validate sha256 token_digest 300 (some "a") (open_store 250 store)).0
    ≡ (validate sha256 token_digest 300 (some "a") store).0
restart_then_validate_example =
    restart_then_validate sha256 token_digest 250 store 300 "a" is_saved coherent (omega arith)
      (str-ne "a" "" refl)
