-- ===== src/Server/AdminToken.antt =====
-- The admin token of server/outwarp_server/web_auth.py: `generate_and_store_token`, `verify_token` and
-- their scrypt parameters. `scrypt` stands for `hashlib.scrypt`, `none` where it raises.
pub mod Laws
use out_warp.Prelude.{
  ℕ, ◌^◌, String, Bool, true, false, Option, none, some, List, [], ◌∷◌, str_eq, if◌then◌else◌,
}
use out_warp.Prelude.Text.{concat}
use out_warp.Prelude.Dict
use out_warp.Prelude.Dict.{Dict}
use out_warp.Prelude.Hex.{hex, from_hex, bytes_eq}

pub record ScryptParams : Type 0 where
  pub n : ℕ
  pub r : ℕ
  pub p : ℕ
  pub dklen : ℕ

-- a secret, a salt and the cost parameters
abbrev pub Scrypt : Type 0
Scrypt = String → List ℕ → ScryptParams → Option (List ℕ)

abbrev pub default_params : ScryptParams
default_params = record { n = 2 ^ 15; r = 8; p = 1; dklen = 32 }

-- the JSON object that holds the parameters
abbrev pub scrypt_params : Dict ℕ
scrypt_params = ("n", 2 ^ 15) ∷ ("r", 8) ∷ ("p", 1) ∷ ("dklen", 32) ∷ []

-- admin_token.json: what `stat` tells of it, and the fields that read
pub record TokenFile : Type 0 where
  pub stamp : ℕ
  pub salt : Option String
  pub hash : Option String
  pub scrypt : Dict ℕ

abbrev or_default : Option ℕ → ℕ → ℕ
or_default none d = d
or_default (some n) d = n

-- int(params.get("n", _SCRYPT_N)), and so on
unfoldable pub params_or_default : Dict ℕ → ScryptParams
params_or_default d = record {
  n = or_default (Dict.lookup "n" d) (2 ^ 15);
  r = or_default (Dict.lookup "r" d) 8;
  p = or_default (Dict.lookup "p" d) 1;
  dklen = or_default (Dict.lookup "dklen" d) 32;
}

-- `fromhex` of a field that may be missing
abbrev pub hex_field : Option String → Option (List ℕ)
hex_field none = none
hex_field (some s) = from_hex s

module _ (scrypt : Scrypt) where
  unfoldable pub hash_secret : String → List ℕ → Option (List ℕ)
  hash_secret secret salt = scrypt secret salt default_params

  -- `random` is `secrets.token_urlsafe(24)`, `salt` is `secrets.token_bytes(16)`, and `stamp` is that
  -- of the file which the atomic write puts in place. The token, and the new file.
  unfoldable pub generate_and_store_token :
      (stamp : ℕ) (random : String) (salt : List ℕ) → Option (String × TokenFile)
  unfolding hash_secret
  generate_and_store_token stamp random salt =
      let token = concat ("ow_admin_" ∷ random ∷ []) in
      elim (hash_secret token salt) [
        | none ↦ none
        | some digest ↦ some (
          token,
          record {
            stamp = stamp;
            salt = some (hex salt);
            hash = some (hex digest);
            scrypt = scrypt_params;
          },
        )
      ]

  compare_hash : String → ScryptParams → Option (List ℕ) → Option (List ℕ) → Bool
  compare_hash token params (some salt) (some expected) = elim (scrypt token salt params) [
    | none ↦ false
    | some digest ↦ bytes_eq digest expected
  ]
  compare_hash token params _ _ = false

  unfoldable pub verify_token : Option TokenFile → String → Bool
  unfolding compare_hash
  verify_token none token = false
  verify_token (some file) token =
      if str_eq token ""
      then false
      else compare_hash token (params_or_default file.scrypt) (hex_field file.salt)
          (hex_field file.hash)
