-- ===== src/Server/AdminToken/Laws.antt =====
-- Which tokens `verify_token` (server/outwarp_server/web_auth.py) accepts after one is generated.
use out_warp.Prelude.{
  ℕ, ◌≡◌, ◌≢◌, refl, ◌↔◌, String, true, some, List, arith, str_eq-false, Option-cases, inl, inr, [],
  ◌∷◌,
}
use out_warp.Prelude.Text.{concat}
use out_warp.Prelude.Dict
use out_warp.Prelude.Hex.{hex, from_hex-hex, AllBytes, bytes_eq_iff}
use out_warp.Server.AdminToken.{
  Scrypt, TokenFile, default_params, params_or_default, scrypt_params, hash_secret,
  generate_and_store_token, verify_token,
}

params_or_default-scrypt_params : params_or_default scrypt_params ≡ default_params
unfolding params_or_default Dict.lookup
params_or_default-scrypt_params = refl

-- Digests are bytes.
abbrev pub DigestsAreBytes : Scrypt → Type 0
DigestsAreBytes scrypt =
    (secret : String) (salt digest : List ℕ)
    → scrypt secret salt default_params ≡ some digest
    → AllBytes digest

-- What `generate_and_store_token` writes.
pub record IsStored (scrypt : Scrypt) (stamp : ℕ) (salt : List ℕ) (token : String)
    (file : TokenFile) : Type 0 where
  pub stamp_stored : file.stamp ≡ stamp
  pub digest : List ℕ
  pub hashed : scrypt token salt default_params ≡ some digest
  pub salt_stored : file.salt ≡ some (hex salt)
  pub hash_stored : file.hash ≡ some (hex digest)
  pub params_stored : file.scrypt ≡ scrypt_params

pub generate-IsStored :
    (scrypt : Scrypt) (stamp : ℕ) (random : String) (salt : List ℕ) (token : String)
    (file : TokenFile)
    → generate_and_store_token scrypt stamp random salt ≡ some (token, file)
    → IsStored scrypt stamp salt token file
unfolding generate_and_store_token
generate-IsStored scrypt stamp random salt token file e =
    elim (Option-cases (hash_secret scrypt (concat ("ow_admin_" ∷ random ∷ [])) salt)) [
      | inl failed ↦ absurd (ground arith)
      | inr (digest, hashed) ↦ record {
        stamp_stored = ground arith;
        digest = digest;
        hashed = ground arith;
        salt_stored = ground arith;
        hash_stored = ground arith;
        params_stored = ground arith;
      }
    ]

module _ (scrypt : Scrypt) (digests : DigestsAreBytes scrypt) where
  -- Where digests are bytes, over the file that `generate_and_store_token` wrote, a text that is
  -- not empty is accepted exactly when it hashes, under the file's salt, as the token does.
  pub verify-generate_iff :
      (stamp : ℕ) (random : String) (salt : List ℕ) (token : String) (file : TokenFile)
      → AllBytes salt
      → generate_and_store_token scrypt stamp random salt ≡ some (token, file)
      → (other : String) → other ≢ ""
      → (verify_token scrypt (some file) other ≡ true)
        ↔ (hash_secret scrypt other salt ≡ hash_secret scrypt token salt)
  unfolding verify_token hash_secret
  verify-generate_iff stamp random salt token file bytes e other ne =
      let stored = generate-IsStored scrypt stamp random salt token file e in
      simp
        (
          str_eq-false other "" ne,
          stored.salt_stored,
          stored.hash_stored,
          stored.params_stored,
          stored.hashed,
          params_or_default-scrypt_params,
          from_hex-hex salt bytes,
          from_hex-hex stored.digest (digests token salt stored.digest stored.hashed),
        )
        (elim (Option-cases (scrypt other salt default_params)) [
          | inl failed ↦ ground arith
          | inr (digest, hashed) ↦ simp hashed (ground (arith, bytes_eq_iff digest stored.digest))
        ])
