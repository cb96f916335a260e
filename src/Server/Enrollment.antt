-- ===== src/Server/Enrollment.antt =====
-- server/outwarp_server/enrollment.py: one-time enrolment tokens. The store is the list of
-- enrollment_tokens.json; `Stored` is the JSON object of one entry. Times are whole seconds, as in the
-- source. `scrypt` is as in AdminToken.
pub mod Live
pub mod Once
pub mod First
pub mod Laws
mod Examples
use out_warp.Prelude.{
  ℕ, suc, ◌+◌, ◌*◌, ◌-◌, String, Bool, true, false, not, ◌&&◌, ◌||◌, Option, none, some, List, [],
  ◌∷◌, ◌++◌, ltb, leb, str_eq, if◌then◌else◌, filter, get_elem?, set, length, Result, ok, err,
}
use out_warp.Prelude.Options.{◌>>=◌}
use out_warp.Prelude.Text.{concat}
use out_warp.Prelude.Dict
use out_warp.Prelude.Dict.{Dict}
use out_warp.Prelude.Hex.{hex, from_hex, bytes_eq}
use out_warp.Server.AdminToken.{Scrypt, ScryptParams, scrypt_params, hash_secret}

-- A `scrypt` that is absent is the empty dictionary, which Python also takes for false.
pub record EnrollmentToken : Type 0 where
  pub client_name : String
  pub salt : String
  pub token_hash : String
  pub created_at : ℕ
  pub expires_at : ℕ
  pub used_at : ℕ
  pub scrypt : Dict ℕ

pub data EnrollmentError : Type 0 where
  token_unknown token_expired token_already_used : EnrollmentError

pub record Stored : Type 0 where
  pub client_name : Option String
  pub salt : Option String
  pub token_hash : Option String
  pub created_at : Option ℕ
  pub expires_at : Option ℕ
  pub used_at : Option ℕ
  pub scrypt : Option (Dict ℕ)

abbrev pub default_ttl_seconds : ℕ
default_ttl_seconds = 15 * 60

abbrev pub retention_seconds : ℕ
retention_seconds = 7 * 86400

abbrev pub used : EnrollmentToken → Bool
used e = ltb 0 e.used_at

abbrev pub expired : ℕ → EnrollmentToken → Bool
expired now e = leb e.expires_at now

abbrev pub params_of : Dict ℕ → Dict ℕ
params_of [] = scrypt_params
params_of (x ∷ xs) = x ∷ xs

unfoldable pub to_dict : EnrollmentToken → Stored
to_dict e = record {
  client_name = some e.client_name;
  salt = some e.salt;
  token_hash = some e.token_hash;
  created_at = some e.created_at;
  expires_at = some e.expires_at;
  used_at = some e.used_at;
  scrypt = some (params_of e.scrypt);
}

abbrev get_or_zero : Option ℕ → ℕ
get_or_zero none = 0
get_or_zero (some n) = n

abbrev get_or_empty : Option (Dict ℕ) → Dict ℕ
get_or_empty none = []
get_or_empty (some d) = d

-- `none` where a required field is missing
unfoldable pub from_dict : Stored → Option EnrollmentToken
from_dict raw = do
  client_name ← raw.client_name
  salt ← raw.salt
  token_hash ← raw.token_hash
  some (record {
    client_name = client_name;
    salt = salt;
    token_hash = token_hash;
    created_at = get_or_zero raw.created_at;
    expires_at = get_or_zero raw.expires_at;
    used_at = get_or_zero raw.used_at;
    scrypt = get_or_empty raw.scrypt;
  })

abbrev keep_read : Option EnrollmentToken → List EnrollmentToken → List EnrollmentToken
keep_read none rest = rest
keep_read (some e) rest = e ∷ rest

-- A malformed entry is skipped.
unfoldable pub load : List Stored → List EnrollmentToken
load [] = []
load (raw ∷ rest) = keep_read (from_dict raw) (load rest)

unfoldable pub save : List EnrollmentToken → List Stored
save [] = []
save (e ∷ rest) = to_dict e ∷ save rest

-- The cutoff `now - _RETENTION_SECONDS` is moved to the other side of its comparisons.
abbrev pub is_stale : ℕ → EnrollmentToken → Bool
is_stale now e =
    used e && ltb (e.used_at + retention_seconds) now
    || not (used e) && ltb (e.expires_at + retention_seconds) now

unfoldable pub prune : List EnrollmentToken → ℕ → List EnrollmentToken
prune tokens now = filter (λ e. not (is_stale now e)) tokens

-- an unused token of the client
abbrev pub is_outstanding : String → EnrollmentToken → Bool
is_outstanding client_name e = str_eq e.client_name client_name && not (used e)

unfoldable pub drop_outstanding : String → List EnrollmentToken → List EnrollmentToken
drop_outstanding client_name tokens = filter (λ e. not (is_outstanding client_name e)) tokens

-- `int(params["n"])`, and so on
unfoldable pub required_params : Dict ℕ → Option ScryptParams
required_params d = do
  n ← Dict.lookup "n" d
  r ← Dict.lookup "r" d
  p ← Dict.lookup "p" d
  dklen ← Dict.lookup "dklen" d
  some (record { n = n; r = r; p = p; dklen = dklen })

module _ (scrypt : Scrypt) where
  digests_of : String → EnrollmentToken → Option (List ℕ × List ℕ)
  digests_of token e = do
    salt ← from_hex e.salt
    expected ← from_hex e.token_hash
    params ← required_params (params_of e.scrypt)
    digest ← scrypt token salt params
    some (digest, expected)

  -- An entry that does not hash is passed over.
  unfoldable pub matches : String → EnrollmentToken → Bool
  unfolding digests_of
  matches token e = elim (digests_of token e) [
    | none ↦ false
    | some (digest, expected) ↦ bytes_eq digest expected
  ]

  abbrev or_else : Option ℕ → ℕ → Bool → Option ℕ
  or_else (some j) i hit = some j
  or_else none i hit = if hit then some i else none

  -- the loop of `_find`, from entry number `i` on
  unfoldable pub find : String → ℕ → Option ℕ → List EnrollmentToken → Option ℕ
  find token i found [] = found
  find token i found (e ∷ rest) = find token (suc i) (or_else found i (matches token e)) rest

  -- The new token and its entry. `random` is `secrets.token_urlsafe(24)` and `salt` is
  -- `secrets.token_bytes(16)`. `none` where the time to live is not positive or the hash raises.
  unfoldable pub mint :
      (now : ℕ) (random : String) (salt : List ℕ) (client_name : String) (ttl_seconds : ℕ)
      → Option (String × EnrollmentToken)
  unfolding hash_secret
  mint now random salt client_name ttl_seconds =
      let token = concat ("ow_enroll_" ∷ random ∷ []) in
      if ltb ttl_seconds 1 then none else do
        digest ← hash_secret scrypt token salt
        some (
          token,
          record {
            client_name = client_name;
            salt = hex salt;
            token_hash = hex digest;
            created_at = now;
            expires_at = now + ttl_seconds;
            used_at = 0;
            scrypt = scrypt_params;
          },
        )

  unfoldable pub issue :
      (now : ℕ) (random : String) (salt : List ℕ) (client_name : String) (ttl_seconds : ℕ)
      → List EnrollmentToken
      → Option (String × List EnrollmentToken)
  issue now random salt client_name ttl_seconds tokens = do
    (token, entry) ← mint now random salt client_name ttl_seconds
    some (token, prune (drop_outstanding client_name tokens) now ++ entry ∷ [])

  -- the checks of `redeem` on the entry found at `i`, and its consumption
  consume :
      ℕ
      → ℕ
      → Option EnrollmentToken
      → List EnrollmentToken
      → Result EnrollmentError EnrollmentToken × List EnrollmentToken
  consume now i none tokens = (err token_unknown, tokens)
  consume now i (some e) tokens =
      if used e
      then (err token_already_used, tokens)
      else if expired now e
      then (err token_expired, tokens)
      else let redeemed = record e { used_at = now } in
        (ok redeemed, prune (set tokens i redeemed) now)

  unfoldable pub redeem :
      ℕ
      → String
      → List EnrollmentToken
      → Result EnrollmentError EnrollmentToken × List EnrollmentToken
  unfolding consume
  redeem now token tokens =
      if str_eq token "" then (err token_unknown, tokens) else elim (find token 0 none tokens) [
        | none ↦ (err token_unknown, tokens)
        | some i ↦ consume now i (get_elem? tokens i) tokens
      ]

unfoldable pub pending : ℕ → List EnrollmentToken → List EnrollmentToken
pending now tokens = filter (λ e. not (used e) && not (expired now e)) tokens

-- how many were dropped, and the store
unfoldable pub revoke : String → List EnrollmentToken → ℕ × List EnrollmentToken
revoke client_name tokens =
    let kept = drop_outstanding client_name tokens in (length tokens - length kept, kept)
