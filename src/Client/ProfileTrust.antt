-- ===== src/Client/ProfileTrust.antt =====
-- client/outwarp/profile_trust.py: the signature of a profile, and the key that is remembered for its
-- server, with the import that asks for them (`import_owcfg_text_with_verdict` of config.py, up to
-- enrolment). The file known_servers.json is the JSON object that reads from it. `canonical` stands
-- for `json.dumps` with sorted keys, encoded.
pub mod Keys
pub mod Laws
mod Examples
use out_warp.Prelude.{
  ℕ, String, Bool, true, false, not, ◌&&◌, ◌||◌, Option, none, some, List, [], ◌∷◌, Result, ok, err,
  ◌>>=◌, str_eq, if◌then◌else◌,
}
use out_warp.Client.Config.Json.{
  Value, null, boolean, number, minus, real, text, array, object, Fields, end, field, get,
  get_default, ConfigError, invalid, Python, to_text, to_bool,
}
use out_warp.Client.Config.Checks.{Addresses}
use out_warp.Client.Config.Optional.{fields_of}
use out_warp.Client.Config.Parse.{ProfileConfig, parse}
use out_warp.Client.Minisign.{Library, verify}
use out_warp.Client.Manager.{is_expired}

pub data Status : Type 0 where
  verified unverified key_rotated : Status

-- `attribute_error` is Python's, where `server` is true and no object; `os_error` is that of `mkdir`.
pub data TrustError : Type 0 where
  unsigned not_an_object incomplete attribute_error os_error : TrustError
  bad_signature : TrustError

-- How a write of the file ends. `torn` leaves what is no JSON, since the old text goes first; it reads
-- as no known server.
pub data Write : Type 0 where
  written kept torn : Write

-- What a call finds: whether the directory can be made, and how a write ends.
pub record Disk : Type 0 where
  pub can_make : Bool
  pub write : Write

-- `known[key] = value`
unfoldable pub set : String → Value → Fields → Fields
set key v end = field key v end
set key v (field k w rest) =
    let later = set key v rest in if str_eq k key then field k v rest else field k w later

-- `{k: v for k, v in raw.items() if k != key}`
unfoldable pub without : String → Fields → Fields
without key end = end
without key (field k v rest) =
    let later = without key rest in if str_eq k key then later else field k v later

abbrev pub is_some {ℓ} : {A : Type ℓ} → Option A → Bool
is_some none = false
is_some (some a) = true

abbrev pub after_write : Write → (new old : Fields) → Fields
after_write written new old = new
after_write kept new old = old
after_write torn new old = end

-- `_pin`; a write that fails is passed over
unfoldable pub pin : Disk → String → String → Fields → Option Fields
unfolding set
pin disk endpoint public_key known =
    if disk.can_make
    then some (after_write disk.write (set endpoint (text public_key) known) known)
    else none

abbrev pub Outcome : Type 0
Outcome = Result TrustError Status × Fields

-- what `previous` says of the key that made the signature
unfoldable pub compare_key : Disk → String → String → Option Value → Fields → Outcome
unfolding pin
compare_key disk endpoint public_key none known = elim (pin disk endpoint public_key known) [
  | none ↦ (err os_error, known)
  | some known' ↦ (ok verified, known')
]
compare_key disk endpoint public_key (some null) known = elim (pin disk endpoint public_key known) [
  | none ↦ (err os_error, known)
  | some known' ↦ (ok verified, known')
]
compare_key disk endpoint public_key (some (text previous)) known =
    (ok (if str_eq previous public_key then verified else key_rotated), known)
compare_key disk endpoint public_key (some (boolean b)) known = (ok key_rotated, known)
compare_key disk endpoint public_key (some (number n)) known = (ok key_rotated, known)
compare_key disk endpoint public_key (some (minus n)) known = (ok key_rotated, known)
compare_key disk endpoint public_key (some (real s)) known = (ok key_rotated, known)
compare_key disk endpoint public_key (some (array xs)) known = (ok key_rotated, known)
compare_key disk endpoint public_key (some (object d)) known = (ok key_rotated, known)

module _ (py : Python) (lib : Library) (canonical : Fields → List ℕ) where
  abbrev falsy : Value → Option String
  falsy v = if to_bool py v then none else some ""

  -- `(server or {}).get("endpoint", "")`
  unfoldable pub named_by : Value → Option String
  named_by (object d) = some (to_text py (get_default d "endpoint" (text "")))
  named_by null = falsy null
  named_by (boolean b) = falsy (boolean b)
  named_by (number n) = falsy (number n)
  named_by (minus n) = falsy (minus n)
  named_by (real s) = falsy (real s)
  named_by (text s) = falsy (text s)
  named_by (array xs) = falsy (array xs)

  -- the endpoint that the profile names, `none` where Python raises
  unfoldable pub endpoint_of : Fields → Option String
  unfolding named_by
  endpoint_of raw = named_by (get_default raw "server" (object end))

  -- a profile without a signature
  unfoldable pub accept_unsigned : String → Fields → Result TrustError Status
  accept_unsigned endpoint known =
      if not (str_eq endpoint "") && is_some (get endpoint known)
      then err unsigned
      else ok unverified

  -- a profile with the signature `signing`
  unfoldable pub accept_signed : Disk → String → Fields → Fields → Fields → Outcome
  unfolding compare_key without
  accept_signed disk endpoint raw signing known =
      let public_key = to_text py (get_default signing "public_key" (text "")) in
      let signature = to_text py (get_default signing "signature" (text "")) in
      if str_eq public_key "" || str_eq signature ""
      then (err incomplete, known)
      else elim (verify lib (canonical (without "signing" raw)) signature public_key) [
        | err e ↦ (err bad_signature, known)
        | ok u ↦
            if str_eq endpoint ""
            then (ok verified, known)
            else compare_key disk endpoint public_key (get endpoint known) known
      ]

  unfoldable pub accept_for : Disk → String → Fields → Value → Fields → Outcome
  unfolding accept_unsigned accept_signed
  accept_for disk endpoint raw signing known =
      if not (to_bool py signing)
      then (accept_unsigned endpoint known, known)
      else elim (fields_of signing) [
        | none ↦ (err not_an_object, known)
        | some d ↦ accept_signed disk endpoint raw d known
      ]

  unfoldable pub accept_named : Disk → Fields → Option String → Fields → Outcome
  unfolding accept_for
  accept_named disk raw none known = (err attribute_error, known)
  accept_named disk raw (some endpoint) known =
      accept_for disk endpoint raw (get_default raw "signing" null) known

  -- `verify_and_pin` of an object
  unfoldable pub verify_and_pin : Disk → Fields → Fields → Outcome
  unfolding endpoint_of accept_named
  verify_and_pin disk raw known = accept_named disk raw (endpoint_of raw) known

  unfoldable pub verify_fields : Disk → Option Fields → Fields → Outcome
  unfolding verify_and_pin
  verify_fields disk none known = (ok unverified, known)
  verify_fields disk (some raw) known = verify_and_pin disk raw known

  -- `verify_and_pin`
  unfoldable pub verify_value : Disk → Value → Fields → Outcome
  unfolding verify_fields
  verify_value disk v known = verify_fields disk (fields_of v) known

pub data ImportError : Type 0 where
  distrusted : TrustError → ImportError
  unparsed : ConfigError → ImportError
  expired : String → ImportError

module _ (py : Python) (lib : Library) (canonical : Fields → List ℕ) (ip : Addresses)
    (lower : String → String) where
  -- the profile that is parsed, unless it has expired
  unfoldable pub parsed : String → Value → Result ImportError ProfileConfig
  unfolding is_expired
  parsed today raw = elim (parse py ip lower raw) [
    | err e ↦ err (unparsed e)
    | ok p ↦ if is_expired p.expires_at today then err (expired p.expires_at) else ok p
  ]

  unfoldable pub with_verdict :
      String → Value → Result TrustError Status → Result ImportError (ProfileConfig × Status)
  unfolding parsed
  with_verdict today raw (err e) = err (distrusted e)
  with_verdict today raw (ok status) = do p ← parsed today raw; ok (p, status)

  -- `import_owcfg_text_with_verdict`, up to the enrolment of the profile
  unfoldable pub import_owcfg :
      Disk → String → Value → Fields → Result ImportError (ProfileConfig × Status) × Fields
  unfolding verify_value with_verdict
  import_owcfg disk today raw known =
      let (verdict, known') = verify_value py lib canonical disk raw known in
      (with_verdict today raw verdict, known')
