-- ===== src/Server/Config.antt =====
-- server/outwarp_server/config.py: the server's configuration, parsed from the JSON value of
-- server_config.json (`_parse`) and written back to it (`_to_dict`). `digit` stands for the characters
-- that `\d` matches; a pattern that ends in `$` also matches before a line feed that ends the text.
pub mod Dict
pub mod Roundtrip
use out_warp.Prelude.{
  ℕ, zero, suc, String, Bool, true, false, not, ◌&&◌, ◌||◌, Option, none, some, List, [], ◌∷◌,
  Result, ok, err, ◌>>=◌, ◌==◌, str_eq, if◌then◌else◌,
}
use Prim.Native.Char.{code}
use out_warp.Prelude.Text.{split, str_len}
use out_warp.Server.ClientNames.{validate_client_name, is_space}
use out_warp.Server.ClientStore.{ClientEntry, ClientState, active, disabled, revoked, is_active}
use out_warp.Server.EnrollServer.{is_wg_key}
use out_warp.Client.Config.Json.{
  Value, null, boolean, number, minus, real, text, array, object, Items, nil, cons, Fields, end,
  field, ConfigError, invalid, require, get_default, ensure, as_object, as_nat, in_range, Python,
  to_text,
}
use out_warp.Client.Config.Checks.{
  chomp, all_chars, between, is_alphanumeric, is_hex_char, is_label_char, first_char, last_char,
  matches_path_prefix, Addresses,
}
use out_warp.Client.Config.Sections.{as_items, passes_if_given}
use out_warp.Client.Config.Dict.{given}

pub record ServerConfig : Type 0 where
  pub schema_version : ℕ
  pub endpoint : String
  pub port : ℕ
  pub http_upgrade_path_prefix : String
  pub cert_path : String
  pub key_path : String
  pub cert_fingerprint_sha256 : String
  pub wg_private_key : String
  pub wg_public_key : String
  pub subnet : String
  pub server_address : String
  pub wg_listen_port : ℕ
  pub spki_sha256 : String
  pub tls_mode : String
  pub internal_ws_port : ℕ
  pub acme_email : String
  pub enroll_port : ℕ
  pub owcfg_signing_key_id : String
  pub owcfg_signing_private_key : String
  pub owcfg_signing_public_key : String
  pub clients : List ClientEntry

-- `behind_reverse_proxy`
abbrev pub behind_reverse_proxy : ServerConfig → Bool
behind_reverse_proxy cfg = str_eq cfg.tls_mode "acme"

matches_host_label : String → Bool
unfolding all_chars last_char
matches_host_label s =
    between 1 63 (str_len s)
    && is_alphanumeric (first_char s)
    && is_alphanumeric (last_char s)
    && all_chars is_label_char s

all_host_labels : List String → Bool
unfolding matches_host_label
all_host_labels [] = true
all_host_labels (l ∷ ls) = matches_host_label l && all_host_labels ls

-- _HOSTNAME_RE
unfoldable pub matches_hostname : String → Bool
unfolding all_host_labels chomp
matches_hostname s = between 1 253 (str_len (chomp s)) && all_host_labels (split b'.' (chomp s))

-- `_is_valid_host`
unfoldable pub is_valid_host : Addresses → String → Bool
unfolding matches_hostname
is_valid_host ip s = ip.is_ip_address s || matches_hostname s

-- [^\s{}"']
is_email_char : ℕ → Bool
unfolding is_space
is_email_char c = not (is_space c || c == b'{' || c == b'}' || c == b'"' || c == 39)

-- a full stop with something behind it
dot_inside : String → Bool
dot_inside String.[] = false
dot_inside (String.◌∷◌ c s) = (code c == b'.' && not (str_eq s "")) || dot_inside s

after_at : String → Bool
unfolding dot_inside
after_at String.[] = false
after_at (String.◌∷◌ c s) = dot_inside s

has_at : String → Bool
unfolding after_at
has_at String.[] = false
has_at (String.◌∷◌ c s) = (code c == b'@' && after_at s) || has_at s

has_domain : String → Bool
unfolding has_at
has_domain String.[] = false
has_domain (String.◌∷◌ c s) = has_at s

-- _EMAIL_RE
unfoldable pub matches_email : String → Bool
unfolding is_email_char has_domain chomp all_chars
matches_email s = all_chars is_email_char (chomp s) && has_domain (chomp s)

-- _HEX8_RE
unfoldable pub matches_key_id : String → Bool
unfolding chomp all_chars
matches_key_id s = str_len (chomp s) == 16 && all_chars is_hex_char (chomp s)

-- the pattern `0000-00-00`, where 0 stands for a digit
matches_digits : (ℕ → Bool) → String → String → Bool
matches_digits digit String.[] s = str_eq s ""
matches_digits digit (String.◌∷◌ p ps) String.[] = false
matches_digits digit (String.◌∷◌ p ps) (String.◌∷◌ c s) =
    (if code p == b'0' then digit (code c) else code c == code p) && matches_digits digit ps s

-- _EXPIRES_AT_RE
unfoldable pub matches_date : (ℕ → Bool) → String → Bool
unfolding matches_digits chomp
matches_date digit s = matches_digits digit "0000-00-00" (chomp s)

-- `state in _CLIENT_STATES`
abbrev pub state_of : String → Option ClientState
state_of s =
    if str_eq s "active"
    then some active
    else if str_eq s "disabled"
    then some disabled
    else if str_eq s "revoked"
    then some revoked
    else none

abbrev pub found {ℓ} : {A : Type ℓ} → String → Option A → Result ConfigError A
found label none = err (invalid label)
found label (some a) = ok a

-- `version != _SCHEMA_VERSION`, where 1.0 counts as 1
unfoldable pub is_version : Python → Value → Bool
unfolding as_nat
is_version py (real s) = py.is_one s
is_version py (number n) = n == 1
is_version py (boolean b) = b
is_version py null = false
is_version py (minus n) = false
is_version py (text s) = false
is_version py (array xs) = false
is_version py (object d) = false

module _ (py : Python) (ip : Addresses) (digit : ℕ → Bool) where
  -- `_parse_client_entry`
  unfoldable pub parse_client_entry : Value → Result ConfigError ClientEntry
  parse_client_entry c = do
    d ← as_object "clients[]" c
    raw_name ← require d "name"
    name ← found "clients[]" (validate_client_name (to_text py raw_name))
    public_key ← require d "public_key"
    _ ← ensure (passes_if_given is_wg_key (to_text py public_key)) "public_key"
    address ← require d "address"
    _ ← ensure (ip.is_ip_interface (to_text py address)) "address"
    let psk = to_text py (get_default d "psk" (text ""))
    _ ← ensure (passes_if_given is_wg_key psk) "psk"
    let expires_at = to_text py (get_default d "expires_at" (text ""))
    _ ← ensure (passes_if_given (matches_date digit) expires_at) "expires_at"
    state ← found "state" (state_of (to_text py (get_default d "state" (text "active"))))
    let enrolled_at = to_text py (get_default d "enrolled_at" (text ""))
    _ ← ensure (passes_if_given (matches_date digit) enrolled_at) "enrolled_at"
    ok (record {
      name = name;
      public_key = to_text py public_key;
      address = to_text py address;
      psk = psk;
      expires_at = expires_at;
      state = state;
      enrolled_at = enrolled_at;
    })

  unfoldable pub parse_clients : Items → Result ConfigError (List ClientEntry)
  unfolding parse_client_entry
  parse_clients nil = ok []
  parse_clients (cons c cs) = do
    entry ← parse_client_entry c
    rest ← parse_clients cs
    ok (entry ∷ rest)

  -- `_parse`
  unfoldable pub parse : Value → Result ConfigError ServerConfig
  unfolding parse_clients is_version
  parse v = do
    raw ← as_object "root" v
    _ ← ensure (is_version py (get_default raw "schema_version" (number 1))) "schema_version"
    port_value ← require raw "port"
    port ← in_range 1 65535 "port" port_value
    listen_value ← require raw "wg_listen_port"
    wg_listen_port ← in_range 1 65535 "wg_listen_port" listen_value
    let tls_mode = to_text py (get_default raw "tls_mode" (text "self-signed"))
    _ ← ensure (str_eq tls_mode "self-signed" || str_eq tls_mode "acme") "tls_mode"
    internal_ws_port ←
        in_range 1 65535 "internal_ws_port" (get_default raw "internal_ws_port" (number 8080))
    enroll_port ← in_range 1 65535 "enroll_port" (get_default raw "enroll_port" (number 8444))
    subnet ← require raw "subnet"
    _ ← ensure (ip.is_ip_network (to_text py subnet)) "subnet"
    server_address ← require raw "server_address"
    _ ← ensure (ip.is_ip_interface (to_text py server_address)) "server_address"
    endpoint ← require raw "endpoint"
    _ ← ensure (is_valid_host ip (to_text py endpoint)) "endpoint"
    prefix ← require raw "http_upgrade_path_prefix"
    _ ← ensure (matches_path_prefix (to_text py prefix)) "http_upgrade_path_prefix"
    let acme_email = to_text py (get_default raw "acme_email" (text ""))
    _ ← ensure (passes_if_given matches_email acme_email) "acme_email"
    listed ← as_items "clients" (get_default raw "clients" (array nil))
    clients ← parse_clients listed
    cert_path ← require raw "cert_path"
    key_path ← require raw "key_path"
    fingerprint ← require raw "cert_fingerprint_sha256"
    private_key ← require raw "wg_private_key"
    public_key ← require raw "wg_public_key"
    let key_id = to_text py (get_default raw "owcfg_signing_key_id" (text ""))
    _ ← ensure (passes_if_given matches_key_id key_id) "owcfg_signing_key_id"
    ok (record {
      schema_version = 1;
      endpoint = to_text py endpoint;
      port = port;
      http_upgrade_path_prefix = to_text py prefix;
      cert_path = to_text py cert_path;
      key_path = to_text py key_path;
      cert_fingerprint_sha256 = to_text py fingerprint;
      wg_private_key = to_text py private_key;
      wg_public_key = to_text py public_key;
      subnet = to_text py subnet;
      server_address = to_text py server_address;
      wg_listen_port = wg_listen_port;
      spki_sha256 = to_text py (get_default raw "spki_sha256" (text ""));
      tls_mode = tls_mode;
      internal_ws_port = internal_ws_port;
      acme_email = acme_email;
      enroll_port = enroll_port;
      owcfg_signing_key_id = key_id;
      owcfg_signing_private_key =
          to_text py (get_default raw "owcfg_signing_private_key" (text ""));
      owcfg_signing_public_key = to_text py (get_default raw "owcfg_signing_public_key" (text ""));
      clients = clients;
    })
