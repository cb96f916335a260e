-- ===== src/Client/Config/Sections.antt =====
-- The sections of a profile (`_parse_server` and its kin of client/outwarp/config.py).
use mathlib.Core.List.{◌++◌ as append}
use out_warp.Prelude.{
  ℕ, String, Bool, not, ◌&&◌, ◌||◌, none, some, List, [], ◌∷◌, Result, ok, err, ◌>>=◌, leb, ◌==◌,
  str_eq, if◌then◌else◌, any,
}
use out_warp.Server.ClientNames.{strip}
use out_warp.Server.EnrollServer.{is_wg_key}
use out_warp.Client.Config.Json.{
  Value, null, boolean, number, minus, real, text, array, object, Items, nil, cons, Fields,
  ConfigError, invalid, require, get_default, ensure, as_object, in_range, Python, to_text, to_int,
}
use out_warp.Client.Config.Checks.{
  matches_path_prefix, matches_tunnel_name, matches_fingerprint, Addresses, is_valid_host,
  parse_ip_list,
}

pub record ServerConfig : Type 0 where
  pub endpoint : String
  pub port : ℕ
  pub http_upgrade_path_prefix : String
  pub fallback_ports : List ℕ

pub record TlsConfig : Type 0 where
  pub cert_fingerprint_sha256 : String
  pub verify : String
  pub spki_sha256 : String

pub record TunnelConfig : Type 0 where
  pub local_port : ℕ
  pub remote_host : String
  pub remote_port : ℕ

pub record EnrollmentConfig : Type 0 where
  pub token : String
  pub url : String
  pub remote_port : ℕ

pub record WireguardConfig : Type 0 where
  pub tunnel_name : String
  pub client_address : String
  pub client_private_key : String
  pub server_public_key : String
  pub dns : List String
  pub mtu : ℕ
  pub preshared_key : String

pub record ReconnectConfig : Type 0 where
  pub max_attempts : ℕ
  pub delays_seconds : List ℕ

-- the entries of `fallback_ports` that are new
abbrev has_port : ℕ → List ℕ → Bool
has_port p ports = any (λ q. p == q) ports

-- the loop over `fallback_ports`, `ports` those so far
unfoldable pub parse_ports : ℕ → List ℕ → Items → Result ConfigError (List ℕ)
parse_ports port ports nil = ok ports
parse_ports port ports (cons v xs) = do
  p ← in_range 1 65535 "server.fallback_ports" v
  parse_ports port (if p == port || has_port p ports then ports else append ports (p ∷ [])) xs

-- `isinstance(x, list)`
unfoldable pub as_items : String → Value → Result ConfigError Items
as_items label (array xs) = ok xs
as_items label null = err (invalid label)
as_items label (boolean b) = err (invalid label)
as_items label (number n) = err (invalid label)
as_items label (minus n) = err (invalid label)
as_items label (real s) = err (invalid label)
as_items label (text s) = err (invalid label)
as_items label (object d) = err (invalid label)

-- an empty text, or one that passes
abbrev pub passes_if_given : (String → Bool) → String → Bool
passes_if_given test s = str_eq s "" || test s

module _ (py : Python) (ip : Addresses) where
  unfoldable pub parse_server : Value → Result ConfigError ServerConfig
  parse_server v = do
    d ← as_object "server" v
    endpoint ← require d "endpoint"
    _ ← ensure (is_valid_host ip (to_text py endpoint)) "server.endpoint"
    port ← require d "port"
    prefix ← require d "http_upgrade_path_prefix"
    _ ← ensure (matches_path_prefix (to_text py prefix)) "server.http_upgrade_path_prefix"
    port_number ← in_range 1 65535 "server.port" port
    listed ← as_items "server.fallback_ports" (get_default d "fallback_ports" (array nil))
    ports ← parse_ports port_number [] listed
    ok (record {
      endpoint = to_text py endpoint;
      port = port_number;
      http_upgrade_path_prefix = to_text py prefix;
      fallback_ports = ports;
    })

  unfoldable pub parse_tls : (String → String) → Value → Result ConfigError TlsConfig
  parse_tls lower v = do
    d ← as_object "tls" v
    let verify = lower (strip (to_text py (get_default d "verify" (text "pin"))))
    let spki = to_text py (get_default d "spki_sha256" (text ""))
    let fp = to_text py (get_default d "cert_fingerprint_sha256" (text ""))
    _ ← ensure (str_eq verify "pin" || str_eq verify "ca") "tls.verify"
    _ ← ensure (passes_if_given matches_fingerprint spki) "tls.spki_sha256"
    _ ← ensure (not (str_eq verify "pin" && str_eq fp "" && str_eq spki "")) "tls"
    _ ← ensure (passes_if_given matches_fingerprint fp) "tls.cert_fingerprint_sha256"
    ok (record { cert_fingerprint_sha256 = fp; verify = verify; spki_sha256 = spki })

  unfoldable pub parse_tunnel : Value → Result ConfigError TunnelConfig
  parse_tunnel v = do
    d ← as_object "tunnel" v
    local ← require d "local_port"
    host ← require d "remote_host"
    remote ← require d "remote_port"
    local_port ← in_range 1 65535 "tunnel.local_port" local
    remote_port ← in_range 1 65535 "tunnel.remote_port" remote
    _ ← ensure (is_valid_host ip (to_text py host)) "tunnel.remote_host"
    ok (record {
      local_port = local_port;
      remote_host = to_text py host;
      remote_port = remote_port;
    })

  -- `int(…)` within the bounds
  unfoldable pub int_within : ℕ → ℕ → String → Value → Result ConfigError ℕ
  int_within low high label v = elim (to_int py v) [
    | none ↦ err (invalid label)
    | some n ↦ if leb low n && leb n high then ok n else err (invalid label)
  ]

  -- the key, which a profile that is still to be enrolled may lack
  unfoldable pub private_key_of : Bool → Fields → Result ConfigError Value
  private_key_of enrolling d =
      if enrolling
      then ok (get_default d "client_private_key" (text ""))
      else require d "client_private_key"

  unfoldable pub parse_wireguard : Bool → Value → Result ConfigError WireguardConfig
  parse_wireguard enrolling v = do
    d ← as_object "wireguard" v
    mtu ← int_within 576 1500 "wireguard.mtu" (get_default d "mtu" (number 1380))
    private_key ← private_key_of enrolling d
    _ ← ensure (passes_if_given is_wg_key (to_text py private_key)) "wireguard.client_private_key"
    public_key ← require d "server_public_key"
    _ ← ensure (is_wg_key (to_text py public_key)) "wireguard.server_public_key"
    let psk = to_text py (get_default d "preshared_key" (text ""))
    _ ← ensure (passes_if_given is_wg_key psk) "wireguard.preshared_key"
    name ← require d "tunnel_name"
    _ ← ensure (matches_tunnel_name (to_text py name)) "wireguard.tunnel_name"
    address ← require d "client_address"
    _ ← ensure (ip.is_ip_interface (to_text py address)) "wireguard.client_address"
    dns ←
        parse_ip_list py ip "wireguard.dns"
          (get_default d "dns" (array (cons (text "1.1.1.1") nil)))
    ok (record {
      tunnel_name = to_text py name;
      client_address = to_text py address;
      client_private_key = to_text py private_key;
      server_public_key = to_text py public_key;
      dns = dns;
      mtu = mtu;
      preshared_key = psk;
    })
