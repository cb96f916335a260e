-- ===== src/Client/Config/Parse.antt =====
-- The whole profile (`_parse` of client/outwarp/config.py). `lower` stands for `str.lower`.
use out_warp.Prelude.{ℕ, String, Bool, not, Option, none, some, List, Result, ok, ◌>>=◌, str_eq}
use out_warp.Client.Config.Json.{
  Value, number, text, object, Fields, end, ConfigError, get_default, require, as_object, in_range,
  Python, to_text,
}
use out_warp.Client.Config.Checks.{Addresses, parse_endpoint_list}
use out_warp.Client.Config.Sections.{
  ServerConfig, TlsConfig, TunnelConfig, EnrollmentConfig, WireguardConfig, ReconnectConfig,
  parse_server, parse_tls, parse_tunnel, parse_wireguard,
}
use out_warp.Client.Config.Optional.{
  fields_of, parse_enrollment, parse_reconnect, parse_network_mode,
}
use out_warp.Client.Config.Strategies.{FallbackConfig, parse_fallback}

-- The sections of `ClientConfig` that have no default, with the only field of `routing`.
pub record Required : Type 0 where
  pub server : ServerConfig
  pub tls : TlsConfig
  pub tunnel : TunnelConfig
  pub wireguard : WireguardConfig
  pub bypass_ips : List String

-- `ClientConfig`, with the only field of `network`.
pub record ProfileConfig : Type 0 where
  pub schema_version : ℕ
  pub required : Required
  pub reconnect : ReconnectConfig
  pub hostile_mode : String
  pub fallback : FallbackConfig
  pub enrollment : EnrollmentConfig
  pub name : String
  pub expires_at : String

abbrev pub schema_version : ℕ
schema_version = 4

module _ (py : Python) (ip : Addresses) (lower : String → String) where
  -- the date in `meta`
  unfoldable pub expiry : Option Fields → String
  expiry none = ""
  expiry (some meta) = to_text py (get_default meta "expires_at" (text ""))

  -- the routing section
  unfoldable pub parse_routing : Value → Result ConfigError (List String)
  parse_routing v = do
    routing ← as_object "routing" v
    bypass_value ← require routing "bypass_ips"
    parse_endpoint_list py ip "routing.bypass_ips" bypass_value

  -- the sections that a profile must have
  unfoldable pub parse_required : Bool → Fields → Result ConfigError Required
  unfolding parse_routing
  parse_required enrolling d = do
    server_value ← require d "server"
    server ← parse_server py ip server_value
    tls_value ← require d "tls"
    tls ← parse_tls py ip lower tls_value
    tunnel_value ← require d "tunnel"
    tunnel ← parse_tunnel py ip tunnel_value
    wireguard_value ← require d "wireguard"
    wireguard ← parse_wireguard py ip enrolling wireguard_value
    routing_value ← require d "routing"
    bypass_ips ← parse_routing routing_value
    ok (record {
      server = server;
      tls = tls;
      tunnel = tunnel;
      wireguard = wireguard;
      bypass_ips = bypass_ips;
    })

  -- `_parse`
  unfoldable pub parse : Value → Result ConfigError ProfileConfig
  unfolding expiry parse_enrollment parse_required parse_reconnect parse_network_mode parse_fallback
  parse raw = do
    d ← as_object "root" raw
    version ← in_range 1 schema_version "schema_version" (get_default d "schema_version" (number 1))
    enrollment ← parse_enrollment py (get_default d "enrollment" (object end))
    required ← parse_required (not (str_eq enrollment.token "")) d
    reconnect ← parse_reconnect py (get_default d "reconnect" (object end))
    hostile_mode ← parse_network_mode lower (get_default d "network" (object end))
    fallback ← parse_fallback py ip lower (get_default d "fallback" (object end))
    ok (record {
      schema_version = version;
      required = required;
      reconnect = reconnect;
      hostile_mode = hostile_mode;
      fallback = fallback;
      enrollment = enrollment;
      name = to_text py (get_default d "name" (text ""));
      expires_at = expiry (fields_of (get_default d "meta" (object end)));
    })
