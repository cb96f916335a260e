-- ===== src/Client/Config/Dict.antt =====
-- The JSON value of a profile (`_to_dict` and `_fallback_to_dict` of client/outwarp/config.py). A
-- field that the source adds later stands at its section's end.
pub mod Given
pub mod Roundtrip
use out_warp.Prelude.{
  ℕ, String, Bool, true, false, not, ◌&&◌, ◌||◌, List, [], ◌∷◌, ◌==◌, str_eq, if◌then◌else◌,
}
use out_warp.Client.Fallback.{StrategyConfig}
use out_warp.Client.Config.Json.{
  Value, number, text, boolean, array, object, Items, nil, cons, Fields, end, field,
}
use out_warp.Client.Config.Sections.{
  ServerConfig, TlsConfig, TunnelConfig, EnrollmentConfig, WireguardConfig, ReconnectConfig,
}
use out_warp.Client.Config.Strategies.{FallbackConfig}
use out_warp.Client.Config.Parse.{ProfileConfig}

-- `if wanted: d[key] = value`
unfoldable pub given : Bool → String → Value → Fields → Fields
given wanted key v rest = if wanted then field key v rest else rest

-- a text that is not blank
abbrev given_text : String → String → Fields → Fields
given_text key s rest = given (not (str_eq s "")) key (text s) rest

-- a number other than 0
abbrev given_number : String → ℕ → Fields → Fields
given_number key n rest = given (not (n == 0)) key (number n) rest

unfoldable pub texts : List String → Items
texts [] = nil
texts (s ∷ ss) = cons (text s) (texts ss)

unfoldable pub numbers : List ℕ → Items
numbers [] = nil
numbers (n ∷ ns) = cons (number n) (numbers ns)

abbrev pub is_nil : Items → Bool
is_nil nil = true
is_nil (cons v xs) = false

unfoldable pub strategy_to_dict : StrategyConfig → Value
unfolding given texts
strategy_to_dict s = object (
    field "id" (text s.id) (
      given_text "endpoint" s.endpoint (
        given_number "port" s.port (
          given (not (str_eq s.scheme "wss")) "scheme" (text s.scheme) (
            given_text "sni_override" s.sni_override (
              given_text "host_header" s.host_header (
                given_text "user_agent" s.user_agent (
                  given_text "path_prefix" s.path_prefix (
                    given_text "proxy" s.proxy (
                      given (not (str_eq s.pin_mode "pin")) "pin_mode" (text s.pin_mode) (
                        given s.force_hostile "force_hostile" (boolean true) (
                          given (not (is_nil (texts s.bypass_ips))) "bypass_ips"
                            (array (texts s.bypass_ips)) end))))))))))))

unfoldable pub strategies_to_dict : List StrategyConfig → Items
unfolding strategy_to_dict
strategies_to_dict [] = nil
strategies_to_dict (s ∷ ss) = cons (strategy_to_dict s) (strategies_to_dict ss)

unfoldable pub fallback_to_dict : FallbackConfig → Value
unfolding given strategies_to_dict
fallback_to_dict fb =
    let strategies = strategies_to_dict fb.strategies in
    object (
      field "enabled" (boolean fb.enabled)
        (given (not (is_nil strategies)) "strategies" (array strategies) end))

unfoldable pub server_to_dict : ServerConfig → Value
unfolding given numbers
server_to_dict s =
    let ports = numbers s.fallback_ports in
    object (
      field "endpoint" (text s.endpoint) (
        field "port" (number s.port) (
          field "http_upgrade_path_prefix" (text s.http_upgrade_path_prefix)
            (given (not (is_nil ports)) "fallback_ports" (array ports) end))))

unfoldable pub tls_to_dict : TlsConfig → Value
unfolding given
tls_to_dict t = object (
    field "cert_fingerprint_sha256" (text t.cert_fingerprint_sha256) (
      given (not (str_eq t.verify "pin")) "verify" (text t.verify)
        (given_text "spki_sha256" t.spki_sha256 end)))

unfoldable pub tunnel_to_dict : TunnelConfig → Value
tunnel_to_dict t = object (
    field "local_port" (number t.local_port)
      (field "remote_host" (text t.remote_host) (field "remote_port" (number t.remote_port) end)))

unfoldable pub wireguard_to_dict : WireguardConfig → Value
unfolding given texts
wireguard_to_dict w = object (
    field "tunnel_name" (text w.tunnel_name) (
      field "client_address" (text w.client_address) (
        field "client_private_key" (text w.client_private_key) (
          field "server_public_key" (text w.server_public_key) (
            field "dns" (array (texts w.dns))
              (field "mtu" (number w.mtu) (given_text "preshared_key" w.preshared_key end)))))))

unfoldable pub reconnect_to_dict : ReconnectConfig → Value
unfolding numbers
reconnect_to_dict r = object (
    field "max_attempts" (number r.max_attempts)
      (field "delays_seconds" (array (numbers r.delays_seconds)) end))

unfoldable pub enrollment_to_dict : EnrollmentConfig → Value
unfolding given
enrollment_to_dict e = object (
    field "token" (text e.token)
      (given_number "remote_port" e.remote_port (given_text "url" e.url end)))

-- whether there is an enrolment to write
abbrev pub has_enrollment : EnrollmentConfig → Bool
has_enrollment e = not (str_eq e.token "") || not (str_eq e.url "") || not (e.remote_port == 0)

unfoldable pub to_dict : ProfileConfig → Value
unfolding given texts fallback_to_dict server_to_dict tls_to_dict tunnel_to_dict wireguard_to_dict
    reconnect_to_dict enrollment_to_dict strategies_to_dict
to_dict cfg = object (
    field "schema_version" (number cfg.schema_version) (
      field "name" (text cfg.name) (
        field "server" (server_to_dict cfg.required.server) (
          field "tls" (tls_to_dict cfg.required.tls) (
            field "tunnel" (tunnel_to_dict cfg.required.tunnel) (
              field "wireguard" (wireguard_to_dict cfg.required.wireguard) (
                field "routing"
                  (object (field "bypass_ips" (array (texts cfg.required.bypass_ips)) end))
                  (field "reconnect" (reconnect_to_dict cfg.reconnect) (
                    field "network" (object (field "hostile_mode" (text cfg.hostile_mode) end)) (
                      given
                        (not (is_nil (strategies_to_dict cfg.fallback.strategies))
                          || not cfg.fallback.enabled)
                        "fallback" (fallback_to_dict cfg.fallback)
                        (given (has_enrollment cfg.enrollment) "enrollment"
                          (enrollment_to_dict cfg.enrollment)
                          (given (not (str_eq cfg.expires_at "")) "meta"
                            (object (field "expires_at" (text cfg.expires_at) end)) end))))))))))))
