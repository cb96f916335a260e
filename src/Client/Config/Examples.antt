-- ===== src/Client/Config/Examples.antt =====
-- A profile as a server issues it, and the theorem at it. Plain texts of digits and dots stand for what
-- ipaddress accepts.
use out_warp.Prelude.Text.{split}
use out_warp.Prelude.{
  ◌∷◌, filter, ◌≡◌, refl, String, Bool, false, ◌&&◌, none, [], ok, err, any, leb,
}
use out_warp.Client.Config.Json.{
  Fields, Value, number, text, array, object, nil, cons, end, field, get, require, get_default,
  ensure, as_object, as_nat, in_range, Python, to_text, to_int, to_bool,
}
use out_warp.Client.Config.Checks.{
  Addresses, all_chars, chomp, matches_path_prefix, matches_tunnel_name, matches_fingerprint,
  has_control_chars, is_hostname, is_valid_host, has_slash, is_plain_address, is_endpoint,
  split_list, all_pass, parse_ip_list, parse_endpoint_list,
}
use out_warp.Client.Config.Sections.{
  parse_server, parse_ports, parse_tls, parse_tunnel, parse_wireguard, int_within, private_key_of,
  as_items,
}
use out_warp.Client.Config.Optional.{
  starts_with, parse_enrollment, parse_delays, reconnect_fields, parse_reconnect, mode_of,
  parse_network_mode,
}
use out_warp.Client.Config.Strategies.{
  only_texts, parse_strategy, parse_strategies, fallback_fields, parse_fallback,
}
use out_warp.Client.Config.Parse.{ProfileConfig, expiry, parse_routing, parse_required, parse}
use out_warp.Client.Config.Valid.Whole.{IsProfile, parse-IsProfile}
use out_warp.Client.Config.Dict.{
  to_dict, given, texts, numbers, strategy_to_dict, strategies_to_dict, fallback_to_dict,
  server_to_dict, tls_to_dict, tunnel_to_dict, wireguard_to_dict, reconnect_to_dict,
  enrollment_to_dict,
}
use out_warp.Client.Config.Patch.{apply_profile_patch, patched, new_name}
use out_warp.Client.Config.Patch.Laws.{HaveSameServer, apply_profile_patch-IsProfile}
use out_warp.Server.ClientNames.{strip}
use out_warp.Server.EnrollServer.{is_wg_key}

abbrev pub python : Python
python = record { str_of = λ v. ""; int_of = λ v. none; is_zero = λ s. false; is_one = λ s. false }

-- digits, dots and a slash
abbrev looks_numeric : String → Bool
looks_numeric s = all_chars (λ c. leb b'.' c && leb c b'9') s

abbrev pub ip : Addresses
ip = record {
  is_ip_address = looks_numeric;
  is_ip_network = looks_numeric;
  is_ip_interface = looks_numeric;
}

abbrev pub key : String
key = "AAAAAAAAAAAAAAAAAAAAAAAAAAAAAAAAAAAAAAAAAAA="

abbrev pub fingerprint : String
fingerprint =
    "00:11:22:33:44:55:66:77:88:99:AA:BB:CC:DD:EE:FF:00:11:22:33:44:55:66:77:88:99:AA:BB:CC:DD:EE:FF"

abbrev pub raw : Value
raw = object (
    field "schema_version" (number 4) (
      field "server"
        (object (
          field "endpoint" (text "vpn.example.org") (
            field "port" (number 443) (
              field "http_upgrade_path_prefix" (text "tunnel") (
                field "fallback_ports" (array (cons (number 8443) (cons (number 443) nil))) end)))))
        (field "tls" (object (field "cert_fingerprint_sha256" (text fingerprint) end)) (
          field "tunnel"
            (object (
              field "local_port" (number 51820)
                (field "remote_host" (text "127.0.0.1") (field "remote_port" (number 51820) end))))
            (field "wireguard"
              (object (
                field "tunnel_name" (text "outwarp") (
                  field "client_address" (text "10.0.0.2/32") (
                    field "client_private_key" (text key)
                      (field "server_public_key" (text key) (field "mtu" (number 1380) end))))))
              (field "routing"
                (object (
                  field "bypass_ips"
                    (array (cons (text "192.168.1.0/24") (cons (text "home.example.org") nil)))
                    end))
                (field "fallback"
                  (object (
                    field "strategies"
                      (array (
                        cons (object (field "id" (text "alt") (field "port" (number 8443) end)))
                          nil))
                      end))
                  end)))))))

abbrev empty : ProfileConfig
empty = record {
  schema_version = 0;
  required = record {
    server = record { endpoint = ""; port = 0; http_upgrade_path_prefix = ""; fallback_ports = [] };
    tls = record { cert_fingerprint_sha256 = ""; verify = ""; spki_sha256 = "" };
    tunnel = record { local_port = 0; remote_host = ""; remote_port = 0 };
    wireguard = record {
      tunnel_name = "";
      client_address = "";
      client_private_key = "";
      server_public_key = "";
      dns = [];
      mtu = 0;
      preshared_key = "";
    };
    bypass_ips = [];
  };
  reconnect = record { max_attempts = 0; delays_seconds = [] };
  hostile_mode = "";
  fallback = record { enabled = false; strategies = [] };
  enrollment = record { token = ""; url = ""; remote_port = 0 };
  name = "";
  expires_at = "";
}

abbrev pub profile : ProfileConfig
profile = elim (parse python ip (λ s. s) raw) [ ok p ↦ p | err e ↦ empty ]

parses : parse python ip (λ s. s) raw ≡ ok profile
unfolding parse get require get_default ensure as_object as_nat in_range to_text to_int to_bool
    all_chars chomp matches_path_prefix matches_tunnel_name matches_fingerprint has_control_chars
    is_hostname is_valid_host has_slash is_plain_address is_endpoint split_list all_pass
    parse_ip_list parse_endpoint_list parse_server parse_ports parse_tls parse_tunnel
    parse_wireguard int_within private_key_of as_items starts_with parse_enrollment parse_delays
    reconnect_fields parse_reconnect mode_of parse_network_mode only_texts parse_strategy
    parse_strategies fallback_fields parse_fallback expiry parse_routing parse_required strip
    is_wg_key any split filter
parses = refl

parse-IsProfile_example : IsProfile ip profile
parse-IsProfile_example = parse-IsProfile python ip (λ s. s) raw profile parses

abbrev patch : Fields
patch =
    field "name" (text " office ")
      (field "mtu" (number 1280) (field "dns" (text "1.1.1.1, 9.9.9.9") end))

abbrev edited : ProfileConfig
edited = record profile {
  name = "office";
  required = record profile.required {
    wireguard = record profile.required.wireguard { mtu = 1280; dns = "1.1.1.1" ∷ "9.9.9.9" ∷ [] };
  };
}

edits : apply_profile_patch python ip (λ s. s) profile patch ≡ ok edited
unfolding parse get require get_default ensure as_object as_nat in_range to_text to_int to_bool
    all_chars chomp matches_path_prefix matches_tunnel_name matches_fingerprint has_control_chars
    is_hostname is_valid_host has_slash is_plain_address is_endpoint split_list all_pass
    parse_ip_list parse_endpoint_list parse_server parse_ports parse_tls parse_tunnel
    parse_wireguard int_within private_key_of as_items starts_with parse_enrollment parse_delays
    reconnect_fields parse_reconnect mode_of parse_network_mode only_texts parse_strategy
    parse_strategies fallback_fields parse_fallback expiry parse_routing parse_required strip
    is_wg_key any split filter apply_profile_patch patched new_name
edits = refl

apply_profile_patch-IsProfile_example : IsProfile ip edited × HaveSameServer profile edited
apply_profile_patch-IsProfile_example =
    apply_profile_patch-IsProfile python ip (λ s. s) profile patch edited
      (parse-IsProfile python ip (λ s. s) raw profile parses) edits

-- The value that is written for the edited profile is read back as it.
reparses : parse python ip (λ s. s) (to_dict edited) ≡ ok edited
unfolding parse get require get_default ensure as_object as_nat in_range to_text to_int to_bool
    all_chars chomp matches_path_prefix matches_tunnel_name matches_fingerprint has_control_chars
    is_hostname is_valid_host has_slash is_plain_address is_endpoint split_list all_pass
    parse_ip_list parse_endpoint_list parse_server parse_ports parse_tls parse_tunnel
    parse_wireguard int_within private_key_of as_items starts_with parse_enrollment parse_delays
    reconnect_fields parse_reconnect mode_of parse_network_mode only_texts parse_strategy
    parse_strategies fallback_fields parse_fallback expiry parse_routing parse_required strip
    is_wg_key any split filter apply_profile_patch patched new_name to_dict given texts numbers
    strategy_to_dict strategies_to_dict fallback_to_dict server_to_dict tls_to_dict tunnel_to_dict
    wireguard_to_dict reconnect_to_dict enrollment_to_dict
reparses = refl
