-- ===== src/Server/Owcfg/Issued.antt =====
-- The profile that the client should read from what the server issued (server/outwarp_server/owcfg.py
-- and client/outwarp/config.py).
use out_warp.Prelude.{◌≡◌, String, true, false, not, ◌&&◌, [], ◌∷◌, str_eq, if◌then◌else◌}
use out_warp.Server.ClientNames.{strip}
use out_warp.Server.EnrollServer.{is_wg_key}
use out_warp.Client.Config.Checks.{
  Addresses, matches_path_prefix, matches_fingerprint, is_valid_host, has_slash,
}
use out_warp.Client.Config.Sections.{TlsConfig, WireguardConfig, EnrollmentConfig, passes_if_given}
use out_warp.Client.Config.Optional.{default_reconnect}
use out_warp.Client.Config.Parse.{ProfileConfig}
use out_warp.Client.Config.Valid.{IsPort}
use out_warp.Server.Config.{ServerConfig, behind_reverse_proxy}
use out_warp.Server.Owcfg.{Issue, profile_version}

-- What the client makes of the profile.
abbrev pub issued_tls : ServerConfig → TlsConfig
issued_tls cfg =
    if behind_reverse_proxy cfg
    then record { cert_fingerprint_sha256 = ""; verify = "ca"; spki_sha256 = "" }
    else record {
      cert_fingerprint_sha256 = cfg.cert_fingerprint_sha256;
      verify = "pin";
      spki_sha256 = cfg.spki_sha256;
    }

abbrev pub issued_wireguard : ServerConfig → Issue → WireguardConfig
issued_wireguard cfg i = record {
  tunnel_name = "OutWarp";
  client_address = i.client_address;
  client_private_key = if str_eq i.enrollment_token "" then i.client_private_key else "";
  server_public_key = cfg.wg_public_key;
  dns = "1.1.1.1" ∷ [];
  mtu = 1380;
  preshared_key = i.preshared_key;
}

abbrev pub issued_enrollment : ServerConfig → Issue → EnrollmentConfig
issued_enrollment cfg i = record {
  token = i.enrollment_token;
  url = "";
  remote_port = if str_eq i.enrollment_token "" then 0 else cfg.enroll_port;
}

abbrev pub issued_profile : ServerConfig → Issue → ProfileConfig
issued_profile cfg i = record {
  schema_version = profile_version cfg i;
  required = record {
    server = record {
      endpoint = cfg.endpoint;
      port = cfg.port;
      http_upgrade_path_prefix = cfg.http_upgrade_path_prefix;
      fallback_ports = [];
    };
    tls = issued_tls cfg;
    tunnel = record {
      local_port = cfg.wg_listen_port;
      remote_host = "127.0.0.1";
      remote_port = cfg.wg_listen_port;
    };
    wireguard = issued_wireguard cfg i;
    bypass_ips = cfg.endpoint ∷ [];
  };
  reconnect = default_reconnect;
  hostile_mode = "auto";
  fallback = record { enabled = true; strategies = [] };
  enrollment = issued_enrollment cfg i;
  name = i.client_name;
  expires_at = i.expires_at;
}

-- `str.lower` leaves these texts alone, and `ipaddress` accepts these addresses.
pub record KnowsTexts (ip : Addresses) (lower : String → String) : Type 0 where
  pub pin : lower "pin" ≡ "pin"
  pub ca : lower "ca" ≡ "ca"
  pub auto : lower "auto" ≡ "auto"
  pub loopback : ip.is_ip_address "127.0.0.1" ≡ true
  pub resolver : ip.is_ip_address "1.1.1.1" ≡ true

-- A configuration and a call whose profile the client can use.
pub record IsIssuable (ip : Addresses) (cfg : ServerConfig) (i : Issue) : Type 0 where
  pub endpoint : is_valid_host ip cfg.endpoint ≡ true
  pub endpoint_given : str_eq cfg.endpoint "" ≡ false
  pub endpoint_stripped : strip cfg.endpoint ≡ cfg.endpoint
  pub endpoint_plain : has_slash cfg.endpoint ≡ false
  pub port : IsPort cfg.port
  pub prefix : matches_path_prefix cfg.http_upgrade_path_prefix ≡ true
  pub wg_listen_port : IsPort cfg.wg_listen_port
  pub enroll_port : IsPort cfg.enroll_port
  pub fingerprint : passes_if_given matches_fingerprint cfg.cert_fingerprint_sha256 ≡ true
  pub spki : passes_if_given matches_fingerprint cfg.spki_sha256 ≡ true
  pub pinned : not (str_eq cfg.cert_fingerprint_sha256 "" && str_eq cfg.spki_sha256 "") ≡ true
  pub wg_public_key : is_wg_key cfg.wg_public_key ≡ true
  pub client_private_key : passes_if_given is_wg_key i.client_private_key ≡ true
  pub preshared_key : passes_if_given is_wg_key i.preshared_key ≡ true
  pub client_address : ip.is_ip_interface i.client_address ≡ true
