-- ===== src/Server/Owcfg/Examples.antt =====
-- A server's configuration and a profile that it issues, with the theorems at them.
use out_warp.Prelude.{ℕ, ◌≡◌, refl, Bool, [], ◌∷◌, ok, arith, ◌&&◌, leb}
use out_warp.Prelude.Text.{split}
use out_warp.Server.ClientNames.{strip}
use out_warp.Server.ClientStore.{ClientEntry, disabled}
use out_warp.Server.EnrollServer.{is_wg_key}
use out_warp.Client.Config.Json.{object}
use out_warp.Client.Config.Checks.{
  all_chars, chomp, matches_path_prefix, matches_fingerprint, is_valid_host, is_hostname, has_slash,
  last_char,
}
use out_warp.Client.Config.Examples.{python, ip, key, fingerprint}
use out_warp.Client.Config.Parse
use out_warp.Server.Config.{ServerConfig}
use out_warp.Server.Config
use out_warp.Server.Owcfg.{Issue, build_owcfg}
use out_warp.Server.Owcfg.Issued.{issued_profile, KnowsTexts, IsIssuable}
use out_warp.Server.Owcfg.Laws.{parse-build_owcfg}

abbrev laptop : ClientEntry
laptop = record {
  name = "laptop";
  public_key = "";
  address = "10.0.0.2/32";
  psk = key;
  expires_at = "";
  state = disabled;
  enrolled_at = "2026-01-01";
}

abbrev config : ServerConfig
config = record {
  schema_version = 1;
  endpoint = "vpn.example.org";
  port = 443;
  http_upgrade_path_prefix = "tunnel";
  cert_path = "cert.pem";
  key_path = "key.pem";
  cert_fingerprint_sha256 = fingerprint;
  wg_private_key = key;
  wg_public_key = key;
  subnet = "10.0.0.0/24";
  server_address = "10.0.0.1/24";
  wg_listen_port = 51820;
  spki_sha256 = "";
  tls_mode = "self-signed";
  internal_ws_port = 8080;
  acme_email = "admin@example.org";
  enroll_port = 8444;
  owcfg_signing_key_id = "0011223344556677";
  owcfg_signing_private_key = "secret";
  owcfg_signing_public_key = "public";
  clients = laptop ∷ [];
}

abbrev digit : ℕ → Bool
digit c = leb b'0' c && leb c b'9'

-- A profile that is still to be enrolled.
abbrev call : Issue
call = record {
  client_name = "laptop";
  client_private_key = "";
  client_address = "10.0.0.2/32";
  preshared_key = key;
  expires_at = "";
  enrollment_token = "token";
  signature = "signature";
}

known : KnowsTexts ip (λ s. s)
unfolding all_chars
known = record { pin = refl; ca = refl; auto = refl; loopback = refl; resolver = refl }

call-IsIssuable : IsIssuable ip config call
unfolding strip is_wg_key all_chars chomp last_char matches_path_prefix matches_fingerprint
    is_valid_host is_hostname has_slash split
call-IsIssuable = record {
  endpoint = refl;
  endpoint_given = refl;
  endpoint_stripped = refl;
  endpoint_plain = refl;
  port = omega arith;
  prefix = refl;
  wg_listen_port = omega arith;
  enroll_port = omega arith;
  fingerprint = refl;
  spki = refl;
  pinned = refl;
  wg_public_key = refl;
  client_private_key = refl;
  preshared_key = refl;
  client_address = refl;
}

parse-build_owcfg_example :
    Parse.parse python ip (λ s. s) (object (build_owcfg config call))
    ≡ ok (issued_profile config call)
parse-build_owcfg_example = parse-build_owcfg python ip (λ s. s) config call known call-IsIssuable
