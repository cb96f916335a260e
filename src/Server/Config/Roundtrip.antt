-- ===== src/Server/Config/Roundtrip.antt =====
-- The server's configuration is loaded as it was saved (server/outwarp_server/config.py).
use out_warp.Prelude.{ℕ, ◌≡◌, Bool, true, ◌||◌, some, List, [], ◌∷◌, ok, str_eq}
use out_warp.Server.ClientNames.{validate_client_name}
use out_warp.Server.ClientStore.{ClientEntry}
use out_warp.Server.EnrollServer.{is_wg_key}
use out_warp.Client.Config.Json.{text, Fields, require, get_default, Python, to_text}
use out_warp.Client.Config.Checks.{Addresses, matches_path_prefix}
use out_warp.Client.Config.Sections.{passes_if_given}
use out_warp.Client.Config.Valid.{IsPort}
use out_warp.Server.Config.{
  ServerConfig, is_valid_host, matches_email, matches_key_id, matches_date, state_of,
}

-- A row as the registry holds it.
pub record IsEntry (ip : Addresses) (digit : ℕ → Bool) (c : ClientEntry) : Type 0 where
  pub name : validate_client_name c.name ≡ some c.name
  pub public_key : passes_if_given is_wg_key c.public_key ≡ true
  pub address : ip.is_ip_interface c.address ≡ true
  pub psk : passes_if_given is_wg_key c.psk ≡ true
  pub expires_at : passes_if_given (matches_date digit) c.expires_at ≡ true
  pub enrolled_at : passes_if_given (matches_date digit) c.enrolled_at ≡ true

abbrev pub AreEntries : Addresses → (ℕ → Bool) → List ClientEntry → Type 0
AreEntries ip digit [] = Unit
AreEntries ip digit (c ∷ cs) = IsEntry ip digit c × AreEntries ip digit cs

-- A configuration that the server may hold.
pub record IsServerConfig (ip : Addresses) (digit : ℕ → Bool) (cfg : ServerConfig) : Type 0 where
  pub version : cfg.schema_version ≡ 1
  pub port : IsPort cfg.port
  pub wg_listen_port : IsPort cfg.wg_listen_port
  pub tls_mode : str_eq cfg.tls_mode "self-signed" || str_eq cfg.tls_mode "acme" ≡ true
  pub internal_ws_port : IsPort cfg.internal_ws_port
  pub enroll_port : IsPort cfg.enroll_port
  pub subnet : ip.is_ip_network cfg.subnet ≡ true
  pub server_address : ip.is_ip_interface cfg.server_address ≡ true
  pub endpoint : is_valid_host ip cfg.endpoint ≡ true
  pub prefix : matches_path_prefix cfg.http_upgrade_path_prefix ≡ true
  pub acme_email : passes_if_given matches_email cfg.acme_email ≡ true
  pub key_id : passes_if_given matches_key_id cfg.owcfg_signing_key_id ≡ true
  pub clients : AreEntries ip digit cfg.clients

-- The fields of a row, read one by one.
record Reads (py : Python) (d : Fields) (c : ClientEntry) : Type 0 where
  pub name : require d "name" ≡ ok (text c.name)
  pub public_key : require d "public_key" ≡ ok (text c.public_key)
  pub address : require d "address" ≡ ok (text c.address)
  pub psk : to_text py (get_default d "psk" (text "")) ≡ c.psk
  pub expires_at : to_text py (get_default d "expires_at" (text "")) ≡ c.expires_at
  pub state : state_of (to_text py (get_default d "state" (text "active"))) ≡ some c.state
  pub enrolled_at : to_text py (get_default d "enrolled_at" (text "")) ≡ c.enrolled_at
