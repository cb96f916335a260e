-- ===== src/Server/Owcfg.antt =====
-- `build_owcfg` of server/outwarp_server/owcfg.py: the profile that the server issues to a client, as a
-- JSON value. A field that is written only sometimes stands at its section's end. The signature is an
-- argument: what `_sign_owcfg` made of the profile without it.
pub mod Issued
pub mod Sections
pub mod Last
pub mod Laws
mod Examples
use out_warp.Prelude.{ℕ, String, Bool, not, str_eq, if◌then◌else◌}
use out_warp.Client.Config.Json.{
  Value, number, text, array, object, Items, nil, cons, Fields, end, field,
}
use out_warp.Client.Config.Dict.{given}
use out_warp.Server.Config.{ServerConfig, behind_reverse_proxy}

-- the arguments of a call beside the configuration
pub record Issue : Type 0 where
  pub client_name : String
  pub client_private_key : String
  pub client_address : String
  pub preshared_key : String
  pub expires_at : String
  pub enrollment_token : String
  pub signature : String

unfoldable pub wireguard_section : ServerConfig → Issue → Fields
unfolding given
wireguard_section cfg i = field "tunnel_name" (text "OutWarp") (
    field "client_address" (text i.client_address) (
      field "server_public_key" (text cfg.wg_public_key) (
        field "dns" (array (cons (text "1.1.1.1") nil)) (
          field "mtu" (number 1380) (
            given (str_eq i.enrollment_token "") "client_private_key" (text i.client_private_key) (
              given (not (str_eq i.preshared_key "")) "preshared_key" (text i.preshared_key)
                end))))))

unfoldable pub tls_section : ServerConfig → Fields
unfolding given
tls_section cfg =
    if behind_reverse_proxy cfg
    then field "verify" (text "ca") end
    else field "cert_fingerprint_sha256" (text cfg.cert_fingerprint_sha256)
        (given (not (str_eq cfg.spki_sha256 "")) "spki_sha256" (text cfg.spki_sha256) end)

unfoldable pub profile_version : ServerConfig → Issue → ℕ
profile_version cfg i =
    if not (str_eq i.enrollment_token "")
    then 4
    else if behind_reverse_proxy cfg
    then 2
    else if not (str_eq cfg.spki_sha256 "")
    then 2
    else 1

unfoldable pub server_section : ServerConfig → Fields
server_section cfg = field "endpoint" (text cfg.endpoint) (
    field "port" (number cfg.port)
      (field "http_upgrade_path_prefix" (text cfg.http_upgrade_path_prefix) end))

unfoldable pub tunnel_section : ServerConfig → Fields
tunnel_section cfg =
    field "local_port" (number cfg.wg_listen_port)
      (field "remote_host" (text "127.0.0.1") (field "remote_port" (number cfg.wg_listen_port) end))

unfoldable pub reconnect_section : Fields
reconnect_section = field "max_attempts" (number 5) (
    field "delays_seconds"
      (array (
        cons (number 5)
          (cons (number 10) (cons (number 20) (cons (number 30) (cons (number 60) nil))))))
      end)

-- what is written only for some profiles
unfoldable pub last_sections : ServerConfig → Issue → Fields
unfolding given
last_sections cfg i =
    given (not (str_eq i.enrollment_token "")) "enrollment"
      (object (
        field "token" (text i.enrollment_token) (field "remote_port" (number cfg.enroll_port) end)))
      (given (not (str_eq i.expires_at "")) "meta"
        (object (field "expires_at" (text i.expires_at) end))
        (given (not (str_eq cfg.owcfg_signing_private_key "")) "signing"
          (object (
            field "public_key" (text cfg.owcfg_signing_public_key)
              (field "signature" (text i.signature) end)))
          end))

unfoldable pub build_owcfg : ServerConfig → Issue → Fields
unfolding wireguard_section tls_section profile_version server_section tunnel_section
    reconnect_section last_sections
build_owcfg cfg i = field "schema_version" (number (profile_version cfg i)) (
    field "name" (text i.client_name) (
      field "server" (object (server_section cfg)) (
        field "tls" (object (tls_section cfg)) (
          field "tunnel" (object (tunnel_section cfg)) (
            field "wireguard" (object (wireguard_section cfg i)) (
              field "routing"
                (object (field "bypass_ips" (array (cons (text cfg.endpoint) nil)) end))
                (field "reconnect" (object reconnect_section) (last_sections cfg i))))))))
