-- ===== src/Server/Config/Dict.antt =====
-- The JSON value of the server's configuration (`_to_dict` of server/outwarp_server/config.py).
use out_warp.Prelude.{String, not, List, [], ◌∷◌, str_eq}
use out_warp.Server.ClientStore.{ClientEntry, ClientState, active, disabled, revoked, is_active}
use out_warp.Client.Config.Json.{
  Value, number, text, array, object, Items, nil, cons, Fields, end, field,
}
use out_warp.Client.Config.Dict.{given}
use out_warp.Server.Config.{ServerConfig}

unfoldable pub state_text : ClientState → String
state_text active = "active"
state_text disabled = "disabled"
state_text revoked = "revoked"

unfoldable pub entry_to_dict : ClientEntry → Value
unfolding given state_text
entry_to_dict c = object (
    field "name" (text c.name) (
      field "public_key" (text c.public_key) (
        field "address" (text c.address) (
          given (not (str_eq c.psk "")) "psk" (text c.psk) (
            given (not (str_eq c.expires_at "")) "expires_at" (text c.expires_at) (
              given (not (is_active c.state)) "state" (text (state_text c.state))
                (given (not (str_eq c.enrolled_at "")) "enrolled_at" (text c.enrolled_at) end)))))))

unfoldable pub clients_to_dict : List ClientEntry → Items
unfolding entry_to_dict
clients_to_dict [] = nil
clients_to_dict (c ∷ cs) = cons (entry_to_dict c) (clients_to_dict cs)

abbrev signing_fields : ServerConfig → Fields → Fields
signing_fields cfg rest = field "owcfg_signing_key_id" (text cfg.owcfg_signing_key_id) (
    field "owcfg_signing_private_key" (text cfg.owcfg_signing_private_key)
      (field "owcfg_signing_public_key" (text cfg.owcfg_signing_public_key) rest))

unfoldable pub config_to_dict : ServerConfig → Value
unfolding clients_to_dict
config_to_dict cfg = object (
    field "schema_version" (number cfg.schema_version) (
      field "endpoint" (text cfg.endpoint) (
        field "port" (number cfg.port) (
          field "http_upgrade_path_prefix" (text cfg.http_upgrade_path_prefix) (
            field "cert_path" (text cfg.cert_path) (
              field "key_path" (text cfg.key_path) (
                field "cert_fingerprint_sha256" (text cfg.cert_fingerprint_sha256) (
                  field "spki_sha256" (text cfg.spki_sha256) (
                    field "tls_mode" (text cfg.tls_mode) (
                      field "internal_ws_port" (number cfg.internal_ws_port) (
                        field "acme_email" (text cfg.acme_email) (
                          field "enroll_port" (number cfg.enroll_port) (
                            field "wg_private_key" (text cfg.wg_private_key) (
                              field "wg_public_key" (text cfg.wg_public_key) (
                                field "subnet" (text cfg.subnet) (
                                  field "server_address" (text cfg.server_address) (
                                    field "wg_listen_port" (number cfg.wg_listen_port) (
                                      signing_fields cfg (
                                        field "clients" (array (clients_to_dict cfg.clients))
                                          end)))))))))))))))))))
