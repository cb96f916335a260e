-- ===== src/Server/Operations/State.antt =====
-- What the operations of server/outwarp_server/operations.py share. `Server` holds the config file,
-- clients.sqlite, the token file, the calls made to the running WireGuard interface and the
-- configuration written for the system. `Outside` is what a call takes from outside: the clock, the
-- generators and whether the tools succeed.
use out_warp.Prelude.{
  ℕ, String, Bool, Option, none, some, List, [], ◌∷◌, ◌++◌, str_eq, if◌then◌else◌, filter, Result,
}
use out_warp.Server.Enrollment.{EnrollmentToken}
use out_warp.Server.ClientStore.{ClientEntry, Table, list_active}
use out_warp.Server.Wireguard.{is_live_peer}

pub record ServerConfig : Type 0 where
  pub subnet : String
  pub server_address : String
  pub spki_sha256 : String
  pub owcfg_signing_key_id : String
  pub owcfg_signing_private_key : String
  pub owcfg_signing_public_key : String
  pub clients : List ClientEntry

-- A call of `wg set` on the running interface.
pub data WgCall : Type 0 where
  add_peer : (public_key address psk : String) → WgCall
  remove_peer : (public_key : String) → WgCall

pub record Server : Type 0 where
  pub config : ServerConfig
  pub table : Table
  pub tokens : List EnrollmentToken
  pub calls : List WgCall
  pub wg_peers : List ClientEntry

pub record Outside : Type 0 where
  pub now : ℕ
  pub today : String
  pub keypair : String × String
  pub psk : Option String
  pub spki : Option String
  pub signing : Option (String × String × String)
  pub random : String
  pub salt : List ℕ
  pub wg_ok : Bool
  pub install_ok : Bool

pub data Failure : Type 0 where
  invalid_name already_exists not_found has_key pool_failed token_failed duplicate_row : Failure

-- the client and whether the interface took the change
abbrev pub Reply : Type 0
Reply = Result Failure (ClientEntry × Bool)

abbrev pub or_blank : Option String → String
or_blank none = ""
or_blank (some s) = s

unfoldable pub ensure_spki : Option String → ServerConfig → ServerConfig
ensure_spki computed config =
    if str_eq config.spki_sha256 ""
    then elim computed [ none ↦ config | some spki ↦ record config { spki_sha256 = spki } ]
    else config

unfoldable pub ensure_owcfg_signing_key :
    Option (String × String × String) → ServerConfig → ServerConfig
ensure_owcfg_signing_key generated config =
    if str_eq config.owcfg_signing_private_key ""
    then elim generated [
      | none ↦ config
      | some (key_id, private, public) ↦ record config {
        owcfg_signing_key_id = key_id;
        owcfg_signing_private_key = private;
        owcfg_signing_public_key = public;
      }
    ]
    else config

-- Issuing the call, which may fail.
abbrev pub call : WgCall → Server → Server
call c s = record s { calls = s.calls ++ c ∷ [] }

-- `replace(config, clients=store.list_active())`, saved
unfoldable pub save_clients : ServerConfig → Server → Server
save_clients config s = record s { config = record config { clients = list_active s.table } }

-- A write that fails is only reported.
unfoldable pub persist_wg_config : Outside → Server → Server
persist_wg_config o s =
    if o.install_ok
    then record s { wg_peers = filter (λ e. is_live_peer e o.today) s.config.clients }
    else s

-- the end of an operation whose transaction committed
unfoldable pub finish : Outside → ServerConfig → Server → Server
finish o config s = persist_wg_config o (save_clients config s)

-- `_ensure_spki` and `_ensure_owcfg_signing_key`
abbrev pub backfilled : Outside → Server → ServerConfig
backfilled o s = ensure_owcfg_signing_key o.signing (ensure_spki o.spki s.config)
