-- ===== src/Server/Operations/Examples.antt =====
-- A server with one client, and the theorems of its operations at it.
use out_warp.Prelude.{◌≡◌, refl, true, false, none, some, [], ◌∷◌, str-ne, err, ok, filter, any}
use out_warp.Prelude.Text.{split, concat, read_digits, show}
use out_warp.Server.AdminToken.{Scrypt}
use out_warp.Server.IpPool.{next_available_ip, host_of, hosts_of, first_free}
use out_warp.Server.IpPool.Address.{
  parse_network, parse_address, show_address, first_host, host_count,
}
use out_warp.Server.ClientNames.{
  validate_client_name, strip, IsSafeName, validate_client_name-IsSafeName,
}
use out_warp.Server.ClientStore.{active, ClientEntry, list_active, get, insert, insert_row}
use out_warp.Server.ClientStore.Laws.{IsWellFormed, taken}
use out_warp.Server.Operations.{
  Outside, Server, ServerConfig, not_found, has_key, add_client, registered, complete_enrollment,
  revoke_client, set_client_enabled,
}
use out_warp.Server.Operations.Runs.{add, revoke, serve_all, serve_all-IsWellFormed}
use out_warp.Server.Operations.Laws.{
  IsPublished, revoke_then_complete, disable_then_enable, complete_enrollment-laws,
}

abbrev outside : Outside
outside = record {
  now = 1000;
  today = "2026-01-01";
  keypair = ("private", "public");
  psk = none;
  spki = none;
  signing = none;
  random = "ab";
  salt = 1 ∷ [];
  wg_ok = true;
  install_ok = true;
}

abbrev laptop : ClientEntry
laptop = record {
  name = "laptop";
  public_key = "";
  address = "10.8.0.2/32";
  psk = "";
  expires_at = "";
  state = active;
  enrolled_at = "";
}

abbrev config : ServerConfig
config = record {
  subnet = "10.8.0.0/24";
  server_address = "10.8.0.1/24";
  spki_sha256 = "pin";
  owcfg_signing_key_id = "id";
  owcfg_signing_private_key = "key";
  owcfg_signing_public_key = "public";
  clients = [];
}

abbrev server : Server
server = record { config = config; table = laptop ∷ []; tokens = []; calls = []; wg_peers = [] }

abbrev scrypt : Scrypt
scrypt secret salt params = none

server-IsWellFormed : IsWellFormed (laptop ∷ [])
unfolding get taken
server-IsWellFormed = record { names = (refl, tt); addresses = (λ live. refl, tt) }

add_phone :
    (add_client scrypt outside false 0 " phone " "" server).0
    ≡ ok (
      record laptop {
        name = "phone";
        public_key = "public";
        address = "10.8.0.3/32";
        enrolled_at = "2026-01-01";
      },
      true,
    )
unfolding add_client validate_client_name strip get insert insert_row list_active filter
    next_available_ip host_of hosts_of first_free parse_network parse_address show_address split
    concat read_digits show first_host host_count any
add_phone = refl

serve_all-IsWellFormed_example :
    IsWellFormed
      (serve_all scrypt
        (add outside false 0 "phone" "" ∷ revoke outside "laptop" ∷ [])
        server).table
serve_all-IsWellFormed_example =
    serve_all-IsWellFormed scrypt (add outside false 0 "phone" "" ∷ revoke outside "laptop" ∷ [])
      server server-IsWellFormed

laptop_found : registered "laptop" (laptop ∷ []) ≡ some laptop
unfolding registered get
laptop_found = refl

revoke_then_complete_example :
    (complete_enrollment outside config "laptop" "key" (revoke_client outside "laptop" server).1).0
    ≡ err not_found
revoke_then_complete_example =
    revoke_then_complete "laptop" outside outside server laptop config "key" laptop_found

disable_then_enable_example :
    (set_client_enabled outside "laptop" true
      (set_client_enabled outside "laptop" false server).1).1.table
    ≡ laptop ∷ []
unfolding get
disable_then_enable_example =
    disable_then_enable "laptop" outside outside server laptop (refl, tt) laptop_found refl

complete_enrollment-laws_example :
    let t = (complete_enrollment outside config "laptop" "key" server).1 in
    (registered "laptop" t.table
      ≡ some (record laptop { public_key = "key"; enrolled_at = "2026-01-01" }))
    × ((complete_enrollment outside config "laptop" "other" t).0 ≡ err has_key)
    × IsPublished outside t
complete_enrollment-laws_example =
    complete_enrollment-laws outside config "laptop" "key" server laptop outside "other"
      laptop_found refl (str-ne "key" "" refl) refl

phone_name : validate_client_name " phone " ≡ some "phone"
unfolding validate_client_name strip
phone_name = refl

validate_client_name-IsSafeName_example : IsSafeName "phone"
validate_client_name-IsSafeName_example =
    validate_client_name-IsSafeName " phone " "phone" phone_name
