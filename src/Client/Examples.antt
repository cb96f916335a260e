-- ===== src/Client/Examples.antt =====
-- Runs of the sticky store and of the escape set, and their theorems at them.
use out_warp.Prelude.{any, ◌≡◌, refl, true, false, some, [], ◌∷◌, str-ne}
use out_warp.Prelude.Dict
use out_warp.Prelude.Text.{split, has_no}
use out_warp.Client.Fallback.{ConnectionStrategy}
use out_warp.Client.Routing.{
  escape_set, dedup, ladder_addresses, rung_addresses, proxy_host, after_last, mem, dialled,
  dialled-escape_set,
}
use out_warp.Client.Sticky.{StickyStore, load, set}

abbrev store : StickyStore
store = record {
  entries = [];
  loaded = false;
  file = some (("10.0.0.1", "direct") ∷ []);
  writable = true;
}

written : (set "10.0.0.1" "port-8443" store).file ≡ some (("10.0.0.1", "port-8443") ∷ [])
unfolding set load Dict.insert Dict.lookup
written = refl

abbrev rung : ConnectionStrategy
rung = record {
  id = "direct-proxy";
  label = "Via HTTP proxy";
  endpoint = "vpn.example";
  port = 443;
  path_prefix = "secret";
  scheme = "wss";
  force_hostile = true;
  sni_override = "";
  host_header = "";
  user_agent = "";
  proxy = "user:password@proxy.local:3128";
  pin_mode = "pin";
  bypass_ips = [];
  connect_host = "";
}

escaped :
    escape_set ("192.0.2.1" ∷ []) "vpn.example" (rung ∷ [])
    ≡ "192.0.2.1" ∷ "vpn.example" ∷ "proxy.local" ∷ []
unfolding escape_set dedup ladder_addresses rung_addresses proxy_host after_last any split has_no
escaped = refl

dialled-escape_set_example :
    mem (dialled rung) (escape_set ("192.0.2.1" ∷ []) "vpn.example" (rung ∷ [])) ≡ true
unfolding proxy_host after_last split has_no
dialled-escape_set_example =
    dialled-escape_set ("192.0.2.1" ∷ []) "vpn.example" (rung ∷ []) 0 rung refl
      (str-ne "proxy.local" "" refl)
