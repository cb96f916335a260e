-- ===== src/Server/Wireguard.antt =====
-- server/outwarp_server/wireguard.py: which clients are on the interface, and the configuration text
-- that puts them there. Dates are texts YYYY-MM-DD, compared as texts.
use Prim.Native.String.{◌++◌}
use out_warp.Prelude.{ℕ, String, Bool, not, ◌&&◌, List, [], ◌∷◌, str_eq, if◌then◌else◌}
use mathlib.Core.List.{◌++◌ as append}
use out_warp.Prelude.Text.{show, concat}
use out_warp.Server.ClientStore.{ClientEntry, is_active, before}

abbrev pub is_expired : ClientEntry → String → Bool
is_expired client today = not (str_eq client.expires_at "") && before client.expires_at today

unfoldable pub is_live_peer : ClientEntry → String → Bool
is_live_peer client today =
    not (str_eq client.public_key "") && is_active client.state && not (is_expired client today)

-- what the configuration text is made of
pub record Interface : Type 0 where
  pub private_key : String
  pub server_address : String
  pub listen_port : ℕ
  pub subnet : String

abbrev psk_line : String → List String
psk_line psk = if str_eq psk "" then [] else ("PresharedKey = " ++ psk) ∷ []

unfoldable pub peer_lines : ClientEntry → List String
peer_lines client =
    append ("" ∷ "[Peer]" ∷ ("# " ++ client.name) ∷ ("PublicKey = " ++ client.public_key) ∷ [])
      (append (psk_line client.psk) (("AllowedIPs = " ++ client.address) ∷ []))

-- the loop over `config.clients`
unfoldable pub clients_lines : String → List ClientEntry → List String
clients_lines today [] = []
clients_lines today (client ∷ rest) =
    let later = clients_lines today rest in
    if is_live_peer client today then append (peer_lines client) later else later

-- "\n".join(lines)
unfoldable pub join_lines : List String → String
join_lines [] = ""
join_lines (line ∷ []) = line
join_lines (line ∷ next ∷ rest) = line ++ "\n" ++ join_lines (next ∷ rest)

abbrev head_lines : Interface → List String
head_lines i =
    "[Interface]"
    ∷ ("PrivateKey = " ++ i.private_key)
    ∷ ("Address = " ++ i.server_address)
    ∷ ("ListenPort = " ++ show i.listen_port)
    ∷ "MTU = 1380"
    ∷ []

-- the Linux rules that let the tunnel's traffic through, and take them back
abbrev rule_lines : String → List String
rule_lines subnet =
    "Table = off"
    ∷ concat (
        "PostUp = sysctl -w net.ipv4.ip_forward=1; " ∷ "iptables -I FORWARD 1 -i %i -j ACCEPT; "
        ∷ "iptables -I FORWARD 2 -o %i -j ACCEPT; " ∷ "iptables -t nat -A POSTROUTING -s " ∷ subnet
        ∷ " -j MASQUERADE" ∷ [])
    ∷ concat (
        "PostDown = iptables -D FORWARD -i %i -j ACCEPT; " ∷ "iptables -D FORWARD -o %i -j ACCEPT; "
        ∷ "iptables -t nat -D POSTROUTING -s " ∷ subnet ∷ " -j MASQUERADE" ∷ [])
    ∷ []

unfoldable pub build_server_wg_conf_windows : String → Interface → List ClientEntry → String
build_server_wg_conf_windows today i clients =
    join_lines (append (head_lines i) (append (clients_lines today clients) ("" ∷ [])))

unfoldable pub build_server_wg_conf : String → Interface → List ClientEntry → String
build_server_wg_conf today i clients = join_lines (
    append (append (head_lines i) (rule_lines i.subnet))
      (append (clients_lines today clients) ("" ∷ [])))
