-- ===== src/Client/Bypass.antt =====
-- `_resolve_bypass_networks` of client/outwarp/wireguard.py: the networks that stay outside the tunnel.
use mathlib.Core.List.{◌++◌ as append}
use out_warp.Prelude.{
  String, Bool, ◌&&◌, Option, none, some, List, [], ◌∷◌, any, ◌==◌, str_eq, if◌then◌else◌,
}
use out_warp.Prelude.Options.{◌>>=◌}
use out_warp.Client.DnsCache
use out_warp.Client.DnsCache.{DnsCache}
use out_warp.Server.ClientNames.{strip}
use out_warp.Server.IpPool.Address.{Network, parse_network}

-- What the standard library and the resolver answer. `is_ipv6` says whether a text is an IPv6
-- network; `getaddrinfo` gives the IPv4 addresses, and is `none` where it raises.
pub record Names : Type 0 where
  pub is_ipv6 : String → Bool
  pub getaddrinfo : String → Option (List String)

abbrev pub net_eq : Network → Network → Bool
net_eq a b = a.base == b.base && a.prefixlen == b.prefixlen

-- `_add`
unfoldable pub add_net : Network → List Network → List Network
add_net net nets = if any (net_eq net) nets then nets else append nets (net ∷ [])

-- `none` where a text is no network, so that `ip_network` raises.
unfoldable pub add_texts : List String → List Network → Option (List Network)
unfolding add_net
add_texts [] nets = some nets
add_texts (a ∷ others) nets = do net ← parse_network a; add_texts others (add_net net nets)

-- a host that the resolver does not know: the last known address
abbrev add_cached : Option String × DnsCache → List Network → Option (List Network) × DnsCache
add_cached (none, c) nets = (some nets, c)
add_cached (some a, c) nets = if str_eq a "" then (some nets, c) else (add_texts (a ∷ []) nets, c)

abbrev remember_if_added : Option (List Network) → String → String → DnsCache → DnsCache
remember_if_added none entry a c = c
remember_if_added (some nets) entry a c = DnsCache.remember entry a c

unfoldable pub add_host :
    String → Option (List String) → List Network → DnsCache → Option (List Network) × DnsCache
unfolding add_texts
add_host entry none nets c = add_cached (DnsCache.lookup entry c) nets
add_host entry (some []) nets c = (some nets, c)
add_host entry (some (a ∷ others)) nets c =
    let added = add_texts (a ∷ others) nets in (added, remember_if_added added entry a c)

-- one round of the loop
unfoldable pub add_entry :
    Names → String → List Network → DnsCache → Option (List Network) × DnsCache
unfolding add_host
add_entry n entry nets c = if str_eq entry "" then (some nets, c) else elim (parse_network entry) [
  | some net ↦ (some (add_net net nets), c)
  | none ↦ if n.is_ipv6 entry then (some nets, c) else add_host entry (n.getaddrinfo entry) nets c
]

resolve_from : Names → List String → List Network → DnsCache → Option (List Network) × DnsCache
unfolding add_entry strip
resolve_from n [] nets c = (some nets, c)
resolve_from n (raw ∷ bypass_ips) nets c =
    let (added, c1) = add_entry n (strip raw) nets c in
    elim added [ none ↦ (none, c1) | some nets1 ↦ resolve_from n bypass_ips nets1 c1 ]

unfoldable pub resolve_bypass_networks :
    Names → List String → DnsCache → Option (List Network) × DnsCache
unfolding resolve_from
resolve_bypass_networks n bypass_ips c = resolve_from n bypass_ips [] c
