-- ===== src/Client/Tunnel/Resolve.antt =====
-- The addresses that the rungs dial, resolved before WireGuard captures the traffic
-- (`_resolve_endpoints`, `_with_addresses` of client/outwarp/tunnel.py).
use mathlib.Core.List.{◌++◌ as append}
use out_warp.Prelude.{
  String, Bool, true, false, not, ◌||◌, Option, none, some, List, [], ◌∷◌, map, filter, str_eq,
  if◌then◌else◌,
}
use out_warp.Prelude.Dict
use out_warp.Prelude.Dict.{Dict}
use out_warp.Client.DnsCache
use out_warp.Client.DnsCache.{DnsCache}
use out_warp.Client.Fallback.{ConnectionStrategy}
use out_warp.Client.Routing.{proxy_host}
use out_warp.Client.Routing.Proxy.{proxy_with_host}

-- The resolvers, as they answer during one call. `query` is the raw query to a server, "" for no
-- answer; `getaddrinfo` is `none` where it raises.
pub record Resolver : Type 0 where
  pub is_ip_address : String → Bool
  pub query : String → String → String
  pub getaddrinfo : String → Option (List String)

abbrev pub hostile_dns_resolver_ip : String
hostile_dns_resolver_ip = "1.1.1.1"

-- a last known address that is not empty
abbrev cached : Option String × DnsCache → Option String × DnsCache
cached (none, c) = (none, c)
cached (some a, c) = if str_eq a "" then (none, c) else (some a, c)

-- what the system resolver's answer comes to
system_answer : String → Option (List String) → DnsCache → Option String × DnsCache
system_answer ep none c = cached (DnsCache.lookup ep c)
system_answer ep (some []) c = (none, c)
system_answer ep (some (a ∷ _)) c = (some a, DnsCache.remember ep a c)

unfoldable pub resolve_one : Resolver → String → String → DnsCache → Option String × DnsCache
unfolding system_answer
resolve_one r resolver_ip ep c =
    let answer = if str_eq resolver_ip "" then "" else r.query resolver_ip ep in
    if r.is_ip_address ep
    then (some ep, c)
    else if str_eq answer ""
    then system_answer ep (r.getaddrinfo ep) c
    else (some answer, DnsCache.remember ep answer c)

abbrev put : String → Option String → Dict String → Dict String
put ep none found = found
put ep (some a) found = Dict.insert ep a found

abbrev is_some_text : Option String → Bool
is_some_text none = false
is_some_text (some _) = true

-- one round of the loop over the endpoints
unfoldable pub resolve_next :
    Resolver → String → String → Dict String × DnsCache → Dict String × DnsCache
unfolding resolve_one
resolve_next r resolver_ip ep (found, c) =
    if str_eq ep "" || is_some_text (Dict.lookup ep found)
    then (found, c)
    else let (a, c') = resolve_one r resolver_ip ep c in (put ep a found, c')

unfoldable pub resolve_endpoints :
    Resolver → String → List String → Dict String × DnsCache → Dict String × DnsCache
unfolding resolve_next
resolve_endpoints r resolver_ip [] known = known
resolve_endpoints r resolver_ip (ep ∷ eps) known =
    resolve_endpoints r resolver_ip eps (resolve_next r resolver_ip ep known)

abbrev pub or_blank : Option String → String
or_blank none = ""
or_blank (some a) = a

-- the proxy with its address, where there is one
abbrev proxy_by_address : Dict String → String → String
proxy_by_address system proxy =
    if str_eq proxy "" || str_eq (or_blank (Dict.lookup (proxy_host proxy) system)) ""
    then proxy
    else proxy_with_host proxy (or_blank (Dict.lookup (proxy_host proxy) system))

unfoldable pub with_address : Dict String → Dict String → ConnectionStrategy → ConnectionStrategy
with_address system public r = record r {
  connect_host = or_blank (Dict.lookup r.endpoint (if r.force_hostile then public else system));
  proxy = proxy_by_address system r.proxy;
}

abbrev endpoints_of : List ConnectionStrategy → List String
endpoints_of = map (λ (r : ConnectionStrategy). r.endpoint)

-- what the system resolver is asked for
abbrev ordinary_hosts : List ConnectionStrategy → List String
ordinary_hosts rungs = append (endpoints_of (filter (λ r. not r.force_hostile) rungs)) (
    map (λ (r : ConnectionStrategy). proxy_host r.proxy)
      (filter (λ r. not (str_eq r.proxy "")) rungs))

unfoldable pub with_addresses :
    Resolver → List ConnectionStrategy → DnsCache → List ConnectionStrategy × DnsCache
unfolding resolve_endpoints with_address
with_addresses r rungs c =
    let (system, c1) = resolve_endpoints r "" (ordinary_hosts rungs) ([], c) in
    let (public, c2) =
      resolve_endpoints r hostile_dns_resolver_ip
        (endpoints_of (filter (λ (s : ConnectionStrategy). s.force_hostile) rungs)) ([], c1) in
    (map (with_address system public) rungs, c2)
