-- ===== src/Client/Config/Valid/Whole.antt =====
-- A profile that was parsed (`_parse` of client/outwarp/config.py).
use mathlib.Core.Path.{subst}
use out_warp.Prelude.{◌≤◌, ◌≡◌, String, Bool, true, not, List, ok, >>=-eq-ok, ok-injective, str_eq}
use out_warp.Client.Config.Json.{
  Value, Fields, object, end, number, get_default, as_object, require, in_range, Python,
}
use out_warp.Client.Config.Checks.{Addresses, is_endpoint}
use out_warp.Client.Config.Sections.{parse_server, parse_tls, parse_tunnel, parse_wireguard}
use out_warp.Client.Config.Optional.{
  is_hostile_mode, parse_enrollment, parse_reconnect, parse_network_mode,
}
use out_warp.Client.Config.Strategies.{parse_fallback}
use out_warp.Client.Config.Parse.{
  ProfileConfig, Required, parse_routing, parse_required, schema_version, parse,
}
use out_warp.Client.Config.Valid.{IsServer, All, in_range-bounds, parse_server-IsServer}
use out_warp.Client.Config.Valid.Sections.{
  IsTunnel, IsTls, parse_tls-IsTls, IsWireguard, IsReconnect, parse_endpoint_list-All,
  parse_tunnel-IsTunnel, parse_wireguard-IsWireguard, parse_reconnect-IsReconnect,
  parse_network_mode-is_hostile_mode,
}

-- The sections that every profile has hold what the connection relies on.
pub record IsRequired (ip : Addresses) (r : Required) : Type 0 where
  pub server : IsServer ip r.server
  pub tls : IsTls r.tls
  pub tunnel : IsTunnel ip r.tunnel
  pub wireguard : IsWireguard ip r.wireguard
  pub bypass_ips : All (is_endpoint ip) r.bypass_ips

pub record IsProfile (ip : Addresses) (p : ProfileConfig) : Type 0 where
  pub version : (1 ≤ p.schema_version) × (p.schema_version ≤ schema_version)
  pub required : IsRequired ip p.required
  pub reconnect : IsReconnect p.reconnect
  pub hostile_mode : is_hostile_mode p.hostile_mode ≡ true

parse_routing-All :
    (py : Python) (ip : Addresses) (lower : String → String) (v : Value) {bypass : List String}
    → parse_routing py ip lower v ≡ ok bypass
    → All (is_endpoint ip) bypass
unfolding parse_routing
parse_routing-All py ip lower v h =
    let (routing, e0, h0) = >>=-eq-ok (as_object "routing" v) _ h in
    let (v1, e1, h1) = >>=-eq-ok (require routing "bypass_ips") _ h0 in
    parse_endpoint_list-All py ip _ v1 h1

parse_required-IsRequired :
    (py : Python) (ip : Addresses) (lower : String → String) (enrolling : Bool) (d : Fields)
    {r : Required}
    → parse_required py ip lower enrolling d ≡ ok r
    → IsRequired ip r
unfolding parse_required
parse_required-IsRequired py ip lower enrolling d {r} h =
    let (v0, e0, h0) = >>=-eq-ok (require d "server") _ h in
    let (server, e1, h1) = >>=-eq-ok (parse_server py ip v0) _ h0 in
    let (v2, e2, h2) = >>=-eq-ok (require d "tls") _ h1 in
    let (tls, e3, h3) = >>=-eq-ok (parse_tls py ip lower v2) _ h2 in
    let (v4, e4, h4) = >>=-eq-ok (require d "tunnel") _ h3 in
    let (tunnel, e5, h5) = >>=-eq-ok (parse_tunnel py ip v4) _ h4 in
    let (v6, e6, h6) = >>=-eq-ok (require d "wireguard") _ h5 in
    let (wireguard, e7, h7) = >>=-eq-ok (parse_wireguard py ip enrolling v6) _ h6 in
    let (v8, e8, h8) = >>=-eq-ok (require d "routing") _ h7 in
    let (bypass, e9, h9) = >>=-eq-ok (parse_routing py ip lower v8) _ h8 in
    subst (IsRequired ip) (ok-injective h9) (record {
      server = parse_server-IsServer py ip v0 e1;
      tls = parse_tls-IsTls py ip lower v2 e3;
      tunnel = parse_tunnel-IsTunnel py ip v4 e5;
      wireguard = parse_wireguard-IsWireguard py ip enrolling v6 e7;
      bypass_ips = parse_routing-All py ip lower v8 e9;
    })

-- A profile that is accepted has a known schema, ports between 1 and 65535 with the fallback ports
-- distinct and other than the primary one, hosts that are addresses or host names, keys and names of
-- the right shape (a private key and a preshared key may be missing), a fingerprint of the certificate
-- or of its key where the server is pinned, an MTU between 576 and 1500, DNS
-- servers that are addresses, bypass entries that are addresses, networks or host names, at least one
-- attempt to connect with delays of at least one second, and one of the three hostile modes.
pub parse-IsProfile :
    (py : Python) (ip : Addresses) (lower : String → String) (raw : Value) (p : ProfileConfig)
    → parse py ip lower raw ≡ ok p
    → IsProfile ip p
unfolding parse
parse-IsProfile py ip lower raw p h =
    let (d, e0, h0) = >>=-eq-ok (as_object "root" raw) _ h in
    let v1 = get_default d "schema_version" (number 1) in
    let (version, e1, h1) = >>=-eq-ok (in_range 1 schema_version "schema_version" v1) _ h0 in
    let v2 = get_default d "enrollment" (object end) in
    let (enrollment, e2, h2) = >>=-eq-ok (parse_enrollment py v2) _ h1 in
    let enrolling = not (str_eq enrollment.token "") in
    let (required, e3, h3) = >>=-eq-ok (parse_required py ip lower enrolling d) _ h2 in
    let v4 = get_default d "reconnect" (object end) in
    let (reconnect, e4, h4) = >>=-eq-ok (parse_reconnect py v4) _ h3 in
    let v5 = get_default d "network" (object end) in
    let (mode, e5, h5) = >>=-eq-ok (parse_network_mode lower v5) _ h4 in
    let v6 = get_default d "fallback" (object end) in
    let (fallback, e6, h6) = >>=-eq-ok (parse_fallback py ip lower v6) _ h5 in
    subst (IsProfile ip) (ok-injective h6) (record {
      version = in_range-bounds 1 schema_version "schema_version" v1 e1;
      required = parse_required-IsRequired py ip lower enrolling d e3;
      reconnect = parse_reconnect-IsReconnect py v4 e4;
      hostile_mode = parse_network_mode-is_hostile_mode lower v5 e5;
    })
