-- ===== src/Client/Config/Valid/Sections.antt =====
-- What the other sections of a parsed profile satisfy (client/outwarp/config.py).
use out_warp.Prelude.{
  ℕ, ◌≤◌, ◌≡◌, refl, String, Bool, true, not, ◌&&◌, ◌||◌, str_eq, Option, none, some, List, [], ◌∷◌,
  ok, >>=-eq-ok, ok-injective, arith, leb, Option-cases, inl, inr,
}
use out_warp.Server.ClientNames.{strip}
use out_warp.Server.EnrollServer.{is_wg_key}
use out_warp.Client.Config.Json.{
  Value, text, number, get_default, Items, nil, cons, ensure, as_object, require, in_range, Python,
  Fields, to_text, to_int,
}
use out_warp.Client.Config.Checks.{
  matches_tunnel_name, matches_fingerprint, Addresses, is_valid_host, is_plain_address, split_list,
  parse_ip_list, is_endpoint, parse_endpoint_list,
}
use out_warp.Client.Config.Sections.{
  TlsConfig, parse_tls, TunnelConfig, WireguardConfig, ReconnectConfig, parse_tunnel,
  parse_wireguard, private_key_of, int_within, as_items, passes_if_given,
}
use out_warp.Client.Config.Optional.{
  int_or, fields_of, parse_delays, reconnect_fields, parse_reconnect, default_reconnect, mode_of,
  parse_network_mode, is_hostile_mode,
}
use out_warp.Client.Config.Valid.{
  IsPort, All, ensure-true, in_range-bounds, int_within-bounds, all_pass-All,
}

pub parse_ip_list-All :
    (py : Python) (ip : Addresses) (label : String) (v : Value) {out : List String}
    → parse_ip_list py ip label v ≡ ok out
    → All (is_plain_address ip) out
unfolding parse_ip_list
parse_ip_list-All py ip label v h =
    let (items, e, h1) = >>=-eq-ok (split_list py v) _ h in
    all_pass-All label (is_plain_address ip) items h1

pub parse_endpoint_list-All :
    (py : Python) (ip : Addresses) (label : String) (v : Value) {out : List String}
    → parse_endpoint_list py ip label v ≡ ok out
    → All (is_endpoint ip) out
unfolding parse_endpoint_list
parse_endpoint_list-All py ip label v h =
    let (items, e, h1) = >>=-eq-ok (split_list py v) _ h in
    all_pass-All label (is_endpoint ip) items h1

pub record IsTunnel (ip : Addresses) (t : TunnelConfig) : Type 0 where
  pub local_port : IsPort t.local_port
  pub remote_port : IsPort t.remote_port
  pub remote_host : is_valid_host ip t.remote_host ≡ true

pub parse_tunnel-IsTunnel :
    (py : Python) (ip : Addresses) (v : Value) {t : TunnelConfig}
    → parse_tunnel py ip v ≡ ok t
    → IsTunnel ip t
unfolding parse_tunnel
parse_tunnel-IsTunnel py ip v h =
    let (d, e0, h0) = >>=-eq-ok (as_object "tunnel" v) _ h in
    let (local, e1, h1) = >>=-eq-ok (require d "local_port") _ h0 in
    let (host, e2, h2) = >>=-eq-ok (require d "remote_host") _ h1 in
    let (remote, e3, h3) = >>=-eq-ok (require d "remote_port") _ h2 in
    let (m, e4, h4) = >>=-eq-ok (in_range 1 65535 _ local) _ h3 in
    let (n, e5, h5) = >>=-eq-ok (in_range 1 65535 _ remote) _ h4 in
    let (u, e6, h6) = >>=-eq-ok (ensure (is_valid_host ip (to_text py host)) _) _ h5 in
    let made = ok-injective h6 in
    rw (← made) (record {
      local_port = in_range-bounds 1 65535 _ local e4;
      remote_port = in_range-bounds 1 65535 _ remote e5;
      remote_host = ensure-true _ _ e6;
    })

-- What `tls` holds: a pinned server comes with a pin.
pub record IsTls (t : TlsConfig) : Type 0 where
  pub verify : str_eq t.verify "pin" || str_eq t.verify "ca" ≡ true
  pub spki_sha256 : passes_if_given matches_fingerprint t.spki_sha256 ≡ true
  pub cert_fingerprint_sha256 : passes_if_given matches_fingerprint t.cert_fingerprint_sha256 ≡ true
  pub pinned :
      not (str_eq t.verify "pin" && str_eq t.cert_fingerprint_sha256 "" && str_eq t.spki_sha256 "")
      ≡ true

pub parse_tls-IsTls :
    (py : Python) (ip : Addresses) (lower : String → String) (v : Value) {t : TlsConfig}
    → parse_tls py ip lower v ≡ ok t
    → IsTls t
unfolding parse_tls
parse_tls-IsTls py ip lower v h =
    let (d, e0, h0) = >>=-eq-ok (as_object "tls" v) _ h in
    let verify = lower (strip (to_text py (get_default d "verify" (text "pin")))) in
    let spki = to_text py (get_default d "spki_sha256" (text "")) in
    let fp = to_text py (get_default d "cert_fingerprint_sha256" (text "")) in
    let (u1, e1, h1) = >>=-eq-ok (ensure (str_eq verify "pin" || str_eq verify "ca") _) _ h0 in
    let (u2, e2, h2) = >>=-eq-ok (ensure (passes_if_given matches_fingerprint spki) _) _ h1 in
    let (u3, e3, h3) =
      >>=-eq-ok (ensure (not (str_eq verify "pin" && str_eq fp "" && str_eq spki "")) _) _ h2 in
    let (u4, e4, h4) = >>=-eq-ok (ensure (passes_if_given matches_fingerprint fp) _) _ h3 in
    let made = ok-injective h4 in
    rw (← made) (record {
      verify = ensure-true _ _ e1;
      spki_sha256 = ensure-true _ _ e2;
      cert_fingerprint_sha256 = ensure-true _ _ e4;
      pinned = ensure-true _ _ e3;
    })

pub record IsWireguard (ip : Addresses) (w : WireguardConfig) : Type 0 where
  pub tunnel_name : matches_tunnel_name w.tunnel_name ≡ true
  pub client_address : ip.is_ip_interface w.client_address ≡ true
  pub client_private_key : passes_if_given is_wg_key w.client_private_key ≡ true
  pub server_public_key : is_wg_key w.server_public_key ≡ true
  pub preshared_key : passes_if_given is_wg_key w.preshared_key ≡ true
  pub dns : All (is_plain_address ip) w.dns
  pub mtu : (576 ≤ w.mtu) × (w.mtu ≤ 1500)

pub parse_wireguard-IsWireguard :
    (py : Python) (ip : Addresses) (enrolling : Bool) (v : Value) {w : WireguardConfig}
    → parse_wireguard py ip enrolling v ≡ ok w
    → IsWireguard ip w
unfolding parse_wireguard
parse_wireguard-IsWireguard py ip enrolling v h =
    let (d, e0, h0) = >>=-eq-ok (as_object "wireguard" v) _ h in
    let (mtu, e1, h1) = >>=-eq-ok (int_within py ip 576 1500 _ _) _ h0 in
    let (key, e2, h2) = >>=-eq-ok (private_key_of py ip enrolling d) _ h1 in
    let (u3, e3, h3) = >>=-eq-ok (ensure (passes_if_given is_wg_key (to_text py key)) _) _ h2 in
    let (public_key, e4, h4) = >>=-eq-ok (require d "server_public_key") _ h3 in
    let (u5, e5, h5) = >>=-eq-ok (ensure (is_wg_key (to_text py public_key)) _) _ h4 in
    let (u6, e6, h6) = >>=-eq-ok (ensure (passes_if_given is_wg_key _) _) _ h5 in
    let (name, e7, h7) = >>=-eq-ok (require d "tunnel_name") _ h6 in
    let (u8, e8, h8) = >>=-eq-ok (ensure (matches_tunnel_name (to_text py name)) _) _ h7 in
    let (address, e9, h9) = >>=-eq-ok (require d "client_address") _ h8 in
    let (u10, e10, h10) = >>=-eq-ok (ensure (ip.is_ip_interface (to_text py address)) _) _ h9 in
    let (dns, e11, h11) = >>=-eq-ok (parse_ip_list py ip _ _) _ h10 in
    let made = ok-injective h11 in
    rw (← made) (record {
      tunnel_name = ensure-true _ _ e8;
      client_address = ensure-true _ _ e10;
      client_private_key = ensure-true _ _ e3;
      server_public_key = ensure-true _ _ e5;
      preshared_key = ensure-true _ _ e6;
      dns = parse_ip_list-All py ip _ _ e11;
      mtu = int_within-bounds py ip 576 1500 _ _ e1;
    })

pub record IsReconnect (r : ReconnectConfig) : Type 0 where
  pub max_attempts : 1 ≤ r.max_attempts
  pub delays : All (λ n. leb 1 n) r.delays_seconds

pub leb→le : (m n : ℕ) → leb m n ≡ true → m ≤ n
leb→le m n h = ground (arith, h)

parse_delays-All :
    (py : Python) (xs : Items) {out : List ℕ} → parse_delays py xs ≡ ok out → All (λ n. leb 1 n) out
unfolding parse_delays
parse_delays-All py nil {out} h = let e : ◌≡◌ {A = List ℕ} [] out = ok-injective h in rw (← e) tt
parse_delays-All py (cons v xs) {out} h =
    let (n, e0, h0) = >>=-eq-ok (int_or "reconnect.delays_seconds" (to_int py v)) _ h in
    let (u, e1, h1) = >>=-eq-ok (ensure (leb 1 n) _) _ h0 in
    let (rest, e2, h2) = >>=-eq-ok (parse_delays py xs) _ h1 in
    let e : n ∷ rest ≡ out = ok-injective h2 in
    rw (← e) (ensure-true _ _ e1, parse_delays-All py xs e2)

reconnect_fields-IsReconnect :
    (py : Python) (d : Fields) {r : ReconnectConfig} → reconnect_fields py d ≡ ok r → IsReconnect r
unfolding reconnect_fields
reconnect_fields-IsReconnect py d h =
    let (n, e0, h0) =
      >>=-eq-ok
        (int_or "reconnect.max_attempts" (to_int py (get_default d "max_attempts" (number 5)))) _
        h in
    let (u, e1, h1) = >>=-eq-ok (ensure (leb 1 n) _) _ h0 in
    let (listed, e2, h2) = >>=-eq-ok (as_items _ _) _ h1 in
    let (delays, e3, h3) = >>=-eq-ok (parse_delays py listed) _ h2 in
    let made = ok-injective h3 in
    let first : 1 ≤ n = leb→le 1 n (ensure-true (leb 1 n) _ e1) in
    rw (← made) (record { max_attempts = first; delays = parse_delays-All py listed e3 })

pub parse_reconnect-IsReconnect :
    (py : Python) (v : Value) {r : ReconnectConfig} → parse_reconnect py v ≡ ok r → IsReconnect r
unfolding parse_reconnect
parse_reconnect-IsReconnect py v {r} h = elim (Option-cases (fields_of v)) [
  | inl other ↦
      let made : default_reconnect ≡ r = ok-injective (rw (parse_reconnect, other) at h) in
      rw (← made)
        (record { max_attempts = omega arith; delays = (refl, (refl, (refl, (refl, (refl, tt))))) })
  | inr (d, there) ↦ reconnect_fields-IsReconnect py d (rw (parse_reconnect, there) at h)
]

mode_of-is_hostile_mode :
    (lower : String → String) (s : Option String) {mode : String}
    → mode_of lower s ≡ ok mode
    → is_hostile_mode mode ≡ true
unfolding mode_of
mode_of-is_hostile_mode lower none h = cc
mode_of-is_hostile_mode lower (some raw) h =
    let (u, e0, h0) = >>=-eq-ok (ensure (is_hostile_mode (lower (strip raw))) _) _ h in
    let made = ok-injective h0 in rw (← made) (ensure-true _ _ e0)

pub parse_network_mode-is_hostile_mode :
    (lower : String → String) (v : Value) {mode : String}
    → parse_network_mode lower v ≡ ok mode
    → is_hostile_mode mode ≡ true
unfolding parse_network_mode
parse_network_mode-is_hostile_mode lower v {mode} h = elim (Option-cases (fields_of v)) [
  | inl other ↦
      let made : "auto" ≡ mode = ok-injective (rw (parse_network_mode, other) at h) in
      rw (← made) refl
  | inr (d, there) ↦ mode_of-is_hostile_mode lower _ (rw (parse_network_mode, there) at h)
]
