-- ===== src/Server/Owcfg/Sections.antt =====
-- The client reads the sections that every issued profile has (server/outwarp_server/owcfg.py and
-- client/outwarp/config.py).
use out_warp.Prelude.{
  ◌≡◌, refl, ap, ◌∙◌, String, Bool, true, false, not, [], ◌∷◌, ok, arith, str_eq, Bool-cases, inl,
  inr, if_cases, leb, filter,
}
use out_warp.Server.ClientNames.{strip}
use out_warp.Server.EnrollServer.{is_wg_key}
use out_warp.Client.Config.Json.{
  Value, number, text, array, object, nil, cons, Fields, end, field, get, require, get_default,
  ensure, as_object, Python, to_text, to_int,
}
use out_warp.Client.Config.Checks.{
  Addresses, matches_tunnel_name, is_valid_host, is_plain_address, is_endpoint, has_slash,
  split_list, all_pass, parse_ip_list, parse_endpoint_list,
}
use out_warp.Client.Config.Sections.{
  TlsConfig, WireguardConfig, as_items, passes_if_given, parse_server, parse_ports, parse_tls,
  parse_tunnel, parse_wireguard, int_within, private_key_of,
}
use out_warp.Client.Config.Parse.{parse_routing}
use out_warp.Client.Config.Dict.{given}
use out_warp.Client.Config.Dict.Roundtrip.{in_range-number}
use out_warp.Client.Config.Valid.Sections.{IsTls, IsWireguard, parse_ip_list-All}
use out_warp.Server.Config.{ServerConfig, behind_reverse_proxy}
use out_warp.Client.Config.Dict.Given.{get-given_ne, get_default-get, text-given}
use out_warp.Server.Owcfg.{Issue, wireguard_section, tls_section, server_section, tunnel_section}
use out_warp.Server.Owcfg.Issued.{
  issued_tls, issued_wireguard, issued_profile, KnowsTexts, IsIssuable,
}

module _ (py : Python) (ip : Addresses) (lower : String → String) (cfg : ServerConfig) (i : Issue)
    (known : KnowsTexts ip lower) (valid : IsIssuable ip cfg i) where
  pub parse_server-server_section :
      parse_server py ip (object (server_section cfg)) ≡ ok (issued_profile cfg i).required.server
  unfolding parse_server server_section as_object require get get_default to_text ensure as_items
      parse_ports
  parse_server-server_section =
      rw
        (
          valid.endpoint,
          valid.prefix,
          in_range-number 1 65535 "server.port" cfg.port valid.port.0 valid.port.1,
        )
        refl

  pub parse_tunnel-tunnel_section :
      parse_tunnel py ip (object (tunnel_section cfg)) ≡ ok (issued_profile cfg i).required.tunnel
  unfolding parse_tunnel tunnel_section as_object require get to_text ensure is_valid_host
  parse_tunnel-tunnel_section =
      let in_port = λ (label : String).
        in_range-number 1 65535 label cfg.wg_listen_port valid.wg_listen_port.0
          valid.wg_listen_port.1 in
      rw (in_port "tunnel.local_port", in_port "tunnel.remote_port", known.loopback) refl

  pub parse_tls-read :
      (d : Fields) (t : TlsConfig)
      → to_text py (get_default d "verify" (text "pin")) ≡ t.verify
      → to_text py (get_default d "cert_fingerprint_sha256" (text "")) ≡ t.cert_fingerprint_sha256
      → to_text py (get_default d "spki_sha256" (text "")) ≡ t.spki_sha256
      → lower (strip t.verify) ≡ t.verify
      → IsTls t
      → parse_tls py ip lower (object d) ≡ ok t
  unfolding parse_tls as_object ensure
  parse_tls-read d t verify fp spki same valid =
      rw
        (
          verify, fp, spki, same, valid.verify, valid.spki_sha256, valid.pinned,
          valid.cert_fingerprint_sha256,
        )
        refl

  pub parse_tls-tls_section : parse_tls py ip lower (object (tls_section cfg)) ≡ ok (issued_tls cfg)
  unfolding tls_section get_default get to_text strip
  parse_tls-tls_section = elim (Bool-cases (behind_reverse_proxy cfg)) [
    | inl proxied ↦ rw (proxied) (
        parse_tls-read (field "verify" (text "ca") end)
          (record { cert_fingerprint_sha256 = ""; verify = "ca"; spki_sha256 = "" }) refl refl refl
          known.ca
          (record {
            verify = refl;
            spki_sha256 = refl;
            cert_fingerprint_sha256 = refl;
            pinned = refl;
          }))
    | inr pinned ↦
        let key =
          given (not (str_eq cfg.spki_sha256 "")) "spki_sha256" (text cfg.spki_sha256) end in
        let d = field "cert_fingerprint_sha256" (text cfg.cert_fingerprint_sha256) key in
        let skip = λ (k : String) (e : str_eq "spki_sha256" k ≡ false).
          get-given_ne (not (str_eq cfg.spki_sha256 "")) "spki_sha256" k (text cfg.spki_sha256) end
            e in
        rw (pinned) (
          parse_tls-read d
            (record {
              cert_fingerprint_sha256 = cfg.cert_fingerprint_sha256;
              verify = "pin";
              spki_sha256 = cfg.spki_sha256;
            })
            (ap (to_text py) (get_default-get "verify" (text "pin") d end (skip "verify" refl)))
            refl (text-given py "spki_sha256" cfg.spki_sha256 end refl refl) known.pin
            (record {
              verify = refl;
              spki_sha256 = valid.spki;
              cert_fingerprint_sha256 = valid.fingerprint;
              pinned = valid.pinned;
            }))
  ]

  pub parse_wireguard-read :
      (enrolling : Bool) (d : Fields) (w : WireguardConfig) (key : Value)
      → get_default d "mtu" (number 1380) ≡ number w.mtu
      → private_key_of py ip enrolling d ≡ ok key
      → to_text py key ≡ w.client_private_key
      → require d "server_public_key" ≡ ok (text w.server_public_key)
      → to_text py (get_default d "preshared_key" (text "")) ≡ w.preshared_key
      → require d "tunnel_name" ≡ ok (text w.tunnel_name)
      → require d "client_address" ≡ ok (text w.client_address)
      → parse_ip_list py ip "wireguard.dns"
          (get_default d "dns" (array (cons (text "1.1.1.1") nil)))
        ≡ ok w.dns
      → IsWireguard ip w
      → parse_wireguard py ip enrolling (object d) ≡ ok w
  unfolding parse_wireguard as_object ensure int_within to_int to_text
  parse_wireguard-read enrolling d w key mtu private same public psk name address dns h =
      let low : leb 576 w.mtu ≡ true = ground (arith, h.mtu) in
      let high : leb w.mtu 1500 ≡ true = ground (arith, h.mtu) in
      rw
        (
          mtu, low, high, private, same, h.client_private_key, public, h.server_public_key, psk,
          h.preshared_key, name, h.tunnel_name, address, h.client_address, dns,
        )
        refl

  pub private_key-wireguard_section :
      (key : Value) × (private_key_of py ip
          (not (str_eq i.enrollment_token ""))
          (wireguard_section cfg i)
        ≡ ok key)
      × (to_text py key ≡ (issued_wireguard cfg i).client_private_key)
  unfolding private_key_of wireguard_section require get get_default to_text given
  private_key-wireguard_section = elim (Bool-cases (str_eq i.enrollment_token "")) [
    | inl embedded ↦ rw (embedded) (text i.client_private_key, refl, refl)
    | inr enrolling ↦ elim (Bool-cases (str_eq i.preshared_key "")) [
      | inl blank ↦ rw (enrolling, blank) (text "", refl, refl)
      | inr present ↦ rw (enrolling, present) (text "", refl, refl)
    ]
  ]

  pub dns-wireguard_section :
      parse_ip_list py ip "wireguard.dns" (array (cons (text "1.1.1.1") nil)) ≡ ok ("1.1.1.1" ∷ [])
  unfolding parse_ip_list split_list all_pass ensure is_plain_address has_slash strip to_text filter
  dns-wireguard_section = rw (known.resolver) refl

  pub parse_wireguard-wireguard_section :
      parse_wireguard py ip (not (str_eq i.enrollment_token "")) (object (wireguard_section cfg i))
      ≡ ok (issued_wireguard cfg i)
  unfolding wireguard_section require get get_default to_text matches_tunnel_name
  parse_wireguard-wireguard_section =
      let (key, private, same) = private_key-wireguard_section in
      let embedded = str_eq i.enrollment_token "" in
      let psk =
        given (not (str_eq i.preshared_key "")) "preshared_key" (text i.preshared_key) end in
      let tail = given embedded "client_private_key" (text i.client_private_key) psk in
      let skip =
        get-given_ne embedded "client_private_key" "preshared_key" (text i.client_private_key) psk
          refl in
      parse_wireguard-read (not embedded) (wireguard_section cfg i) (issued_wireguard cfg i) key
        refl private same refl
        (ap (to_text py) (get_default-get "preshared_key" (text "") tail psk skip)
          ∙ text-given py "preshared_key" i.preshared_key end refl refl)
        refl refl dns-wireguard_section
        (record {
          tunnel_name = refl;
          client_address = valid.client_address;
          client_private_key =
              if_cases (λ k. passes_if_given is_wg_key k ≡ true) embedded i.client_private_key ""
                (λ e. valid.client_private_key) (λ e. refl);
          server_public_key = valid.wg_public_key;
          preshared_key = valid.preshared_key;
          dns =
              parse_ip_list-All py ip "wireguard.dns" (array (cons (text "1.1.1.1") nil))
                dns-wireguard_section;
          mtu = omega arith;
        })

  pub parse_routing-bypass :
      parse_routing py ip lower
        (object (field "bypass_ips" (array (cons (text cfg.endpoint) nil)) end))
      ≡ ok (cfg.endpoint ∷ [])
  unfolding parse_routing as_object require get parse_endpoint_list split_list all_pass ensure
      to_text filter is_endpoint is_valid_host
  parse_routing-bypass =
      rw (valid.endpoint_stripped, valid.endpoint_given, valid.endpoint_plain, valid.endpoint) refl
