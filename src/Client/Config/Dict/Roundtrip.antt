-- ===== src/Client/Config/Dict/Roundtrip.antt =====
-- Sections of a profile that are read back as they were written (client/outwarp/config.py).
use out_warp.Prelude.{ℕ, ◌≤◌, ◌≡◌, refl, String, true, List, [], ◌∷◌, ok, arith, leb}
use out_warp.Client.Config.Json.{
  number, get, require, get_default, ensure, as_object, as_nat, in_range, Python, to_text, to_int,
}
use out_warp.Client.Config.Checks.{Addresses}
use out_warp.Client.Config.Sections.{TunnelConfig, ReconnectConfig, parse_tunnel, as_items}
use out_warp.Client.Config.Optional.{parse_delays, reconnect_fields, parse_reconnect}
use out_warp.Client.Config.Dict.{numbers, tunnel_to_dict, reconnect_to_dict}
use out_warp.Client.Config.Valid.{All}
use out_warp.Client.Config.Valid.Sections.{IsTunnel, IsReconnect}

pub in_range-number :
    (low high : ℕ) (label : String) (n : ℕ)
    → low ≤ n
    → n ≤ high
    → in_range low high label (number n) ≡ ok n
unfolding in_range as_nat
in_range-number low high label n h k = ground (arith, h, k)

-- A tunnel section that an accepted profile may have is read back as it was written.
pub parse_tunnel-tunnel_to_dict :
    (py : Python) (ip : Addresses) (t : TunnelConfig)
    → IsTunnel ip t
    → parse_tunnel py ip (tunnel_to_dict t) ≡ ok t
unfolding parse_tunnel tunnel_to_dict require get as_object ensure to_text
parse_tunnel-tunnel_to_dict py ip t valid =
    rw
      (
        in_range-number 1 65535 "tunnel.local_port" t.local_port valid.local_port.0
            valid.local_port.1,
        in_range-number 1 65535 "tunnel.remote_port" t.remote_port valid.remote_port.0
            valid.remote_port.1,
        valid.remote_host,
      )
      refl

parse_delays-numbers :
    (py : Python) (ns : List ℕ) → All (λ n. leb 1 n) ns → parse_delays py (numbers ns) ≡ ok ns
unfolding parse_delays numbers ensure to_int
parse_delays-numbers py [] h = refl
parse_delays-numbers py (n ∷ ns) h = rw (h.0, parse_delays-numbers py ns h.1) refl

-- So is the reconnect section.
pub parse_reconnect-reconnect_to_dict :
    (py : Python) (r : ReconnectConfig)
    → IsReconnect r
    → parse_reconnect py (reconnect_to_dict r) ≡ ok r
unfolding parse_reconnect reconnect_fields reconnect_to_dict get_default get ensure as_items to_int
parse_reconnect-reconnect_to_dict py r valid =
    let enough : leb 1 r.max_attempts ≡ true = ground (arith, valid.max_attempts) in
    rw (enough, parse_delays-numbers py r.delays_seconds valid.delays) refl
