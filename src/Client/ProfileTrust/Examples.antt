-- ===== src/Client/ProfileTrust/Examples.antt =====
-- The import of a signed profile whose server's key is remembered, and what a refused one leaves.
use out_warp.Prelude.Text.{split}
use out_warp.Prelude.{List, [], any, filter, none, ok, refl, some, true, ℕ, ◌∷◌, ◌≡◌}
use out_warp.Client.Config.Json.{
  Fields, Value, as_nat, as_object, end, ensure, field, get, get_default, in_range, null, object,
  require, text, to_bool, to_int, to_text,
}
use out_warp.Client.Config.Checks.{
  all_chars, chomp, matches_path_prefix, matches_tunnel_name, matches_fingerprint,
  has_control_chars, is_hostname, is_valid_host, has_slash, is_plain_address, is_endpoint,
  split_list, all_pass, parse_ip_list, parse_endpoint_list,
}
use out_warp.Client.Config.Sections.{
  parse_server, parse_ports, parse_tls, parse_tunnel, parse_wireguard, int_within, private_key_of,
  as_items,
}
use out_warp.Client.Config.Optional.{
  starts_with, parse_enrollment, parse_delays, reconnect_fields, parse_reconnect, mode_of,
  parse_network_mode,
}
use out_warp.Client.Config.Strategies.{
  only_texts, parse_strategy, parse_strategies, fallback_fields, parse_fallback,
}
use out_warp.Client.Config.Parse.{expiry, parse_routing, parse_required, parse}
use out_warp.Server.ClientNames.{strip}
use out_warp.Server.EnrollServer.{is_wg_key}
use out_warp.Client.Config.Optional.{fields_of}
use out_warp.Client.Config.Examples.{python, ip, raw, profile}
use out_warp.Client.Minisign.{
  verify, split_lines, strip_returns, body_of, first_line, last_base64_line, comment_of,
}
use out_warp.Client.Minisign.Ed25519.{ed25519_verify, take, drop}
use out_warp.Client.Minisign.Examples.{library, signature_text}
use out_warp.Prelude.Hex.{bytes_eq}
use out_warp.Server.ClientNames.{strip_start}
use out_warp.Client.Manager.{is_expired}
use out_warp.Client.ProfileTrust.{
  Disk, written, verified, endpoint_of, import_owcfg, set, without, parsed,
}
use out_warp.Client.ProfileTrust.Laws.{IsVouched, Import, after, import_owcfg-IsVouched}

abbrev disk : Disk
disk = record { can_make = true; write = written }

abbrev bare : Fields
bare = elim (fields_of raw) [ none ↦ end | some d ↦ d ]

abbrev signing : Value
signing = object (field "public_key" (text "KEY") (field "signature" (text signature_text) end))

abbrev signed : Fields
signed = field "signing" signing bare

abbrev canonical : Fields → List ℕ
canonical d = []

abbrev known : Fields
known = field "vpn.example.org" (text "KEY") end

abbrev before : List Import
before = record { disk = disk; today = "2026-01-01"; raw = null } ∷ []

names : endpoint_of python library canonical signed ≡ some "vpn.example.org"
unfolding endpoint_of get get_default to_text
names = refl

imports :
    (import_owcfg python library canonical ip
      (λ s. s)
      disk
      "2026-01-01"
      (object signed)
      (after python library canonical ip (λ s. s) before known)).0
    ≡ ok (profile, verified)
unfolding parse get require get_default ensure as_object as_nat in_range to_text to_int to_bool
    all_chars chomp matches_path_prefix matches_tunnel_name matches_fingerprint has_control_chars
    is_hostname is_valid_host has_slash is_plain_address is_endpoint split_list all_pass
    parse_ip_list parse_endpoint_list parse_server parse_ports parse_tls parse_tunnel
    parse_wireguard int_within private_key_of as_items starts_with parse_enrollment parse_delays
    reconnect_fields parse_reconnect mode_of parse_network_mode only_texts parse_strategy
    parse_strategies fallback_fields parse_fallback expiry parse_routing parse_required strip
    is_wg_key any split filter import_owcfg after set without parsed is_expired verify split_lines
    strip_returns body_of first_line last_base64_line comment_of ed25519_verify take drop bytes_eq
    strip_start
imports = refl

remembered : get "vpn.example.org" known ≡ some (text "KEY")
unfolding get
remembered = refl

import_owcfg-IsVouched_example : IsVouched library canonical signed "KEY" verified
import_owcfg-IsVouched_example =
    import_owcfg-IsVouched python library canonical ip (λ s. s) "vpn.example.org" "KEY" known before
      disk "2026-01-01" signed profile verified refl remembered (refl, tt) names imports

-- A profile that does not parse is refused after the key that signed it has been remembered.
abbrev refused : Fields
refused =
    field "signing" signing
      (field "server" (object (field "endpoint" (text "vpn.example.org") end)) end)

refused_is_remembered :
    (import_owcfg python library canonical ip (λ s. s) disk "2026-01-01" (object refused) end).1
    ≡ known
unfolding import_owcfg set without verify split_lines strip_returns body_of first_line
    last_base64_line comment_of ed25519_verify take drop bytes_eq strip strip_start starts_with
    filter get get_default to_text to_bool
refused_is_remembered = refl
