-- ===== src/Server/Owcfg/Laws.antt =====
-- The client reads what the server issued: `build_owcfg` of server/outwarp_server/owcfg.py against
-- `_parse` of client/outwarp/config.py.
use out_warp.Prelude.{◌≤◌, ◌≡◌, refl, ap, ◌∙◌, String, not, ok, arith, str_eq}
use out_warp.Server.ClientNames.{strip}
use out_warp.Client.Config.Json.{
  number, text, object, Fields, end, get, require, get_default, ensure, as_object, Python, to_text,
  to_int, to_bool,
}
use out_warp.Client.Config.Checks.{Addresses}
use out_warp.Client.Config.Sections.{as_items}
use out_warp.Client.Config.Optional.{
  parse_enrollment, parse_reconnect, parse_delays, reconnect_fields, parse_network_mode, mode_of,
  fields_of,
}
use out_warp.Client.Config.Strategies.{parse_fallback, fallback_fields, parse_strategies}
use out_warp.Client.Config.Parse.{ProfileConfig, expiry, parse_required, parse}
use out_warp.Client.Config.Dict.Roundtrip.{in_range-number}
use out_warp.Server.Config.{ServerConfig}
use out_warp.Client.Config.Dict.Given.{get_default-get}
use out_warp.Server.Owcfg.{Issue, profile_version, reconnect_section, last_sections, build_owcfg}
use out_warp.Server.Owcfg.Issued.{issued_profile, KnowsTexts, IsIssuable}
use out_warp.Server.Owcfg.Sections.{
  parse_server-server_section, parse_tls-tls_section, parse_tunnel-tunnel_section,
  parse_wireguard-wireguard_section, parse_routing-bypass,
}
use out_warp.Server.Owcfg.Last.{
  get-last_sections, parse_enrollment-last_sections, expiry-last_sections,
}

parse_required-build_owcfg :
    (py : Python) (ip : Addresses) (lower : String → String) (cfg : ServerConfig) (i : Issue)
    → KnowsTexts ip lower
    → IsIssuable ip cfg i
    → parse_required py ip lower (not (str_eq i.enrollment_token "")) (build_owcfg cfg i)
      ≡ ok (issued_profile cfg i).required
unfolding parse_required build_owcfg require get
parse_required-build_owcfg py ip lower cfg i known valid =
    rw
      (
        parse_server-server_section py ip lower cfg i known valid,
        parse_tls-tls_section py ip lower cfg i known valid,
        parse_tunnel-tunnel_section py ip lower cfg i known valid,
        parse_wireguard-wireguard_section py ip lower cfg i known valid,
        parse_routing-bypass py ip lower cfg i known valid,
      )
      refl

profile_version-bounds :
    (cfg : ServerConfig) (i : Issue) → (1 ≤ profile_version cfg i) × (profile_version cfg i ≤ 4)
unfolding profile_version
profile_version-bounds cfg i = ground arith

parse-read :
    (py : Python) (ip : Addresses) (lower : String → String) (d : Fields) (p : ProfileConfig)
    → get_default d "schema_version" (number 1) ≡ number p.schema_version
    → (1 ≤ p.schema_version) × (p.schema_version ≤ 4)
    → parse_enrollment py (get_default d "enrollment" (object end)) ≡ ok p.enrollment
    → parse_required py ip lower (not (str_eq p.enrollment.token "")) d ≡ ok p.required
    → parse_reconnect py (get_default d "reconnect" (object end)) ≡ ok p.reconnect
    → parse_network_mode lower (get_default d "network" (object end)) ≡ ok p.hostile_mode
    → parse_fallback py ip lower (get_default d "fallback" (object end)) ≡ ok p.fallback
    → to_text py (get_default d "name" (text "")) ≡ p.name
    → expiry py ip lower (fields_of (get_default d "meta" (object end))) ≡ p.expires_at
    → parse py ip lower (object d) ≡ ok p
unfolding parse as_object
parse-read py ip lower d p version range enrollment required reconnect mode fallback name expires =
    rw
      (
        version,
        in_range-number 1 4 "schema_version" p.schema_version range.0 range.1,
        enrollment,
        required,
        reconnect,
        mode,
        fallback,
        name,
        expires,
      )
      refl

-- A profile that the server issues for a configuration and a call that are in order is accepted by
-- the client, which reads from it what the server put there: the pin, or the trust in authorities
-- behind a reverse proxy; the private key only where there is no enrolment token, and the token with
-- the listener's port where there is one; and the defaults for what the server leaves out.
pub parse-build_owcfg :
    (py : Python) (ip : Addresses) (lower : String → String) (cfg : ServerConfig) (i : Issue)
    → KnowsTexts ip lower
    → IsIssuable ip cfg i
    → parse py ip lower (object (build_owcfg cfg i)) ≡ ok (issued_profile cfg i)
unfolding build_owcfg get_default get to_text reconnect_section parse_reconnect reconnect_fields
    parse_delays to_int as_items ensure parse_network_mode mode_of strip parse_fallback
    fallback_fields parse_strategies to_bool
parse-build_owcfg py ip lower cfg i known valid =
    let mode : parse_network_mode lower (object end) ≡ ok "auto" = rw (known.auto) refl in
    let network =
      get_default-get "network" (object end) (last_sections cfg i) end
        (get-last_sections cfg i "network" refl refl refl) in
    let fallback =
      get_default-get "fallback" (object end) (last_sections cfg i) end
        (get-last_sections cfg i "fallback" refl refl refl) in
    parse-read py ip lower (build_owcfg cfg i) (issued_profile cfg i) refl
      (profile_version-bounds cfg i) (parse_enrollment-last_sections py ip cfg i valid)
      (parse_required-build_owcfg py ip lower cfg i known valid) refl
      (ap (parse_network_mode lower) network ∙ mode)
      (ap (parse_fallback py ip lower) fallback ∙ refl) refl
      (expiry-last_sections py ip lower cfg i)
