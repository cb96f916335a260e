-- ===== src/Client/Config/Strategies.antt =====
-- The fallback ladder of a profile (`_parse_fallback` of client/outwarp/config.py).
use mathlib.Core.List.{◌++◌ as append}
use out_warp.Prelude.{
  String, Bool, true, false, not, ◌||◌, none, some, List, [], ◌∷◌, Result, ok, err, ◌>>=◌, str_eq,
  if◌then◌else◌, any,
}
use out_warp.Server.ClientNames.{strip}
use out_warp.Client.Fallback.{StrategyConfig}
use out_warp.Client.Config.Json.{
  Value, boolean, number, text, array, Items, nil, cons, Fields, ConfigError, invalid, get_default,
  ensure, as_object, in_range, Python, to_text, to_bool,
}
use out_warp.Client.Config.Checks.{matches_path_prefix, has_control_chars, Addresses, is_valid_host}
use out_warp.Client.Config.Sections.{as_items, passes_if_given}
use out_warp.Client.Config.Optional.{fields_of, text_of}

pub record FallbackConfig : Type 0 where
  pub enabled : Bool
  pub strategies : List StrategyConfig

-- `s or default`
abbrev pub or_text : String → String → String
or_text s default = if str_eq s "" then default else s

-- a list of texts
unfoldable pub only_texts : String → Items → Result ConfigError (List String)
only_texts label nil = ok []
only_texts label (cons v xs) = do
  s ← elim (text_of v) [ none ↦ err (invalid label) | some s ↦ ok s ]
  rest ← only_texts label xs
  ok (s ∷ rest)

module _ (py : Python) (ip : Addresses) (lower : String → String) where
  -- one entry of `strategies`
  unfoldable pub parse_strategy : List StrategyConfig → Value → Result ConfigError StrategyConfig
  parse_strategy seen v = do
    d ← as_object "fallback.strategies" v
    let sid = strip (to_text py (get_default d "id" (text "")))
    _ ← ensure (not (str_eq sid "")) "id"
    _ ← ensure (not (any (λ (s : StrategyConfig). str_eq s.id sid) seen)) "id"
    port ← in_range 0 65535 "port" (get_default d "port" (number 0))
    let scheme = or_text (lower (strip (to_text py (get_default d "scheme" (text "wss"))))) "wss"
    _ ← ensure (str_eq scheme "wss" || str_eq scheme "ws") "scheme"
    let pin = or_text (lower (strip (to_text py (get_default d "pin_mode" (text "pin"))))) "pin"
    _ ← ensure (str_eq pin "pin" || str_eq pin "tolerate" || str_eq pin "none") "pin_mode"
    listed ← as_items "bypass_ips" (get_default d "bypass_ips" (array nil))
    bypass ← only_texts "bypass_ips" listed
    let endpoint = to_text py (get_default d "endpoint" (text ""))
    _ ← ensure (passes_if_given (is_valid_host ip) endpoint) "endpoint"
    let prefix = to_text py (get_default d "path_prefix" (text ""))
    _ ← ensure (passes_if_given matches_path_prefix prefix) "path_prefix"
    let sni = to_text py (get_default d "sni_override" (text ""))
    let host = to_text py (get_default d "host_header" (text ""))
    let agent = to_text py (get_default d "user_agent" (text ""))
    let proxy = to_text py (get_default d "proxy" (text ""))
    _ ← ensure (not (has_control_chars sni)) "sni_override"
    _ ← ensure (not (has_control_chars host)) "host_header"
    _ ← ensure (not (has_control_chars agent)) "user_agent"
    _ ← ensure (not (has_control_chars proxy)) "proxy"
    ok (record {
      id = sid;
      endpoint = endpoint;
      port = port;
      scheme = scheme;
      sni_override = sni;
      host_header = host;
      user_agent = agent;
      path_prefix = prefix;
      proxy = proxy;
      pin_mode = pin;
      force_hostile = to_bool py (get_default d "force_hostile" (boolean false));
      bypass_ips = bypass;
    })

  -- the loop over `strategies`, `seen` those so far
  unfoldable pub parse_strategies :
      List StrategyConfig → Items → Result ConfigError (List StrategyConfig)
  unfolding parse_strategy
  parse_strategies seen nil = ok seen
  parse_strategies seen (cons v xs) = do
    s ← parse_strategy seen v
    parse_strategies (append seen (s ∷ [])) xs

  unfoldable pub fallback_fields : Fields → Result ConfigError FallbackConfig
  unfolding parse_strategies
  fallback_fields d = do
    listed ← as_items "fallback.strategies" (get_default d "strategies" (array nil))
    strategies ← parse_strategies [] listed
    ok (record {
      enabled = to_bool py (get_default d "enabled" (boolean true));
      strategies = strategies;
    })

  -- `_parse_fallback`
  unfoldable pub parse_fallback : Value → Result ConfigError FallbackConfig
  unfolding fallback_fields
  parse_fallback v = elim (fields_of v) [
    | none ↦ ok (record { enabled = true; strategies = [] })
    | some d ↦ fallback_fields d
  ]
