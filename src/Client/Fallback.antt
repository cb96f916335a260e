-- ===== src/Client/Fallback.antt =====
-- client/outwarp/fallback.py: the ladder of connection strategies and the wstunnel command of each.
-- `Profile` holds what `build_ladder` reads of a ClientConfig. `title` stands for `str.title`.
pub mod Redact
pub mod Ladder
mod Examples
use Prim.Native.Char.{Char, code}
use Prim.Native.String.{◌++◌}
use mathlib.Core.List.{◌++◌ as append}
use out_warp.Prelude.{
  ℕ, String, Bool, true, false, not, ◌&&◌, ◌||◌, Option, none, some, List, [], ◌∷◌, ◌==◌, str_eq,
  if◌then◌else◌, filter, any, map,
}
use out_warp.Prelude.Text.{show}
use out_warp.Prelude.Dict
use out_warp.Prelude.Dict.{Dict}

pub record ConnectionStrategy : Type 0 where
  pub id : String
  pub label : String
  pub endpoint : String
  pub port : ℕ
  pub path_prefix : String
  pub scheme : String
  pub force_hostile : Bool
  pub sni_override : String
  pub host_header : String
  pub user_agent : String
  pub proxy : String
  pub pin_mode : String
  pub bypass_ips : List String
  pub connect_host : String

pub record StrategyConfig : Type 0 where
  pub id : String
  pub endpoint : String
  pub port : ℕ
  pub scheme : String
  pub sni_override : String
  pub host_header : String
  pub user_agent : String
  pub path_prefix : String
  pub proxy : String
  pub pin_mode : String
  pub force_hostile : Bool
  pub bypass_ips : List String

pub record Profile : Type 0 where
  pub endpoint : String
  pub port : ℕ
  pub http_upgrade_path_prefix : String
  pub fallback_ports : List ℕ
  pub hostile_mode : String
  pub tls_verify : String
  pub strategies : List StrategyConfig

abbrev pub default_user_agent : String
default_user_agent =
    "Mozilla/5.0 (Windows NT 10.0; Win64; x64) AppleWebKit/537.36 (KHTML, like Gecko) Chrome/125.0.0.0 Safari/537.36"

-- `a or b` on texts
abbrev pub or_text : String → String → String
or_text a b = if str_eq a "" then b else a

abbrev pub default_port : String → ℕ
default_port scheme = if str_eq scheme "wss" then 443 else 80

unfoldable pub url : ConnectionStrategy → String
url s =
    let host = or_text s.connect_host s.endpoint in
    if s.port == default_port s.scheme
    then s.scheme ++ "://" ++ host
    else s.scheme ++ "://" ++ host ++ ":" ++ show s.port

abbrev pub dials_by_address : ConnectionStrategy → Bool
dials_by_address s = not (str_eq s.connect_host "") && not (str_eq s.connect_host s.endpoint)

abbrev pub path_flag : String
path_flag = "--http-upgrade-path-prefix"

-- the command up to the path prefix
abbrev pub command_front : String → String → List String
command_front wstunnel_bin forward =
    wstunnel_bin ∷ "client" ∷ "--connection-min-idle" ∷ "3" ∷ "--websocket-ping-frequency" ∷ "25s"
    ∷ "-L" ∷ forward ∷ []

abbrev sni_of : ConnectionStrategy → String
sni_of s =
    if dials_by_address s && str_eq s.sni_override "" && str_eq s.scheme "wss"
    then s.endpoint
    else s.sni_override

abbrev host_of : ConnectionStrategy → String
host_of s =
    if dials_by_address s && str_eq s.host_header ""
    then (if s.port == default_port s.scheme then s.endpoint else s.endpoint ++ ":" ++ show s.port)
    else s.host_header

abbrev option_unless_empty : String → String → String → List String
option_unless_empty flag label value = if str_eq value "" then [] else flag ∷ (label ++ value) ∷ []

-- the command after the path prefix
unfoldable pub command_tail : ConnectionStrategy → List String
command_tail s = append (if str_eq s.pin_mode "ca" then "--tls-verify-certificate" ∷ [] else []) (
    append
      (if s.force_hostile
        then "--dns-resolver" ∷ "dns://1.1.1.1" ∷ "--dns-resolver-prefer-ipv4" ∷ []
        else [])
      (append (option_unless_empty "--tls-sni-override" "" (sni_of s)) (
        append (option_unless_empty "--http-headers" "Host: " (host_of s)) (
          append (option_unless_empty "--http-headers" "User-Agent: " s.user_agent)
            (append (option_unless_empty "--http-proxy" "" s.proxy) (url s ∷ []))))))

unfoldable pub strategy_to_command : ConnectionStrategy → String → String → List String
strategy_to_command s wstunnel_bin forward =
    append (command_front wstunnel_bin forward)
      ((path_flag ++ "=" ++ s.path_prefix) ∷ command_tail s)

abbrev default_pin : Profile → String
default_pin p = if str_eq p.tls_verify "ca" then "ca" else "pin"

-- a rung that dials the profile's own endpoint
direct :
    Profile
    → (id label : String) → (port : ℕ) → (force_hostile : Bool) → (proxy : String)
    → ConnectionStrategy
direct p id label port force_hostile proxy = record {
  id = id;
  label = label;
  endpoint = p.endpoint;
  port = port;
  path_prefix = p.http_upgrade_path_prefix;
  scheme = "wss";
  force_hostile = force_hostile;
  sni_override = "";
  host_header = "";
  user_agent = default_user_agent;
  proxy = proxy;
  pin_mode = default_pin p;
  bypass_ips = [];
  connect_host = "";
}

module _ (title : String → String) where
  unfoldable pub resolve_provisioned : StrategyConfig → Profile → ConnectionStrategy
  resolve_provisioned sc p = record {
    id = sc.id;
    label = title sc.id;
    endpoint = or_text sc.endpoint p.endpoint;
    port =
        if sc.port == 0
        then (if str_eq sc.scheme "wss" then p.port else default_port sc.scheme)
        else sc.port;
    path_prefix = or_text sc.path_prefix p.http_upgrade_path_prefix;
    scheme = sc.scheme;
    force_hostile = sc.force_hostile;
    sni_override = sc.sni_override;
    host_header = sc.host_header;
    user_agent = or_text sc.user_agent default_user_agent;
    proxy = sc.proxy;
    pin_mode = sc.pin_mode;
    bypass_ips = sc.bypass_ips;
    connect_host = "";
  }

  -- `proxy` is what `_detect_system_proxy` finds.
  unfoldable pub all_rungs : Profile → String → List ConnectionStrategy
  unfolding direct
  all_rungs p proxy =
      append
        (if str_eq p.hostile_mode "on" then [] else direct p "direct" "Direct" p.port false "" ∷ [])
        (direct p "direct-hostile" "Direct (public DNS)" p.port true ""
          ∷ append
              (if str_eq proxy ""
                then []
                else direct p "direct-proxy" "Via HTTP proxy" p.port true proxy ∷ [])
              (append
                (map (λ alt. direct p ("port-" ++ show alt) ("Alt port " ++ show alt) alt true "")
                  p.fallback_ports)
                (map (λ sc. resolve_provisioned sc p) p.strategies)))

abbrev bool_eq : Bool → Bool → Bool
bool_eq true b = b
bool_eq false b = not b

-- equality of `dedup_key`
unfoldable pub same_key : ConnectionStrategy → ConnectionStrategy → Bool
same_key a b =
    str_eq a.endpoint b.endpoint
    && a.port == b.port
    && str_eq a.scheme b.scheme
    && bool_eq a.force_hostile b.force_hostile
    && str_eq a.sni_override b.sni_override
    && str_eq a.user_agent b.user_agent
    && str_eq a.proxy b.proxy
    && str_eq a.pin_mode b.pin_mode
    && str_eq a.path_prefix b.path_prefix

-- `seen` holds the rungs kept so far.
unfoldable pub dedup : List ConnectionStrategy → List ConnectionStrategy → List ConnectionStrategy
dedup seen [] = []
dedup seen (r ∷ rs) =
    let dropped = dedup seen rs in
    let kept = dedup (r ∷ seen) rs in if any (same_key r) seen then dropped else r ∷ kept

unfoldable pub build_ladder : (String → String) → Profile → String → List ConnectionStrategy
build_ladder title p proxy = dedup [] (all_rungs title p proxy)

unfoldable pub reorder_for_sticky : List ConnectionStrategy → String → List ConnectionStrategy
reorder_for_sticky ladder sticky_id =
    if str_eq sticky_id ""
    then ladder
    else append (filter (λ r. str_eq r.id sticky_id) ladder)
        (filter (λ r. not (str_eq r.id sticky_id)) ladder)
