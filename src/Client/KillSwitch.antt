-- ===== src/Client/KillSwitch.antt =====
-- client/outwarp/killswitch.py: what a change of the tunnel's state does to the kill switch. The rules
-- of the system are the list of what they let through, `none` where the switch is released.
use Prim.Native.String.{◌++◌}
use out_warp.Prelude.{String, Bool, Option, none, some, List, [], ◌∷◌, map, ◌==◌, if◌then◌else◌}
use out_warp.Prelude.Text.{show}
use out_warp.Client.Bypass.{Names, resolve_bypass_networks}
use out_warp.Client.DnsCache.{DnsCache}
use out_warp.Client.Fallback.{build_ladder}
use out_warp.Client.Routing.{escape_set}
use out_warp.Client.Tunnel.State.{ClientConfig}
use out_warp.Server.IpPool.Address.{Network, show_address}

pub data TunnelState : Type 0 where
  disconnected : TunnelState
  connecting : TunnelState
  connected : TunnelState
  reconnecting : TunnelState
  failed : TunnelState

abbrev show_network : Network → String
show_network n =
    if n.prefixlen == 32
    then show_address n.base
    else show_address n.base ++ "/" ++ show n.prefixlen

abbrev shown : Option (List Network) × DnsCache → Option (List String) × DnsCache
shown (none, c) = (none, c)
shown (some nets, c) = (some (map show_network nets), c)

-- `none` where a name in the cache is no address, so that the resolution raises.
unfoldable pub resolved_allowlist :
    (String → String) → ClientConfig → Names → String → DnsCache → Option (List String) × DnsCache
resolved_allowlist title cfg n system_proxy c = shown (
    resolve_bypass_networks n
      (escape_set cfg.bypass_ips cfg.profile.endpoint (build_ladder title cfg.profile system_proxy))
      c)

-- what engaging with the resolved allowlist leaves; an empty one is refused
abbrev engage : Bool → Option (List String) → Option (List String) → Option (List String)
engage works none rules = rules
engage works (some []) rules = rules
engage works (some (a ∷ allowlist)) rules = if works then some (a ∷ allowlist) else rules

-- `engages` and `releases` say whether the platform's call succeeds.
unfoldable pub reconcile :
    (engages releases : Bool)
    → Option (List String)
    → TunnelState
    → Option (List String)
    → Option (List String)
reconcile engages releases allowlist reconnecting rules = engage engages allowlist rules
reconcile engages releases allowlist failed rules = engage engages allowlist rules
reconcile engages releases allowlist connected rules = if releases then none else rules
reconcile engages releases allowlist disconnected rules = if releases then none else rules
reconcile engages releases allowlist connecting rules = rules
