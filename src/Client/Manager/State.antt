-- ===== src/Client/Manager/State.antt =====
-- The state of `TunnelManager` of client/outwarp/tunnel.py and its operations.
use Prim.Native.Char.{code}
use Prim.Native.String.{◌++◌}
use out_warp.Prelude.{
  ℕ, zero, suc, ◌-◌, String, Bool, true, false, ◌||◌, Option, List, [], ◌∷◌, ltb, ◌==◌, str_eq,
  if◌then◌else◌, length,
}
use out_warp.Prelude.Text.{show}
use out_warp.Client.Bypass.{Names}
use out_warp.Client.DnsCache.{DnsCache}
use out_warp.Client.KillSwitch.{
  TunnelState, disconnected, connecting, connected, reconnecting, failed, resolved_allowlist,
  reconcile,
}
use out_warp.Client.Sticky.{StickyStore}
use out_warp.Client.Tunnel.State.{ClientConfig, Tunnel, Failure}

-- `title` stands for `str.title`; `system_proxy` is what the search for a proxy finds; `engages` and
-- `releases` say whether the calls to the kill switch succeed; `gateway` and `nameserver` are "" where
-- there is none.
pub record Setting : Type 0 where
  pub title : String → String
  pub config : ClientConfig
  pub expires_at : String
  pub today : String
  pub max_attempts : ℕ
  pub delays_seconds : List ℕ
  pub gateway : String
  pub nameserver : String
  pub names : Names
  pub system_proxy : String
  pub engages : Bool
  pub releases : Bool

pub data RunError : Type 0 where
  expired : String → RunError
  connect_failed : Failure → RunError
  closed_unexpectedly : RunError

-- A change of state, with the rules of the kill switch after it.
pub record Change : Type 0 where
  pub to : TunnelState
  pub rules : Option (List String)

-- `changes` are those so far, the latest first; the phase is that of the tunnel.
pub record Manager : Type 0 where
  pub tunnel : Tunnel
  pub sticky : StickyStore
  pub state : TunnelState
  pub last_error : Option RunError
  pub attempt : ℕ
  pub auto_reconnect : Bool
  pub kill_switch_enabled : Bool
  pub rules : Option (List String)
  pub changes : List Change

abbrev get_or : List ℕ → ℕ → ℕ → ℕ
get_or [] i default = default
get_or (x ∷ xs) zero default = x
get_or (x ∷ xs) (suc i) default = get_or xs i default

-- The index stays within the list.
unfoldable pub pick_delay : List ℕ → ℕ → ℕ
pick_delay [] attempt_just_failed = 5
pick_delay (d ∷ ds) attempt_just_failed =
    let last = length (d ∷ ds) - 1 in
    get_or (d ∷ ds) (if ltb last (attempt_just_failed - 1) then last else attempt_just_failed - 1) 5

abbrev pub rank : TunnelState → ℕ
rank disconnected = 0
rank connecting = 1
rank connected = 2
rank reconnecting = 3
rank failed = 4

abbrev with_dns : Tunnel → Option (List String) × DnsCache → Tunnel
with_dns t (allowlist, dns) = record t { dns = dns }

abbrev asks_resolver : TunnelState → Bool
asks_resolver s = rank s == 3 || rank s == 4

-- `_reconcile_kill_switch`, after the state is set
unfoldable pub reconcile_kill_switch : Setting → Manager → Manager
unfolding reconcile
reconcile_kill_switch c m =
    let found = resolved_allowlist c.title c.config c.names c.system_proxy m.tunnel.dns in
    if m.kill_switch_enabled
    then record m {
      tunnel = if asks_resolver m.state then with_dns m.tunnel found else m.tunnel;
      rules = reconcile c.engages c.releases found.0 m.state m.rules;
    }
    else m

abbrev pub log_change : Manager → Manager
log_change m = record m { changes = record { to = m.state; rules = m.rules } ∷ m.changes }

unfoldable pub set_state : Setting → TunnelState → Manager → Manager
unfolding reconcile_kill_switch
set_state c s m =
    if rank m.state == rank s
    then m
    else log_change (reconcile_kill_switch c (record m { state = s }))

abbrev pub set_phase : String → Manager → Manager
set_phase phase m = record m { tunnel = record m.tunnel { phase = phase } }

abbrev pub set_error : Option RunError → Manager → Manager
set_error e m = record m { last_error = e }

abbrev pub set_attempt : ℕ → Manager → Manager
set_attempt n m = record m { attempt = n }

unfoldable pub network_signature : String → String → String
network_signature gateway resolver =
    if str_eq gateway ""
    then resolver
    else if str_eq resolver ""
    then gateway
    else gateway ++ "|" ++ resolver

-- `_network_signature`
unfoldable pub signature_of : Setting → String
unfolding network_signature
signature_of c =
    let net = network_signature c.gateway c.nameserver in
    if str_eq net ""
    then ""
    else c.config.profile.endpoint ++ ":" ++ show c.config.profile.port ++ "@" ++ net

-- comparison of texts by code points
text_lt : String → String → Bool
text_lt s String.[] = false
text_lt String.[] (String.◌∷◌ d t) = true
text_lt (String.◌∷◌ c s) (String.◌∷◌ d t) =
    let later = text_lt s t in
    if ltb (code c) (code d) then true else if code c == code d then later else false

unfoldable pub is_expired : String → String → Bool
unfolding text_lt
is_expired expires_at today = if str_eq expires_at "" then false else text_lt expires_at today
